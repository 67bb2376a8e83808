-- ===== src/Zones/Counts.antt =====
-- How often a card's id stands in each zone (server/src/engine/zone_manager.cpp), and how these
-- numbers follow the changes of a list and of a map of lists.
use uud.Base.Maps.{Map}
use uud.Base.Maps
use uud.Base.{
  ◌==◌, if◌then◌else◌, Bool-cases, some_inj, push_back, back, pop_back, back_cases, find_erase,
  count_if, find_erase_cases, ℕ, ◌+◌, ◌≡◌, sym, ap, ◌∙◌, inl, inr, Bool, true, Option, none, some,
  List, [], ◌∷◌, ◌++◌, arith,
}
use uud.Card.{Card}
use uud.Permanent.{Permanent}
use uud.Zones.{ExiledCard, ZoneManager, cards_of, has_id}

abbrev pub count_in : ℕ → List Card → ℕ
count_in id = count_if (has_id id)

abbrev pub count_players : ℕ → Map (List Card) → ℕ
count_players id [] = 0
count_players id ((_, cards) ∷ m) = count_in id cards + count_players id m

abbrev pub count_some : Option Permanent → ℕ
count_some none = 0
count_some (some _) = 1

abbrev pub count_permanents : ℕ → Map Permanent → ℕ
count_permanents id m = count_some (Maps.lookup id m)

abbrev pub count_exiled : ℕ → List ExiledCard → ℕ
count_exiled id = count_if (λ e. e.card.instance_id == id)

abbrev pub one_if : Bool → ℕ
one_if b = if b then 1 else 0

-- All the places of the game in which the id stands.
unfoldable pub total : ℕ → ZoneManager → ℕ
total id z =
    count_players id z.libraries
    + count_players id z.hands
    + count_permanents id z.battlefield
    + count_players id z.graveyards
    + count_exiled id z.exile

module _ {ℓ} {A : Type ℓ} (p : A → Bool) where
  pub count_if-cons : (x : A) (xs : List A) → count_if p (x ∷ xs) ≡ one_if (p x) + count_if p xs
  count_if-cons x xs = ground arith

  pub count_if-append : (xs ys : List A) → count_if p (xs ++ ys) ≡ count_if p xs + count_if p ys
  count_if-append [] ys = omega arith
  count_if-append (x ∷ xs) ys = ground (arith, count_if-append xs ys)

  pub count_if-push_back :
      (xs : List A) (x : A) → count_if p (push_back xs x) ≡ count_if p xs + one_if (p x)
  count_if-push_back [] x = ground arith
  count_if-push_back (y ∷ xs) x = ground (arith, count_if-push_back xs x)

  pub count_if-pop_back :
      (xs : List A) (x : A)
      → back xs ≡ some x
      → count_if p (pop_back xs) + one_if (p x) ≡ count_if p xs
  count_if-pop_back xs x e = elim (back_cases xs) [
    | inl (_, b) ↦ absurd (cc)
    | inr (y, whole, b) ↦
        let same : x ≡ y = some_inj (sym e ∙ b) in
        rw same (sym (ap (count_if p) whole ∙ count_if-push_back (pop_back xs) y))
  ]

  pub count_if-find_erase :
      (q : A → Bool) (xs : List A) (x : A) (rest : List A)
      → find_erase q xs ≡ some (x, rest)
      → (count_if p rest + one_if (p x) ≡ count_if p xs) × (q x ≡ true)
  count_if-find_erase q xs x rest e = elim (find_erase_cases q xs) [
    | inl (_, n) ↦ absurd (cc)
    | inr (a, left, found, eq) ↦
        let part : count_if p left + one_if (p a) ≡ count_if p xs =
          rw (found.left, found.whole)
            (omega (
              arith,
              count_if-append found.before found.after,
              count_if-append found.before (a ∷ found.after),
              count_if-cons a found.after,
            )) in
        let same : (x, rest) ≡ (a, left) = some_inj (sym e ∙ eq) in
        let this : x ≡ a = ap (λ f. f.0) same in
        let those : rest ≡ left = ap (λ f. f.1) same in (rw (this, those) part, rw this found.hit)
  ]

pub count_players-insert :
    (id player_id : ℕ) (cards : List Card) (m : Map (List Card))
    → count_players id (Maps.insert player_id cards m) + count_in id (cards_of player_id m)
      ≡ count_players id m + count_in id cards
unfolding Maps.insert Maps.lookup
count_players-insert id player_id cards [] = omega arith
count_players-insert id player_id cards ((j, w) ∷ m) =
    let rest = count_players-insert id player_id cards m in
    elim (Bool-cases (j == player_id)) [
      | inl e ↦ rw e (omega arith)
      | inr e ↦ rw e (omega (arith, rest))
    ]

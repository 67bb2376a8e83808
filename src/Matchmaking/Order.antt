-- ===== src/Matchmaking/Order.antt =====
-- Which pair find_match (server/src/matchmaking/queue.cpp) returns.
use uud.Base.{
  ltb, Bool-cases, length, find_erase, any_of, Found, find_erase_cases, ℕ, ◌≡◌, refl, sym, ap, ◌∙◌,
  ◌⊎◌, inl, inr, Bool, true, false, ◌||◌, none, some, List, [], ◌∷◌, ◌++◌, append_assoc, arith,
}
use uud.Matchmaking.{QueueEntry, accepts, Pairing, keep_first, search, find_match}

-- Whether some entry accepts a later one.
unfoldable pub has_match : ℕ → List QueueEntry → Bool
has_match now [] = false
has_match now (a ∷ entries) = any_of (accepts now a) entries || has_match now entries

-- No entry of the first list accepts an entry that comes later in it or stands in the second list.
abbrev pub NoneAccepts : ℕ → List QueueEntry → List QueueEntry → Type 0
NoneAccepts now [] later = Unit
NoneAccepts now (a ∷ before) later =
    (any_of (accepts now a) (before ++ later) ≡ false) × NoneAccepts now before later

-- The pair and the places it stood in: nobody before the first player accepts a later entry, and
-- nobody between the two is accepted by the first.
pub record IsFirst (now : ℕ) (entries : List QueueEntry) (p : Pairing) : Type 0 where
  pub before : List QueueEntry
  pub between : List QueueEntry
  pub after : List QueueEntry
  pub whole : entries ≡ before ++ p.0 ∷ between ++ p.1 ∷ after
  pub rest : p.2 ≡ before ++ between ++ after
  pub accepted : accepts now p.0 p.1 ≡ true
  pub earlier : NoneAccepts now before (p.0 ∷ between ++ p.1 ∷ after)
  pub passed_over : any_of (accepts now p.0) between ≡ false

-- What the search says of a queue.
abbrev pub Outcome : ℕ → List QueueEntry → Type 0
Outcome now entries =
    ((has_match now entries ≡ false) × (search now entries ≡ none))
    ⊎ ((p : Pairing) × (has_match now entries ≡ true)
        × (search now entries ≡ some p)
        × IsFirst now entries p)

any_of-found :
    (p : QueueEntry → Bool) (xs ys : List QueueEntry) (x : QueueEntry)
    → p x ≡ true
    → any_of p (xs ++ x ∷ ys) ≡ true
any_of-found p [] ys x h = rw h
any_of-found p (z ∷ xs) ys x h = ground (arith, any_of-found p xs ys x h)

search_found :
    (now : ℕ) (a b : QueueEntry) (entries rest : List QueueEntry)
    → find_erase (accepts now a) entries ≡ some (b, rest)
    → search now (a ∷ entries) ≡ some (a, b, rest)
unfolding search
search_found now a b entries rest e = rw e

search_later :
    (now : ℕ) (a : QueueEntry) (entries : List QueueEntry)
    → find_erase (accepts now a) entries ≡ none
    → search now (a ∷ entries) ≡ keep_first a (search now entries)
unfolding search
search_later now a entries e = rw e

any_of-Found :
    (now : ℕ) (a b : QueueEntry) (entries rest : List QueueEntry)
    → Found (accepts now a) entries b rest
    → any_of (accepts now a) entries ≡ true
any_of-Found now a b entries rest found =
    ap (any_of (accepts now a)) found.whole
    ∙ any_of-found (accepts now a) found.before found.after b found.hit

search_cases : (now : ℕ) (entries : List QueueEntry) → Outcome now entries
unfolding has_match search
search_cases now [] = inl (refl, refl)
search_cases now (a ∷ entries) =
    let later : Outcome now entries = search_cases now entries in
    elim (find_erase_cases (accepts now a) entries) [
      | inr (b, rest, found, e) ↦ inr (
        (a, b, rest),
        rw (any_of-Found now a b entries rest found),
        search_found now a b entries rest e,
        record {
          before = [];
          between = found.before;
          after = found.after;
          whole = ap (◌∷◌ a) found.whole;
          rest = found.left;
          accepted = found.hit;
          earlier = tt;
          passed_over = found.missed;
        },
      )
      | inl (apart, e) ↦ elim later [
        | inl (no_pair, e') ↦ inl (rw (apart, no_pair), search_later now a entries e ∙ rw e')
        | inr (p, pair, e', first) ↦ inr (
          (p.0, p.1, a ∷ p.2),
          rw (apart, pair),
          search_later now a entries e ∙ rw e',
          record {
            before = a ∷ first.before;
            between = first.between;
            after = first.after;
            whole = ap (◌∷◌ a) first.whole;
            rest = ap (◌∷◌ a) first.rest;
            accepted = first.accepted;
            earlier = (
              ap (any_of (accepts now a)) (
                    sym (append_assoc first.before (p.0 ∷ first.between) (p.1 ∷ first.after))
                    ∙ sym first.whole)
                  ∙ apart,
              first.earlier,
            );
            passed_over = first.passed_over;
          },
        )
      ]
    ]

too_few :
    (now : ℕ) (entries : List QueueEntry)
    → ltb (length entries) 2 ≡ true
    → has_match now entries ≡ false
unfolding has_match
too_few now [] h = refl
too_few now (a ∷ []) h = refl
too_few now (a ∷ b ∷ entries) h = ground arith

-- At every time find_match returns nothing exactly when no entry accepts a later one; otherwise it
-- returns the first entry that accepts a later one (no entry before it accepts any later entry) with
-- the first later one that it accepts, and the other entries in their order.
pub find_match_outcome :
    (now : ℕ) (entries : List QueueEntry)
    → ((has_match now entries ≡ false) × (find_match now entries ≡ none))
      ⊎ ((p : Pairing) × (has_match now entries ≡ true)
          × (find_match now entries ≡ some p)
          × IsFirst now entries p)
unfolding find_match
find_match_outcome now entries = elim (Bool-cases (ltb (length entries) 2)) [
  | inl few ↦ inl (too_few now entries few, rw few)
  | inr more ↦ rw more (search_cases now entries)
]

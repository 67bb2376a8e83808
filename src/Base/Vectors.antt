-- ===== src/Base/Vectors.antt =====
-- The parts of std::vector and std::deque that the program uses, over lists in the vector's order:
-- the ends, find and erase, erase_if, any_of and all_of; and `All`, by recursion on the list.
use Prim.Native.Nat.{ℕ, suc}
use mathlib.Core.Path.{◌≡◌, refl, ap, ◌∙◌}
use mathlib.Core.Logic.{◌⊎◌, inl, inr}
use mathlib.Core.Bool.{Bool, true, false, not, ◌&&◌, ◌||◌}
use mathlib.Core.List.{List, [], ◌∷◌, ◌++◌, reverse, reverse-cons}
use uud.Base.Lists.{length, length-append}
use mathlib.Core.Option.{Option, none, some}
use native.Mathlib.Omega.{arith}
use uud.Base.Tests.{if◌then◌else◌, Bool-cases}

abbrev pub All {ℓ} : {A : Type ℓ} → (A → Type 0) → List A → Type 0
All holds [] = Unit
All holds (first ∷ others) = holds first × All holds others

module _ {ℓ} {A : Type ℓ} where
  -- The elements of the list, with multiplicity one for each place.
  pub data In (a : A) : List A → Type ℓ where
    here : {xs : List A} → In a (a ∷ xs)
    there : {x : A} {xs : List A} → In a xs → In a (x ∷ xs)

module _ {ℓ} {A : Type ℓ} where
  abbrev pub push_back : List A → A → List A
  push_back xs x = xs ++ x ∷ []

  abbrev pub back : List A → Option A
  back [] = none
  back (x ∷ []) = some x
  back (x ∷ y ∷ ys) = back (y ∷ ys)

  abbrev pub pop_back : List A → List A
  pop_back [] = []
  pop_back (x ∷ []) = []
  pop_back (x ∷ y ∷ ys) = x ∷ pop_back (y ∷ ys)

  pub back-push_back : (xs : List A) (x : A) → back (push_back xs x) ≡ some x
  back-push_back [] x = refl
  back-push_back (y ∷ []) x = refl
  back-push_back (y ∷ z ∷ zs) x = back-push_back (z ∷ zs) x

  pub pop_back-push_back : (xs : List A) (x : A) → pop_back (push_back xs x) ≡ xs
  pop_back-push_back [] x = refl
  pop_back-push_back (y ∷ []) x = refl
  pop_back-push_back (y ∷ z ∷ zs) x = ap (◌∷◌ y) (pop_back-push_back (z ∷ zs) x)

  pub back-append : (xs : List A) (y : A) (ys : List A) → back (xs ++ y ∷ ys) ≡ back (y ∷ ys)
  back-append [] y ys = refl
  back-append (x ∷ []) y ys = refl
  back-append (x ∷ z ∷ zs) y ys = back-append (z ∷ zs) y ys

  -- A vector is empty, or ends in its back.
  pub back_cases :
      (xs : List A)
      → ((xs ≡ []) × (back xs ≡ none))
        ⊎ ((x : A) × (xs ≡ push_back (pop_back xs) x) × (back xs ≡ some x))
  back_cases [] = inl (refl, refl)
  back_cases (x ∷ []) = inr (x, refl, refl)
  back_cases (x ∷ y ∷ ys) = elim (back_cases (y ∷ ys)) [
    | inl (e, b) ↦ absurd (cc)
    | inr (z, e, b) ↦ inr (z, ap (◌∷◌ x) e, b)
  ]

  -- The loop that finds the first match from the front, erases it and returns it.
  unfoldable pub find_erase : (A → Bool) → List A → Option (A × List A)
  find_erase p [] = none
  find_erase p (x ∷ xs) =
      let rest = find_erase p xs in
      if p x then some (x, xs) else elim rest [ none ↦ none | some (y, ys) ↦ some (y, x ∷ ys) ]

  abbrev pub any_of : (A → Bool) → List A → Bool
  any_of p [] = false
  any_of p (x ∷ xs) = p x || any_of p xs

  abbrev pub all_of : (A → Bool) → List A → Bool
  all_of p [] = true
  all_of p (x ∷ xs) = p x && all_of p xs

  abbrev pub keep_if : (A → Bool) → List A → List A
  keep_if p [] = []
  keep_if p (x ∷ xs) = let rest = keep_if p xs in if p x then x ∷ rest else rest

  abbrev pub erase_if : (A → Bool) → List A → List A
  erase_if p = keep_if (λ x. not (p x))

  abbrev pub count_if : (A → Bool) → List A → ℕ
  count_if p [] = 0
  count_if p (x ∷ xs) = let rest = count_if p xs in if p x then suc rest else rest

module _ {ℓ} {A : Type ℓ} where
  pub find_erase-any_of :
      (p : A → Bool) (xs : List A) → any_of p xs ≡ false → find_erase p xs ≡ none
  unfolding find_erase
  find_erase-any_of p [] h = refl
  find_erase-any_of p (x ∷ xs) h = ground (arith, find_erase-any_of p xs)

  -- What is found matches, nothing before it does, and the rest keeps its order.
  pub record Found (p : A → Bool) (xs : List A) (a : A) (rest : List A) : Type ℓ where
    pub before : List A
    pub after : List A
    pub whole : xs ≡ before ++ a ∷ after
    pub left : rest ≡ before ++ after
    pub hit : p a ≡ true
    pub missed : any_of p before ≡ false

  -- Either nothing matches, or the first match is split off.
  abbrev pub FindResult : (A → Bool) → List A → Type ℓ
  FindResult p xs =
      ((any_of p xs ≡ false) × (find_erase p xs ≡ none))
      ⊎ ((a : A) × (rest : List A) × Found p xs a rest × (find_erase p xs ≡ some (a, rest)))

  find_here : (p : A → Bool) (x : A) (xs : List A) → p x ≡ true → FindResult p (x ∷ xs)
  unfolding find_erase
  find_here p x xs e = inr (
    x,
    xs,
    record { before = []; after = xs; whole = refl; left = refl; hit = e; missed = refl },
    ground arith,
  )

  find_later :
      (p : A → Bool) (x : A) (xs : List A) → p x ≡ false → FindResult p xs → FindResult p (x ∷ xs)
  unfolding find_erase
  find_later p x xs e (inl (q, n)) = inl (ground arith, ground arith)
  find_later p x xs e (inr (a, rest, found, eq)) = inr (
    a,
    x ∷ rest,
    record {
      before = x ∷ found.before;
      after = found.after;
      whole = ap (◌∷◌ x) found.whole;
      left = ap (◌∷◌ x) found.left;
      hit = found.hit;
      missed = ground (arith, found.missed);
    },
    ground arith,
  )

  pub find_erase_cases : (p : A → Bool) (xs : List A) → FindResult p xs
  unfolding find_erase
  find_erase_cases p [] = inl (refl, refl)
  find_erase_cases p (x ∷ xs) =
      let rest : FindResult p xs = find_erase_cases p xs in
      elim (Bool-cases (p x)) [ inl e ↦ find_here p x xs e | inr e ↦ find_later p x xs e rest ]

module _ {ℓ} {A : Type ℓ} where
  pub length-reverse : (cards : List A) → length (reverse cards) ≡ length cards
  length-reverse [] = refl
  length-reverse (c ∷ cards) =
      let shorter = length-reverse cards in
      ap length (reverse-cons c cards)
      ∙ length-append (reverse cards) (c ∷ [])
      ∙ omega (arith, shorter)

  pub find_erase-push_back :
      (p : A → Bool) (xs : List A) (x : A)
      → any_of p xs ≡ false
      → p x ≡ true
      → find_erase p (push_back xs x) ≡ some (x, xs)
  unfolding find_erase
  find_erase-push_back p [] x h e = ground arith
  find_erase-push_back p (y ∷ xs) x h e = ground (arith, find_erase-push_back p xs x)

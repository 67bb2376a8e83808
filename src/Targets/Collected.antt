-- ===== src/Targets/Collected.antt =====
-- The loops of apply_filter (server/src/engine/target_filter.cpp), by what they collect.
use uud.Base.{
  if◌then◌else◌, In, here, there, ℕ, ◌≡◌, refl, subst, ◌↔◌, ◌⊎◌, inl, inr, Bool, true, false, List,
  [], ◌∷◌, ◌++◌,
}
use uud.Targets.{collect}
use uud.Targets.Targetable.{Among}

pub appended : {A : Type 0} (xs ys : List A) {a : A} → In a (xs ++ ys) → In a xs ⊎ In a ys
appended [] ys p = inr p
appended (x ∷ xs) ys here = inl here
appended (x ∷ xs) ys (there p) = elim (appended xs ys p) [ inl q ↦ inl (there q) | inr q ↦ inr q ]

pub either_In : {A : Type 0} (xs ys : List A) {a : A} → In a xs ⊎ In a ys → In a (xs ++ ys)
either_In [] ys (inl p) = elim p [ ]
either_In [] ys (inr q) = q
either_In (x ∷ xs) ys (inl here) = here
either_In (x ∷ xs) ys (inl (there p)) = there (either_In xs ys (inl p))
either_In (x ∷ xs) ys (inr q) = there (either_In xs ys (inr q))

-- The loops, as membership in what they collect.
kept_In :
    (passed : Bool) {y id : ℕ} {ids : List ℕ}
    → In id (if passed then y ∷ ids else ids)
    → ((passed ≡ true) × (y ≡ id)) ⊎ In id ids
kept_In true here = inl (refl, refl)
kept_In true (there p) = inr p
kept_In false p = inr p

In-kept :
    (passed : Bool) (y : ℕ) {id : ℕ} {ids : List ℕ}
    → In id ids
    → In id (if passed then y ∷ ids else ids)
In-kept true y p = there p
In-kept false y p = p

module _ {A : Type 0} (test : A → Bool) (P : A → Type 0) (id_of : A → ℕ)
    (reflects : (x : A) → (test x ≡ true) ↔ P x) where
  In-collect : (xs : List A) (id : ℕ) → In id (collect test id_of xs) → Among P id_of xs id
  unfolding collect
  In-collect [] id p = elim p [ ]
  In-collect (x ∷ xs) id p = elim (kept_In (test x) p) [
    | inl (e, same) ↦ (x, here, same, (reflects x).0 e)
    | inr q ↦ let (y, place, same, holds) = In-collect xs id q in (y, there place, same, holds)
  ]

  collect-In : {x : A} {xs : List A} → In x xs → P x → In (id_of x) (collect test id_of xs)
  unfolding collect
  collect-In {x = x} here holds = rw ((reflects x).1 holds) here
  collect-In {xs = y ∷ ys} (there p) holds = In-kept (test y) (id_of y) (collect-In p holds)

  pub collect_iff : (xs : List A) (id : ℕ) → In id (collect test id_of xs) ↔ Among P id_of xs id
  collect_iff xs id = (
    In-collect xs id,
    λ (x, place, same, holds).
        subst (λ n. In n (collect test id_of xs)) same (collect-In place holds),
  )

pub In-append : {A : Type 0} (xs ys : List A) {a : A} → In a (xs ++ ys) ↔ (In a xs ⊎ In a ys)
In-append xs ys = (appended xs ys, either_In xs ys)

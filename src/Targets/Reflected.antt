-- ===== src/Targets/Reflected.antt =====
-- The tests of apply_filter (server/src/engine/target_filter.cpp), each with what it means.
use Prim.Native.String.{String}
use uud.Base.Int.{ℤ}
use uud.Base.Maps.{at}
use uud.Base.{
  ◌==◌, ==_iff, Bool-cases, &&_split, In, any_of, here, there, ℕ, ◌≡◌, refl, ap₂, subst, ◌↔◌, ◌⊎◌,
  inl, inr, Bool, true, false, not, ◌&&◌, ◌||◌, Option, none, some, List, [], ◌∷◌, arith,
}
use uud.Card.{CardType, same_type, Card}
use uud.Permanent.{Permanent}
use uud.Targets.{
  Controller, TargetFilter, lower, bytes, same_bytes, type_passes, subtype_passes, keyword_passes,
  value_passes, controller_passes, is_legal_permanent, is_legal_card, any, you, opponent,
}
use uud.Targets.Targetable.{
  HasType, HasSubtype, HasKeyword, HasValue, IsControlled, IsLegalPermanent, IsLegalCard,
}

-- The tests of the code, reflected one by one.
same_type_iff : (a b : CardType) → (same_type a b ≡ true) ↔ (a ≡ b)
same_type_iff a b = ground arith

or_right : (a b : Bool) → a ≡ false → (a || b) ≡ true → b ≡ true
or_right a b e h = ground arith

or_true : (a : Bool) → (a || true) ≡ true
or_true a = ground arith

pub type_iff : (t : Option CardType) (card : Card) → (type_passes t card ≡ true) ↔ HasType t card
type_iff none card = (λ h. tt, λ h. refl)
type_iff (some t) card = same_type_iff card.type t

pub controller_iff :
    (c : Controller) (choosing id : ℕ)
    → (controller_passes c choosing id ≡ true) ↔ IsControlled c choosing id
controller_iff any choosing id = (λ h. tt, λ h. refl)
controller_iff you choosing id = ==_iff id choosing
controller_iff opponent choosing id = ground arith

bytes_eq : (xs ys : List ℕ) → same_bytes xs ys ≡ true → xs ≡ ys
bytes_eq [] [] h = refl
bytes_eq [] (y ∷ ys) h = absurd (cc)
bytes_eq (x ∷ xs) [] h = absurd (cc)
bytes_eq (x ∷ xs) (y ∷ ys) h =
    let (first, others) = &&_split (x == y) (same_bytes xs ys) h in
    ap₂ (◌∷◌) ((==_iff x y).0 first) (bytes_eq xs ys others)

bytes_self : (xs : List ℕ) → same_bytes xs xs ≡ true
bytes_self [] = refl
bytes_self (x ∷ xs) = rw ((==_iff x x).1 refl) (bytes_self xs)

bytes_iff : (xs ys : List ℕ) → (same_bytes xs ys ≡ true) ↔ (xs ≡ ys)
bytes_iff xs ys = (bytes_eq xs ys, λ e. subst (λ l. same_bytes xs l ≡ true) e (bytes_self xs))

-- any_of, as a member of the list that passes.
any_of-In :
    {A : Type 0} (test : A → Bool) (xs : List A)
    → any_of test xs ≡ true
    → (x : A) × In x xs × (test x ≡ true)
any_of-In test [] h = absurd (cc)
any_of-In test (x ∷ xs) h = elim (Bool-cases (test x)) [
  | inl e ↦ (x, here, e)
  | inr e ↦ let (y, at, ok) = any_of-In test xs (or_right (test x) _ e h) in (y, there at, ok)
]

In-any_of :
    {A : Type 0} (test : A → Bool) {x : A} {xs : List A}
    → In x xs
    → test x ≡ true
    → any_of test xs ≡ true
In-any_of test here e = rw e refl
In-any_of test {xs = y ∷ ys} (there at) e = rw (In-any_of test at e) (or_true (test y))

subtype_iff : (s : Option String) (card : Card) → (subtype_passes s card ≡ true) ↔ HasSubtype s card
subtype_iff none card = (λ h. tt, λ h. refl)
subtype_iff (some s) card = (
  λ h. let (st, at, ok) = any_of-In _ card.subtypes h in (st, at, bytes_eq (lower st) (bytes s) ok),
  λ (st, at, e).
      In-any_of (λ st. same_bytes (lower st) (bytes s)) at ((bytes_iff (lower st) (bytes s)).1 e),
)

keyword_iff :
    (k : Option String) (perm : Permanent) → (keyword_passes k perm ≡ true) ↔ HasKeyword k perm
keyword_iff none perm = (λ h. tt, λ h. refl)
keyword_iff (some k) perm = (λ h. h, λ h. h)

value_iff : (n : Option ℤ) (card : Card) → (value_passes n card ≡ true) ↔ HasValue n card
value_iff none card = (λ h. tt, λ h. refl)
value_iff (some n) card = ground arith

pub and_iff :
    {A B : Type 0} (a b : Bool) → (a ≡ true) ↔ A → (b ≡ true) ↔ B → ((a && b) ≡ true) ↔ (A × B)
and_iff a b f g = (λ h. let (x, y) = &&_split a b h in (f.0 x, g.0 y), λ (x, y). rw (f.1 x) (g.1 y))

pub not_iff : (b : Bool) → (not b ≡ true) ↔ (b ≡ false)
not_iff b = ground arith

hexproof_iff : (b : Bool) (n m : ℕ) → (not (b && not (n == m)) ≡ true) ↔ ((b ≡ false) ⊎ (n ≡ m))
hexproof_iff b n m = ground arith

pub permanent_iff :
    (filter : TargetFilter) (choosing : ℕ) (perm : Permanent)
    → (is_legal_permanent filter choosing perm ≡ true) ↔ IsLegalPermanent filter choosing perm
unfolding is_legal_permanent
permanent_iff filter choosing perm = and_iff _ _ (not_iff _) (
    and_iff _ _ (hexproof_iff _ _ _) (
      and_iff _ _ (type_iff filter.card_type perm.card) (
        and_iff _ _ (controller_iff filter.controller choosing perm.controller_id) (
          and_iff _ _ (subtype_iff filter.subtype perm.card) (
            and_iff _ _ (keyword_iff filter.required_keyword perm)
              (value_iff filter.max_mana_value perm.card))))))

pub card_iff :
    (filter : TargetFilter) (card : Card)
    → (is_legal_card filter card ≡ true) ↔ IsLegalCard filter card
unfolding is_legal_card
card_iff filter card =
    and_iff _ _ (type_iff filter.card_type card)
      (and_iff _ _ (subtype_iff filter.subtype card) (value_iff filter.max_mana_value card))

-- ===== src/Mana/Afford/Exhaustive.antt =====
-- The search over all masks ends with what a successful mask leaves over, if any succeeds.
use uud.Base.Int.{ℤ, ◌-ℤ◌, ◌≤ℤ◌, ltb_ℤ, int_laws, parts_of_eq, pos, negsuc}
use uud.Base.{
  if◌then◌else◌, Option-cases, if_same, length, ℕ, zero, suc, ◌+◌, ◌≤◌, ◌<◌, ◌≡◌, refl, sym, ap,
  subst, ◌∙◌, ◌⊎◌, inl, inr, Bool, none, some, List, [], ◌∷◌, arith, ℕ_discrete,
}
use uud.Mana.Color.{ManaColor, HybridCost}
use uud.Mana.Pool.{ManaPool, total}
use uud.Mana.Pool.Access.{IsNonneg}
use uud.Mana.Afford.{try_mask, improve, mask_loop}
use uud.Mana.Afford.Choices.{picks, bits, length-bits, try_mask-bits}
use uud.Mana.Afford.Search.{Spent, try_bits_sound}

-- What every successful attempt leaves over, whichever its mask.
abbrev pub left_over : List HybridCost → ManaPool → ℤ
left_over hs r = total r -ℤ pos (length hs)

length-picks :
    (bs : List Bool) (hs : List HybridCost)
    → length bs ≡ length hs
    → length (picks bs hs) ≡ length hs
length-picks [] [] e = refl
length-picks [] (h ∷ hs) e = absurd (omega arith)
length-picks (b ∷ bs) [] e = absurd (omega arith)
length-picks (b ∷ bs) (h ∷ hs) e = ap suc (length-picks bs hs (omega arith))

pub try_mask-Spent :
    (mask : ℕ) (hs : List HybridCost) (r r' : ManaPool)
    → try_mask mask 0 hs r ≡ some r'
    → Spent (picks (bits mask (length hs)) hs) r r'
try_mask-Spent mask hs r r' h =
    try_bits_sound (bits mask (length hs)) hs r r' (length-bits mask (length hs))
      (sym (try_mask-bits mask hs r) ∙ h)

total-try_mask :
    (mask : ℕ) (hs : List HybridCost) (r r' : ManaPool)
    → try_mask mask 0 hs r ≡ some r'
    → total r' ≡ left_over hs r
total-try_mask mask hs r r' h =
    let bs = bits mask (length hs) in
    omega (
      int_laws,
      parts_of_eq ((try_mask-Spent mask hs r r' h).in_all),
      length-picks bs hs (length-bits mask (length hs)),
    )

total-IsNonneg : (p : ManaPool) → IsNonneg p → pos 0 ≤ℤ total p
unfolding total
total-IsNonneg p v = omega (
  int_laws,
  v ManaColor.white,
  v ManaColor.blue,
  v ManaColor.black,
  v ManaColor.red,
  v ManaColor.green,
  v ManaColor.colorless,
)

improve_same :
    (mask : ℕ) (hs : List HybridCost) (r : ManaPool)
    → improve (left_over hs r) (try_mask mask 0 hs r) ≡ left_over hs r
improve_same mask hs r = elim (Option-cases (try_mask mask 0 hs r)) [
  | inl e ↦ rw e
  | inr (r', e) ↦ rw (e, total-try_mask mask hs r r' e) (if_same _ (left_over hs r))
]

mask_loop_same :
    (n mask : ℕ) (hs : List HybridCost) (r : ManaPool)
    → mask_loop n mask hs r (left_over hs r) ≡ left_over hs r
unfolding mask_loop
mask_loop_same zero mask hs r = refl
mask_loop_same (suc n) mask hs r = rw (improve_same mask hs r) (mask_loop_same n (suc mask) hs r)

-- A mask that succeeds, among the `n` from `mask` on.
pub record Success (n mask : ℕ) (hs : List HybridCost) (r : ManaPool) : Type 0 where
  pub which : ℕ
  pub after : mask ≤ which
  pub before : which < mask + n
  pub rest : ManaPool
  pub works : try_mask which 0 hs r ≡ some rest

not_first :
    (n mask : ℕ) (hs : List HybridCost) (r : ManaPool)
    → try_mask mask 0 hs r ≡ none
    → Success (suc n) mask hs r
    → Success n (suc mask) hs r
not_first n mask hs r e s = elim (ℕ_discrete s.which mask) [
  | yes same ↦ absurd (cc (ap (λ k. try_mask k 0 hs r) same))
  | no other ↦ record {
    which = s.which;
    after = omega (arith, s.after);
    before = omega (arith, s.before);
    rest = s.rest;
    works = s.works;
  }
]

improve_first : (t : ℤ) → pos 0 ≤ℤ t → (if ltb_ℤ (negsuc 0) t then t else negsuc 0) ≡ t
improve_first t h = ground arith

first_success :
    (n mask : ℕ) (hs : List HybridCost) (r r' : ManaPool)
    → pos 0 ≤ℤ left_over hs r
    → try_mask mask 0 hs r ≡ some r'
    → mask_loop n (suc mask) hs r (improve (negsuc 0) (try_mask mask 0 hs r)) ≡ left_over hs r
first_success n mask hs r r' t e =
    ap (mask_loop n (suc mask) hs r) (
      ap (improve (negsuc 0)) e
      ∙ rw (total-try_mask mask hs r r' e) (improve_first (left_over hs r) t))
    ∙ mask_loop_same n (suc mask) hs r

pub mask_loop_found :
    (n mask : ℕ) (hs : List HybridCost) (r : ManaPool)
    → pos 0 ≤ℤ left_over hs r
    → Success n mask hs r
    → mask_loop n mask hs r (negsuc 0) ≡ left_over hs r
unfolding mask_loop
mask_loop_found zero mask hs r t s = absurd (omega (arith, s.after, s.before))
mask_loop_found (suc n) mask hs r t s = elim (Option-cases (try_mask mask 0 hs r)) [
  | inl e ↦ rw e (mask_loop_found n (suc mask) hs r t (not_first n mask hs r e s))
  | inr (r', e) ↦ first_success n mask hs r r' t e
]

later_mask :
    (n mask : ℕ) (hs : List HybridCost) (r : ManaPool)
    → Success n (suc mask) hs r
    → Success (suc n) mask hs r
later_mask n mask hs r s = record {
  which = s.which;
  after = omega (arith, s.after);
  before = omega (arith, s.before);
  rest = s.rest;
  works = s.works;
}

left_over-nonneg :
    (mask : ℕ) (hs : List HybridCost) (r r' : ManaPool)
    → IsNonneg r
    → try_mask mask 0 hs r ≡ some r'
    → pos 0 ≤ℤ left_over hs r
left_over-nonneg mask hs r r' v e =
    subst (λ t. pos 0 ≤ℤ t) (total-try_mask mask hs r r' e)
      (total-IsNonneg r' ((try_mask-Spent mask hs r r' e).nonneg v))

pub mask_loop_cases :
    (n mask : ℕ) (hs : List HybridCost) (r : ManaPool)
    → IsNonneg r
    → (mask_loop n mask hs r (negsuc 0) ≡ negsuc 0)
      ⊎ (Success n mask hs r × (mask_loop n mask hs r (negsuc 0) ≡ left_over hs r))
unfolding mask_loop
mask_loop_cases zero mask hs r v = inl refl
mask_loop_cases (suc n) mask hs r v = elim (Option-cases (try_mask mask 0 hs r)) [
  | inl e ↦ elim (mask_loop_cases n (suc mask) hs r v) [
    | inl q ↦ inl (rw e q)
    | inr (s, q) ↦ inr (later_mask n mask hs r s, rw e q)
  ]
  | inr (r', e) ↦
      let t = left_over-nonneg mask hs r r' v e in
      inr (
        record { which = mask; after = omega arith; before = omega arith; rest = r'; works = e },
        first_success n mask hs r r' t e,
      )
]

-- ===== src/Mana/Afford/Search.antt =====
-- One attempt of the search: it succeeds exactly if the colors that the mask picks are there.
use uud.Base.Int.{◌+ℤ◌, ◌-ℤ◌, ◌≤ℤ◌, ltb_ℤ, int_laws, parts_of_eq, ltb_ℤ-false, pos}
use uud.Base.{
  if◌then◌else◌, Bool-cases, some_inj, length, ◌≡◌, refl, subst, ◌∙◌, inl, inr, Bool, true, false,
  some, List, [], ◌∷◌, arith,
}
use uud.Mana.Color.{ManaColor, HybridCost, same_color}
use uud.Mana.Pool.{ManaPool, field, total}
use uud.Mana.Pool.Access.{field-set_field, same_color-eq, IsNonneg, set_field-IsNonneg}
use uud.Mana.Afford.{take_one, pick}
use uud.Mana.Afford.Choices.{count, picks, try_bits}

take_one-field :
    (c d : ManaColor) (r : ManaPool)
    → field d (take_one c r) +ℤ pos (if same_color c d then 1 else 0) ≡ field d r
unfolding take_one
take_one-field c d r =
    rw (field-set_field c d (field c r -ℤ pos 1) r) (elim (Bool-cases (same_color c d)) [
      | inl e ↦ rw (e, same_color-eq c d e) (omega int_laws)
      | inr e ↦ rw e (omega int_laws)
    ])

total-take_one : (c : ManaColor) (r : ManaPool) → total (take_one c r) +ℤ pos 1 ≡ total r
unfolding take_one total
total-take_one ManaColor.white r = omega int_laws
total-take_one _ r = omega int_laws

same_color_refl : (c : ManaColor) → same_color c c ≡ true
same_color_refl ManaColor.white = refl
same_color_refl _ = refl

not_below :
    (c : ManaColor) (r : ManaPool) → pos 0 ≤ℤ field c (take_one c r) → pos 0 ≤ℤ field c r -ℤ pos 1
unfolding take_one
not_below c r h =
    subst (λ n. pos 0 ≤ℤ n) (field-set_field c c (field c r -ℤ pos 1) r ∙ rw same_color_refl) h

-- What an attempt that succeeds leaves over: every color less what was picked of it, nothing below
-- zero, and one mana less in all for each hybrid.
pub record Spent (cs : List ManaColor) (r r' : ManaPool) : Type 0 where
  pub by_color : (c : ManaColor) → field c r' +ℤ pos (count c cs) ≡ field c r
  pub nonneg : IsNonneg r → IsNonneg r'
  pub in_all : total r' +ℤ pos (length cs) ≡ total r

count-cons :
    (c d : ManaColor) (cs : List ManaColor)
    → pos (count d (c ∷ cs)) ≡ pos (count d cs) +ℤ pos (if same_color c d then 1 else 0)
count-cons c d cs = elim (Bool-cases (same_color c d)) [
  | inl e ↦ rw e (omega int_laws)
  | inr e ↦ rw e (omega int_laws)
]

Spent-cons :
    (c : ManaColor) (cs : List ManaColor) (r r' : ManaPool)
    → pos 0 ≤ℤ field c (take_one c r)
    → Spent cs (take_one c r) r'
    → Spent (c ∷ cs) r r'
unfolding take_one
Spent-cons c cs r r' h s = record {
  by_color = λ d. omega (
    int_laws,
    parts_of_eq (s.by_color d),
    parts_of_eq (take_one-field c d r),
    parts_of_eq (count-cons c d cs),
  );
  nonneg = λ v. s.nonneg (set_field-IsNonneg c (field c r -ℤ pos 1) r (not_below c r h) v);
  in_all = omega (int_laws, parts_of_eq s.in_all, parts_of_eq (total-take_one c r));
}

Spent-nil : (r : ManaPool) → Spent [] r r
Spent-nil r = record { by_color = λ c. omega int_laws; nonneg = λ v. v; in_all = omega int_laws }

pub try_bits_sound :
    (bs : List Bool) (hs : List HybridCost) (r r' : ManaPool)
    → length bs ≡ length hs
    → try_bits bs hs r ≡ some r'
    → Spent (picks bs hs) r r'
unfolding try_bits
try_bits_sound [] hs r r' e h =
    let q : some r ≡ some r' = h in subst (Spent [] r) (some_inj q) (Spent-nil r)
try_bits_sound (b ∷ bs) [] r r' e h = absurd (omega arith)
try_bits_sound (b ∷ bs) (x ∷ hs) r r' e h =
    let c = pick b x in
    elim (Bool-cases (ltb_ℤ (field c (take_one c r)) (pos 0))) [
      | inl out ↦ absurd (ground arith)
      | inr fits ↦
          Spent-cons c (picks bs hs) r r' (ground arith)
            (try_bits_sound bs hs (take_one c r) r' (omega arith) (ground arith))
    ]

pick_fits :
    (c : ManaColor) (cs : List ManaColor) (r : ManaPool)
    → pos (count c (c ∷ cs)) ≤ℤ field c r
    → ltb_ℤ (field c (take_one c r)) (pos 0) ≡ false
pick_fits c cs r h =
    ltb_ℤ-false (field c (take_one c r)) (pos 0)
      (omega (int_laws, h, parts_of_eq (take_one-field c c r), parts_of_eq (count-cons c c cs)))

pub try_bits_complete :
    (bs : List Bool) (hs : List HybridCost) (r : ManaPool)
    → ((c : ManaColor) → pos (count c (picks bs hs)) ≤ℤ field c r)
    → (r' : ManaPool) × (try_bits bs hs r ≡ some r')
unfolding try_bits
try_bits_complete [] hs r h = (r, refl)
try_bits_complete (b ∷ bs) [] r h = (r, refl)
try_bits_complete (b ∷ bs) (x ∷ hs) r h =
    let c = pick b x in
    let (r', e) = try_bits_complete bs hs (take_one c r) (λ d. omega (
      int_laws,
      h d,
      parts_of_eq (take_one-field c d r),
      parts_of_eq (count-cons c d (picks bs hs)),
    )) in
    (r', rw (pick_fits c (picks bs hs) r (h c)) e)

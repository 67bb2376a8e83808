-- ===== src/Mana/Afford/Choices.antt =====
-- What it means that a pool can pay a cost: an independent description, by a choice of one color for
-- each hybrid symbol; and the reading of a mask as such a choice.
use native.Mathlib.Nat.{div-div-eq-div-mul, pow-suc, mul_comm}
use uud.Base.Int.{◌≤ℤ◌, ltb_ℤ, pos}
use uud.Base.{
  ◌==◌, if◌then◌else◌, length, count_if, ℕ, zero, suc, ◌+◌, ◌*◌, ◌/◌, ◌%◌, ◌^◌, ◌<◌, ◌≡◌, refl, sym,
  ap, ap₂, ◌∙◌, ◌⊎◌, inl, inr, Bool, true, false, Option, none, some, List, [], ◌∷◌, arith,
}
use uud.Mana.Color.{ManaColor, HybridCost, same_color}
use uud.Mana.Cost.{ManaCost}
use uud.Mana.Pool.{ManaPool, field, total}
use uud.Mana.Afford.{take_one, mask_bit, pick, try_mask}

-- One color for each hybrid symbol, its primary or its secondary.
abbrev pub Chosen : List HybridCost → List ManaColor → Type 0
Chosen [] [] = Unit
Chosen [] (c ∷ cs) = ⊥
Chosen (h ∷ hs) [] = ⊥
Chosen (h ∷ hs) (c ∷ cs) = ((c ≡ h.primary) ⊎ (c ≡ h.secondary)) × Chosen hs cs

abbrev pub count : ManaColor → List ManaColor → ℕ
count c cs = count_if (λ d. same_color d c) cs

-- What a choice needs of each color at least.
abbrev pub need : ManaCost → List ManaColor → ManaColor → ℕ
need cost cs ManaColor.white = cost.white + count ManaColor.white cs
need cost cs ManaColor.blue = cost.blue + count ManaColor.blue cs
need cost cs ManaColor.black = cost.black + count ManaColor.black cs
need cost cs ManaColor.red = cost.red + count ManaColor.red cs
need cost cs ManaColor.green = cost.green + count ManaColor.green cs
need cost cs ManaColor.colorless = count ManaColor.colorless cs

-- The number of mana to pay in all.
abbrev pub price : ManaCost → ℕ
price cost =
    cost.white
    + cost.blue
    + cost.black
    + cost.red
    + cost.green
    + cost.colorless
    + length cost.hybrid_costs

abbrev pub IsPayable : ManaCost → ManaPool → Type 0
IsPayable cost p =
    (cs : List ManaColor) × Chosen cost.hybrid_costs cs
    × ((c : ManaColor) → pos (need cost cs c) ≤ℤ field c p)
    × (pos (price cost) ≤ℤ total p)

-- A choice as bits, one for each hybrid.
abbrev pub picks : List Bool → List HybridCost → List ManaColor
picks [] hs = []
picks (b ∷ bs) [] = []
picks (b ∷ bs) (h ∷ hs) = pick b h ∷ picks bs hs

abbrev pub bits : ℕ → ℕ → List Bool
bits mask zero = []
bits mask (suc n) = (mask % 2 == 1) ∷ bits (mask / 2) n

abbrev pub encode : List Bool → ℕ
encode [] = 0
encode (b ∷ bs) = (if b then 1 else 0) + 2 * encode bs

pub bits-encode : (bs : List Bool) → bits (encode bs) (length bs) ≡ bs
bits-encode [] = refl
bits-encode (b ∷ bs) =
    ap₂ ◌∷◌ (low_bit b (encode bs))
      (ap (λ t. bits t (length bs)) (high_bits b (encode bs)) ∙ bits-encode bs)
  where
    low_bit : (c : Bool) (n : ℕ) → (((if c then 1 else 0) + 2 * n) % 2 == 1) ≡ c
    low_bit true n = ground arith
    low_bit false n = ground arith

    high_bits : (c : Bool) (n : ℕ) → ((if c then 1 else 0) + 2 * n) / 2 ≡ n
    high_bits true n = omega arith
    high_bits false n = omega arith

pub encode-lt : (bs : List Bool) → encode bs < 2 ^ length bs
encode-lt [] = omega arith
encode-lt (true ∷ bs) = omega (arith, encode-lt bs, pow-suc 2 (length bs))
encode-lt (false ∷ bs) = omega (arith, encode-lt bs, pow-suc 2 (length bs))

pub length-bits : (mask n : ℕ) → length (bits mask n) ≡ n
length-bits mask zero = refl
length-bits mask (suc n) = ap suc (length-bits (mask / 2) n)

pub bits_of_choice :
    (hs : List HybridCost) (cs : List ManaColor)
    → Chosen hs cs
    → (bs : List Bool) × (length bs ≡ length hs) × (picks bs hs ≡ cs)
bits_of_choice [] [] h = ([], refl, refl)
bits_of_choice [] (c ∷ cs) h = absurd h
bits_of_choice (x ∷ hs) [] h = absurd h
bits_of_choice (x ∷ hs) (c ∷ cs) (inl e, h) =
    let (bs, n, q) = bits_of_choice hs cs h in (true ∷ bs, ap suc n, ap₂ ◌∷◌ (sym e) q)
bits_of_choice (x ∷ hs) (c ∷ cs) (inr e, h) =
    let (bs, n, q) = bits_of_choice hs cs h in (false ∷ bs, ap suc n, ap₂ ◌∷◌ (sym e) q)

pub picks-Chosen :
    (bs : List Bool) (hs : List HybridCost) → length bs ≡ length hs → Chosen hs (picks bs hs)
picks-Chosen [] [] e = tt
picks-Chosen [] (h ∷ hs) e = absurd (omega arith)
picks-Chosen (b ∷ bs) [] e = absurd (omega arith)
picks-Chosen (true ∷ bs) (h ∷ hs) e = (inl refl, picks-Chosen bs hs (omega arith))
picks-Chosen (false ∷ bs) (h ∷ hs) e = (inr refl, picks-Chosen bs hs (omega arith))

-- The inner loop with the bits of the mask as a list.
unfoldable pub try_bits : List Bool → List HybridCost → ManaPool → Option ManaPool
try_bits [] hs r = some r
try_bits (b ∷ bs) [] r = some r
try_bits (b ∷ bs) (h ∷ hs) r =
    let left = take_one (pick b h) r in
    let rest = try_bits bs hs left in if ltb_ℤ (field (pick b h) left) (pos 0) then none else rest

mask_bit-suc : (mask h : ℕ) → mask_bit mask (suc h) ≡ mask_bit (mask / 2) h
mask_bit-suc mask h =
    ap (λ t. (t % 2) == 1)
      (ap (λ t. mask / t) (pow-suc 2 h ∙ mul_comm (2 ^ h) 2)
        ∙ sym (div-div-eq-div-mul mask 2 (2 ^ h)))

abbrev guarded : ManaColor → ManaPool → Option ManaPool → Option ManaPool
guarded c r rest = if ltb_ℤ (field c (take_one c r)) (pos 0) then none else rest

try_mask-suc :
    (mask h : ℕ) (hs : List HybridCost) (r : ManaPool)
    → try_mask mask (suc h) hs r ≡ try_mask (mask / 2) h hs r
unfolding try_mask
try_mask-suc mask h [] r = refl
try_mask-suc mask h (x ∷ hs) r =
    rw (mask_bit-suc mask h)
      (ap (guarded (pick (mask_bit (mask / 2) h) x) r) (try_mask-suc mask (suc h) hs _))

pub try_mask-bits :
    (mask : ℕ) (hs : List HybridCost) (r : ManaPool)
    → try_mask mask 0 hs r ≡ try_bits (bits mask (length hs)) hs r
unfolding try_mask try_bits
try_mask-bits mask [] r = refl
try_mask-bits mask (x ∷ hs) r =
    let whole : mask / 2 ^ 0 ≡ mask = omega arith in
    let c = pick (mask % 2 == 1) x in
    rw whole (
      ap (guarded c r)
        (try_mask-suc mask 0 hs (take_one c r) ∙ try_mask-bits (mask / 2) hs (take_one c r)))

-- ===== src/Mana/Afford.antt =====
-- `ManaPool::can_pay_cost` of mana_pool.cpp (server/src/engine): the search over the ways to pay the
-- hybrid symbols of a cost, one bit of a mask for each. A mask is below 2^10, so it fits an int.
pub mod Choices
pub mod Search
pub mod Exhaustive
pub mod Payable
mod Tests
use uud.Base.Int.{ℤ, ◌-ℤ◌, ltb_ℤ, pos, negsuc}
use uud.Base.{
  ltb, ◌==◌, if◌then◌else◌, length, ℕ, zero, suc, ◌/◌, ◌%◌, ◌^◌, Bool, true, false, ◌||◌, Option,
  none, some, List, [], ◌∷◌,
}
use uud.Mana.Color.{ManaColor, HybridCost}
use uud.Mana.Cost.{ManaCost}
use uud.Mana.Pool.{ManaPool, field, set_field, geb_ℤ, total}

-- `--r < 0` and `--r` of the switch over the color.
unfoldable pub take_one : ManaColor → ManaPool → ManaPool
take_one c r = set_field c (field c r -ℤ pos 1) r

-- The color that a mask selects for the h-th hybrid: `(mask & (1 << h)) != 0` picks the primary.
abbrev pub mask_bit : ℕ → ℕ → Bool
mask_bit mask h = (mask / 2 ^ h) % 2 == 1

abbrev pub pick : Bool → HybridCost → ManaColor
pick true hybrid = hybrid.primary
pick false hybrid = hybrid.secondary

-- The inner loop over the hybrids from the h-th on: what remains, or `none` if a color runs out.
unfoldable pub try_mask : ℕ → ℕ → List HybridCost → ManaPool → Option ManaPool
unfolding take_one
try_mask mask h [] r = some r
try_mask mask h (hybrid ∷ hs) r =
    let color = pick (mask_bit mask h) hybrid in
    let left = take_one color r in
    let rest = try_mask mask (suc h) hs left in
    if ltb_ℤ (field color left) (pos 0) then none else rest

abbrev pub improve : ℤ → Option ManaPool → ℤ
improve best none = best
improve best (some r) = if ltb_ℤ best (total r) then total r else best

-- The outer loop, with `n` masks left to try.
unfoldable pub mask_loop : ℕ → ℕ → List HybridCost → ManaPool → ℤ → ℤ
unfolding try_mask total
mask_loop zero mask hs r best = best
mask_loop (suc n) mask hs r best = mask_loop n (suc mask) hs r (improve best (try_mask mask 0 hs r))

-- What the pool has left when the colored part of the cost is paid.
abbrev pub remaining : ManaCost → ManaPool → ManaPool
remaining cost p = record p {
  white = p.white -ℤ pos cost.white;
  blue = p.blue -ℤ pos cost.blue;
  black = p.black -ℤ pos cost.black;
  red = p.red -ℤ pos cost.red;
  green = p.green -ℤ pos cost.green;
}

abbrev pub lacks_color : ManaPool → Bool
lacks_color r =
    ltb_ℤ r.white (pos 0)
    || ltb_ℤ r.blue (pos 0)
    || ltb_ℤ r.black (pos 0)
    || ltb_ℤ r.red (pos 0)
    || ltb_ℤ r.green (pos 0)

abbrev pub enough : ℤ → ManaCost → Bool
enough best cost = if ltb_ℤ best (pos 0) then false else geb_ℤ best (pos cost.colorless)

unfoldable pub can_pay_cost : ManaCost → ManaPool → Bool
unfolding mask_loop
can_pay_cost cost p =
    let r = remaining cost p in
    let hybrid_count = length cost.hybrid_costs in
    let best = mask_loop (2 ^ hybrid_count) 0 cost.hybrid_costs r (negsuc 0) in
    if lacks_color r then false else if ltb 10 hybrid_count then false else enough best cost

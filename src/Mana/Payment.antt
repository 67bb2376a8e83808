-- ===== src/Mana/Payment.antt =====
-- `ManaPool::compute_optimal_payment` of mana_pool.cpp (server/src/engine): a greedy payment. The
-- loops over the generic mana count down, so they are recursions on it.
pub mod Exact
pub mod Affordable
pub mod Overdraw
mod Tests
use uud.Base.Int.{◌+ℤ◌, ◌-ℤ◌, ltb_ℤ, pos}
use uud.Base.{if◌then◌else◌, ℕ, zero, suc, true, false, not, Option, none, some, List, [], ◌∷◌}
use uud.Mana.Color.{ManaColor, HybridCost}
use uud.Mana.Cost.{ManaCost}
use uud.Mana.Pool.{ManaPool, ManaPayment, field, geb_ℤ}
use uud.Mana.Afford.{remaining, can_pay_cost}

-- The locals of `compute_optimal_payment`: what remains and what is paid.
pub record Plan : Type 0 where
  pub left : ManaPool
  pub paid : ManaPayment

-- `spend_from`, and the bodies of the two loops: one mana goes from what remains to the payment.
unfoldable pub spend_from : ManaColor → Plan → Plan
spend_from ManaColor.white s = record {
  left = record s.left { white = s.left.white -ℤ pos 1 };
  paid = record s.paid { white = s.paid.white +ℤ pos 1 };
}
spend_from ManaColor.blue s = record {
  left = record s.left { blue = s.left.blue -ℤ pos 1 };
  paid = record s.paid { blue = s.paid.blue +ℤ pos 1 };
}
spend_from ManaColor.black s = record {
  left = record s.left { black = s.left.black -ℤ pos 1 };
  paid = record s.paid { black = s.paid.black +ℤ pos 1 };
}
spend_from ManaColor.red s = record {
  left = record s.left { red = s.left.red -ℤ pos 1 };
  paid = record s.paid { red = s.paid.red +ℤ pos 1 };
}
spend_from ManaColor.green s = record {
  left = record s.left { green = s.left.green -ℤ pos 1 };
  paid = record s.paid { green = s.paid.green +ℤ pos 1 };
}
spend_from ManaColor.colorless s = record {
  left = record s.left { colorless = s.left.colorless -ℤ pos 1 };
  paid = record s.paid { colorless = s.paid.colorless +ℤ pos 1 };
}

-- The color that the greedy loop takes for a hybrid: the one of which more remains.
abbrev pub greedy : HybridCost → ManaPool → ManaColor
greedy hybrid left =
    if geb_ℤ (field hybrid.primary left) (field hybrid.secondary left)
    then hybrid.primary
    else hybrid.secondary

unfoldable pub pay_hybrids : List HybridCost → Plan → Plan
unfolding spend_from
pay_hybrids [] s = s
pay_hybrids (hybrid ∷ hs) s = pay_hybrids hs (spend_from (greedy hybrid s.left) s)

-- `check`: a color that beats the best value so far takes its place.
abbrev pub check : ManaColor → ManaPool → Option ManaColor → Option ManaColor
check c left none = if ltb_ℤ (pos 0) (field c left) then some c else none
check c left (some best) = if ltb_ℤ (field best left) (field c left) then some c else some best

abbrev pub best_color : ManaPool → Option ManaColor
best_color left = check ManaColor.green left (
    check ManaColor.red left
      (check ManaColor.black left (check ManaColor.blue left (check ManaColor.white left none))))

-- The second loop, over the generic mana still to pay.
unfoldable pub pay_colored : ℕ → Plan → Option ManaPayment
unfolding spend_from
pay_colored zero s = some s.paid
pay_colored (suc generic) s = elim (best_color s.left) [
  | none ↦ none
  | some c ↦ pay_colored generic (spend_from c s)
]

-- The first loop: colorless mana first, then the second loop for what is left.
unfoldable pub pay_generic : ℕ → Plan → Option ManaPayment
unfolding pay_colored
pay_generic zero s = some s.paid
pay_generic (suc generic) s = elim (ltb_ℤ (pos 0) s.left.colorless) [
  | true ↦ pay_generic generic (spend_from ManaColor.colorless s)
  | false ↦ pay_colored (suc generic) s
]

abbrev pub colored_part : ManaCost → ManaPayment
colored_part cost = record {
  white = pos cost.white;
  blue = pos cost.blue;
  black = pos cost.black;
  red = pos cost.red;
  green = pos cost.green;
  colorless = pos 0;
}

unfoldable pub compute_optimal_payment : ManaCost → ManaPool → Option ManaPayment
unfolding can_pay_cost pay_hybrids pay_generic
compute_optimal_payment cost p =
    let start : Plan = record { left = remaining cost p; paid = colored_part cost } in
    let payment = pay_generic cost.colorless (pay_hybrids cost.hybrid_costs start) in
    if not (can_pay_cost cost p) then none else payment

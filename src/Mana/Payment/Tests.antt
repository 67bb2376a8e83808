-- ===== src/Mana/Payment/Tests.antt =====
-- Runs of the payment, and the theorems at concrete inputs.
use uud.Base.Int.{◌+ℤ◌, ◌-ℤ◌, ◌≤ℤ◌, pos}
use uud.Base.{◌≡◌, refl, true, some, arith}
use uud.Mana.Color.{ManaColor}
use uud.Mana.Cost.{ManaCost, zero_cost}
use uud.Mana.Pool.{ManaPool, empty_pool, ManaPayment, total, pay_cost}
use uud.Mana.Pool.Access.{IsNonneg, paid_total, paid}
use uud.Mana.Afford.{can_pay_cost}
use uud.Mana.Afford.Payable.{colored}
use uud.Mana.Afford.Choices.{price}
use uud.Mana.Payment.{colored_part, compute_optimal_payment}
use uud.Mana.Payment.Exact.{payment_total}
use uud.Mana.Payment.Affordable.{payment_succeeds}
use uud.Mana.Payment.Overdraw.{shared_white, one_each, hybrid_overdraw}

-- {3}{G}
abbrev giant : ManaCost
giant = record zero_cost { colorless = 3; green = 1 }

abbrev forest_pool : ManaPool
forest_pool = record empty_pool { green = pos 4; red = pos 1; colorless = pos 1 }

abbrev giant_payment : ManaPayment
giant_payment = record (colored_part zero_cost) { green = pos 3; colorless = pos 1 }

giant_paid : compute_optimal_payment giant forest_pool ≡ some giant_payment
unfolding compute_optimal_payment ◌+ℤ◌ ◌-ℤ◌
giant_paid = refl

giant_payable : can_pay_cost giant forest_pool ≡ true
unfolding can_pay_cost ◌+ℤ◌ ◌-ℤ◌
giant_payable = refl

forest_pool-IsNonneg : IsNonneg forest_pool
forest_pool-IsNonneg ManaColor.white = omega arith
forest_pool-IsNonneg _ = omega arith

payment_total_example : paid_total giant_payment ≡ pos (price giant)
payment_total_example = (payment_total giant forest_pool giant_payment giant_paid).0

payment_succeeds_example :
    (m : ManaPayment) × (compute_optimal_payment giant forest_pool ≡ some m)
    × ((pay_cost m forest_pool).1 ≡ true)
    × ((c : ManaColor) → pos (colored giant c) ≤ℤ paid c m)
    × (total (pay_cost m forest_pool).0 +ℤ pos (price giant) ≡ total forest_pool)
payment_succeeds_example =
    payment_succeeds giant forest_pool forest_pool-IsNonneg refl giant_payable

hybrid_overdraw_example : can_pay_cost shared_white (one_each 2 0) ≡ true
hybrid_overdraw_example = (hybrid_overdraw 2 0).0

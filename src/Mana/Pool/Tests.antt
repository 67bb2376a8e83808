-- ===== src/Mana/Pool/Tests.antt =====
-- Runs of the pool, and the theorems at concrete inputs.
use uud.Base.Int.{◌-ℤ◌, ◌≤ℤ◌, pos, negsuc}
use uud.Base.{if◌then◌else◌, ◌≡◌, refl, ◌↔◌, ◌⊎◌, true, false, arith}
use uud.Mana.Color.{ManaColor}
use uud.Mana.Pool.{
  ManaPool, empty_pool, ManaPayment, color_field, field, can_pay, spend, get, pay_cost,
}
use uud.Mana.Pool.Access.{names_field, Holds, get-spend, IsNonneg, paid, pay_cost_lem}

abbrev two_white : ManaPool
two_white = record empty_pool { white = pos 2; green = pos 1 }

abbrev one_white : ManaPayment
one_white = record {
  white = pos 1;
  blue = pos 0;
  black = pos 0;
  red = pos 0;
  green = pos 1;
  colorless = pos 0;
}

pay_both : pay_cost one_white two_white ≡ (record empty_pool { white = pos 1 }, true)
unfolding pay_cost ◌-ℤ◌
pay_both = refl

-- A negative part of a payment is accepted, and adds mana.
negative_payment :
    pay_cost (record one_white { white = negsuc 6 }) two_white
    ≡ (record empty_pool { white = pos 9 }, true)
unfolding pay_cost ◌-ℤ◌
negative_payment = refl

two_white-IsNonneg : IsNonneg two_white
two_white-IsNonneg ManaColor.white = omega arith
two_white-IsNonneg _ = omega arith

get-spend_example :
    (Holds "W" (pos 2) two_white
      × (can_pay "W" (pos 2) two_white ≡ true)
      × ((spend "W" (pos 2) two_white).1 ≡ true)
      × (get "White" (spend "W" (pos 2) two_white).0 ≡ (
          if names_field (color_field "W") (color_field "White")
          then get "White" two_white -ℤ pos 2
          else get "White" two_white)))
    ⊎ ((¬ Holds "W" (pos 2) two_white)
        × (can_pay "W" (pos 2) two_white ≡ false)
        × (spend "W" (pos 2) two_white ≡ (two_white, false)))
get-spend_example = get-spend "W" "White" (pos 2) two_white

-- The first case is the one that holds here.
spend_white : (spend "W" (pos 2) two_white).1 ≡ true
unfolding spend can_pay color_field ◌-ℤ◌
spend_white = refl

pay_cost_lem_example :
    ((pay_cost one_white two_white).1 ≡ true)
    ↔ ((c : ManaColor) → paid c one_white ≤ℤ field c two_white)
pay_cost_lem_example = (pay_cost_lem one_white two_white).0

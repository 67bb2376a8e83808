-- ===== src/Mana/Afford/Tests.antt =====
-- Runs of the search, and the theorem at concrete inputs.
use uud.Base.Int.{◌+ℤ◌, ◌-ℤ◌, pos}
use uud.Base.{◌≡◌, refl, ◌↔◌, true, false, [], ◌∷◌, arith}
use uud.Mana.Color.{ManaColor}
use uud.Mana.Cost.{ManaCost, zero_cost}
use uud.Mana.Pool.{ManaPool, empty_pool}
use uud.Mana.Pool.Access.{IsNonneg}
use uud.Mana.Afford.{can_pay_cost}
use uud.Mana.Afford.Choices.{IsPayable}
use uud.Mana.Afford.Payable.{can_pay_cost_iff}

-- {1}{W/U}{W/B}
abbrev two_hybrids : ManaCost
two_hybrids = record zero_cost {
  colorless = 1;
  hybrid_costs =
      record { primary = ManaColor.white; secondary = ManaColor.blue }
      ∷ record { primary = ManaColor.white; secondary = ManaColor.black }
      ∷ [];
}

abbrev three_mana : ManaPool
three_mana = record empty_pool { white = pos 1; blue = pos 1; red = pos 1 }

search_pays : can_pay_cost two_hybrids three_mana ≡ true
unfolding can_pay_cost ◌+ℤ◌ ◌-ℤ◌
search_pays = refl

two_mana_short : can_pay_cost two_hybrids (record three_mana { red = pos 0 }) ≡ false
unfolding can_pay_cost ◌+ℤ◌ ◌-ℤ◌
two_mana_short = refl

three_mana-IsNonneg : IsNonneg three_mana
three_mana-IsNonneg ManaColor.white = omega arith
three_mana-IsNonneg _ = omega arith

can_pay_cost_iff_example :
    (can_pay_cost two_hybrids three_mana ≡ true) ↔ IsPayable two_hybrids three_mana
can_pay_cost_iff_example =
    (can_pay_cost_iff two_hybrids three_mana three_mana-IsNonneg).0 (omega arith)

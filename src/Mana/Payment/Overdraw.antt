-- ===== src/Mana/Payment/Overdraw.antt =====
-- The greedy choice for a hybrid symbol can use up a color that a later symbol needs.
use uud.Base.Int.{◌+ℤ◌, ◌-ℤ◌, ◌≤ℤ◌, int_laws, pos}
use uud.Base.{ℕ, ◌≡◌, refl, ◌∙◌, inl, inr, true, false, some, [], ◌∷◌, arith}
use uud.Mana.Color.{ManaColor}
use uud.Mana.Cost.{ManaCost, zero_cost}
use uud.Mana.Pool.{ManaPool, ManaPayment, field, total, pay_cost}
use uud.Mana.Afford.{can_pay_cost}
use uud.Mana.Afford.Choices.{need, IsPayable}
use uud.Mana.Afford.Payable.{can_pay_cost_complete}
use uud.Mana.Payment.Affordable.{plan_of_payment}
use uud.Mana.Payment.{pay_hybrids, pay_generic, colored_part, compute_optimal_payment}

-- {W/U}{W/B}
abbrev pub shared_white : ManaCost
shared_white = record zero_cost {
  hybrid_costs =
      record { primary = ManaColor.white; secondary = ManaColor.blue }
      ∷ record { primary = ManaColor.white; secondary = ManaColor.black }
      ∷ [];
}

abbrev pub one_each : ℕ → ℕ → ManaPool
one_each g c = record {
  white = pos 1;
  blue = pos 1;
  black = pos 0;
  red = pos 0;
  green = pos g;
  colorless = pos c;
}

enough_of :
    (g c : ℕ) (d : ManaColor)
    → pos (need shared_white (ManaColor.blue ∷ ManaColor.white ∷ []) d) ≤ℤ field d (one_each g c)
enough_of g c ManaColor.white = omega arith
enough_of g c _ = omega arith

blue_then_white : (g c : ℕ) → IsPayable shared_white (one_each g c)
unfolding total
blue_then_white g c = (
  ManaColor.blue ∷ ManaColor.white ∷ [],
  (inr refl, (inl refl, tt)),
  enough_of g c,
  omega int_laws,
)

-- With one white, one blue, no black and no red mana, and any amount of green and colorless mana, the
-- cost of a white-or-blue and a white-or-black symbol is found payable, but the computed payment
-- takes two white mana, and the pool refuses it.
pub hybrid_overdraw :
    (g c : ℕ)
    → let p = one_each g c in
      (can_pay_cost shared_white p ≡ true)
      × (m : ManaPayment) × (compute_optimal_payment shared_white p ≡ some m)
      × (m.white ≡ pos 2)
      × (pay_cost m p ≡ (p, false))
unfolding pay_hybrids pay_generic pay_cost ◌-ℤ◌ ◌+ℤ◌
hybrid_overdraw g c =
    let p = one_each g c in
    let payable : can_pay_cost shared_white p ≡ true =
      can_pay_cost_complete shared_white p (omega arith) (blue_then_white g c) in
    (
      payable,
      record colored { white = pos 2 },
      plan_of_payment shared_white p payable ∙ refl,
      refl,
      refl,
    )
  where
    colored : ManaPayment
    colored = colored_part shared_white

-- ===== src/Mana/Payment/Exact.antt =====
-- A computed payment is exact, and without hybrid symbols the pool can always pay it.
use uud.Base.Int.{◌+ℤ◌, ltb_ℤ, int_laws, parts_of_eq, pos}
use uud.Base.{
  Bool-cases, Option-cases, some_inj, length, ℕ, zero, suc, ◌+◌, ◌≡◌, refl, sym, ap, subst, ◌∙◌,
  inl, inr, true, false, none, some, List, [], ◌∷◌, arith,
}
use uud.Mana.Color.{ManaColor, HybridCost}
use uud.Mana.Cost.{ManaCost}
use uud.Mana.Pool.{ManaPool, ManaPayment, field, total, pay_cost}
use uud.Mana.Pool.Access.{paid_total, paid, pay_cost_lem}
use uud.Mana.Afford.{remaining, can_pay_cost}
use uud.Mana.Afford.Choices.{price}
use uud.Mana.Payment.{
  Plan, spend_from, greedy, pay_hybrids, best_color, pay_colored, pay_generic, colored_part,
  compute_optimal_payment,
}

pub spend_from-field :
    (c d : ManaColor) (s : Plan)
    → field d (spend_from c s).left +ℤ paid d (spend_from c s).paid
      ≡ field d s.left +ℤ paid d s.paid
unfolding spend_from
spend_from-field ManaColor.white ManaColor.white s = omega int_laws
spend_from-field ManaColor.blue ManaColor.blue s = omega int_laws
spend_from-field ManaColor.black ManaColor.black s = omega int_laws
spend_from-field ManaColor.red ManaColor.red s = omega int_laws
spend_from-field ManaColor.green ManaColor.green s = omega int_laws
spend_from-field ManaColor.colorless ManaColor.colorless s = omega int_laws
spend_from-field _ _ s = refl

-- One mana more is paid, and one less is left.
pub spend_from-totals :
    (c : ManaColor) (s : Plan)
    → (paid_total (spend_from c s).paid ≡ paid_total s.paid +ℤ pos 1)
      × (total (spend_from c s).left +ℤ pos 1 ≡ total s.left)
unfolding spend_from total
spend_from-totals ManaColor.white s = (omega int_laws, omega int_laws)
spend_from-totals _ s = (omega int_laws, omega int_laws)

pay_hybrids-paid :
    (hs : List HybridCost) (s : Plan)
    → paid_total (pay_hybrids hs s).paid ≡ paid_total s.paid +ℤ pos (length hs)
unfolding pay_hybrids
pay_hybrids-paid [] s = omega int_laws
pay_hybrids-paid (h ∷ hs) s =
    let c = greedy h s.left in
    omega (
      int_laws,
      parts_of_eq (pay_hybrids-paid hs (spend_from c s)),
      parts_of_eq ((spend_from-totals c s).0),
    )

-- The steps of the two loops.
pub pay_colored-some :
    (n : ℕ) (s : Plan) (c : ManaColor)
    → best_color s.left ≡ some c
    → pay_colored (suc n) s ≡ pay_colored n (spend_from c s)
unfolding pay_colored
pay_colored-some n s c e = rw (e, pay_colored)

pub pay_colored-none : (n : ℕ) (s : Plan) → best_color s.left ≡ none → pay_colored (suc n) s ≡ none
unfolding pay_colored
pay_colored-none n s e = rw (e, pay_colored)

pub pay_generic-colorless :
    (n : ℕ) (s : Plan)
    → ltb_ℤ (pos 0) s.left.colorless ≡ true
    → pay_generic (suc n) s ≡ pay_generic n (spend_from ManaColor.colorless s)
unfolding pay_generic
pay_generic-colorless n s e = rw (e, pay_generic)

pub pay_generic-colored :
    (n : ℕ) (s : Plan)
    → ltb_ℤ (pos 0) s.left.colorless ≡ false
    → pay_generic (suc n) s ≡ pay_colored (suc n) s
unfolding pay_generic
pay_generic-colored n s e = rw (e, pay_generic)

pay_colored-paid :
    (n : ℕ) (s : Plan) (m : ManaPayment)
    → pay_colored n s ≡ some m
    → paid_total m ≡ paid_total s.paid +ℤ pos n
unfolding pay_colored
pay_colored-paid zero s m h =
    let q : some s.paid ≡ some m = h in omega (int_laws, parts_of_eq (ap paid_total (some_inj q)))
pay_colored-paid (suc n) s m h = elim (Option-cases (best_color s.left)) [
  | inl e ↦ absurd (cc (pay_colored-none n s e))
  | inr (c, e) ↦ omega (
    int_laws,
    parts_of_eq (pay_colored-paid n (spend_from c s) m (sym (pay_colored-some n s c e) ∙ h)),
    parts_of_eq ((spend_from-totals c s).0),
  )
]

pay_generic-paid :
    (n : ℕ) (s : Plan) (m : ManaPayment)
    → pay_generic n s ≡ some m
    → paid_total m ≡ paid_total s.paid +ℤ pos n
unfolding pay_generic
pay_generic-paid zero s m h =
    let q : some s.paid ≡ some m = h in omega (int_laws, parts_of_eq (ap paid_total (some_inj q)))
pay_generic-paid (suc n) s m h = elim (Bool-cases (ltb_ℤ (pos 0) s.left.colorless)) [
  | inl e ↦ omega (
    int_laws,
    parts_of_eq (
        pay_generic-paid n (spend_from ManaColor.colorless s) m
          (sym (pay_generic-colorless n s e) ∙ h)),
    parts_of_eq ((spend_from-totals ManaColor.colorless s).0),
  )
  | inr e ↦ pay_colored-paid (suc n) s m (sym (pay_generic-colored n s e) ∙ h)
]

paid-colored_part :
    (cost : ManaCost)
    → paid_total (colored_part cost) +ℤ pos (cost.colorless + length cost.hybrid_costs)
      ≡ pos (price cost)
paid-colored_part cost = omega int_laws

pub payment_of_plan :
    (cost : ManaCost) (p : ManaPool) (m : ManaPayment)
    → compute_optimal_payment cost p ≡ some m
    → (can_pay_cost cost p ≡ true)
      × (pay_generic cost.colorless (
            pay_hybrids cost.hybrid_costs
              (record { left = remaining cost p; paid = colored_part cost }))
          ≡ some m)
unfolding compute_optimal_payment
payment_of_plan cost p m h = ground arith

-- Whatever payment is computed, it holds exactly as many mana as the cost asks for, one for each
-- hybrid symbol; and if the pool accepts it, the pool's total falls by just that number.
pub payment_total :
    (cost : ManaCost) (p : ManaPool) (m : ManaPayment)
    → compute_optimal_payment cost p ≡ some m
    → (paid_total m ≡ pos (price cost))
      × ((pay_cost m p).1 ≡ true → total (pay_cost m p).0 +ℤ pos (price cost) ≡ total p)
payment_total cost p m h =
    let (_, e) = payment_of_plan cost p m h in
    let start : Plan = record { left = remaining cost p; paid = colored_part cost } in
    let sum : paid_total m ≡ pos (price cost) = omega (
      int_laws,
      parts_of_eq (pay_generic-paid cost.colorless (pay_hybrids cost.hybrid_costs start) m e),
      parts_of_eq (pay_hybrids-paid cost.hybrid_costs start),
      parts_of_eq (paid-colored_part cost),
    ) in
    (
      sum,
      λ ok. subst (λ t. total (pay_cost m p).0 +ℤ t ≡ total p) sum (((pay_cost_lem m p).2 ok).2),
    )

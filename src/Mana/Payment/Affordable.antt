-- ===== src/Mana/Payment/Affordable.antt =====
-- Without hybrid symbols, a payment is found whenever the cost can be paid, and the pool accepts it.
use uud.Base.Int.{◌+ℤ◌, ◌-ℤ◌, ◌≤ℤ◌, ltb_ℤ, int_laws, parts_of_eq, false-ltb_ℤ, ltb_ℤ→lt, pos}
use uud.Base.{
  Bool-cases, some_inj, All, ℕ, zero, suc, ◌≡◌, refl, sym, ap, subst, ◌∙◌, ◌≢◌, ◌⊎◌, inl, inr, true,
  Option, none, some, List, [], ◌∷◌, arith,
}
use uud.Mana.Color.{ManaColor}
use uud.Mana.Cost.{ManaCost}
use uud.Mana.Pool.{ManaPool, ManaPayment, field, total, pay_cost}
use uud.Mana.Pool.Access.{IsNonneg, set_field-IsNonneg, paid, pay_cost_lem}
use uud.Mana.Afford.{take_one, remaining, can_pay_cost}
use uud.Mana.Afford.Choices.{price}
use uud.Mana.Afford.Payable.{
  colored, field-remaining, total-remaining, remaining-IsNonneg, can_pay_cost-parts,
  can_pay_cost_sound,
}
use uud.Mana.Payment.{
  Plan, spend_from, pay_hybrids, check, best_color, pay_colored, pay_generic, colored_part,
  compute_optimal_payment,
}
use uud.Mana.Payment.Exact.{
  spend_from-field, spend_from-totals, pay_colored-some, pay_generic-colorless, pay_generic-colored,
  payment_total,
}

-- The search for the best color, over the colors looked at so far.
abbrev BestOf : ManaPool → Option ManaColor → List ManaColor → Type 0
BestOf left o cs =
    ((o ≡ none) × All (λ c. field c left ≤ℤ pos 0) cs)
    ⊎ ((c : ManaColor) × (o ≡ some c) × (pos 1 ≤ℤ field c left) × (c ≢ ManaColor.colorless))

check-BestOf :
    (c : ManaColor) (left : ManaPool) (o : Option ManaColor) (cs : List ManaColor)
    → c ≢ ManaColor.colorless
    → BestOf left o cs
    → BestOf left (check c left o) (c ∷ cs)
check-BestOf c left none cs ne (inl (e, a)) = elim (Bool-cases (ltb_ℤ (pos 0) (field c left))) [
  | inl more ↦ inr (c, rw more refl, omega (arith, ltb_ℤ→lt (pos 0) (field c left) more), ne)
  | inr less ↦ inl (rw less refl, (false-ltb_ℤ (pos 0) (field c left) less, a))
]
check-BestOf c left none cs ne (inr (d, e, h, n)) = absurd (cc)
check-BestOf c left (some d) cs ne (inl (e, a)) = absurd (cc)
check-BestOf c left (some d) cs ne (inr (d', e, h, n)) =
    elim (Bool-cases (ltb_ℤ (field d left) (field c left))) [
      | inl more ↦ inr (
        c,
        rw more refl,
        omega (
          arith,
          h,
          parts_of_eq (ap (λ x. field x left) (some_inj e)),
          ltb_ℤ→lt (field d left) (field c left) more,
        ),
        ne,
      )
      | inr less ↦ inr (d', rw less e, h, n)
    ]

best_color_cases :
    (left : ManaPool)
    → BestOf left
        (best_color left)
        (ManaColor.green ∷ ManaColor.red ∷ ManaColor.black ∷ ManaColor.blue ∷ ManaColor.white ∷ [])
best_color_cases left =
    check-BestOf ManaColor.green left (check ManaColor.red left o3) (ManaColor.red ∷ s3) (λ e. cc)
      (check-BestOf ManaColor.red left o3 s3 (λ e. cc)
        (check-BestOf ManaColor.black left o2 s2 (λ e. cc)
          (check-BestOf ManaColor.blue left o1 s1 (λ e. cc)
            (check-BestOf ManaColor.white left none [] (λ e. cc) (inl (refl, tt))))))
  where
    o1 : Option ManaColor
    o1 = check ManaColor.white left none

    o2 : Option ManaColor
    o2 = check ManaColor.blue left o1

    o3 : Option ManaColor
    o3 = check ManaColor.black left o2

    s1 : List ManaColor
    s1 = ManaColor.white ∷ []

    s2 : List ManaColor
    s2 = ManaColor.blue ∷ s1

    s3 : List ManaColor
    s3 = ManaColor.black ∷ s2

-- A payment that keeps what the plan has paid and takes the rest from what it has left, color by
-- color.
abbrev Within : Plan → ManaPayment → Type 0
Within s m =
    (c : ManaColor) → (paid c s.paid ≤ℤ paid c m) × (paid c m ≤ℤ field c s.left +ℤ paid c s.paid)

paid-spend_from : (c d : ManaColor) (s : Plan) → paid d s.paid ≤ℤ paid d (spend_from c s).paid
unfolding spend_from
paid-spend_from ManaColor.white ManaColor.white s = omega int_laws
paid-spend_from ManaColor.blue ManaColor.blue s = omega int_laws
paid-spend_from ManaColor.black ManaColor.black s = omega int_laws
paid-spend_from ManaColor.red ManaColor.red s = omega int_laws
paid-spend_from ManaColor.green ManaColor.green s = omega int_laws
paid-spend_from ManaColor.colorless ManaColor.colorless s = omega int_laws
paid-spend_from _ _ s = omega int_laws

Within-spend_from :
    (c : ManaColor) (s : Plan) (m : ManaPayment) → Within (spend_from c s) m → Within s m
Within-spend_from c s m h d = (
  omega (int_laws, (h d).0, paid-spend_from c d s),
  omega (int_laws, (h d).1, parts_of_eq (spend_from-field c d s)),
)

nothing_left :
    (n : ℕ) (left : ManaPool)
    → left.colorless ≤ℤ pos 0
    → All
        (λ c. field c left ≤ℤ pos 0)
        (ManaColor.green ∷ ManaColor.red ∷ ManaColor.black ∷ ManaColor.blue ∷ ManaColor.white ∷ [])
    → ¬ (pos (suc n) ≤ℤ total left)
unfolding total
nothing_left n left z a h = omega int_laws

left-spend_from : (c : ManaColor) (s : Plan) → (spend_from c s).left ≡ take_one c s.left
unfolding spend_from take_one
left-spend_from ManaColor.white s = refl
left-spend_from _ s = refl

spend_from-IsNonneg :
    (c : ManaColor) (s : Plan)
    → pos 1 ≤ℤ field c s.left
    → IsNonneg s.left
    → IsNonneg (spend_from c s).left
unfolding take_one
spend_from-IsNonneg c s h v =
    subst IsNonneg (sym (left-spend_from c s))
      (set_field-IsNonneg c (field c s.left -ℤ pos 1) s.left (omega (int_laws, h)) v)

colorless-spend_from :
    (c : ManaColor) (s : Plan)
    → c ≢ ManaColor.colorless
    → (spend_from c s).left.colorless ≡ s.left.colorless
unfolding spend_from
colorless-spend_from ManaColor.colorless s ne = absurd (ne refl)
colorless-spend_from _ s ne = refl

pay_colored-Within :
    (n : ℕ) (s : Plan)
    → IsNonneg s.left
    → s.left.colorless ≤ℤ pos 0
    → pos n ≤ℤ total s.left
    → (m : ManaPayment) × (pay_colored n s ≡ some m) × Within s m
unfolding pay_colored
pay_colored-Within zero s v z h = (s.paid, refl, λ c. (omega int_laws, omega (int_laws, v c)))
pay_colored-Within (suc n) s v z h = elim (best_color_cases s.left) [
  | inl (e, a) ↦ absurd (nothing_left n s.left z a h)
  | inr (c, e, p, ne) ↦
      let (m, q, w) =
        pay_colored-Within n (spend_from c s) (spend_from-IsNonneg c s p v)
          (rw (colorless-spend_from c s ne) z)
          (omega (int_laws, h, parts_of_eq ((spend_from-totals c s).1))) in
      (m, pay_colored-some n s c e ∙ q, Within-spend_from c s m w)
]

pay_generic-Within :
    (n : ℕ) (s : Plan)
    → IsNonneg s.left
    → pos n ≤ℤ total s.left
    → (m : ManaPayment) × (pay_generic n s ≡ some m) × Within s m
unfolding pay_generic
pay_generic-Within zero s v h = (s.paid, refl, λ c. (omega int_laws, omega (int_laws, v c)))
pay_generic-Within (suc n) s v h = elim (Bool-cases (ltb_ℤ (pos 0) s.left.colorless)) [
  | inl e ↦
      let c = ManaColor.colorless in
      let p : pos 1 ≤ℤ s.left.colorless = omega (arith, ltb_ℤ→lt (pos 0) s.left.colorless e) in
      let (m, q, w) =
        pay_generic-Within n (spend_from c s) (spend_from-IsNonneg c s p v)
          (omega (int_laws, h, parts_of_eq ((spend_from-totals c s).1))) in
      (m, pay_generic-colorless n s e ∙ q, Within-spend_from c s m w)
  | inr e ↦
      let (m, q, w) = pay_colored-Within (suc n) s v (false-ltb_ℤ (pos 0) s.left.colorless e) h in
      (m, pay_generic-colored n s e ∙ q, w)
]

paid-colored_part-field :
    (cost : ManaCost) (c : ManaColor) → paid c (colored_part cost) ≡ pos (colored cost c)
paid-colored_part-field cost ManaColor.white = refl
paid-colored_part-field cost _ = refl

pub plan_of_payment :
    (cost : ManaCost) (p : ManaPool)
    → can_pay_cost cost p ≡ true
    → compute_optimal_payment cost p
      ≡ pay_generic cost.colorless (
          pay_hybrids cost.hybrid_costs
            (record { left = remaining cost p; paid = colored_part cost }))
unfolding compute_optimal_payment
plan_of_payment cost p h = rw h

-- For a cost without hybrid symbols and a pool with no field below zero that can pay it: a payment is
-- computed, the pool accepts it, of every color it takes at least what the cost asks for in that
-- color, and it leaves the pool with exactly the price of the cost less.
pub payment_succeeds :
    (cost : ManaCost) (p : ManaPool)
    → IsNonneg p
    → cost.hybrid_costs ≡ []
    → can_pay_cost cost p ≡ true
    → (m : ManaPayment) × (compute_optimal_payment cost p ≡ some m)
      × ((pay_cost m p).1 ≡ true)
      × ((c : ManaColor) → pos (colored cost c) ≤ℤ paid c m)
      × (total (pay_cost m p).0 +ℤ pos (price cost) ≡ total p)
unfolding pay_hybrids
payment_succeeds cost p v plain h =
    let (l, _, e) = can_pay_cost-parts cost p h in
    let start : Plan = record { left = remaining cost p; paid = colored_part cost } in
    let enough_left : pos cost.colorless ≤ℤ total (remaining cost p) =
      omega (int_laws, (can_pay_cost_sound cost p v h).3, parts_of_eq (total-remaining cost p)) in
    let (m, q, w) =
      pay_generic-Within cost.colorless start (remaining-IsNonneg cost p v l) enough_left in
    let found : compute_optimal_payment cost p ≡ some m =
      plan_of_payment cost p h
      ∙ ap (λ hs. pay_generic cost.colorless (pay_hybrids hs start)) plain
      ∙ q in
    let ok = ((pay_cost_lem m p).0).1 (λ c. omega (
      int_laws,
      (w c).1,
      parts_of_eq (field-remaining cost p c),
      parts_of_eq (paid-colored_part-field cost c),
    )) in
    (
      m,
      found,
      ok,
      λ c. omega (int_laws, (w c).0, parts_of_eq (paid-colored_part-field cost c)),
      (payment_total cost p m found).1 ok,
    )

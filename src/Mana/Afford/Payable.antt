-- ===== src/Mana/Afford/Payable.antt =====
-- `can_pay_cost` decides whether there is a way to pay.
use uud.Base.Int.{ℤ, ◌+ℤ◌, ◌≤ℤ◌, int_laws, parts_of_eq, ltb_ℤ-false, pos, negsuc}
use uud.Base.{
  length, ℕ, ◌+◌, ◌^◌, ◌≤◌, ◌<◌, ◌≡◌, refl, sym, ap, subst, ◌∙◌, ◌↔◌, inl, inr, Bool, true, false,
  ◌||◌, List, arith,
}
use uud.Mana.Color.{ManaColor}
use uud.Mana.Cost.{ManaCost}
use uud.Mana.Pool.{ManaPool, field, total}
use uud.Mana.Pool.Access.{IsNonneg}
use uud.Mana.Afford.{mask_loop, remaining, lacks_color, enough, can_pay_cost}
use uud.Mana.Afford.Choices.{
  count, need, price, IsPayable, picks, bits, encode, bits-encode, encode-lt, length-bits,
  bits_of_choice, picks-Chosen, try_bits, try_mask-bits,
}
use uud.Mana.Afford.Search.{try_bits_complete}
use uud.Mana.Afford.Exhaustive.{
  left_over, try_mask-Spent, Success, mask_loop_found, mask_loop_cases,
}

-- The part of the cost that has this color.
abbrev pub colored : ManaCost → ManaColor → ℕ
colored cost ManaColor.white = cost.white
colored cost ManaColor.blue = cost.blue
colored cost ManaColor.black = cost.black
colored cost ManaColor.red = cost.red
colored cost ManaColor.green = cost.green
colored cost ManaColor.colorless = 0

need-colored :
    (cost : ManaCost) (cs : List ManaColor) (c : ManaColor)
    → need cost cs c ≡ colored cost c + count c cs
need-colored cost cs ManaColor.white = refl
need-colored cost cs ManaColor.colorless = omega arith
need-colored cost cs _ = refl

pub field-remaining :
    (cost : ManaCost) (p : ManaPool) (c : ManaColor)
    → field c (remaining cost p) +ℤ pos (colored cost c) ≡ field c p
field-remaining cost p ManaColor.white = omega int_laws
field-remaining cost p _ = omega int_laws

pub total-remaining :
    (cost : ManaCost) (p : ManaPool)
    → left_over cost.hybrid_costs (remaining cost p) +ℤ pos (price cost)
      ≡ total p +ℤ pos cost.colorless
unfolding total
total-remaining cost p = omega int_laws

pub remaining-IsNonneg :
    (cost : ManaCost) (p : ManaPool)
    → IsNonneg p
    → lacks_color (remaining cost p) ≡ false
    → IsNonneg (remaining cost p)
remaining-IsNonneg cost p v h ManaColor.colorless = v ManaColor.colorless
remaining-IsNonneg cost p v h _ = ground arith

or_false :
    (a b c d e : Bool)
    → a ≡ false
    → b ≡ false
    → c ≡ false
    → d ≡ false
    → e ≡ false
    → (a || b || c || d || e) ≡ false
or_false a b c d e h i j k l = ground arith

has_colors :
    (cost : ManaCost) (p : ManaPool) (cs : List ManaColor)
    → ((c : ManaColor) → pos (need cost cs c) ≤ℤ field c p)
    → lacks_color (remaining cost p) ≡ false
has_colors cost p cs h =
    or_false _ _ _ _ _
      (ltb_ℤ-false (remaining cost p).white (pos 0) (omega (int_laws, h ManaColor.white)))
      (ltb_ℤ-false (remaining cost p).blue (pos 0) (omega (int_laws, h ManaColor.blue)))
      (ltb_ℤ-false (remaining cost p).black (pos 0) (omega (int_laws, h ManaColor.black)))
      (ltb_ℤ-false (remaining cost p).red (pos 0) (omega (int_laws, h ManaColor.red)))
      (ltb_ℤ-false (remaining cost p).green (pos 0) (omega (int_laws, h ManaColor.green)))

enough→le :
    (best : ℤ) (cost : ManaCost)
    → enough best cost ≡ true
    → (pos 0 ≤ℤ best) × (pos cost.colorless ≤ℤ best)
enough→le best cost h = ground arith

le→enough : (best : ℤ) (cost : ManaCost) → pos cost.colorless ≤ℤ best → enough best cost ≡ true
le→enough best cost h = ground arith

pub search_result : ManaCost → ManaPool → ℤ
search_result cost p =
    mask_loop (2 ^ length cost.hybrid_costs) 0 cost.hybrid_costs (remaining cost p) (negsuc 0)

pub can_pay_cost-parts :
    (cost : ManaCost) (p : ManaPool)
    → can_pay_cost cost p ≡ true
    → (lacks_color (remaining cost p) ≡ false)
      × (length cost.hybrid_costs ≤ 10)
      × (enough (search_result cost p) cost ≡ true)
unfolding can_pay_cost search_result
can_pay_cost-parts cost p h = ground arith

parts-can_pay_cost :
    (cost : ManaCost) (p : ManaPool)
    → lacks_color (remaining cost p) ≡ false
    → length cost.hybrid_costs ≤ 10
    → enough (search_result cost p) cost ≡ true
    → can_pay_cost cost p ≡ true
unfolding can_pay_cost search_result
parts-can_pay_cost cost p l k e = ground arith

way_to_pay :
    (cost : ManaCost) (p : ManaPool)
    → IsNonneg (remaining cost p)
    → Success (2 ^ length cost.hybrid_costs) 0 cost.hybrid_costs (remaining cost p)
    → pos cost.colorless ≤ℤ left_over cost.hybrid_costs (remaining cost p)
    → IsPayable cost p
way_to_pay cost p v s e =
    let hs = cost.hybrid_costs in
    let bs = bits s.which (length hs) in
    let spent = try_mask-Spent s.which hs (remaining cost p) s.rest s.works in
    (
      picks bs hs,
      picks-Chosen bs hs (length-bits s.which (length hs)),
      λ c. omega (
        int_laws,
        spent.nonneg v c,
        parts_of_eq (spent.by_color c),
        parts_of_eq (field-remaining cost p c),
        need-colored cost (picks bs hs) c,
      ),
      omega (int_laws, parts_of_eq (total-remaining cost p)),
    )

pub can_pay_cost_sound :
    (cost : ManaCost) (p : ManaPool) → IsNonneg p → can_pay_cost cost p ≡ true → IsPayable cost p
unfolding search_result
can_pay_cost_sound cost p v h =
    let (l, k, e) = can_pay_cost-parts cost p h in
    let nonneg = remaining-IsNonneg cost p v l in
    let le = enough→le (search_result cost p) cost e in
    elim (mask_loop_cases (2 ^ length cost.hybrid_costs) 0 cost.hybrid_costs (remaining cost p)
      nonneg) [
        | inl q ↦ absurd (omega (arith, subst (λ t. pos 0 ≤ℤ t) q le.0))
        | inr (s, q) ↦ way_to_pay cost p nonneg s (subst (λ t. pos cost.colorless ≤ℤ t) q le.1)
      ]

pub can_pay_cost_complete :
    (cost : ManaCost) (p : ManaPool)
    → length cost.hybrid_costs ≤ 10
    → IsPayable cost p
    → can_pay_cost cost p ≡ true
unfolding search_result
can_pay_cost_complete cost p k (cs, chosen, fits, all) =
    let hs = cost.hybrid_costs in
    let r = remaining cost p in
    let (bs, n, q) = bits_of_choice hs cs chosen in
    let (r', e) = try_bits_complete bs hs r (λ c.
      rw q (
        omega
          (int_laws, fits c, need-colored cost cs c, parts_of_eq (field-remaining cost p c)))) in
    let rest : pos cost.colorless ≤ℤ left_over hs r =
      omega (int_laws, all, parts_of_eq (total-remaining cost p)) in
    let below : encode bs < 0 + 2 ^ length hs = omega (arith, encode-lt bs, ap (λ t. 2 ^ t) n) in
    let found = mask_loop_found (2 ^ length hs) 0 hs r (omega arith) (record {
      which = encode bs;
      after = omega arith;
      before = below;
      rest = r';
      works =
          try_mask-bits (encode bs) hs r
          ∙ ap (λ t. try_bits t hs r) (ap (bits (encode bs)) (sym n) ∙ bits-encode bs)
          ∙ e;
    }) in
    parts-can_pay_cost cost p (has_colors cost p cs fits) k
      (rw found (le→enough (left_over hs r) cost rest))

-- For a pool with no field below zero: a cost with at most ten hybrid symbols is accepted exactly if
-- there is a choice of one color for each hybrid symbol such that every color that the cost and the
-- choice need is in the pool, and the pool as a whole holds the generic mana too; a cost with more
-- hybrid symbols is always refused.
pub can_pay_cost_iff :
    (cost : ManaCost) (p : ManaPool)
    → IsNonneg p
    → (length cost.hybrid_costs ≤ 10 → (can_pay_cost cost p ≡ true) ↔ IsPayable cost p)
      × (10 < length cost.hybrid_costs → can_pay_cost cost p ≡ false)
unfolding can_pay_cost
can_pay_cost_iff cost p v =
    (λ k. (can_pay_cost_sound cost p v, can_pay_cost_complete cost p k), λ many. ground arith)

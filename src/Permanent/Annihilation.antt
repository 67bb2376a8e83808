-- ===== src/Permanent/Annihilation.antt =====
-- Counter annihilation, the last check of server/src/engine/state_based_actions.cpp.
use Prim.Native.String.{String}
use uud.Base.StringMaps
use uud.Base.{
  if◌then◌else◌, Bool-cases, Option-cases, ◌≡◌, ◌∙◌, ◌⊎◌, inl, inr, true, false, ◌&&◌, arith,
}
use uud.Base.Int.{ℤ, ◌+ℤ◌, ◌-ℤ◌, ◌≤ℤ◌, ltb_ℤ, pos}
use uud.Permanent.{
  Permanent, get_counters, max_ℤ, min_ℤ, eqb_ℤ, store_counter, remove_counter, base_power,
  base_toughness, plus_one, minus_one, counter_mod, effective_power, effective_toughness,
  cancel_counters,
}
use uud.Permanent.Counters.{
  remove_counter-absent, remove_counter-present, get_counters-remove_counter,
}

cancelled : Permanent → ℤ
cancelled p = min_ℤ (get_counters plus_one p) (get_counters minus_one p)

both_removed : Permanent → Permanent
both_removed p = remove_counter minus_one (cancelled p) (remove_counter plus_one (cancelled p) p)

cancel_counters-both :
    (p : Permanent)
    → ltb_ℤ (pos 0) (get_counters plus_one p) && ltb_ℤ (pos 0) (get_counters minus_one p) ≡ true
    → cancel_counters p ≡ both_removed p
unfolding cancel_counters both_removed cancelled
cancel_counters-both p e = rw e

cancel_counters-idle :
    (p : Permanent)
    → ltb_ℤ (pos 0) (get_counters plus_one p) && ltb_ℤ (pos 0) (get_counters minus_one p) ≡ false
    → cancel_counters p ≡ p
unfolding cancel_counters
cancel_counters-idle p e = rw e

counts_after :
    (amount : ℤ) (p : Permanent)
    → pos 0 ≤ℤ amount
    → (get_counters plus_one (remove_counter minus_one amount (remove_counter plus_one amount p))
        ≡ max_ℤ (pos 0) (get_counters plus_one p -ℤ amount))
      × (get_counters minus_one (remove_counter minus_one amount (remove_counter plus_one amount p))
          ≡ max_ℤ (pos 0) (get_counters minus_one p -ℤ amount))
counts_after amount p nonneg =
    let once = remove_counter plus_one amount p in
    (
      get_counters-remove_counter minus_one plus_one amount once nonneg
          ∙ get_counters-remove_counter plus_one plus_one amount p nonneg,
      get_counters-remove_counter minus_one minus_one amount once nonneg
          ∙ rw (get_counters-remove_counter plus_one minus_one amount p nonneg),
    )

-- Power and toughness without the counters.
uncountered : Permanent → ℤ × ℤ
uncountered p =
    if p.animated
    then (p.animated_power +ℤ p.power_mod, p.animated_toughness +ℤ p.toughness_mod)
    else (
      base_power p.card.creature_stats +ℤ p.power_mod,
      base_toughness p.card.creature_stats +ℤ p.toughness_mod,
    )

effective_power-split : (p : Permanent) → effective_power p ≡ (uncountered p).0 +ℤ counter_mod p
unfolding effective_power uncountered
effective_power-split p = elim (Bool-cases p.animated) [ inl e ↦ simp e | inr e ↦ simp e ]

effective_toughness-split :
    (p : Permanent) → effective_toughness p ≡ (uncountered p).1 +ℤ counter_mod p
unfolding effective_toughness uncountered
effective_toughness-split p = elim (Bool-cases p.animated) [ inl e ↦ simp e | inr e ↦ simp e ]

uncountered-store_counter :
    (type : String) (left : ℤ) (p : Permanent)
    → uncountered (store_counter type left p) ≡ uncountered p
unfolding uncountered
uncountered-store_counter type left p = elim (Bool-cases (eqb_ℤ left (pos 0))) [
  | inl e ↦ rw e
  | inr e ↦ rw e
]

uncountered-remove_counter :
    (type : String) (amount : ℤ) (p : Permanent)
    → uncountered (remove_counter type amount p) ≡ uncountered p
uncountered-remove_counter type amount p = elim (Option-cases (StringMaps.lookup type p.counters)) [
  | inl absent ↦ rw (remove_counter-absent type amount p absent)
  | inr (n, present) ↦
      (rw (remove_counter-present type amount p n present))
      ∙ uncountered-store_counter type (max_ℤ (pos 0) (n -ℤ amount)) p
]

min_cancels :
    (a b : ℤ)
    → ltb_ℤ (pos 0) a && ltb_ℤ (pos 0) b ≡ true
    → (pos 0 ≤ℤ min_ℤ a b)
      × (max_ℤ (pos 0) (a -ℤ min_ℤ a b) -ℤ max_ℤ (pos 0) (b -ℤ min_ℤ a b) ≡ a -ℤ b)
      × ((max_ℤ (pos 0) (a -ℤ min_ℤ a b) ≡ pos 0) ⊎ (max_ℤ (pos 0) (b -ℤ min_ℤ a b) ≡ pos 0))
unfolding ◌-ℤ◌
min_cancels a b h = ground arith

counter_mod-both_removed :
    (p : Permanent)
    → ltb_ℤ (pos 0) (get_counters plus_one p) && ltb_ℤ (pos 0) (get_counters minus_one p) ≡ true
    → counter_mod (both_removed p) ≡ counter_mod p
unfolding cancelled counter_mod both_removed
counter_mod-both_removed p both =
    let (nonneg, same, _) = min_cancels (get_counters plus_one p) (get_counters minus_one p) both in
    let (plus_left, minus_left) = counts_after (cancelled p) p nonneg in
    (rw (plus_left, minus_left)) ∙ same

uncountered-both_removed : (p : Permanent) → uncountered (both_removed p) ≡ uncountered p
unfolding both_removed
uncountered-both_removed p =
    uncountered-remove_counter minus_one (cancelled p) (remove_counter plus_one (cancelled p) p)
    ∙ uncountered-remove_counter plus_one (cancelled p) p

stats-both_removed :
    (p : Permanent)
    → ltb_ℤ (pos 0) (get_counters plus_one p) && ltb_ℤ (pos 0) (get_counters minus_one p) ≡ true
    → (effective_power (both_removed p) ≡ effective_power p)
      × (effective_toughness (both_removed p) ≡ effective_toughness p)
stats-both_removed p both =
    let counters = counter_mod-both_removed p both in
    let others = uncountered-both_removed p in
    (
      rw (effective_power-split (both_removed p), effective_power-split p, counters, others),
      rw (
        effective_toughness-split (both_removed p),
        effective_toughness-split p,
        counters,
        others,
      ),
    )

one_kind_gone :
    (p : Permanent)
    → ltb_ℤ (pos 0) (get_counters plus_one p) && ltb_ℤ (pos 0) (get_counters minus_one p) ≡ true
    → (get_counters plus_one (both_removed p) ≡ pos 0)
      ⊎ (get_counters minus_one (both_removed p) ≡ pos 0)
unfolding cancelled both_removed
one_kind_gone p both =
    let (nonneg, _, gone) = min_cancels (get_counters plus_one p) (get_counters minus_one p) both in
    let (plus_left, minus_left) = counts_after (cancelled p) p nonneg in
    elim gone [ inl e ↦ inl (plus_left ∙ e) | inr e ↦ inr (minus_left ∙ e) ]

-- Annihilation changes neither the power nor the toughness of a permanent.
pub cancel_counters-keeps_stats :
    (p : Permanent)
    → (effective_power (cancel_counters p) ≡ effective_power p)
      × (effective_toughness (cancel_counters p) ≡ effective_toughness p)
cancel_counters-keeps_stats p =
    elim (Bool-cases
      (ltb_ℤ (pos 0) (get_counters plus_one p) && ltb_ℤ (pos 0) (get_counters minus_one p))) [
        | inr idle ↦ (rw (cancel_counters-idle p idle), rw (cancel_counters-idle p idle))
        | inl both ↦
            let removed : cancel_counters p ≡ both_removed p = cancel_counters-both p both in
            let (power, toughness) = stats-both_removed p both in
            (rw removed power, rw removed toughness)
      ]

-- When a permanent has counters of both kinds, no counter of at least one of the kinds is left
-- after annihilation.
pub cancel_counters-one_kind :
    (p : Permanent)
    → ltb_ℤ (pos 0) (get_counters plus_one p) && ltb_ℤ (pos 0) (get_counters minus_one p) ≡ true
    → (get_counters plus_one (cancel_counters p) ≡ pos 0)
      ⊎ (get_counters minus_one (cancel_counters p) ≡ pos 0)
cancel_counters-one_kind p both =
    let removed : cancel_counters p ≡ both_removed p = cancel_counters-both p both in
    rw removed (one_kind_gone p both)

-- ===== src/StateBased/Passes.antt =====
-- The checks that change permanents in place (server/src/engine/state_based_actions.cpp).
use Prim.Native.String.{String}
use uud.Base.Int.{ℤ, ◌-ℤ◌, pos}
use uud.Base.StringMaps
use uud.Base.Maps.{Map}
use uud.Base.{
  Bool-cases, Option-cases, is_some, &&_split, ℕ, ◌+◌, ◌<◌, ◌≡◌, refl, ap, ◌∙◌, ◌⊎◌, inl, inr, Bool,
  true, false, ◌&&◌, Option, none, some, [], ◌∷◌, arith,
}
use uud.Permanent.{
  Permanent, get_counters, max_ℤ, eqb_ℤ, store_counter, remove_counter, detach, plus_one, minus_one,
  cancel_counters,
}
use uud.Permanent.Annihilation.{cancel_counters-one_kind}
use uud.Permanent.Counters.{remove_counter-absent, remove_counter-present}
use uud.Zones.{ZoneManager, ids_where}
use uud.StateBased.{
  Board, destroy_each, lost_target, is_loose_aura, is_loose_equipment, entry_after, change_where,
  change_permanents, check_attachments, has_both_counters, check_counters,
}
use uud.StateBased.Measure.{weight, weight_all, measure, Progress, and_then-Progress}
use uud.StateBased.Removal.{destroy_each-Progress}

change_step :
    (passed : Bool) (id : ℕ) (perm new : Permanent) (m : Map Permanent)
    (rest : Map Permanent × Bool)
    → (passed ≡ true → weight new < weight perm)
    → (rest ≡ (m, false)) ⊎ ((rest.1 ≡ true) × weight_all rest.0 < weight_all m)
    → (entry_after passed id perm new rest ≡ ((id, perm) ∷ m, false))
      ⊎ (((entry_after passed id perm new rest).1 ≡ true)
          × weight_all (entry_after passed id perm new rest).0 < weight perm + weight_all m)
change_step true id perm new m rest lowers (inl same) =
    inr (refl, rw same (omega (arith, lowers refl)))
change_step true id perm new m rest lowers (inr (applied, fewer)) =
    inr (refl, omega (arith, lowers refl, fewer))
change_step false id perm new m rest lowers (inl same) =
    inl (ap (λ r. ((id, perm) ∷ r.0, r.1)) same)
change_step false id perm new m rest lowers (inr (applied, fewer)) =
    inr (applied, omega (arith, fewer))

change_where-progress :
    (test : Permanent → Bool) (change : Permanent → Permanent) (m : Map Permanent)
    → ((p : Permanent) → test p ≡ true → weight (change p) < weight p)
    → (change_where test change m ≡ (m, false))
      ⊎ (((change_where test change m).1 ≡ true)
          × weight_all (change_where test change m).0 < weight_all m)
unfolding change_where
change_where-progress test change [] lowers = inl refl
change_where-progress test change ((id, perm) ∷ m) lowers =
    change_step (test perm) id perm (change perm) m _ (lowers perm)
      (change_where-progress test change m lowers)

pub change_permanents-Progress :
    (test : Permanent → Bool) (change : Permanent → Permanent) (b : Board)
    → ((p : Permanent) → test p ≡ true → weight (change p) < weight p)
    → Progress (change_permanents test change b) b
unfolding Progress measure
change_permanents-Progress test change b lowers =
    elim (change_where-progress test change b.zones.battlefield lowers) [
      | inl same ↦ inr (
        ap (λ r. r.1) same,
        ap (λ r. record b { zones = record b.zones { battlefield = r.0 } }) same,
      )
      | inr (applied, fewer) ↦ inl (applied, omega (arith, fewer))
    ]

-- Detaching an equipment whose target is gone.
lost_is_some : (t : Option ℕ) (z : ZoneManager) → lost_target t z ≡ true → is_some t ≡ true
lost_is_some none z h = absurd (cc)
lost_is_some (some t) z h = refl

pub detach-weight :
    (z : ZoneManager) (p : Permanent) → is_loose_equipment z p ≡ true → weight (detach p) < weight p
unfolding weight detach get_counters
detach-weight z p h =
    let (lost, _) = &&_split (lost_target p.attached_to z) _ h in
    let was : is_some p.attached_to ≡ true = lost_is_some p.attached_to z lost in
    rw was (omega arith)

attached_to-store :
    (type : String) (left : ℤ) (p : Permanent)
    → (store_counter type left p).attached_to ≡ p.attached_to
attached_to-store type left p = elim (Bool-cases (eqb_ℤ left (pos 0))) [
  | inl e ↦ rw e refl
  | inr e ↦ rw e refl
]

attached_to-remove :
    (type : String) (n : ℤ) (p : Permanent) → (remove_counter type n p).attached_to ≡ p.attached_to
attached_to-remove type n p = elim (Option-cases (StringMaps.lookup type p.counters)) [
  | inl e ↦ ap (λ q. q.attached_to) (remove_counter-absent type n p e)
  | inr (have, e) ↦
      ap (λ q. q.attached_to) (remove_counter-present type n p have e)
      ∙ attached_to-store type (max_ℤ (pos 0) (have -ℤ n)) p
]

attached_to-cancel : (p : Permanent) → (cancel_counters p).attached_to ≡ p.attached_to
unfolding cancel_counters
attached_to-cancel p = elim (Bool-cases (has_both_counters p)) [
  | inl e ↦ rw e (attached_to-remove minus_one _ _ ∙ attached_to-remove plus_one _ p)
  | inr e ↦ rw e refl
]

and_false : (a : Bool) → (a && false) ≡ false
and_false a = ground arith

one_kind_left :
    (p : Permanent) → has_both_counters p ≡ true → has_both_counters (cancel_counters p) ≡ false
one_kind_left p both = elim (cancel_counters-one_kind p both) [
  | inl e ↦ rw e refl
  | inr e ↦ rw e (and_false _)
]

cancel-weight : (p : Permanent) → has_both_counters p ≡ true → weight (cancel_counters p) < weight p
unfolding weight get_counters
cancel-weight p both = rw (attached_to-cancel p, both, one_kind_left p both) (omega arith)

pub check_attachments-Progress : (b : Board) → Progress (check_attachments b) b
unfolding check_attachments
check_attachments-Progress b =
    and_then-Progress _ b (destroy_each (ids_where (is_loose_aura b.zones) b.zones.battlefield))
      (change_permanents-Progress (is_loose_equipment b.zones) detach b (detach-weight b.zones))
      (destroy_each-Progress _)

pub check_counters-Progress : (b : Board) → Progress (check_counters b) b
unfolding check_counters
check_counters-Progress b =
    change_permanents-Progress has_both_counters cancel_counters b cancel-weight

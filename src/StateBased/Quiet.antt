-- ===== src/StateBased/Quiet.antt =====
-- What a check that applied nothing says of the game
-- (server/src/engine/state_based_actions.cpp).
use uud.Base.Maps.{Map, at}
use uud.Base.Maps
use uud.Base.{
  ◌==◌, if◌then◌else◌, Bool-cases, any_of, ℕ, ◌≡◌, refl, ap, subst, ◌∙◌, ◌⊎◌, inl, inr, Bool, true,
  false, not, ◌&&◌, ◌||◌, some, List, [], ◌∷◌, map, arith,
}
use uud.Permanent.{Permanent, detach, cancel_counters}
use uud.Zones.{ZoneManager, find_permanent, ids_where}
use uud.StateBased.{
  Board, dies, destroy_each, DyingCreature, dying_creatures, lost_target, is_aura, is_loose_aura,
  is_loose_equipment, entry_after, change_where, change_permanents, check_attachments,
  has_both_counters, check_counters, check_creatures,
}
use uud.StateBased.Passes.{change_permanents-Progress, detach-weight}
use uud.StateBased.Creatures.{destroy_each-applied, unapplied-same}
use uud.StateBased.Rest.{any_permanent}

was_applied :
    (passed : Bool) (id : ℕ) (perm new : Permanent) (rest : Map Permanent × Bool)
    → passed ≡ true
    → (entry_after passed id perm new rest).1 ≡ false
    → ⊥
was_applied true id perm new rest e h = absurd (cc)
was_applied false id perm new rest e h = absurd (cc)

was_not :
    (passed : Bool) (id : ℕ) (perm new : Permanent) (rest : Map Permanent × Bool)
    → passed ≡ false
    → (entry_after passed id perm new rest).1 ≡ false
    → rest.1 ≡ false
was_not true id perm new rest e h = absurd (cc)
was_not false id perm new rest e h = h

not_nil :
    (passed : Bool) (id : ℕ) (ids : List ℕ)
    → passed ≡ true
    → (if passed then id ∷ ids else ids) ≡ []
    → ⊥
not_nil true id ids e h = absurd (cc)
not_nil false id ids e h = absurd (cc)

then_nil :
    (passed : Bool) (id : ℕ) (ids : List ℕ)
    → passed ≡ false
    → (if passed then id ∷ ids else ids) ≡ []
    → ids ≡ []
then_nil true id ids e h = absurd (cc)
then_nil false id ids e h = h

first_id :
    (passed : Bool) (k : ℕ) (rest : List ℕ) (id : ℕ) (ids : List ℕ)
    → (if passed then k ∷ rest else rest) ≡ id ∷ ids
    → (k ≡ id) ⊎ (rest ≡ id ∷ ids)
first_id true k rest id ids h = inl (cc)
first_id false k rest id ids h = inr h

-- A pass over the permanents that applied nothing met none that passes.
change_where-none :
    (test : Permanent → Bool) (change : Permanent → Permanent) (m : Map Permanent)
    → (change_where test change m).1 ≡ false
    → any_of (λ entry. test entry.1) m ≡ false
unfolding change_where
change_where-none test change [] h = refl
change_where-none test change ((id, perm) ∷ m) h = elim (Bool-cases (test perm)) [
  | inl e ↦ absurd (was_applied (test perm) id perm (change perm) (change_where test change m) e h)
  | inr e ↦ rw e (
      change_where-none test change m
        (was_not (test perm) id perm (change perm) (change_where test change m) e h))
]

-- Ids of permanents that pass a test are ids on the battlefield.
ids_where-none :
    (test : Permanent → Bool) (m : Map Permanent)
    → ids_where test m ≡ []
    → any_of (λ entry. test entry.1) m ≡ false
ids_where-none test [] h = refl
ids_where-none test ((id, perm) ∷ m) h = elim (Bool-cases (test perm)) [
  | inl e ↦ absurd (not_nil (test perm) id (ids_where test m) e h)
  | inr e ↦ rw e (ids_where-none test m (then_nil (test perm) id (ids_where test m) e h))
]

ids_where-found :
    (test : Permanent → Bool) (m : Map Permanent) (id : ℕ) (ids : List ℕ)
    → ids_where test m ≡ id ∷ ids
    → (perm : Permanent) × (Maps.lookup id m ≡ some perm)
unfolding Maps.lookup
ids_where-found test [] id ids h = absurd (cc)
ids_where-found test ((k, perm) ∷ m) id ids h = elim (Bool-cases (k == id)) [
  | inl e ↦ (perm, rw e refl)
  | inr e ↦ elim (first_id (test perm) k (ids_where test m) id ids h) [
    | inl same ↦ absurd (ground (arith, same, e))
    | inr later ↦ let (found, at) = ids_where-found test m id ids later in (found, rw e at)
  ]
]

List-cases :
    {A : Type 0} (xs : List A) → (xs ≡ []) ⊎ ((x : A) × (others : List A) × (xs ≡ x ∷ others))
List-cases [] = inl refl
List-cases (x ∷ xs) = inr (x, xs, refl)

pub true-false : (b : Bool) → b ≡ true → b ≡ false → ⊥
true-false b e f = absurd (cc)

split_step :
    (one other a b c : Bool)
    → (one && not other || a) ≡ false
    → (one && other || b) ≡ false
    → (a ≡ false → b ≡ false → c ≡ false)
    → (one || c) ≡ false
split_step one other a b c h k rest = ground arith

-- Ids whose destruction applied nothing: there were none, when each is on the battlefield.
destroy_each-none :
    (test : Permanent → Bool) (b : Board)
    → (destroy_each (ids_where test b.zones.battlefield) b).applied ≡ false
    → ids_where test b.zones.battlefield ≡ []
destroy_each-none test b h = elim (List-cases (ids_where test b.zones.battlefield)) [
  | inl e ↦ e
  | inr (id, ids, e) ↦
      let (perm, found) = ids_where-found test b.zones.battlefield id ids e in
      let applied = subst (λ l. (destroy_each l b).applied ≡ false) e h in
      absurd (true-false _ (destroy_each-applied id ids perm b found) applied)
]

dying_first :
    (id : ℕ) (ids : List ℕ) (perm : Permanent) (z : ZoneManager)
    → Maps.lookup id z.battlefield ≡ some perm
    → map (λ (d : DyingCreature). d.id) (dying_creatures (id ∷ ids) z)
      ≡ id ∷ map (λ (d : DyingCreature). d.id) (dying_creatures ids z)
unfolding dying_creatures find_permanent
dying_first id ids perm z e = rw e refl

-- The same of the check of the creatures.
pub creatures-none :
    (fire_death : DyingCreature → Board → Board) (b : Board)
    → (check_creatures fire_death b).applied ≡ false
    → any_permanent dies b ≡ false
unfolding check_creatures
creatures-none fire_death b h = elim (List-cases (ids_where dies b.zones.battlefield)) [
  | inl e ↦ ids_where-none dies b.zones.battlefield e
  | inr (id, ids, e) ↦
      let (perm, found) = ids_where-found dies b.zones.battlefield id ids e in
      let first =
        ap (λ l. map (λ (d : DyingCreature). d.id) (dying_creatures l b.zones)) e
        ∙ dying_first id ids perm b.zones found in
      absurd (
        true-false _ (destroy_each-applied id _ perm b found)
          (subst (λ l. (destroy_each l b).applied ≡ false) first h))
]

pub neither : (a b : Bool) → (a || b) ≡ false → (a ≡ false) × (b ≡ false)
neither a b h = ground arith

split_tests :
    (one other : Permanent → Bool) (m : Map Permanent)
    → any_of (λ entry. one entry.1 && not (other entry.1)) m ≡ false
    → any_of (λ entry. one entry.1 && other entry.1) m ≡ false
    → any_of (λ entry. one entry.1) m ≡ false
split_tests one other [] h k = refl
split_tests one other ((id, perm) ∷ m) h k =
    split_step (one perm) (other perm) _ _ _ h k (split_tests one other m)

pub attachments-none :
    (b : Board)
    → (check_attachments b).applied ≡ false
    → any_permanent (λ perm. lost_target perm.attached_to b.zones) b ≡ false
unfolding check_attachments
attachments-none b h =
    let passed = change_permanents (is_loose_equipment b.zones) detach b in
    let auras = ids_where (is_loose_aura b.zones) b.zones.battlefield in
    let (no_equipment, no_aura) = neither passed.applied _ h in
    let same : passed.board ≡ b =
      unapplied-same passed b
        (change_permanents-Progress (is_loose_equipment b.zones) detach b (detach-weight b.zones))
        no_equipment in
    let no_aura' = subst (λ c. (destroy_each auras c).applied ≡ false) same no_aura in
    split_tests (λ perm. lost_target perm.attached_to b.zones) is_aura b.zones.battlefield
      (change_where-none (is_loose_equipment b.zones) detach b.zones.battlefield no_equipment)
      (ids_where-none (is_loose_aura b.zones) b.zones.battlefield
        (destroy_each-none (is_loose_aura b.zones) b no_aura'))

pub counters-none :
    (b : Board) → (check_counters b).applied ≡ false → any_permanent has_both_counters b ≡ false
unfolding check_counters
counters-none b h = change_where-none has_both_counters cancel_counters b.zones.battlefield h

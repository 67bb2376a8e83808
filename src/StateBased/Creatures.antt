-- ===== src/StateBased/Creatures.antt =====
-- The check of the creatures (server/src/engine/state_based_actions.cpp).
use uud.Base.Maps
use uud.Base.{
  ℕ, ◌≤◌, ◌<◌, ◌≡◌, refl, ◌⊎◌, inl, inr, true, false, Option, none, some, List, [], ◌∷◌, map, arith,
}
use uud.Permanent.{Permanent}
use uud.Zones.{ZoneManager, find_permanent, ids_where}
use uud.StateBased.{
  Board, Outcome, dies, destroy_each, DyingCreature, dying_of, dying_creatures, active_first,
  fire_each, check_creatures,
}
use uud.StateBased.Measure.{measure, Progress}
use uud.StateBased.Removal.{destroy-some, destroy_each-Progress}

-- The list of the dying is empty, or starts with a permanent that is on the battlefield.
abbrev DyingCases : List DyingCreature → ZoneManager → Type 0
DyingCases ds z =
    (ds ≡ [])
    ⊎ ((d : DyingCreature) × (others : List DyingCreature) × (perm : Permanent) × (ds ≡ d ∷ others)
        × (Maps.lookup d.id z.battlefield ≡ some perm))

dying_step :
    (id : ℕ) (found : Option Permanent) (others : List DyingCreature) (z : ZoneManager)
    → Maps.lookup id z.battlefield ≡ found
    → DyingCases others z
    → DyingCases (dying_of id found others) z
dying_step id none others z e rest = rest
dying_step id (some perm) others z e rest = inr (_, others, perm, refl, e)

dying_cases : (ids : List ℕ) (z : ZoneManager) → DyingCases (dying_creatures ids z) z
unfolding dying_creatures find_permanent
dying_cases [] z = inl refl
dying_cases (id ∷ ids) z = dying_step id _ _ z refl (dying_cases ids z)

-- The first permanent of a list is found, so something is destroyed.
pub destroy_each-applied :
    (id : ℕ) (ids : List ℕ) (perm : Permanent) (b : Board)
    → Maps.lookup id b.zones.battlefield ≡ some perm
    → (destroy_each (id ∷ ids) b).applied ≡ true
unfolding destroy_each
destroy_each-applied id ids perm b e = rw (destroy-some id perm b e) refl

-- What Progress says when something was applied, and when nothing was.
pub applied-less :
    (o : Outcome) (b : Board) → Progress o b → o.applied ≡ true → measure o.board < measure b
unfolding Progress
applied-less o b (inl (_, fewer)) a = fewer
applied-less o b (inr (a', _)) a = absurd (cc)

pub unapplied-same : (o : Outcome) (b : Board) → Progress o b → o.applied ≡ false → o.board ≡ b
unfolding Progress
unapplied-same o b (inl (a', _)) a = absurd (cc)
unapplied-same o b (inr (_, same)) a = same

module _ (fire_death : DyingCreature → Board → Board) where
  fire_each-le :
      ((d : DyingCreature) (b : Board) → measure (fire_death d b) ≤ measure b)
      → (ds : List DyingCreature) (b : Board) → measure (fire_each fire_death ds b) ≤ measure b
  fire_each-le keeps [] b = omega arith
  fire_each-le keeps (d ∷ ds) b = omega (arith, keeps d b, fire_each-le keeps ds (fire_death d b))

  -- The check of the creatures, once the list of the dying is known.
  abbrev creatures_after : List DyingCreature → Board → Outcome
  creatures_after dying b = record (destroy_each (map (λ d. d.id) dying) b) {
    board =
        fire_each fire_death (active_first b.active_player_id dying)
          (destroy_each (map (λ d. d.id) dying) b).board;
  }

  creatures_after-Progress :
      ((d : DyingCreature) (b : Board) → measure (fire_death d b) ≤ measure b)
      → (dying : List DyingCreature) (b : Board) → DyingCases dying b.zones
      → Progress (creatures_after dying b) b
  unfolding Progress destroy_each
  creatures_after-Progress keeps dying b (inl none_dies) =
      inr (rw none_dies refl, rw none_dies refl)
  creatures_after-Progress keeps dying b (inr (d, others, perm, shape, e)) =
      let ids = map (λ x. x.id) others in
      let applied : (destroy_each (map (λ x. x.id) dying) b).applied ≡ true =
        rw shape (destroy_each-applied d.id ids perm b e) in
      let fewer : measure (destroy_each (map (λ x. x.id) dying) b).board < measure b =
        applied-less _ b (destroy_each-Progress (map (λ x. x.id) dying) b) applied in
      inl (
        applied,
        omega (
          arith,
          fewer,
          fire_each-le keeps (active_first b.active_player_id dying)
              (destroy_each (map (λ x. x.id) dying) b).board,
        ),
      )

  pub check_creatures-Progress :
      ((d : DyingCreature) (b : Board) → measure (fire_death d b) ≤ measure b)
      → (b : Board) → Progress (check_creatures fire_death b) b
  unfolding check_creatures
  check_creatures-Progress keeps b =
      creatures_after-Progress keeps _ b (dying_cases (ids_where dies b.zones.battlefield) b.zones)

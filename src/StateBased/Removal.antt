-- ===== src/StateBased/Removal.antt =====
-- Permanents that are destroyed (server/src/engine/state_based_actions.cpp).
use Prim.Native.String.{String}
use uud.Base.Maps
use uud.Base.{
  ◌==◌, if◌then◌else◌, Bool-cases, Option-cases, is_some, ℕ, ◌≡◌, refl, ap, ap₂, ◌∙◌, inl, inr,
  Bool, true, false, not, ◌&&◌, none, some, List, [], ◌∷◌, ◌++◌, append-nil, arith,
}
use uud.Permanent.{Permanent}
use uud.Zones.{ZoneManager, remove_from_battlefield, find_permanent, add_to_graveyard}
use uud.StateBased.{
  Board, no_change, changed, check_players, name_of, put_away, removal, destroy, destroy_each,
  Legends, is_legend_of, destroy_others, Choice, keep_id_of, check_group, check_groups,
  check_legends,
}
use uud.StateBased.Measure.{
  tally, measure, Progress, no_change-Progress, and_then-Progress, weight_all-erase,
}
use uud.StateBased.Players.{check_each-progress}

removed-none :
    (id : ℕ) (z : ZoneManager)
    → Maps.lookup id z.battlefield ≡ none
    → remove_from_battlefield id z ≡ (none, z)
unfolding remove_from_battlefield
removed-none id z e = rw (e, remove_from_battlefield) refl

removed-some :
    (id : ℕ) (perm : Permanent) (z : ZoneManager)
    → Maps.lookup id z.battlefield ≡ some perm
    → remove_from_battlefield id z ≡ (
      some perm,
      record z { battlefield = Maps.erase id z.battlefield; card_zone = Maps.erase id z.card_zone },
    )
unfolding remove_from_battlefield
removed-some id perm z e = rw (e, remove_from_battlefield) refl

pub destroy-none :
    (id : ℕ) (b : Board) → Maps.lookup id b.zones.battlefield ≡ none → destroy id b ≡ no_change b
unfolding destroy find_permanent
destroy-none id b e = ap₂ (λ name r. removal id name r b) (ap name_of e) (removed-none id b.zones e)

-- The game without a permanent, its card put away.
abbrev without : ℕ → Permanent → Board → Board
without id perm b = put_away id perm.card.name perm (record b {
  zones = record b.zones {
    battlefield = Maps.erase id b.zones.battlefield;
    card_zone = Maps.erase id b.zones.card_zone;
  };
})

pub destroy-some :
    (id : ℕ) (perm : Permanent) (b : Board)
    → Maps.lookup id b.zones.battlefield ≡ some perm
    → destroy id b ≡ changed (without id perm b)
unfolding destroy find_permanent
destroy-some id perm b e =
    ap₂ (λ name r. removal id name r b) (ap name_of e) (removed-some id perm b.zones e)

kept_battlefield :
    (perm : Permanent) (z : ZoneManager)
    → (if perm.is_token then z else add_to_graveyard perm.owner_id perm.card z).battlefield
      ≡ z.battlefield
unfolding add_to_graveyard
kept_battlefield perm z = elim (Bool-cases perm.is_token) [ inl e ↦ rw e refl | inr e ↦ rw e refl ]

less :
    (id : ℕ) (perm : Permanent) (b : Board)
    → Maps.lookup id b.zones.battlefield ≡ some perm
    → Progress (changed (without id perm b)) b
unfolding Progress measure add_to_graveyard
less id perm b e =
    let gone : tally (is_some (Maps.lookup id b.zones.battlefield)) ≡ 1 = rw e refl in
    let same : (without id perm b).zones.battlefield ≡ Maps.erase id b.zones.battlefield =
      kept_battlefield perm _ in
    inl (refl, rw same (omega (arith, weight_all-erase id b.zones.battlefield, gone)))

destroy-Progress : (id : ℕ) (b : Board) → Progress (destroy id b) b
destroy-Progress id b = elim (Option-cases (Maps.lookup id b.zones.battlefield)) [
  | inl e ↦ rw (destroy-none id b e) (no_change-Progress b)
  | inr (perm, e) ↦ rw (destroy-some id perm b e) (less id perm b e)
]

if_Progress :
    (test : Bool) (id : ℕ) (b : Board) → Progress (if test then destroy id b else no_change b) b
if_Progress true id b = destroy-Progress id b
if_Progress false id b = no_change-Progress b

pub destroy_each-Progress : (ids : List ℕ) (b : Board) → Progress (destroy_each ids b) b
unfolding destroy_each
destroy_each-Progress [] b = no_change-Progress b
destroy_each-Progress (id ∷ ids) b =
    and_then-Progress (destroy id b) b (destroy_each ids) (destroy-Progress id b)
      (destroy_each-Progress ids)

destroy_others-Progress :
    (key : ℕ × String) (keep_id : ℕ) (ids : List ℕ) (b : Board)
    → Progress (destroy_others key keep_id ids b) b
unfolding destroy_others
destroy_others-Progress key keep_id [] b = no_change-Progress b
destroy_others-Progress key keep_id (id ∷ ids) b =
    and_then-Progress _ b (destroy_others key keep_id ids)
      (if_Progress (not (id == keep_id) && is_legend_of key (find_permanent id b.zones)) id b)
      (destroy_others-Progress key keep_id ids)

check_group-Progress :
    (choose : Choice) (key : ℕ × String) (ids : List ℕ) (b : Board)
    → Progress (check_group choose key ids b) b
check_group-Progress choose key [] b = no_change-Progress b
check_group-Progress choose key (id ∷ []) b = no_change-Progress b
check_group-Progress choose key (first ∷ second ∷ ids) b =
    destroy_others-Progress key (keep_id_of choose key first (second ∷ ids) b)
      (first ∷ second ∷ ids) b

check_groups-Progress :
    (choose : Choice) (groups : Legends) (b : Board) → Progress (check_groups choose groups b) b
unfolding check_groups
check_groups-Progress choose [] b = no_change-Progress b
check_groups-Progress choose ((key, ids) ∷ groups) b =
    and_then-Progress (check_group choose key ids b) b (check_groups choose groups)
      (check_group-Progress choose key ids b) (check_groups-Progress choose groups)

pub check_legends-Progress : (choose : Choice) (b : Board) → Progress (check_legends choose b) b
unfolding check_legends
check_legends-Progress choose b = check_groups-Progress choose _ b

pub check_players-Progress : (b : Board) → Progress (check_players b) b
unfolding check_players Progress measure
check_players-Progress b = elim (check_each-progress b.players) [
  | inl same ↦ inr (
    ap (λ r. r.2) same,
    ap (λ r. record b { players = r.0; events = b.events ++ r.1 }) same
        ∙ ap (λ events. record b { events = events }) (append-nil b.events),
  )
  | inr (applied, fewer) ↦ inl (applied, omega (arith, fewer))
]

-- A pass over the permanents that lowers the weight of each one it changes.

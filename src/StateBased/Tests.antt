-- ===== src/StateBased/Tests.antt =====
-- Runs of the state-based actions (server/src/engine/state_based_actions.cpp).
use uud.Base.Int.{◌+ℤ◌, ◌-ℤ◌, pos}
use uud.Base.Maps
use uud.Base.StringMaps
use uud.Base.{◌≤◌, ◌<◌, ◌≡◌, refl, Option, none, some, List, [], ◌∷◌, arith}
use uud.Card.{Card, new_card, creature}
use uud.Permanent.{
  Permanent, new_permanent, get_counters, is_creature, counter_mod, effective_toughness,
  has_lethal_damage, has_keyword,
}
use uud.Player.{new_player, is_alive, eliminate}
use uud.Zones.{no_zones, remove_from_battlefield, find_permanent, add_to_graveyard}
use uud.StateBased.{
  SbaEvent, Board, check_player, check_each, check_players, dies, destroy, destroy_each,
  DyingCreature, dying_creatures, group_legends, check_groups, check_legends, change_where,
  check_attachments, check_counters, check_creatures, check_and_apply, check_state_based_actions,
  player_eliminated, permanent_destroyed,
}
use uud.StateBased.Measure.{weight, alive_count, measure}
use uud.StateBased.Rest.{IsSettled}
use uud.StateBased.Settled.{check_state_based_actions-settles}

abbrev bear_card : Card
bear_card = record (new_card 5 "Bear" creature) {
  creature_stats = some (record { power = pos 2; toughness = pos 2 });
}

-- A bear with two damage, and a player with no life.
abbrev bear : Permanent
bear = record (new_permanent bear_card 1 1) { damage_marked = pos 2 }

abbrev crowded : Board
crowded = record {
  players =
      record (new_player 1 "ann") { life = pos 0 }
      ∷ record (new_player 2 "bob") { life = pos 3 }
      ∷ [];
  zones = record no_zones { battlefield = (5, bear) ∷ [] };
  active_player_id = 1;
  events = [];
}

abbrev no_triggers : DyingCreature → Board → Board
no_triggers d b = b

abbrev events_of : Option Board → List SbaEvent
events_of none = []
events_of (some b) = b.events

crowded_check :
    events_of (check_state_based_actions no_triggers none 3 crowded)
    ≡ player_eliminated 1 "Life total reached zero" ∷ permanent_destroyed 5 "Bear" ∷ []
unfolding check_state_based_actions check_and_apply check_players check_each check_player is_alive
    eliminate check_creatures destroy_each destroy remove_from_battlefield find_permanent
    add_to_graveyard dies is_creature effective_toughness counter_mod get_counters has_keyword
    has_lethal_damage dying_creatures check_legends group_legends check_groups check_attachments
    change_where check_counters Maps.lookup Maps.erase Maps.insert StringMaps.lookup ◌+ℤ◌ ◌-ℤ◌
crowded_check = refl

no_triggers_keep : (d : DyingCreature) (b : Board) → measure (no_triggers d b) ≤ measure b
no_triggers_keep d b = omega arith

crowded-measure : measure crowded < 4
unfolding measure alive_count is_alive weight get_counters StringMaps.lookup
crowded-measure = omega arith

check_state_based_actions-settles_example :
    (b' : Board) × (check_state_based_actions no_triggers none 4 crowded ≡ some b') × IsSettled b'
check_state_based_actions-settles_example =
    check_state_based_actions-settles no_triggers none no_triggers_keep 4 crowded crowded-measure

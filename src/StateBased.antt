-- ===== src/StateBased.antt =====
-- state_based_actions.cpp and Game::check_state_based_actions of game.cpp (server/src/engine), on
-- the part of the game that they touch. What happens when a creature dies beside its own removal
-- (its Lua trigger, Game::fire_triggers and Game::fire_delayed_triggers) is the parameter
-- `fire_death`, and the player's choice among legends is `choose`, absent when the game has no
-- context; the prompt for it releases the lock while it waits, and the model takes the answer at
-- once. The event broadcaster keeps the events in order; here they are a list.
mod Measure
mod Players
mod Removal
mod Passes
mod Creatures
mod Rest
mod Quiet
mod Kept
mod Settled
mod Tests
use Prim.Native.String.{String}
use text.Mathlib.Text.{◌==◌ as str_eq}
use uud.Base.Int.{ltb_ℤ, pos}
use uud.Base.Maps.{Map}
use uud.Base.Maps
use uud.Base.{
  ◌==◌, if◌then◌else◌, is_some, push_back, keep_if, ℕ, zero, suc, Bool, true, false, not, ◌&&◌,
  ◌||◌, Option, none, some, List, [], ◌∷◌, ◌++◌, map,
}
use uud.Card.{same_type, enchantment}
use uud.Permanent.{
  Permanent, get_counters, detach, is_creature, plus_one, minus_one, effective_toughness,
  has_lethal_damage, has_keyword, cancel_counters,
}
use uud.Player.{Player, is_alive, eliminate}
use uud.Zones.{ZoneManager, remove_from_battlefield, find_permanent, ids_where, add_to_graveyard}

pub data SbaEvent : Type 0 where
  player_eliminated : (player_id : ℕ) (reason : String) → SbaEvent
  permanent_destroyed : (permanent_id : ℕ) (card_name : String) → SbaEvent

pub record Board : Type 0 where
  pub players : List Player
  pub zones : ZoneManager
  pub active_player_id : ℕ
  pub events : List SbaEvent

-- The game after a check, and the flag `applied`.
pub record Outcome : Type 0 where
  pub board : Board
  pub applied : Bool

abbrev pub no_change : Board → Outcome
no_change b = record { board = b; applied = false }

abbrev pub changed : Board → Outcome
changed b = record { board = b; applied = true }

-- One check after another; `applied` stays set.
abbrev pub and_then : Outcome → (Board → Outcome) → Outcome
and_then o next =
    let o' = next o.board in record { board = o'.board; applied = o.applied || o'.applied }

-- The checks of one player, as the player afterwards and the reasons of the events.
abbrev pub eliminate_if : Bool → String → Player × List String → Player × List String
eliminate_if lost reason (p, reasons) =
    if lost && is_alive p then (eliminate p, push_back reasons reason) else (p, reasons)

abbrev pub out_of_life : Player → Bool
out_of_life p = not (ltb_ℤ (pos 0) p.life)

abbrev pub poisoned : Player → Bool
poisoned p = not (ltb_ℤ p.poison_counters (pos 10))

unfoldable pub check_player : Player → Player × List String
check_player p = eliminate_if p.failed_to_draw "Failed to draw from empty library" (
    eliminate_if (poisoned p) "Received 10 poison counters"
      (eliminate_if (out_of_life p) "Life total reached zero" (p, [])))

abbrev pub is_empty {ℓ} : {A : Type ℓ} → List A → Bool
is_empty [] = true
is_empty (x ∷ xs) = false

-- The loop over the players: the players afterwards, the events and `applied`.
unfoldable pub check_each : List Player → List Player × List SbaEvent × Bool
check_each [] = ([], [], false)
check_each (p ∷ players) =
    let (q, reasons) = check_player p in
    let (others, events, applied) = check_each players in
    (
      q ∷ others,
      map (λ reason. player_eliminated p.id reason) reasons ++ events,
      not (is_empty reasons) || applied,
    )

unfoldable pub check_players : Board → Outcome
check_players b =
    let (players, events, applied) = check_each b.players in
    record {
      board = record b { players = players; events = b.events ++ events };
      applied = applied;
    }

unfoldable pub dies : Permanent → Bool
dies perm =
    if not (is_creature perm)
    then false
    else if not (ltb_ℤ (pos 0) (effective_toughness perm))
    then true
    else if has_keyword "Indestructible" perm
    then false
    else has_lethal_damage perm || perm.deathtouch_marked

abbrev pub name_of : Option Permanent → String
name_of none = ""
name_of (some perm) = perm.card.name

-- What happens to a permanent that was removed: its card, unless it is a token, and the event.
abbrev pub put_away : ℕ → String → Permanent → Board → Board
put_away id card_name removed b = record b {
  zones =
      if removed.is_token then b.zones else add_to_graveyard removed.owner_id removed.card b.zones;
  events = push_back b.events (permanent_destroyed id card_name);
}

abbrev pub removal : ℕ → String → Option Permanent × ZoneManager → Board → Outcome
removal id card_name (none, zones) b = no_change (record b { zones = zones })
removal id card_name (some removed, zones) b =
    changed (put_away id card_name removed (record b { zones = zones }))

-- The code that the three checks share: remove_from_battlefield, add_to_graveyard and the event.
unfoldable pub destroy : ℕ → Board → Outcome
destroy id b =
    removal id (name_of (find_permanent id b.zones)) (remove_from_battlefield id b.zones) b

unfoldable pub destroy_each : List ℕ → Board → Outcome
destroy_each [] b = no_change b
destroy_each (id ∷ ids) b = and_then (destroy id b) (destroy_each ids)

pub record DyingCreature : Type 0 where
  pub id : ℕ
  pub controller_id : ℕ
  pub on_death_trigger : Option ℕ

-- TriggerType::OnDeath
abbrev pub on_death : ℕ
on_death = 2

abbrev pub dying_of : ℕ → Option Permanent → List DyingCreature → List DyingCreature
dying_of id none others = others
dying_of id (some perm) others =
    record {
      id = id;
      controller_id = perm.controller_id;
      on_death_trigger = Maps.lookup on_death perm.card.triggers;
    }
    ∷ others

unfoldable pub dying_creatures : List ℕ → ZoneManager → List DyingCreature
dying_creatures [] z = []
dying_creatures (id ∷ ids) z = dying_of id (find_permanent id z) (dying_creatures ids z)

-- std::stable_sort with the active player's creatures first.
abbrev pub active_first : ℕ → List DyingCreature → List DyingCreature
active_first active ds =
    keep_if (λ d. d.controller_id == active) ds ++ keep_if (λ d. not (d.controller_id == active)) ds

abbrev pub Legends : Type 0
Legends = List ((ℕ × String) × List ℕ)

abbrev pub same_legend : ℕ × String → ℕ × String → Bool
same_legend a b = a.0 == b.0 && str_eq a.1 b.1

-- legends[key].push_back(id)
unfoldable pub add_legend : ℕ × String → ℕ → Legends → Legends
add_legend key id [] = (key, id ∷ []) ∷ []
add_legend key id ((k, ids) ∷ groups) =
    let others = add_legend key id groups in
    if same_legend k key then (k, push_back ids id) ∷ groups else (k, ids) ∷ others

unfoldable pub group_legends : Map Permanent → Legends → Legends
group_legends [] groups = groups
group_legends ((id, perm) ∷ m) groups = group_legends m (
    if has_keyword "Legendary" perm
    then add_legend (perm.controller_id, perm.card.name) id groups
    else groups)

abbrev pub is_legend_of : ℕ × String → Option Permanent → Bool
is_legend_of key none = false
is_legend_of key (some perm) = str_eq perm.card.name key.1 && (perm.controller_id == key.0)

-- The legends of one key but the one that is kept.
unfoldable pub destroy_others : ℕ × String → ℕ → List ℕ → Board → Outcome
destroy_others key keep_id [] b = no_change b
destroy_others key keep_id (id ∷ ids) b =
    and_then
      (if not (id == keep_id) && is_legend_of key (find_permanent id b.zones)
        then destroy id b
        else no_change b)
      (destroy_others key keep_id ids)

abbrev pub Choice : Type 0
Choice = Option (ℕ → List ℕ → Board → ℕ)

abbrev pub keep_id_of : Choice → ℕ × String → ℕ → List ℕ → Board → ℕ
keep_id_of none key first ids b = first
keep_id_of (some choose) key first ids b = choose key.0 (first ∷ ids) b

abbrev pub check_group : Choice → ℕ × String → List ℕ → Board → Outcome
check_group choose key [] b = no_change b
check_group choose key (id ∷ []) b = no_change b
check_group choose key (first ∷ second ∷ ids) b =
    destroy_others key (keep_id_of choose key first (second ∷ ids) b) (first ∷ second ∷ ids) b

unfoldable pub check_groups : Choice → Legends → Board → Outcome
check_groups choose [] b = no_change b
check_groups choose ((key, ids) ∷ groups) b =
    and_then (check_group choose key ids b) (check_groups choose groups)

unfoldable pub check_legends : Choice → Board → Outcome
check_legends choose b = check_groups choose (group_legends b.zones.battlefield []) b

-- A permanent that is attached to one that is gone.
abbrev pub lost_target : Option ℕ → ZoneManager → Bool
lost_target none z = false
lost_target (some target) z = not (is_some (find_permanent target z))

abbrev pub is_aura : Permanent → Bool
is_aura perm = same_type perm.card.type enchantment

abbrev pub is_loose_aura : ZoneManager → Permanent → Bool
is_loose_aura z perm = lost_target perm.attached_to z && is_aura perm

abbrev pub is_loose_equipment : ZoneManager → Permanent → Bool
is_loose_equipment z perm = lost_target perm.attached_to z && not (is_aura perm)

-- A change of the permanents that pass a test, and whether there was one: the passes that change
-- permanents in place.
abbrev pub entry_after :
    Bool → ℕ → Permanent → Permanent → Map Permanent × Bool → Map Permanent × Bool
entry_after true id perm new (m, any) = ((id, new) ∷ m, true)
entry_after false id perm new (m, any) = ((id, perm) ∷ m, any)

unfoldable pub change_where :
    (Permanent → Bool) → (Permanent → Permanent) → Map Permanent → Map Permanent × Bool
change_where test change [] = ([], false)
change_where test change ((id, perm) ∷ m) =
    entry_after (test perm) id perm (change perm) (change_where test change m)

abbrev pub change_permanents : (Permanent → Bool) → (Permanent → Permanent) → Board → Outcome
change_permanents test change b =
    let (m, any) = change_where test change b.zones.battlefield in
    record { board = record b { zones = record b.zones { battlefield = m } }; applied = any }

unfoldable pub check_attachments : Board → Outcome
check_attachments b =
    let auras = ids_where (is_loose_aura b.zones) b.zones.battlefield in
    and_then (change_permanents (is_loose_equipment b.zones) detach b) (destroy_each auras)

abbrev pub has_both_counters : Permanent → Bool
has_both_counters perm =
    ltb_ℤ (pos 0) (get_counters plus_one perm) && ltb_ℤ (pos 0) (get_counters minus_one perm)

unfoldable pub check_counters : Board → Outcome
check_counters = change_permanents has_both_counters cancel_counters

module _ (fire_death : DyingCreature → Board → Board) where
  abbrev pub fire_each : List DyingCreature → Board → Board
  fire_each [] b = b
  fire_each (d ∷ ds) b = fire_each ds (fire_death d b)

  unfoldable pub check_creatures : Board → Outcome
  check_creatures b =
      let dying = dying_creatures (ids_where dies b.zones.battlefield) b.zones in
      let o = destroy_each (map (λ d. d.id) dying) b in
      record o { board = fire_each (active_first b.active_player_id dying) o.board }

module _ (fire_death : DyingCreature → Board → Board) (choose : Choice) where
  unfoldable pub check_and_apply : Board → Outcome
  check_and_apply b =
      and_then
        (and_then
          (and_then (and_then (check_players b) (check_creatures fire_death))
            (check_legends choose))
          check_attachments)
        check_counters

  -- while (check_and_apply(*this)) { }, with fuel; nothing is returned when it runs out.
  unfoldable pub check_state_based_actions : ℕ → Board → Option Board
  check_state_based_actions zero b = none
  check_state_based_actions (suc fuel) b =
      let o = check_and_apply b in
      let rest = check_state_based_actions fuel o.board in if o.applied then rest else some o.board

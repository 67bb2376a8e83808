-- ===== src/Game.antt =====
-- game.hpp, game.cpp and win_condition.cpp (server/src/engine): the state of a game and what the
-- services call from outside. Every method is one step, also stop and eliminate_player, which do
-- not hold the mutex as the others do; the wait of wait_for_connected_player, which releases it,
-- is two. The Lua engine, the game context and the thread are not part of the state. An event is
-- its content, the broadcaster numbers it. All queues share one notification, so its generation
-- stands once in the game. Times are arguments.
pub mod Tapping
pub mod Paying
pub mod Abilities
pub mod Sideboard
pub mod UndoStacks
pub mod UndoTaps
pub mod UndoSpells
pub mod UndoAbilities
pub mod Casting
pub mod Process
pub mod Undo
mod Sound
mod PlayerChanges
mod Joining
mod Starting
mod Waiting
mod Lobby
mod CastUntouched
mod CastOutcome
mod Concession
mod Tests
mod EndTests
use Prim.Native.String.{String}
use uud.Actions.{ActionData, submit}
use uud.Base.Int.{ℤ, pos}
use uud.Base.Maps.{Map}
use uud.Base.Maps
use uud.Base.{
  ltb, leb, ◌==◌, if◌then◌else◌, length, push_back, any_of, all_of, keep_if, erase_if, ℕ, ◌-◌, Bool,
  true, false, not, ◌&&◌, ◌||◌, Option, none, some, List, [], ◌∷◌, map,
}
use uud.Card.{Card}
use uud.Mana.Pool.{ManaPayment}
use uud.Player.{
  Player, new_player, set_submitted_deck_names, set_submitted_sideboard_names, is_alive, eliminate,
}
use uud.Priority
use uud.Priority.{PrioritySystem}
use uud.Stack
use uud.Stack.{TheStack}
use uud.Turn
use uud.Turn.{TurnMachine, draw}
use uud.Zones.{ZoneManager, no_zones, init_player}

pub data GameState : Type 0 where
  waiting_for_players waiting_for_decks in_progress paused finished : GameState

pub data AutoPassMode : Type 0 where
  disabled no_actions until_end_of_turn full_control : AutoPassMode

pub record GameOverResult : Type 0 where
  pub winner_id : ℕ
  pub reason : String
  pub is_draw : Bool

pub record DelayedTrigger : Type 0 where
  pub source_permanent_id : ℕ
  pub event_type : String
  pub effect_description : String
  pub callback : Option ℕ

pub record ManaUndoEntry : Type 0 where
  pub permanent_id : ℕ
  pub color : String
  pub amount : ℤ

pub data GameEvent : Type 0 where
  card_played : (player_id : ℕ) (card : Card) (stack_entry_id : ℕ) → GameEvent
  permanent_entered : (permanent_id controller_id : ℕ) (card : Card) → GameEvent
  ability_activated : (permanent_id : ℕ) (ability_text : String) (stack_entry_id : ℕ) → GameEvent
  game_log : (text : String) (player_id : ℕ) (category : String) → GameEvent
  game_over : (winner_id : ℕ) (reason : String) (is_draw : Bool) → GameEvent
  draw_offered : (from_player_id : ℕ) → GameEvent
  draw_declined : (by_player_id : ℕ) → GameEvent
  concede_confirm : (player_id : ℕ) → GameEvent

pub record Game : Type 0 where
  pub game_id : String
  pub state : GameState
  pub players : List Player
  pub zones : ZoneManager
  pub turns : TurnMachine
  pub priority : PrioritySystem
  pub stack : TheStack
  pub events : List GameEvent
  pub result : Option GameOverResult
  pub delayed_triggers : List DelayedTrigger
  pub action_queues : Map (List ActionData)
  pub generation : ℕ
  pub started_at : ℕ
  pub connected_players : List ℕ
  pub disconnect_times : Map ℕ
  pub pending_draw_offer_from : ℕ
  pub auto_pass_modes : Map AutoPassMode
  pub pending_concede : List ℕ
  pub mana_undo_stacks : Map (List ManaUndoEntry)
  pub running : Bool

abbrev pub new_game : String → Game
new_game game_id = record {
  game_id = game_id;
  state = waiting_for_players;
  players = [];
  zones = no_zones;
  turns = Turn.init;
  priority = Priority.init;
  stack = Stack.init;
  events = [];
  result = none;
  delayed_triggers = [];
  action_queues = [];
  generation = 0;
  started_at = 0;
  connected_players = [];
  disconnect_times = [];
  pending_draw_offer_from = 0;
  auto_pass_modes = [];
  pending_concede = [];
  mana_undo_stacks = [];
  running = false;
}

abbrev pub emit : GameEvent → Game → Game
emit event g = record g { events = push_back g.events event }

-- A set of ids: contains, insert and erase.
abbrev pub contains_id : ℕ → List ℕ → Bool
contains_id id = any_of (λ x. x == id)

abbrev pub insert_id : ℕ → List ℕ → List ℕ
insert_id id ids = if contains_id id ids then ids else push_back ids id

abbrev pub erase_id : ℕ → List ℕ → List ℕ
erase_id id = erase_if (λ x. x == id)

unfoldable pub find_player : ℕ → List Player → Option Player
find_player id [] = none
find_player id (p ∷ players) =
    let rest = find_player id players in if p.id == id then some p else rest

-- A change through the pointer that find_player returns.
unfoldable pub update_player : ℕ → (Player → Player) → List Player → List Player
update_player id change [] = []
update_player id change (p ∷ players) =
    let rest = update_player id change players in
    if p.id == id then change p ∷ players else p ∷ rest

abbrev pub max_players : ℕ
max_players = 2

-- The state after a player has joined.
abbrev pub state_after_join : GameState → List Player → GameState
state_after_join state players = if length players == max_players then waiting_for_decks else state

abbrev pub same_state : GameState → GameState → Bool
same_state waiting_for_players waiting_for_players = true
same_state waiting_for_decks waiting_for_decks = true
same_state in_progress in_progress = true
same_state paused paused = true
same_state finished finished = true
same_state _ _ = false

abbrev pub join : ℕ → String → Game → Game
join player_id username g =
    let players = push_back g.players (new_player player_id username) in
    record g {
      players = players;
      zones = init_player player_id g.zones;
      action_queues = Maps.insert player_id [] g.action_queues;
      state = state_after_join g.state players;
    }

unfoldable pub add_player : ℕ → String → Game → Bool × Game
add_player player_id username g =
    if not (same_state g.state waiting_for_players)
    then (false, g)
    else if leb max_players (length g.players)
    then (false, g)
    else if any_of (λ p. p.id == player_id) g.players
    then (false, g)
    else (true, join player_id username g)

abbrev pub submit_names : List String → List String → Player → Player
submit_names card_names [] p = set_submitted_deck_names card_names p
submit_names card_names (name ∷ names) p =
    set_submitted_sideboard_names (name ∷ names) (set_submitted_deck_names card_names p)

abbrev pub submit_for : Option Player → ℕ → List String → List String → Game → Bool × Game
submit_for none player_id card_names sideboard_names g = (false, g)
submit_for (some p) player_id card_names sideboard_names g =
    if p.deck_submitted then (false, g) else (
      true,
      record g {
        players = update_player player_id (submit_names card_names sideboard_names) g.players;
      },
    )

unfoldable pub submit_deck : ℕ → List String → List String → Game → Bool × Game
submit_deck player_id card_names sideboard_names g =
    submit_for (find_player player_id g.players) player_id card_names sideboard_names g

unfoldable pub start : ℕ → Game → Game
start now g =
    if g.running
    then g
    else if not (same_state g.state waiting_for_decks)
    then g
    else if not (all_of (λ p. p.deck_submitted) g.players)
    then g
    else if ltb (length g.players) 2
    then g
    else record g { running = true; started_at = now; state = in_progress }

unfoldable pub set_auto_pass : ℕ → AutoPassMode → Game → Game
set_auto_pass player_id mode g = record g {
  auto_pass_modes = Maps.insert player_id mode g.auto_pass_modes;
}

unfoldable pub get_auto_pass : ℕ → Game → AutoPassMode
get_auto_pass player_id g = Maps.get_or_default disabled (Maps.lookup player_id g.auto_pass_modes)

unfoldable pub set_player_connected : ℕ → ℕ → Bool → Game → Game
set_player_connected now player_id true g = record g {
  connected_players = insert_id player_id g.connected_players;
  disconnect_times = Maps.erase player_id g.disconnect_times;
  state = if same_state g.state paused then in_progress else g.state;
}
set_player_connected now player_id false g = record g {
  connected_players = erase_id player_id g.connected_players;
  disconnect_times = Maps.insert player_id now g.disconnect_times;
}

unfoldable pub is_player_connected : ℕ → Game → Bool
is_player_connected player_id g = contains_id player_id g.connected_players

abbrev pub is_living : Option Player → Bool
is_living none = false
is_living (some p) = is_alive p

unfoldable pub stale_disconnected : ℕ → ℕ → Map ℕ → List Player → List ℕ
stale_disconnected now timeout [] players = []
stale_disconnected now timeout ((player_id, since) ∷ times) players =
    let rest = stale_disconnected now timeout times players in
    if ltb timeout (now - since) && is_living (find_player player_id players)
    then player_id ∷ rest
    else rest

unfoldable pub stale_disconnected_players : ℕ → ℕ → Game → List ℕ
stale_disconnected_players now timeout g =
    stale_disconnected now timeout g.disconnect_times g.players

-- A submission to a queue, which wakes all that wait.
abbrev pub submit_to : ℕ → ActionData → Option (List ActionData) → Game → Game
submit_to player_id action none g = g
submit_to player_id action (some pending) g =
    let (accepted, queue) =
      submit action (record { pending = pending; generation = some g.generation }) in
    record g {
      action_queues = Maps.insert player_id queue.pending g.action_queues;
      generation = Maps.get_or_default g.generation queue.generation;
    }

unfoldable pub submit_action : ℕ → ActionData → Game → Game
submit_action player_id action g =
    submit_to player_id action (Maps.lookup player_id g.action_queues) g

abbrev pub no_payment : ManaPayment
no_payment = record {
  white = pos 0;
  blue = pos 0;
  black = pos 0;
  red = pos 0;
  green = pos 0;
  colorless = pos 0;
}

-- ActionData with a type and a text, everything else empty.
abbrev pub simple_action : ℕ → String → String → ActionData
simple_action player_id action_type text = record {
  player_id = player_id;
  prompt_id = "";
  action_type = action_type;
  target_id = 0;
  ids = [];
  indices = [];
  flag = false;
  text = text;
  x_value = pos 0;
  convoke_ids = [];
  delve_count = pos 0;
  mana_payment = no_payment;
}

unfoldable pub eliminate_player : ℕ → Game → Game
unfolding submit_action
eliminate_player player_id g =
    submit_action player_id (simple_action player_id "concede" "forced") g

unfoldable pub clear_delayed_triggers : Game → Game
clear_delayed_triggers g = record g { delayed_triggers = [] }

abbrev pub shut_down : Map (List ActionData) → Game → Game
shut_down [] g = g
shut_down ((id, pending) ∷ queues) g =
    shut_down queues (submit_action id (simple_action id "shutdown" "") g)

unfoldable pub stop : Game → Game
unfolding clear_delayed_triggers
stop g = clear_delayed_triggers (shut_down g.action_queues (record g { running = false }))

unfoldable pub add_delayed_trigger : DelayedTrigger → Game → Game
add_delayed_trigger trigger g =
    if leb 1000 (length g.delayed_triggers)
    then g
    else record g { delayed_triggers = push_back g.delayed_triggers trigger }

-- WinConditionChecker::check
abbrev pub winner_among : List ℕ → Option GameOverResult
winner_among [] =
    some (record { winner_id = 0; reason = "All players eliminated (draw)"; is_draw = true })
winner_among (id ∷ []) =
    some (record { winner_id = id; reason = "Last player standing"; is_draw = false })
winner_among (id ∷ other ∷ ids) = none

unfoldable pub check_win : List Player → Option GameOverResult
check_win players = winner_among (map (λ p. p.id) (keep_if is_alive players))

-- The game is over, with the reason that the event gives.
abbrev pub end_with : Option GameOverResult → Option String → Game → Game
end_with none reason g = g
end_with (some win) reason g =
    emit (game_over win.winner_id (Maps.get_or_default win.reason reason) win.is_draw)
      (record g { result = some win; state = finished; running = false })

abbrev pub lose_by : ℕ → Option String → Game → Game
lose_by player_id reason g =
    let g' = record g { players = update_player player_id eliminate g.players } in
    end_with (check_win g'.players) reason g'

-- wait_for_connected_player up to the wait: the result, if it does not wait.
unfoldable pub begin_wait : ℕ → Game → Option Bool × Game
begin_wait player_id g =
    if contains_id player_id g.connected_players || not g.running
    then (some g.running, g)
    else (none, record g { state = paused })

-- And from the end of the wait on; `reconnected` is whether the wait ended before its timeout.
unfoldable pub end_wait : Bool → ℕ → Game → Bool × Game
end_wait reconnected player_id g =
    if not reconnected || not g.running
    then (
      false,
      if is_living (find_player player_id g.players)
          then lose_by player_id (some "Opponent disconnected") g
          else g,
    )
    else (true, record g { state = in_progress })

-- ===== src/Game/Sound.antt =====
-- The calls on a game from outside, and what they keep (server/src/engine/game.cpp).
use Prim.Native.String.{String}
use uud.Actions.{ActionData}
use uud.Base.{◌==◌, length, any_of, all_of, ℕ, ◌≤◌, ◌≡◌, Bool, true, false, ◌||◌, List, [], ◌∷◌}
use uud.Player.{Player}
use uud.Game.{
  GameState, AutoPassMode, DelayedTrigger, Game, new_game, same_state, add_player, submit_deck,
  start, set_auto_pass, set_player_connected, submit_action, eliminate_player, stop,
  add_delayed_trigger, begin_wait, end_wait, waiting_for_players, waiting_for_decks, in_progress,
  paused,
}

-- Two players with decks.
abbrev pub IsReady : List Player → Type 0
IsReady players = (length players ≡ 2) × (all_of (λ p. p.deck_submitted) players ≡ true)

-- What the state says of the players, of a game that is running or not.
abbrev pub Fits : Bool → GameState → List Player → Type 0
Fits true in_progress players = IsReady players
Fits true paused players = IsReady players
Fits true _ players = ⊥
Fits false waiting_for_players players = length players ≤ 1
Fits false waiting_for_decks players = length players ≡ 2
Fits false _ players = IsReady players

abbrev pub is_known : ℕ → List Player → Bool
is_known id = any_of (λ p. p.id == id)

abbrev pub IsDistinct : List Player → Type 0
IsDistinct [] = Unit
IsDistinct (p ∷ players) = (is_known p.id players ≡ false) × IsDistinct players

unfoldable pub IsSound : Game → Type 0
IsSound g =
    Fits g.running g.state g.players × IsDistinct g.players × length g.delayed_triggers ≤ 1000

-- One call from outside, or one half of a wait of the game thread; its second half finds the game
-- paused, or in progress again.
pub data GameStep : Game → Game → Type 0 where
  joins : {g : Game} (player_id : ℕ) (name : String) → GameStep g ((add_player player_id name g).1)
  submits :
      {g : Game} (player_id : ℕ) (cards side : List String)
      → GameStep g ((submit_deck player_id cards side g).1)
  starts : {g : Game} (now : ℕ) → GameStep g (start now g)
  passes :
      {g : Game} (player_id : ℕ) (mode : AutoPassMode) → GameStep g (set_auto_pass player_id mode g)
  connects :
      {g : Game} (now player_id : ℕ) (connected : Bool)
      → GameStep g (set_player_connected now player_id connected g)
  acts :
      {g : Game} (player_id : ℕ) (action : ActionData)
      → GameStep g (submit_action player_id action g)
  reaps : {g : Game} (player_id : ℕ) → GameStep g (eliminate_player player_id g)
  stops : {g : Game} → GameStep g (stop g)
  delays : {g : Game} (trigger : DelayedTrigger) → GameStep g (add_delayed_trigger trigger g)
  waits : {g : Game} (player_id : ℕ) → GameStep g ((begin_wait player_id g).1)
  resumes :
      {g : Game} (back : Bool) (player_id : ℕ)
      → (same_state g.state paused || same_state g.state in_progress) ≡ true
      → GameStep g ((end_wait back player_id g).1)

pub data IsReached : Game → Type 0 where
  created : (game_id : String) → IsReached (new_game game_id)
  after : {g g' : Game} → IsReached g → GameStep g g' → IsReached g'

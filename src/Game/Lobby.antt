-- ===== src/Game/Lobby.antt =====
-- From the lobby to the end of a game: what holds in every state that the calls from outside
-- reach (server/src/engine/game.cpp).
use Prim.Native.String.{String}
use uud.Base.{back, ℕ, ◌≡◌, refl, Bool, true, false, not, ◌||◌, Option, none, some, List, arith}
use uud.Player.{Player, eliminate}
use uud.Game.{
  GameState, AutoPassMode, GameOverResult, Game, find_player, update_player, same_state,
  set_auto_pass, is_living, eliminate_player, check_win, end_with, lose_by, end_wait,
  waiting_for_players, waiting_for_decks, in_progress, paused, finished,
}
use uud.Game.Sound.{
  IsReady, Fits, IsDistinct, IsSound, GameStep, IsReached, joins, submits, starts, passes, connects,
  acts, reaps, stops, delays, waits, resumes, created, after,
}
use uud.Game.PlayerChanges.{update-IsDistinct, update-IsReady, update-Fits}
use uud.Game.Starting.{
  add_player-IsSound, submit_deck-IsSound, either_IsSound, either_result, start-IsSound,
}
use uud.Game.Waiting.{
  connected-IsSound, submit_action-IsSound, stop-IsSound, delay-IsSound, begin_wait-IsSound,
}

IsReady-of :
    (running : Bool) (state : GameState) (players : List Player)
    → (same_state state paused || same_state state in_progress) ≡ true
    → Fits running state players
    → IsReady players
IsReady-of true in_progress players e f = f
IsReady-of false in_progress players e f = f
IsReady-of true paused players e f = f
IsReady-of false paused players e f = f
IsReady-of running waiting_for_players players e f = absurd (cc)
IsReady-of running waiting_for_decks players e f = absurd (cc)
IsReady-of running finished players e f = absurd (cc)

ready_Fits :
    (running : Bool) (players : List Player) → IsReady players → Fits running in_progress players
ready_Fits true players ready = ready
ready_Fits false players ready = ready

eliminate_id : (p : Player) → (eliminate p).id ≡ p.id
unfolding eliminate
eliminate_id p = refl

eliminate_deck : (p : Player) → p.deck_submitted ≡ true → (eliminate p).deck_submitted ≡ true
unfolding eliminate
eliminate_deck p e = e

auto_pass-IsSound :
    (player_id : ℕ) (mode : AutoPassMode) (g : Game)
    → IsSound g
    → IsSound (set_auto_pass player_id mode g)
unfolding IsSound set_auto_pass
auto_pass-IsSound player_id mode g sound = sound

reap-IsSound : (player_id : ℕ) (g : Game) → IsSound g → IsSound (eliminate_player player_id g)
unfolding eliminate_player
reap-IsSound player_id g = submit_action-IsSound player_id _ g

lose_by-IsSound :
    (player_id : ℕ) (reason : Option String) (g : Game)
    → IsReady g.players
    → IsSound g
    → IsSound (lose_by player_id reason g)
unfolding IsSound
lose_by-IsSound player_id reason g begun (f, d, t) =
    ended (check_win (update_player player_id eliminate g.players))
  where
    players : List Player
    players = update_player player_id eliminate g.players

    ready : IsReady players
    ready = update-IsReady player_id eliminate (eliminate_id) (eliminate_deck) g.players begun

    distinct : IsDistinct players
    distinct = update-IsDistinct player_id eliminate (eliminate_id) (eliminate_deck) g.players d

    ended :
        (win : Option GameOverResult)
        → IsSound (end_with win reason (record g { players = players }))
    ended none = (
      update-Fits player_id eliminate (eliminate_id) (eliminate_deck) g.running g.state g.players f,
      distinct,
      t,
    )
    ended (some win) = (ready, distinct, t)

IsReady-players :
    (g : Game)
    → (same_state g.state paused || same_state g.state in_progress) ≡ true
    → IsSound g
    → IsReady g.players
unfolding IsSound
IsReady-players g waited (f, d, t) = IsReady-of g.running g.state g.players waited f

back_IsSound :
    (g : Game) → IsReady g.players → IsSound g → IsSound (record g { state = in_progress })
unfolding IsSound
back_IsSound g ready (f, d, t) = (ready_Fits g.running g.players ready, d, t)

end_wait-IsSound :
    (back : Bool) (player_id : ℕ) (g : Game)
    → (same_state g.state paused || same_state g.state in_progress) ≡ true
    → IsSound g
    → IsSound ((end_wait back player_id g).1)
unfolding end_wait
end_wait-IsSound back player_id g waited sound =
    let ready = IsReady-players g waited sound in
    either_result (not back || not g.running) _ _
      (λ e.
        either_IsSound (is_living (find_player player_id g.players)) _ _
          (λ living. lose_by-IsSound player_id (some "Opponent disconnected") g ready sound)
          (λ gone. sound))
      (λ e. back_IsSound g ready sound)

step-IsSound : {g g' : Game} → IsSound g → GameStep g g' → IsSound g'
step-IsSound {g} sound (joins player_id name) = add_player-IsSound player_id name g sound
step-IsSound {g} sound (submits player_id cards side) =
    submit_deck-IsSound player_id cards side g sound
step-IsSound {g} sound (starts now) = start-IsSound now g sound
step-IsSound {g} sound (passes player_id mode) = auto_pass-IsSound player_id mode g sound
step-IsSound {g} sound (connects now player_id connected) =
    connected-IsSound now player_id connected g sound
step-IsSound {g} sound (acts player_id action) = submit_action-IsSound player_id action g sound
step-IsSound {g} sound (reaps player_id) = reap-IsSound player_id g sound
step-IsSound {g} sound stops = stop-IsSound g sound
step-IsSound {g} sound (delays trigger) = delay-IsSound trigger g sound
step-IsSound {g} sound (waits player_id) = begin_wait-IsSound player_id g sound
step-IsSound {g} sound (resumes back player_id waited) =
    end_wait-IsSound back player_id g waited sound

-- However the calls from outside and the waits of the game's thread follow each other, a game has
-- at most two players, with different ids; it runs, is in progress, paused or over only with two
-- players who have both submitted a deck, and it holds at most 1000 delayed triggers.
pub IsReached-IsSound : {g : Game} → IsReached g → IsSound g
unfolding IsSound
IsReached-IsSound (created game_id) = (omega arith, tt, omega arith)
IsReached-IsSound (after r s) = step-IsSound (IsReached-IsSound r) s

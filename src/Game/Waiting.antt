-- ===== src/Game/Waiting.antt =====
-- The calls on a running game (server/src/engine/game.cpp).
use uud.Actions.{ActionData}
use uud.Base.Maps.{Map}
use uud.Base.{
  leb, if◌then◌else◌, Bool-cases, length, length-append, push_back, ℕ, ◌≤◌, ◌<◌, ◌≡◌, inl, inr,
  Bool, true, false, not, ◌||◌, Option, none, some, List, [], ◌∷◌, arith,
}
use uud.Player.{Player}
use uud.Game.{
  GameState, DelayedTrigger, Game, contains_id, same_state, set_player_connected, submit_to,
  submit_action, simple_action, clear_delayed_triggers, shut_down, stop, add_delayed_trigger,
  begin_wait, waiting_for_players, waiting_for_decks, in_progress, paused, finished,
}
use uud.Game.Sound.{Fits, IsSound}
use uud.Game.Joining.{neither}
use uud.Game.Starting.{not-false}

resume_Fits :
    (running : Bool) (state : GameState) (players : List Player)
    → Fits running state players
    → Fits running (if same_state state paused then in_progress else state) players
resume_Fits true in_progress players f = f
resume_Fits true paused players f = f
resume_Fits true waiting_for_players players f = f
resume_Fits true waiting_for_decks players f = f
resume_Fits true finished players f = f
resume_Fits false waiting_for_players players f = f
resume_Fits false waiting_for_decks players f = f
resume_Fits false in_progress players f = f
resume_Fits false paused players f = f
resume_Fits false finished players f = f

pub connected-IsSound :
    (now player_id : ℕ) (connected : Bool) (g : Game)
    → IsSound g
    → IsSound (set_player_connected now player_id connected g)
unfolding IsSound set_player_connected
connected-IsSound now player_id true g (f, d, t) = (resume_Fits g.running g.state g.players f, d, t)
connected-IsSound now player_id false g sound = sound

submit_to-IsSound :
    (player_id : ℕ) (action : ActionData) (queue : Option (List ActionData)) (g : Game)
    → IsSound g
    → IsSound (submit_to player_id action queue g)
unfolding IsSound
submit_to-IsSound player_id action none g sound = sound
submit_to-IsSound player_id action (some pending) g sound = sound

pub submit_action-IsSound :
    (player_id : ℕ) (action : ActionData) (g : Game)
    → IsSound g
    → IsSound (submit_action player_id action g)
unfolding submit_action
submit_action-IsSound player_id action g = submit_to-IsSound player_id action _ g

shut_down-IsSound :
    (queues : Map (List ActionData)) (g : Game) → IsSound g → IsSound (shut_down queues g)
shut_down-IsSound [] g sound = sound
shut_down-IsSound ((id, pending) ∷ queues) g sound =
    shut_down-IsSound queues _ (submit_action-IsSound id (simple_action id "shutdown" "") g sound)

halt_Fits :
    (running : Bool) (state : GameState) (players : List Player)
    → Fits running state players
    → Fits false state players
halt_Fits true in_progress players f = f
halt_Fits true paused players f = f
halt_Fits true waiting_for_players players f = elim f [ ]
halt_Fits true waiting_for_decks players f = elim f [ ]
halt_Fits true finished players f = elim f [ ]
halt_Fits false state players f = f

pub stop-IsSound : (g : Game) → IsSound g → IsSound (stop g)
unfolding stop IsSound clear_delayed_triggers
stop-IsSound g (f, d, t) =
    let (f', d', _) =
      shut_down-IsSound g.action_queues (record g { running = false })
        (halt_Fits g.running g.state g.players f, d, t) in
    (f', d', omega arith)

room_left :
    {A : Type 0} (xs : List A) (x : A)
    → leb 1000 (length xs) ≡ false
    → length (push_back xs x) ≤ 1000
room_left xs x h =
    let fits : length xs < 1000 = ground (arith, h) in
    omega (arith, fits, length-append xs (x ∷ []))

pub delay-IsSound :
    (trigger : DelayedTrigger) (g : Game) → IsSound g → IsSound (add_delayed_trigger trigger g)
unfolding IsSound add_delayed_trigger
delay-IsSound trigger g (f, d, t) = elim (Bool-cases (leb 1000 (length g.delayed_triggers))) [
  | inl full ↦ rw full (f, d, t)
  | inr room ↦ rw room (f, d, room_left g.delayed_triggers trigger room)
]

pause_Fits :
    (running : Bool) (state : GameState) (players : List Player)
    → running ≡ true
    → Fits running state players
    → Fits running paused players
pause_Fits true in_progress players e f = f
pause_Fits true paused players e f = f
pause_Fits true waiting_for_players players e f = elim f [ ]
pause_Fits true waiting_for_decks players e f = elim f [ ]
pause_Fits true finished players e f = elim f [ ]
pause_Fits false state players e f = absurd (cc)

pub begin_wait-IsSound :
    (player_id : ℕ) (g : Game) → IsSound g → IsSound ((begin_wait player_id g).1)
unfolding IsSound begin_wait
begin_wait-IsSound player_id g (f, d, t) =
    elim (Bool-cases (contains_id player_id g.connected_players || not g.running)) [
      | inl e ↦ rw e (f, d, t)
      | inr e ↦
          rw e (pause_Fits g.running g.state g.players (not-false _ ((neither _ _ e).1)) f, d, t)
    ]

-- A game whose thread waited.

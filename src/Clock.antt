-- ===== src/Clock.antt =====
-- game_clock.hpp and game_clock.cpp (server/src/engine): the thinking time of the players. The time
-- of a call is one argument, also where the code reads the clock twice; a time point of the steady
-- clock counts nanoseconds and never goes back. Durations are integers, in seconds or milliseconds
-- as in the code.
pub mod Ticks
mod Tests
use uud.Base.Int.{ℤ, ◌+ℤ◌, ◌-ℤ◌, ◌*ℤ◌, ltb_ℤ, pos}
use uud.Base.Maps.{Map}
use uud.Base.Maps
use uud.Base.{if◌then◌else◌, ℕ, ◌-◌, ◌/◌, Bool, false, not, Option, none, some, []}
use uud.Permanent.{max_ℤ, eqb_ℤ}

pub record GameClock : Type 0 where
  pub time_per_player : ℤ
  pub remaining : Map ℤ
  pub active_player_id : Option ℕ
  pub last_tick : ℕ
  pub action_timeout : ℤ
  pub action_start : ℕ

abbrev pub millis_of : ℤ → ℤ
millis_of seconds = seconds *ℤ pos 1000

abbrev pub new_clock : ℤ → ℕ → GameClock
new_clock time_per_player now = record {
  time_per_player = time_per_player;
  remaining = [];
  active_player_id = none;
  last_tick = now;
  action_timeout = pos 0;
  action_start = 0;
}

unfoldable pub add_player : ℕ → GameClock → GameClock
add_player player_id c = record c {
  remaining = Maps.insert player_id (millis_of c.time_per_player) c.remaining;
}

-- Whole milliseconds since the last tick.
abbrev pub elapsed : ℕ → ℕ → ℕ
elapsed now last_tick = (now - last_tick) / 1000000

abbrev pub less_time : ℤ → ℕ → ℤ
less_time left spent = let rest = left -ℤ pos spent in if ltb_ℤ rest (pos 0) then pos 0 else rest

abbrev pub charged : ℕ → ℕ → Map ℤ → Option ℤ → Map ℤ
charged player_id spent m none = m
charged player_id spent m (some left) = Maps.insert player_id (less_time left spent) m

abbrev pub charge : ℕ → ℕ → Map ℤ → Map ℤ
charge player_id spent m = charged player_id spent m (Maps.lookup player_id m)

abbrev pub update_for : Option ℕ → ℕ → GameClock → GameClock
update_for none now c = c
update_for (some player_id) now c = record c {
  last_tick = now;
  remaining = charge player_id (elapsed now c.last_tick) c.remaining;
}

unfoldable pub update : ℕ → GameClock → GameClock
update now c = update_for c.active_player_id now c

unfoldable pub start_clock : ℕ → ℕ → GameClock → GameClock
unfolding update
start_clock player_id now c = record (update now c) {
  active_player_id = some player_id;
  last_tick = now;
}

unfoldable pub stop_clock : ℕ → GameClock → GameClock
unfolding update
stop_clock now c = record (update now c) { active_player_id = none }

unfoldable pub remaining_time : ℕ → GameClock → ℤ
remaining_time player_id c = Maps.at (pos 0) player_id c.remaining

unfoldable pub is_expired : ℕ → GameClock → Bool
is_expired player_id c = elim (Maps.lookup player_id c.remaining) [
  | none ↦ false
  | some left ↦ not (ltb_ℤ (pos 0) left)
]

unfoldable pub add_time : ℕ → ℤ → GameClock → GameClock
add_time player_id amount c = elim (Maps.lookup player_id c.remaining) [
  | none ↦ c
  | some left ↦ record c {
    remaining = Maps.insert player_id (left +ℤ millis_of amount) c.remaining;
  }
]

unfoldable pub is_enabled : GameClock → Bool
is_enabled c = ltb_ℤ (pos 0) c.time_per_player

unfoldable pub set_action_timeout : ℤ → GameClock → GameClock
set_action_timeout timeout c = record c { action_timeout = timeout }

unfoldable pub reset_action_timer : ℕ → GameClock → GameClock
reset_action_timer now c = record c { action_start = now }

-- Nothing stands for milliseconds::max(), which is returned when there is no timeout.
unfoldable pub action_time_remaining : ℕ → GameClock → Option ℤ
action_time_remaining now c =
    if eqb_ℤ c.action_timeout (pos 0)
    then none
    else some (max_ℤ (pos 0) (millis_of c.action_timeout -ℤ pos (elapsed now c.action_start)))

unfoldable pub is_action_timeout_expired : ℕ → GameClock → Bool
is_action_timeout_expired now c = elim (action_time_remaining now c) [
  | none ↦ false
  | some left ↦ not (ltb_ℤ (pos 0) left)
]

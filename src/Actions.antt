-- ===== src/Actions.antt =====
-- action_queue.hpp and action_queue.cpp (server/src/engine): the actions that players have sent
-- and the game has not taken yet. The mutex makes each call one step; waking a waiter has no state
-- but the shared generation counter. `wait_for` takes from the queue as it is when the wait ends,
-- for its predicate is tested again after a timeout.
pub mod Fifo
mod Tests
use Prim.Native.String.{String}
use text.Mathlib.Text.{◌==◌ as str_eq}
use uud.Base.Int.{ℤ}
use uud.Base.{
  leb, if◌then◌else◌, length, push_back, find_erase, ℕ, ◌+◌, ◌%◌, ◌^◌, Bool, true, false, Option,
  none, some, List, [], ◌∷◌,
}
use uud.Mana.Pool.{ManaPayment}

pub record ActionData : Type 0 where
  pub player_id : ℕ
  pub prompt_id : String
  pub action_type : String
  pub target_id : ℕ
  pub ids : List ℕ
  pub indices : List ℤ
  pub flag : Bool
  pub text : String
  pub x_value : ℤ
  pub convoke_ids : List ℕ
  pub delve_count : ℤ
  pub mana_payment : ManaPayment

-- `generation` is that of the shared notification, if one is set.
pub record ActionQueue : Type 0 where
  pub pending : List ActionData
  pub generation : Option ℕ

abbrev pub max_pending : ℕ
max_pending = 64

abbrev pub notify : Option ℕ → Option ℕ
notify none = none
notify (some n) = some ((n + 1) % 2 ^ 64)

unfoldable pub submit : ActionData → ActionQueue → Bool × ActionQueue
submit action q =
    if leb max_pending (length q.pending)
    then (false, q)
    else (true, record q { pending = push_back q.pending action; generation = notify q.generation })

abbrev pub pop_front : List ActionData → Option ActionData × List ActionData
pop_front [] = (none, [])
pop_front (a ∷ acts) = (some a, acts)

unfoldable pub try_take : ActionQueue → Option ActionData × ActionQueue
try_take q = ((pop_front q.pending).0, record q { pending = (pop_front q.pending).1 })

unfoldable pub wait_for : ActionQueue → Option ActionData × ActionQueue
unfolding try_take
wait_for q = try_take q

abbrev pub has_type : String → ActionData → Bool
has_type type a = str_eq a.action_type type

unfoldable pub try_take_if : String → ActionQueue → Option ActionData × ActionQueue
try_take_if type q = elim (find_erase (has_type type) q.pending) [
  | none ↦ (none, q)
  | some found ↦ (some found.0, record q { pending = found.1 })
]

unfoldable pub clear_actions : ActionQueue → ActionQueue
clear_actions q = record q { pending = [] }

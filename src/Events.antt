-- ===== src/Events.antt =====
-- event_broadcaster.hpp and event_broadcaster.cpp (server/src/engine): the numbered log of events
-- and its subscribers. The event is generated code, so its content is a parameter. A callback is a
-- name, and `alive` says which weak pointers can still be locked. A callback that throws is caught
-- and changes nothing. The mutex makes each call one step.
pub mod CatchUp
mod Tests
use uud.Base.{
  ltb, leb, ◌==◌, if◌then◌else◌, length, push_back, keep_if, erase_if, ℕ, ◌+◌, ◌%◌, ◌^◌, Bool, ◌||◌,
  List, [], ◌∷◌, map,
}

pub record GameEvent (P : Type 0) : Type 0 where
  pub sequence_number : ℕ
  pub payload : P

pub record Subscription : Type 0 where
  pub id : ℕ
  pub player_id : ℕ
  pub callback : ℕ

pub record EventBroadcaster (P : Type 0) : Type 0 where
  pub next_sequence : ℕ
  pub next_sub_id : ℕ
  pub subscribers : List Subscription
  pub event_log : List (GameEvent P)

abbrev pub max_event_log_size : ℕ
max_event_log_size = 10000

abbrev pub after : ℕ → ℕ
after n = (n + 1) % 2 ^ 64

module _ {P : Type 0} where
  abbrev pub new_broadcaster : EventBroadcaster P
  new_broadcaster = record { next_sequence = 1; next_sub_id = 1; subscribers = []; event_log = [] }

  -- The loop that makes room for one event.
  unfoldable pub make_room : List (GameEvent P) → List (GameEvent P)
  make_room [] = []
  make_room (e ∷ es) =
      let rest = make_room es in if leb max_event_log_size (length (e ∷ es)) then rest else e ∷ es

  abbrev pub numbered_event : EventBroadcaster P → P → GameEvent P
  numbered_event b payload = record { sequence_number = b.next_sequence; payload = payload }

  unfoldable pub log_event : P → EventBroadcaster P → EventBroadcaster P
  log_event payload b = record b {
    next_sequence = after b.next_sequence;
    event_log = push_back (make_room b.event_log) (numbered_event b payload);
  }

  -- The new state and the callbacks that are called.
  unfoldable pub emit : (ℕ → Bool) → P → EventBroadcaster P → EventBroadcaster P × List ℕ
  emit alive payload b = (log_event payload b, keep_if alive (map (λ s. s.callback) b.subscribers))

  unfoldable pub emit_to_player :
      (ℕ → Bool) → ℕ → P → EventBroadcaster P → EventBroadcaster P × List ℕ
  emit_to_player alive player_id payload b =
      let addressed =
        keep_if (λ s. (s.player_id == 0) || (s.player_id == player_id)) b.subscribers in
      (log_event payload b, keep_if alive (map (λ s. s.callback) addressed))

  unfoldable pub subscribe_player : ℕ → ℕ → EventBroadcaster P → ℕ × EventBroadcaster P
  subscribe_player player_id callback b = (
    b.next_sub_id,
    record b {
      next_sub_id = after b.next_sub_id;
      subscribers =
          push_back b.subscribers
            (record { id = b.next_sub_id; player_id = player_id; callback = callback });
    },
  )

  unfoldable pub subscribe : ℕ → EventBroadcaster P → ℕ × EventBroadcaster P
  unfolding subscribe_player
  subscribe callback b = subscribe_player 0 callback b

  unfoldable pub unsubscribe : ℕ → EventBroadcaster P → EventBroadcaster P
  unsubscribe subscription_id b = record b {
    subscribers = erase_if (λ s. s.id == subscription_id) b.subscribers;
  }

  unfoldable pub next_sequence_number : EventBroadcaster P → ℕ × EventBroadcaster P
  next_sequence_number b = (b.next_sequence, record b { next_sequence = after b.next_sequence })

  unfoldable pub get_events_since : ℕ → EventBroadcaster P → List (GameEvent P)
  get_events_since sequence_number b =
      keep_if (λ e. ltb sequence_number e.sequence_number) b.event_log

-- ===== src/Events/Tests.antt =====
-- Tests and witnesses for the event log.
use uud.Base.{ℕ, ◌≡◌, refl, true, List, [], ◌∷◌, arith}
use uud.Events.{
  EventBroadcaster, new_broadcaster, make_room, log_event, emit_to_player, subscribe_player,
  subscribe, get_events_since,
}
use uud.Events.CatchUp.{emit_all, numbered, get_events_since-emit_all}

abbrev three_logged : EventBroadcaster ℕ
three_logged = emit_all (10 ∷ 20 ∷ 30 ∷ []) new_broadcaster

since_one : get_events_since 1 three_logged ≡ numbered 2 (20 ∷ 30 ∷ [])
unfolding get_events_since emit_all log_event make_room numbered
since_one = refl

subscribers_called :
    (emit_to_player
      (λ _. true)
      5
      7
      ((subscribe_player 6 200 ((subscribe 100 (new_broadcaster {P = ℕ})).1)).1)).1
    ≡ 100 ∷ []
unfolding emit_to_player subscribe_player subscribe
subscribers_called = refl

abbrev payloads : List ℕ
payloads = 10 ∷ 20 ∷ []

abbrev first_state : EventBroadcaster ℕ
first_state = new_broadcaster

get_events_since-emit_all_example :
    get_events_since 0 (emit_all payloads first_state) ≡ numbered 1 payloads
get_events_since-emit_all_example =
    get_events_since-emit_all 0 payloads first_state tt (omega arith) (omega arith) (omega arith)

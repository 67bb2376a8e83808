-- ===== src/Events/CatchUp.antt =====
-- What a client that comes back gets from get_events_since
-- (server/src/engine/event_broadcaster.cpp).
use uud.Base.{
  ltb, leb, Bool-cases, length, length-append, All, push_back, keep_if, ℕ, ◌+◌, ◌^◌, ◌≤◌, ◌<◌, ◌≡◌,
  refl, sym, ap, ◌∙◌, inl, inr, Bool, false, List, [], ◌∷◌, ◌++◌, append-nil, append_assoc, arith,
}
use uud.Events.{
  GameEvent, EventBroadcaster, max_event_log_size, after, make_room, numbered_event, log_event,
  get_events_since,
}

no_wrap : (k : ℕ) → k + 1 < 2 ^ 64 → after k ≡ k + 1
no_wrap k h = omega (arith, h)

module _ {P : Type 0} where
  unfoldable pub emit_all : List P → EventBroadcaster P → EventBroadcaster P
  emit_all [] b = b
  emit_all (p ∷ ps) b = emit_all ps (log_event p b)

  -- Events with the numbers from the given one on.
  unfoldable pub numbered : ℕ → List P → List (GameEvent P)
  numbered n [] = []
  numbered n (p ∷ ps) = record { sequence_number = n; payload = p } ∷ numbered (n + 1) ps

  abbrev pub AllUpTo : ℕ → List (GameEvent P) → Type 0
  AllUpTo n = All (λ e. e.sequence_number ≤ n)

  abbrev AllAfter : ℕ → List (GameEvent P) → Type 0
  AllAfter n = All (λ e. n < e.sequence_number)

  abbrev newer : ℕ → GameEvent P → Bool
  newer n e = ltb n e.sequence_number

  keep_if-older :
      (n : ℕ) (older news : List (GameEvent P))
      → AllUpTo n older
      → keep_if (newer n) (older ++ news) ≡ keep_if (newer n) news
  keep_if-older n [] news h = refl
  keep_if-older n (e ∷ older) news h = ground (arith, h.0, keep_if-older n older news h.1)

  keep_if-newer :
      (n : ℕ) (news : List (GameEvent P)) → AllAfter n news → keep_if (newer n) news ≡ news
  keep_if-newer n [] h = refl
  keep_if-newer n (e ∷ news) h = ground (arith, h.0, keep_if-newer n news h.1)

  AllAfter-push_back :
      (n : ℕ) (news : List (GameEvent P)) (e : GameEvent P)
      → AllAfter n news
      → n < e.sequence_number
      → AllAfter n (push_back news e)
  AllAfter-push_back n [] e h k = (k, tt)
  AllAfter-push_back n (x ∷ news) e h k = (h.0, AllAfter-push_back n news e h.1 k)

  -- Making room does not touch the last 9999 events.
  make_room-news :
      (n : ℕ) (older news : List (GameEvent P))
      → length news < max_event_log_size
      → AllUpTo n older
      → (left : List (GameEvent P)) × (make_room (older ++ news) ≡ left ++ news) × AllUpTo n left
  unfolding make_room
  make_room-news n [] [] few h = ([], refl, tt)
  make_room-news n [] (e ∷ news) few h =
      let room : leb max_event_log_size (length (e ∷ news)) ≡ false = ground (arith, few) in
      ([], rw room, tt)
  make_room-news n (e ∷ older) news few h =
      let rest = make_room-news n older news few h.1 in
      elim (Bool-cases (leb max_event_log_size (length (e ∷ older ++ news)))) [
        | inl full ↦ (rest.0, rw full (rest.1), rest.2)
        | inr room ↦ (e ∷ older, rw room, h)
      ]

  caught_up :
      (n : ℕ) (older news : List (GameEvent P)) (ps : List P) (b : EventBroadcaster P)
      → b.event_log ≡ older ++ news
      → AllUpTo n older
      → AllAfter n news
      → n < b.next_sequence
      → length news + length ps ≤ max_event_log_size
      → b.next_sequence + length ps < 2 ^ 64
      → get_events_since n (emit_all ps b) ≡ news ++ numbered b.next_sequence ps
  unfolding emit_all numbered get_events_since log_event
  caught_up n older news [] b log old new next few wrap =
      ap (keep_if (newer n)) log
      ∙ keep_if-older n older news old
      ∙ keep_if-newer n news new
      ∙ sym (append-nil news)
  caught_up n older news (p ∷ ps) b log old new next few wrap =
      let e = numbered_event b p in
      let (left, kept, up) = make_room-news n older news (omega (arith, few)) old in
      let log' : (log_event p b).event_log ≡ left ++ push_back news e =
        ap (λ l. push_back (make_room l) e) log
        ∙ ap (λ l. push_back l e) kept
        ∙ append_assoc left news (e ∷ []) in
      let seq : after b.next_sequence ≡ b.next_sequence + 1 =
        no_wrap b.next_sequence (omega (arith, wrap)) in
      let size = length-append news (e ∷ []) in
      caught_up n left (push_back news e) ps (log_event p b) log' up
        (AllAfter-push_back n news e new next) (rw seq (omega (arith, next)))
        (omega (arith, few, size)) (rw seq (omega (arith, wrap)))
      ∙ ap (λ k. push_back news e ++ numbered k ps) seq
      ∙ append_assoc news (e ∷ []) (numbered (b.next_sequence + 1) ps)

  -- A client that has seen every event in the log, up to a number that has been given out, and
  -- asks again with that number gets exactly the events emitted since, in order and with
  -- consecutive numbers, as long as they are at most as many as the log holds and the 64-bit
  -- counter does not wrap.
  pub get_events_since-emit_all :
      (n : ℕ) (ps : List P) (b : EventBroadcaster P)
      → AllUpTo n b.event_log
      → n < b.next_sequence
      → length ps ≤ max_event_log_size
      → b.next_sequence + length ps < 2 ^ 64
      → get_events_since n (emit_all ps b) ≡ numbered b.next_sequence ps
  get_events_since-emit_all n ps b seen next few wrap =
      caught_up n b.event_log [] ps b (sym (append-nil b.event_log)) seen tt next
        (omega (arith, few)) wrap

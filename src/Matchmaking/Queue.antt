-- ===== src/Matchmaking/Queue.antt =====
-- What holds of the queue (server/src/matchmaking/queue.cpp) over every sequence of calls.
use uud.Base.{
  leb, Bool-cases, length, length-append, push_back, any_of, keep_if, count_if, ℕ, ◌+◌, ◌≤◌, ◌≡◌,
  refl, subst, inl, inr, Bool, false, not, Option, none, some, List, [], ◌∷◌, ◌++◌, arith,
}
use uud.Matchmaking.{QueueEntry, max_queue_size, is_player, add, remove, Pairing, find_match}
use uud.Matchmaking.Order.{IsFirst, find_match_outcome}

-- A call that changes the queue; a match is sought at a time.
pub data Call : Type 0 where
  enter : QueueEntry → Call
  leave : ℕ → Call
  seek : ℕ → Call

abbrev left_over : List QueueEntry → Option Pairing → List QueueEntry
left_over entries none = entries
left_over entries (some (a, b, rest)) = rest

unfoldable pub call : Call → List QueueEntry → List QueueEntry
call (enter e) entries = (add e entries).1
call (leave player_id) entries = remove player_id entries
call (seek now) entries = left_over entries (find_match now entries)

unfoldable pub run_calls : List Call → List QueueEntry → List QueueEntry
run_calls [] entries = entries
run_calls (c ∷ cs) entries = run_calls cs (call c entries)

abbrev pub count_player : ℕ → List QueueEntry → ℕ
count_player id = count_if (is_player id)

-- No player waits twice, and the queue has at most max_queue_size entries.
pub record IsValid (entries : List QueueEntry) : Type 0 where
  pub once : (id : ℕ) → count_player id entries ≤ 1
  pub bounded : length entries ≤ max_queue_size

count-absent :
    (p : QueueEntry → Bool) (xs : List QueueEntry) → any_of p xs ≡ false → count_if p xs ≡ 0
count-absent p [] h = refl
count-absent p (x ∷ xs) h = ground (arith, count-absent p xs)

count-append :
    (p : QueueEntry → Bool) (xs ys : List QueueEntry)
    → count_if p (xs ++ ys) ≡ count_if p xs + count_if p ys
count-append p [] ys = omega arith
count-append p (x ∷ xs) ys = ground (arith, count-append p xs ys)

count-kept :
    (p q : QueueEntry → Bool) (xs : List QueueEntry) → count_if p (keep_if q xs) ≤ count_if p xs
count-kept p q [] = omega arith
count-kept p q (x ∷ xs) = ground (arith, count-kept p q xs)

length-kept : (q : QueueEntry → Bool) (xs : List QueueEntry) → length (keep_if q xs) ≤ length xs
length-kept q [] = omega arith
length-kept q (x ∷ xs) = ground (arith, length-kept q xs)

pushed-once :
    (e : QueueEntry) (entries : List QueueEntry) (id : ℕ)
    → any_of (is_player e.player_id) entries ≡ false
    → count_player id entries ≤ 1
    → count_player id (push_back entries e) ≤ 1
pushed-once e entries id absent once =
    let sum = count-append (is_player id) entries (e ∷ []) in
    elim (Bool-cases (is_player id e)) [
      | inl same ↦
          let equal : e.player_id ≡ id = ground (arith, same) in
          let none_yet : count_player id entries ≡ 0 =
            subst (λ i. count_player i entries ≡ 0) equal
              (count-absent (is_player e.player_id) entries absent) in
          ground (arith, sum, none_yet, same)
      | inr other ↦ ground (arith, sum, once, other)
    ]

add-IsValid :
    (e : QueueEntry) (entries : List QueueEntry) → IsValid entries → IsValid ((add e entries).1)
unfolding add
add-IsValid e entries v = elim (Bool-cases (leb max_queue_size (length entries))) [
  | inl full ↦ rw full v
  | inr room ↦ elim (Bool-cases (any_of (is_player e.player_id) entries)) [
    | inl waits ↦ rw (room, waits) v
    | inr absent ↦
        rw (room, absent)
          (record {
            once = λ id. pushed-once e entries id absent (v.once id);
            bounded = ground (arith, length-append entries (e ∷ []), room);
          })
  ]
]

remove-IsValid :
    (player_id : ℕ) (entries : List QueueEntry)
    → IsValid entries
    → IsValid (remove player_id entries)
unfolding remove
remove-IsValid player_id entries v = record {
  once = λ id.
      omega
        (arith, count-kept (is_player id) (λ x. not (is_player player_id x)) entries, v.once id);
  bounded = omega (arith, length-kept (λ x. not (is_player player_id x)) entries, v.bounded);
}

-- What find_match leaves over.
count-two_less :
    (p : QueueEntry → Bool) (xs ys zs : List QueueEntry) (a b : QueueEntry)
    → count_if p (xs ++ ys ++ zs) ≤ count_if p (xs ++ a ∷ ys ++ b ∷ zs)
count-two_less p [] [] zs a b = ground arith
count-two_less p [] (y ∷ ys) zs a b = ground (arith, count-two_less p [] ys zs a b)
count-two_less p (x ∷ xs) ys zs a b = ground (arith, count-two_less p xs ys zs a b)

length-two_less :
    (xs ys zs : List QueueEntry) (a b : QueueEntry)
    → length (xs ++ ys ++ zs) ≤ length (xs ++ a ∷ ys ++ b ∷ zs)
length-two_less [] [] zs a b = omega arith
length-two_less [] (y ∷ ys) zs a b = let less = length-two_less [] ys zs a b in omega (arith, less)
length-two_less (x ∷ xs) ys zs a b = let less = length-two_less xs ys zs a b in omega (arith, less)

left_over-IsValid :
    (now : ℕ) (entries : List QueueEntry) (p : Pairing)
    → IsFirst now entries p
    → IsValid entries
    → IsValid (p.2)
left_over-IsValid now entries p first v = record {
  once = λ id.
      let less = count-two_less (is_player id) first.before first.between first.after p.0 p.1 in
      let whole = subst (λ l. count_player id l ≤ 1) first.whole (v.once id) in
      rw first.rest (omega (arith, less, whole));
  bounded =
      let less = length-two_less first.before first.between first.after p.0 p.1 in
      let whole = subst (λ l. length l ≤ max_queue_size) first.whole v.bounded in
      rw first.rest (omega (arith, less, whole));
}

call-IsValid : (c : Call) (entries : List QueueEntry) → IsValid entries → IsValid (call c entries)
unfolding call
call-IsValid (enter e) entries v = add-IsValid e entries v
call-IsValid (leave player_id) entries v = remove-IsValid player_id entries v
call-IsValid (seek now) entries v = elim (find_match_outcome now entries) [
  | inl (_, e) ↦ rw e v
  | inr (p, _, e, first) ↦ rw e (left_over-IsValid now entries p first v)
]

-- Over every sequence of calls no player waits twice and the queue never has more than
-- max_queue_size entries, when this holds at the start.
pub run_calls-IsValid :
    (calls : List Call) (entries : List QueueEntry)
    → IsValid entries
    → IsValid (run_calls calls entries)
unfolding run_calls
run_calls-IsValid [] entries v = v
run_calls-IsValid (c ∷ cs) entries v =
    run_calls-IsValid cs (call c entries) (call-IsValid c entries v)

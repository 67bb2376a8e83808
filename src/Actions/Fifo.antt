-- ===== src/Actions/Fifo.antt =====
-- The order of the actions in the queue (server/src/engine/action_queue.cpp).
use Prim.Native.String.{String}
use uud.Base.{
  leb, length, length-append, push_back, any_of, Found, find_erase_cases, ℕ, zero, suc, ◌+◌, ◌≡◌,
  refl, sym, ap, ◌∙◌, ◌⊎◌, inl, inr, true, false, Option, none, some, List, [], ◌∷◌, ◌++◌,
  append-nil, append_assoc, arith,
}
use uud.Actions.{ActionData, ActionQueue, max_pending, submit, try_take, has_type, try_take_if}

unfoldable pub submit_all : List ActionData → ActionQueue → ActionQueue
submit_all [] q = q
submit_all (a ∷ acts) q = submit_all acts ((submit a q).1)

-- The first actions of a list, as many as given.
abbrev pub first_of : ℕ → List ActionData → List ActionData
first_of zero acts = []
first_of (suc n) [] = []
first_of (suc n) (a ∷ acts) = a ∷ first_of n acts

-- Takes the given number of actions and collects those that there were.
unfoldable pub take_all : ℕ → ActionQueue → List ActionData
take_all zero q = []
take_all (suc n) q = elim ((try_take q).0) [
  | none ↦ take_all n ((try_take q).1)
  | some a ↦ a ∷ take_all n ((try_take q).1)
]

submit-full :
    (a : ActionData) (q : ActionQueue)
    → leb max_pending (length q.pending) ≡ true
    → (submit a q).1 ≡ q
unfolding submit
submit-full a q e = rw e

submit-room :
    (a : ActionData) (q : ActionQueue)
    → leb max_pending (length q.pending) ≡ false
    → (submit a q).1.pending ≡ push_back q.pending a
unfolding submit
submit-room a q e = rw e

submit_all-full :
    (acts : List ActionData) (q : ActionQueue)
    → leb max_pending (length q.pending) ≡ true
    → (submit_all acts q).pending ≡ q.pending
unfolding submit_all
submit_all-full [] q e = refl
submit_all-full (a ∷ acts) q e =
    ap (λ r. (submit_all acts r).pending) (submit-full a q e) ∙ submit_all-full acts q e

-- With room for n more, a queue takes the first n actions.
submit_all-room :
    (n : ℕ) (acts : List ActionData) (q : ActionQueue)
    → length q.pending + n ≡ max_pending
    → (submit_all acts q).pending ≡ q.pending ++ first_of n acts
unfolding submit_all
submit_all-room zero acts q h =
    let full : leb max_pending (length q.pending) ≡ true = ground (arith, h) in
    submit_all-full acts q full ∙ sym (append-nil q.pending)
submit_all-room (suc n) [] q h = sym (append-nil q.pending)
submit_all-room (suc n) (a ∷ acts) q h =
    let room : leb max_pending (length q.pending) ≡ false = ground (arith, h) in
    let pushed = submit-room a q room in
    let size : length ((submit a q).1).pending + n ≡ max_pending =
      ap (λ l. length l + n) pushed ∙ omega (arith, h, length-append q.pending (a ∷ [])) in
    submit_all-room n acts ((submit a q).1) size
    ∙ ap (λ l. l ++ first_of n acts) pushed
    ∙ append_assoc q.pending (a ∷ []) (first_of n acts)

take_all-pending :
    (q : ActionQueue) (acts : List ActionData) → q.pending ≡ acts → take_all (length acts) q ≡ acts
unfolding take_all try_take
take_all-pending q [] e = refl
take_all-pending q (a ∷ acts) e =
    rw e (ap (◌∷◌ a) (take_all-pending (record q { pending = acts }) acts refl))

-- Actions that are sent to an empty queue and taken afterwards come out in the order in which they
-- were sent: all of them when they are at most 64, else the first 64.
pub take_all-submit_all :
    (acts : List ActionData) (generation : Option ℕ)
    → let q = submit_all acts (record { pending = []; generation = generation }) in
      take_all (length q.pending) q ≡ first_of max_pending acts
take_all-submit_all acts generation =
    let start : ActionQueue = record { pending = []; generation = generation } in
    take_all-pending (submit_all acts start) (submit_all acts start).pending refl
    ∙ submit_all-room max_pending acts start refl

-- try_take_if either finds no action of the type and leaves the queue as it is, or takes the first
-- one and leaves the others in their order.
pub try_take_if_outcome :
    (type : String) (q : ActionQueue)
    → ((any_of (has_type type) q.pending ≡ false) × (try_take_if type q ≡ (none, q)))
      ⊎ ((a : ActionData) × (rest : List ActionData) × Found (has_type type) q.pending a rest
          × (try_take_if type q ≡ (some a, record q { pending = rest })))
unfolding try_take_if
try_take_if_outcome type q = elim (find_erase_cases (has_type type) q.pending) [
  | inl (nothing, e) ↦ inl (nothing, rw (e, try_take_if))
  | inr (a, rest, found, e) ↦ inr (a, rest, found, rw (e, try_take_if))
]

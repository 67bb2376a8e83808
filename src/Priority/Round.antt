-- ===== src/Priority/Round.antt =====
-- A round of priority: how often and in which order the players are asked.
use native.Mathlib.Nat.{mod-add-mod, mod-eq_of_lt, mod-lt}
use uud.Base.{
  leb, ◌==◌, if◌then◌else◌, Option-cases, length, get_or, any_of, ℕ, zero, suc, ◌+◌, ◌-◌, ◌%◌, ◌≤◌,
  ◌<◌, ◌≡◌, refl, ap, ◌∙◌, inl, inr, true, false, none, some, List, [], ◌∷◌, arith, dec_lt,
}
use uud.Priority.{
  PrioritySystem, find_index, begin_round, holder_at, current_priority_holder, all_passed, pass,
  interrupt,
}

abbrev pub passes : ℕ → PrioritySystem → PrioritySystem
passes zero s = s
passes (suc n) s = (pass (passes n s)).0

-- The index is a place of the player order.
abbrev pub IsPlaced : PrioritySystem → Type 0
IsPlaced s = s.current_index < length s.player_order

pass_within :
    (s : PrioritySystem)
    → s.consecutive_passes + 1 < length s.player_order
    → ((pass s).1 ≡ false)
      × ((pass s).0.player_order ≡ s.player_order)
      × ((pass s).0.consecutive_passes ≡ s.consecutive_passes + 1)
      × ((pass s).0.current_index ≡ (s.current_index + 1) % length s.player_order)
unfolding pass
pass_within s h = ground arith

pass_last :
    (s : PrioritySystem)
    → length s.player_order ≤ s.consecutive_passes + 1
    → ((pass s).1 ≡ true)
      × ((pass s).0.player_order ≡ s.player_order)
      × ((pass s).0.consecutive_passes ≡ s.consecutive_passes + 1)
      × ((pass s).0.current_index ≡ s.current_index)
unfolding pass
pass_last s h = ground arith

regroup_mod : (i k n : ℕ) → (i + k + 1) % n ≡ (i + suc k) % n
regroup_mod i k n = let e : i + k + 1 ≡ i + suc k = omega arith in rw e

passes_within :
    (k : ℕ) (s : PrioritySystem)
    → IsPlaced s
    → s.consecutive_passes ≡ 0
    → k < length s.player_order
    → ((passes k s).player_order ≡ s.player_order)
      × ((passes k s).consecutive_passes ≡ k)
      × ((passes k s).current_index ≡ (s.current_index + k) % length s.player_order)
passes_within zero s p z h = (refl, z, grind arith)
passes_within (suc k) s p z h =
    let ih = passes_within k s p z (omega arith) in
    let w = pass_within (passes k s) (rw (ih.0, ih.1) (omega arith)) in
    (
      w.1 ∙ ih.0,
      omega (arith, w.2, ih.1),
      w.3
          ∙ rw (ih.0, ih.2) (mod-add-mod (s.current_index + k) (length s.player_order) 1)
          ∙ regroup_mod s.current_index k (length s.player_order),
    )

holder_at-get_or :
    (xs : List ℕ) (i : ℕ) → 0 < length xs → holder_at xs i ≡ get_or xs (i % length xs) 0
holder_at-get_or [] i h = elim h [ ]
holder_at-get_or (x ∷ xs) i h = refl

-- From a state where nobody has passed yet, after a round has begun or after an interrupt, and for
-- a k below the number of players: after k passes the holder is the k-th player from the present
-- one, in turn order and round its end; not all have passed; and the next pass reports that all
-- have passed exactly if it is the last of the round.
pub round_order :
    (k : ℕ) (s : PrioritySystem)
    → IsPlaced s
    → s.consecutive_passes ≡ 0
    → k < length s.player_order
    → (current_priority_holder (passes k s)
        ≡ get_or s.player_order ((s.current_index + k) % length s.player_order) 0)
      × (all_passed (passes k s) ≡ false)
      × ((pass (passes k s)).1 ≡ leb (length s.player_order) (k + 1))
      × (all_passed (pass (passes k s)).0 ≡ leb (length s.player_order) (k + 1))
unfolding current_priority_holder all_passed
round_order k s p z h =
    let w = passes_within k s p z h in
    (
      rw (w.0, w.2)
          (holder_at-get_or s.player_order _ (omega arith)
            ∙ ap (λ t. get_or s.player_order t 0)
                (mod-eq_of_lt (mod-lt (s.current_index + k) (omega arith)))),
      rw (w.0, w.1) (ground arith),
      elim (dec_lt (k + 1) (length s.player_order)) [
        | yes q ↦ (pass_within (passes k s) (rw (w.0, w.1) q)).0 ∙ ground arith
        | no q ↦ (pass_last (passes k s) (rw (w.0, w.1) (omega arith))).0 ∙ ground arith
      ],
      elim (dec_lt (k + 1) (length s.player_order)) [
        | yes q ↦ let v = pass_within (passes k s) (rw (w.0, w.1) q) in rw (v.1, v.2, w.0, w.1) refl
        | no q ↦
            let v = pass_last (passes k s) (rw (w.0, w.1) (omega arith)) in
            rw (v.1, v.2, w.0, w.1) refl
      ],
    )

-- The number of passes after which the player at place j is asked.
abbrev pub passes_until : PrioritySystem → ℕ → ℕ
passes_until s j = (j + length s.player_order - s.current_index) % length s.player_order

passes_until_lem : (n i j : ℕ) → i < n → j < n → (i + (j + n - i) % n) % n ≡ j
passes_until_lem n i j p q = elim (dec_lt j i) [
  | yes h ↦ rw (mod-eq_of_lt {n = j + n - i} {m = n} (omega arith)) (grind arith)
  | no h ↦ grind arith
]

-- In a round that starts where nobody has passed, everybody in the order is asked.
pub round_asks :
    (s : PrioritySystem) (j : ℕ)
    → IsPlaced s
    → s.consecutive_passes ≡ 0
    → j < length s.player_order
    → (passes_until s j < length s.player_order)
      × (current_priority_holder (passes (passes_until s j) s) ≡ get_or s.player_order j 0)
round_asks s j p z h =
    let k = mod-lt (j + length s.player_order - s.current_index) (omega arith) in
    (
      k,
      (round_order (passes_until s j) s p z k).0
          ∙ ap (λ t. get_or s.player_order t 0)
              (passes_until_lem (length s.player_order) s.current_index j p h),
    )

find_index_lem :
    (a : ℕ) (xs : List ℕ) (i : ℕ) → find_index a xs ≡ some i → (i < length xs) × (get_or xs i 0 ≡ a)
unfolding find_index
find_index_lem a [] i h = cc
find_index_lem a (x ∷ xs) zero h = ground arith
find_index_lem a (x ∷ xs) (suc i) h = ground (arith, find_index_lem a xs i)

find_index-eq_none :
    (a : ℕ) (xs : List ℕ) → find_index a xs ≡ none → any_of (λ x. x == a) xs ≡ false
unfolding find_index
find_index-eq_none a [] h = refl
find_index-eq_none a (x ∷ xs) h = ground (arith, find_index-eq_none a xs)

find_index-eq_some :
    (a : ℕ) (xs : List ℕ) (i : ℕ) → find_index a xs ≡ some i → any_of (λ x. x == a) xs ≡ true
unfolding find_index
find_index-eq_some a [] i h = cc
find_index-eq_some a (x ∷ xs) zero h = ground arith
find_index-eq_some a (x ∷ xs) (suc i) h = ground (arith, find_index-eq_some a xs i)

-- A round begins with the active player, if that player is in the order, and with the first player
-- otherwise; nobody has passed, and the interrupt keeps the holder.
pub begin_round_holder :
    (a : ℕ) (s : PrioritySystem)
    → 0 < length s.player_order
    → IsPlaced (begin_round a s)
      × ((begin_round a s).consecutive_passes ≡ 0)
      × (current_priority_holder (begin_round a s)
          ≡ (if any_of (λ x. x == a) s.player_order then a else get_or s.player_order 0 0))
      × (current_priority_holder (interrupt s) ≡ current_priority_holder s)
      × ((interrupt s).consecutive_passes ≡ 0)
unfolding begin_round current_priority_holder interrupt
begin_round_holder a s h = elim (Option-cases (find_index a s.player_order)) [
  | inl e ↦ (
    rw (e, begin_round) h,
    refl,
    rw (e, begin_round)
        (holder_at-get_or s.player_order 0 h
          ∙ rw (find_index-eq_none a s.player_order e, mod-eq_of_lt h)),
    refl,
    refl,
  )
  | inr (i, e) ↦
      let f = find_index_lem a s.player_order i e in
      (
        rw (e, begin_round) f.0,
        refl,
        rw (e, begin_round)
            (holder_at-get_or s.player_order i h
              ∙ rw (find_index-eq_some a s.player_order i e, mod-eq_of_lt f.0) f.1),
        refl,
        refl,
      )
]

-- ===== src/Clock/Ticks.antt =====
-- Whom the clock charges, and how much (server/src/engine/game_clock.cpp).
use uud.Base.Int.{ℤ, ◌-ℤ◌, pos}
use uud.Base.Maps
use uud.Base.{
  ◌==◌, if◌then◌else◌, Bool-cases, ℕ, ◌+◌, ◌-◌, ◌/◌, ◌≡◌, refl, ap, subst, ◌∙◌, inl, inr, Bool,
  true, false, some, List, [], ◌∷◌, arith,
}
use uud.Clock.{GameClock, elapsed, less_time, charged, update_for, update}

-- Calls of update at the given times.
unfoldable pub updates : List ℕ → GameClock → GameClock
updates [] c = c
updates (now ∷ times) c = updates times (update now c)

-- The sum of the steps between the calls, each in whole milliseconds; the times are in nanoseconds.
unfoldable pub whole_millis : ℕ → List ℕ → ℕ
whole_millis last [] = 0
whole_millis last (now ∷ times) = (now - last) / 1000000 + whole_millis now times

-- What less_time takes from a time that is not negative stops at zero, as the subtraction of ℕ does.
less_time-pos : (left a : ℕ) → less_time (pos left) a ≡ pos (left - a)
unfolding ◌-ℤ◌
less_time-pos left a = ground arith

abbrev after_update : ℕ → ℕ → ℤ → GameClock → GameClock
after_update now active left c = record c {
  last_tick = now;
  remaining = Maps.insert active (less_time left (elapsed now c.last_tick)) c.remaining;
}

update-active :
    (now active : ℕ) (left : ℤ) (c : GameClock)
    → c.active_player_id ≡ some active
    → Maps.lookup active c.remaining ≡ some left
    → update now c ≡ after_update now active left c
unfolding update
update-active now active left c e h =
    ap (λ a. update_for a now c) e
    ∙ ap
        (λ o. record c {
          last_tick = now;
          remaining = charged active (elapsed now c.last_tick) c.remaining o;
        })
        h

self_eq : (n : ℕ) → (n == n) ≡ true
self_eq n = ground arith

one_step :
    (b : Bool) (left : ℕ) (other : ℤ) (a rest : ℕ)
    → (if b then pos ((left - a) - rest) else (if b then pos (left - a) else other))
      ≡ (if b then pos (left - (a + rest)) else other)
one_step true left other a rest = ap pos (omega arith)
one_step false left other a rest = refl

minus_zero : (n : ℕ) → n ≡ n - 0
minus_zero n = omega arith

some_if : (b : Bool) (x y : ℤ) → (if b then some x else some y) ≡ some (if b then x else y)
some_if true x y = refl
some_if false x y = refl

-- Over every sequence of updates, while the clock runs for a player who has some number of
-- milliseconds left, this player's time falls by the whole milliseconds (a million nanoseconds each)
-- of each step and stops at zero, and the time of every other player of the clock stays as it is.
pub remaining-updates :
    (times : List ℕ) (active player left : ℕ) (other : ℤ) (c : GameClock)
    → c.active_player_id ≡ some active
    → Maps.lookup active c.remaining ≡ some (pos left)
    → Maps.lookup player c.remaining ≡ some other
    → Maps.lookup player (updates times c).remaining
      ≡ some (if active == player then pos (left - whole_millis c.last_tick times) else other)
unfolding updates whole_millis
remaining-updates [] active player left other c e h o = elim (Bool-cases (active == player)) [
  | inr apart ↦ rw apart o
  | inl same ↦
      let equal : active ≡ player = ground (arith, same) in
      rw same (
        subst (λ k. Maps.lookup k c.remaining ≡ some (pos left)) equal h
        ∙ ap (λ n. some (pos n)) (minus_zero left))
]
remaining-updates (now ∷ times) active player left other c e h o =
    let a = elapsed now c.last_tick in
    let next = after_update now active (pos left) c in
    let step = update-active now active (pos left) c e h in
    let lookup_next = λ (k : ℕ). Maps.lookup-insert active k (less_time (pos left) a) c.remaining in
    let charge = less_time-pos left a in
    let mine : Maps.lookup active next.remaining ≡ some (pos (left - a)) =
      lookup_next active ∙ rw (self_eq active) (ap some charge) in
    let theirs : Maps.lookup player next.remaining
        ≡ some (if active == player then pos (left - a) else other) =
      lookup_next player
      ∙ ap (λ x. if active == player then some (less_time (pos left) a) else x) o
      ∙ some_if (active == player) (less_time (pos left) a) other
      ∙ ap (λ t. some (if active == player then t else other)) charge in
    ap (λ d. Maps.lookup player (updates times d).remaining) step
    ∙ remaining-updates times active player (left - a)
        (if active == player then pos (left - a) else other) next e mine theirs
    ∙ ap some (one_step (active == player) left other a (whole_millis now times))

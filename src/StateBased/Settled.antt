-- ===== src/StateBased/Settled.antt =====
-- The loop of state-based actions ends, and what holds of the game then
-- (server/src/engine/state_based_actions.cpp and Game::check_state_based_actions of game.cpp).
use uud.Base.{Bool-cases, ℕ, zero, suc, ◌≤◌, ◌<◌, ◌≡◌, ap, inl, inr, some, arith}
use uud.StateBased.{Board, DyingCreature, Choice, check_and_apply, check_state_based_actions}
use uud.StateBased.Measure.{measure}
use uud.StateBased.Creatures.{applied-less, unapplied-same}
use uud.StateBased.Rest.{IsSettled}
use uud.StateBased.Kept.{check_and_apply-Progress, unapplied-IsSettled}

-- When the triggers of dying creatures do not add to the living players, the permanents, the
-- attachments and the pairs of counters, the loop of state-based actions ends, within one round
-- more than there are of these, and then no living player has to lose, no creature has to die,
-- nothing is attached to a permanent that is gone, and no permanent has counters of both kinds.
pub check_state_based_actions-settles :
    (fire_death : DyingCreature → Board → Board) (choose : Choice)
    → ((d : DyingCreature) (b : Board) → measure (fire_death d b) ≤ measure b)
    → (fuel : ℕ) (b : Board) → measure b < fuel
    → (b' : Board) × (check_state_based_actions fire_death choose fuel b ≡ some b') × IsSettled b'
unfolding check_state_based_actions
check_state_based_actions-settles fire_death choose keeps zero b enough =
    absurd (omega (arith, enough))
check_state_based_actions-settles fire_death choose keeps (suc fuel) b enough =
    let o = check_and_apply fire_death choose b in
    let progress = check_and_apply-Progress fire_death choose keeps b in
    elim (Bool-cases o.applied) [
      | inl applied ↦
          let fewer = applied-less o b progress applied in
          let (b', result, settled) =
            check_state_based_actions-settles fire_death choose keeps fuel o.board
              (omega (arith, fewer, enough)) in
          (b', rw applied result, settled)
      | inr quiet ↦
          let same = unapplied-same o b progress quiet in
          (b, rw quiet (ap some same), unapplied-IsSettled fire_death choose keeps b quiet)
    ]

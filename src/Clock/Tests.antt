-- ===== src/Clock/Tests.antt =====
-- Tests and witnesses for the clock.
use uud.Base.Int.{◌-ℤ◌, ◌*ℤ◌, pos}
use uud.Base.Maps
use uud.Base.{◌==◌, if◌then◌else◌, ℕ, ◌-◌, ◌≡◌, refl, ◌⊎◌, inl, inr, some, [], ◌∷◌}
use uud.Clock.{GameClock, new_clock, add_player, update, start_clock, remaining_time}
use uud.Clock.Ticks.{updates, whole_millis, remaining-updates}

abbrev running : GameClock
running = start_clock 1 0 (add_player 2 (add_player 1 (new_clock (pos 60) 0)))

one_second : remaining_time 1 (update 1000000000 running) ≡ pos 59000
unfolding remaining_time update start_clock add_player Maps.lookup Maps.insert ◌*ℤ◌ ◌-ℤ◌
one_second = refl

-- Steps below a millisecond are not charged.
short_steps : remaining_time 1 (updates (999999 ∷ 1999998 ∷ 2999997 ∷ []) running) ≡ pos 60000
unfolding remaining_time updates update start_clock add_player Maps.lookup Maps.insert ◌*ℤ◌ ◌-ℤ◌
short_steps = refl

first_active : running.active_player_id ≡ some 1
unfolding start_clock update add_player
first_active = refl

time_of : (k : ℕ) → (k ≡ 1) ⊎ (k ≡ 2) → Maps.lookup k running.remaining ≡ some (pos 60000)
unfolding start_clock update add_player Maps.lookup Maps.insert ◌*ℤ◌
time_of k (inl e) = rw e
time_of k (inr e) = rw e

remaining-updates_example :
    Maps.lookup 1 (updates (1000000000 ∷ []) running).remaining
    ≡ some (
        if 1 == 1
        then pos (60000 - whole_millis running.last_tick (1000000000 ∷ []))
        else pos 60000)
remaining-updates_example =
    remaining-updates (1000000000 ∷ []) 1 1 60000 (pos 60000) running first_active
      (time_of 1 (inl refl)) (time_of 1 (inl refl))

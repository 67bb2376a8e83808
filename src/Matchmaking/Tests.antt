-- ===== src/Matchmaking/Tests.antt =====
-- Tests and witnesses for the matchmaking queue.
use uud.Base.{find_erase, ℕ, ◌≡◌, refl, ◌⊎◌, true, false, none, some, List, [], ◌∷◌, arith}
use uud.Base.Int.{◌-ℤ◌, abs, pos}
use uud.Matchmaking.{QueueEntry, accepts, Pairing, search, find_match}
use uud.Matchmaking.Order.{has_match, IsFirst, find_match_outcome}
use uud.Matchmaking.Queue.{Call, run_calls, IsValid, run_calls-IsValid, enter, leave, seek}

abbrev entry : ℕ → ℕ → ℕ → QueueEntry
entry id elo time = record {
  player_id = id;
  username = "player";
  deck_id = "deck";
  elo = pos elo;
  enqueued_at = time;
}

abbrev waiting : List QueueEntry
waiting = entry 1 1200 0 ∷ entry 2 1500 0 ∷ entry 3 1320 0 ∷ []

-- After two seconds the range is 120, so players 1 and 3 are paired.
paired : find_match 2000000000 waiting ≡ some (entry 1 1200 0, entry 3 1320 0, entry 2 1500 0 ∷ [])
unfolding find_match search find_erase accepts abs ◌-ℤ◌
paired = refl

too_early : find_match 1000000000 waiting ≡ none
unfolding find_match search find_erase accepts abs ◌-ℤ◌
too_early = refl

waiting-IsValid : IsValid waiting
waiting-IsValid = record { once = λ id. ground arith; bounded = omega arith }

find_match_outcome_example :
    ((has_match 2000000000 waiting ≡ false) × (find_match 2000000000 waiting ≡ none))
    ⊎ ((p : Pairing) × (has_match 2000000000 waiting ≡ true)
        × (find_match 2000000000 waiting ≡ some p)
        × IsFirst 2000000000 waiting p)
find_match_outcome_example = find_match_outcome 2000000000 waiting

abbrev calls : List Call
calls = enter (entry 4 1000 5) ∷ leave 2 ∷ seek 2000000000 ∷ []

run_calls-IsValid_example : IsValid (run_calls calls waiting)
run_calls-IsValid_example = run_calls-IsValid calls waiting waiting-IsValid

-- ===== src/Priority/Tests.antt =====
-- Runs of the priority system, and the theorems at concrete inputs.
use mathlib.Core.Option
use uud.Base.{◌≡◌, refl, some, [], ◌∷◌, arith}
use uud.Priority.{PrioritySystem, find_index, begin_round, current_priority_holder, skip_to_next}
use uud.Priority.Round.{passes, round_order, round_asks}

abbrev three_players : PrioritySystem
three_players = record {
  player_order = 11 ∷ 12 ∷ 13 ∷ [];
  current_index = 1;
  consecutive_passes = 0;
}

second_to_act : current_priority_holder (begin_round 12 three_players) ≡ 12
unfolding current_priority_holder begin_round find_index
second_to_act = refl

skip_wraps : Option.map (λ s. s.current_index) (skip_to_next three_players) ≡ some 2
unfolding skip_to_next
skip_wraps = refl

round_order_example : current_priority_holder (passes 2 three_players) ≡ 11
round_order_example = (round_order 2 three_players (omega arith) refl (omega arith)).0

round_asks_example : current_priority_holder (passes 2 three_players) ≡ 11
round_asks_example = (round_asks three_players 0 (omega arith) refl (omega arith)).1

-- ===== src/Priority.antt =====
-- priority_system.hpp and priority_system.cpp (server/src/engine): who may act next. The two `int`
-- counters stay below the number of players plus the passes made, so they are numbers without an
-- upper bound here; `none` is the division by zero that an empty player order gives in C++.
pub mod Round
mod Tests
use uud.Base.{
  leb, ◌==◌, if◌then◌else◌, length, get_or, ℕ, suc, ◌+◌, ◌%◌, Bool, true, false, Option, none, some,
  List, [], ◌∷◌,
}

pub record PrioritySystem : Type 0 where
  pub player_order : List ℕ
  pub current_index : ℕ
  pub consecutive_passes : ℕ

abbrev pub init : PrioritySystem
init = record { player_order = []; current_index = 0; consecutive_passes = 0 }

unfoldable pub set_player_order : List ℕ → PrioritySystem → PrioritySystem
set_player_order order s = record s { player_order = order }

-- std::ranges::find with std::distance; `none` is the end iterator.
unfoldable pub find_index : ℕ → List ℕ → Option ℕ
find_index a [] = none
find_index a (x ∷ xs) =
    let rest = find_index a xs in
    if x == a then some 0 else elim rest [ none ↦ none | some i ↦ some (suc i) ]

unfoldable pub begin_round : ℕ → PrioritySystem → PrioritySystem
begin_round active s = record s {
  consecutive_passes = 0;
  current_index = elim (find_index active s.player_order) [ none ↦ 0 | some i ↦ i ];
}

abbrev pub holder_at : List ℕ → ℕ → ℕ
holder_at [] i = 0
holder_at (x ∷ xs) i = get_or (x ∷ xs) (i % length (x ∷ xs)) 0

unfoldable pub current_priority_holder : PrioritySystem → ℕ
current_priority_holder s = holder_at s.player_order s.current_index

unfoldable pub all_passed : PrioritySystem → Bool
all_passed s = leb (length s.player_order) s.consecutive_passes

-- The new state and the result: whether everybody has passed in turn.
unfoldable pub pass : PrioritySystem → PrioritySystem × Bool
pass s =
    let counted = record s { consecutive_passes = s.consecutive_passes + 1 } in
    if leb (length s.player_order) (s.consecutive_passes + 1)
    then (counted, true)
    else (record counted { current_index = (s.current_index + 1) % length s.player_order }, false)

unfoldable pub interrupt : PrioritySystem → PrioritySystem
interrupt s = record s { consecutive_passes = 0 }

unfoldable pub skip_to_next : PrioritySystem → Option PrioritySystem
skip_to_next s =
    if length s.player_order == 0
    then none
    else some (record s { current_index = (s.current_index + 1) % length s.player_order })

-- ===== src/Turn.antt =====
-- turn_machine.hpp and turn_machine.cpp (server/src/engine): the phases of a turn. An enumerator
-- stands for its constructor, and `index` and `of_index` for the casts to and from int.
-- `int turn_number_` only grows from 0; its overflow is undefined in C++ and not modelled.
pub mod Cycle
mod Tests
use Prim.Native.String.{String}
use uud.Base.{leb, ◌==◌, if◌then◌else◌, ℕ, ◌+◌, Bool, not, ◌&&◌, ◌||◌}

pub data Phase : Type 0 where
  untap upkeep draw main1 beginning_of_combat declare_attackers declare_blockers : Phase
  first_strike_damage combat_damage end_of_combat main2 end_step cleanup : Phase

pub phase_to_string : Phase → String
phase_to_string untap = "Untap"
phase_to_string upkeep = "Upkeep"
phase_to_string draw = "Draw"
phase_to_string main1 = "Main1"
phase_to_string beginning_of_combat = "BeginningOfCombat"
phase_to_string declare_attackers = "DeclareAttackers"
phase_to_string declare_blockers = "DeclareBlockers"
phase_to_string first_strike_damage = "FirstStrikeDamage"
phase_to_string combat_damage = "CombatDamage"
phase_to_string end_of_combat = "EndOfCombat"
phase_to_string main2 = "Main2"
phase_to_string end_step = "EndStep"
phase_to_string cleanup = "Cleanup"

abbrev pub phase_count : ℕ
phase_count = 13

-- static_cast<int>(phase)
abbrev pub index : Phase → ℕ
index untap = 0
index upkeep = 1
index draw = 2
index main1 = 3
index beginning_of_combat = 4
index declare_attackers = 5
index declare_blockers = 6
index first_strike_damage = 7
index combat_damage = 8
index end_of_combat = 9
index main2 = 10
index end_step = 11
index cleanup = 12

-- static_cast<Phase>(n), for an n below `phase_count`
abbrev pub of_index : ℕ → Phase
of_index n =
    if n == 0
    then untap
    else if n == 1
    then upkeep
    else if n == 2
    then draw
    else if n == 3
    then main1
    else if n == 4
    then beginning_of_combat
    else if n == 5
    then declare_attackers
    else if n == 6
    then declare_blockers
    else if n == 7
    then first_strike_damage
    else if n == 8
    then combat_damage
    else if n == 9
    then end_of_combat
    else if n == 10
    then main2
    else if n == 11
    then end_step
    else cleanup

pub record TurnMachine : Type 0 where
  pub phase : Phase
  pub active_player : ℕ
  pub turn_number : ℕ

abbrev pub init : TurnMachine
init = record { phase = untap; active_player = 0; turn_number = 0 }

unfoldable pub is_main_phase : TurnMachine → Bool
is_main_phase t = index t.phase == index main1 || index t.phase == index main2

unfoldable pub is_combat_phase : TurnMachine → Bool
is_combat_phase t =
    leb (index beginning_of_combat) (index t.phase) && leb (index t.phase) (index end_of_combat)

unfoldable pub phase_needs_priority : TurnMachine → Bool
phase_needs_priority t = not (index t.phase == index untap) && not (index t.phase == index cleanup)

unfoldable pub set_active_player : ℕ → TurnMachine → TurnMachine
set_active_player player_id t = record t { active_player = player_id }

unfoldable pub set_phase : Phase → TurnMachine → TurnMachine
set_phase p t = record t { phase = p }

unfoldable pub advance_phase : TurnMachine → TurnMachine
advance_phase t =
    let next = index t.phase + 1 in
    if leb phase_count next then record t { phase = untap } else record t { phase = of_index next }

unfoldable pub new_turn : ℕ → TurnMachine → TurnMachine
new_turn next_active_player t = record {
  phase = untap;
  active_player = next_active_player;
  turn_number = t.turn_number + 1;
}

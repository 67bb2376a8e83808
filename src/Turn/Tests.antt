-- ===== src/Turn/Tests.antt =====
-- Runs of the turn machine, and the theorems at concrete inputs.
use uud.Base.{◌≡◌, refl, true, arith}
use uud.Turn.{
  TurnMachine, is_combat_phase, advance_phase, new_turn, untap, declare_attackers, declare_blockers,
  cleanup,
}
use uud.Turn.Cycle.{advances, new_turn_phases}

abbrev in_combat : TurnMachine
in_combat = record { phase = declare_blockers; active_player = 7; turn_number = 3 }

advance_wraps : (advance_phase (record in_combat { phase = cleanup })).phase ≡ untap
unfolding advance_phase
advance_wraps = refl

blockers_in_combat : is_combat_phase in_combat ≡ true
unfolding is_combat_phase
blockers_in_combat = refl

new_turn_phases_example : (advances 5 (new_turn 8 in_combat)).phase ≡ declare_attackers
new_turn_phases_example = (new_turn_phases 8 5 in_combat (omega arith)).0

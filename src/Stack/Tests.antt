-- ===== src/Stack/Tests.antt =====
-- Runs of the stack, and the theorems at concrete inputs.
use uud.Base.Int.{pos}
use uud.Base.{find_erase, ◌≡◌, refl, false, none, [], ◌∷◌, arith}
use uud.Stack.{StackEntry, TheStack, remove, spell}
use uud.Stack.Order.{resolve_all, resolve_all_reverses}
use uud.Stack.Ids.{IsValid, run, run-IsValid, pushes, resolves, removes}

abbrev bolt : StackEntry
bolt = record {
  id = 0;
  content = spell 40;
  controller_id = 1;
  targets = 9 ∷ [];
  target_filter = "creature";
  chosen_modes = [];
  x_value = pos 0;
  kicked = false;
  flashback = false;
  adventure = false;
}

abbrev counterspell : StackEntry
counterspell = record bolt { content = spell 41; controller_id = 2 }

abbrev two_spells : TheStack
two_spells = record {
  entries = record bolt { id = 1 } ∷ record counterspell { id = 2 } ∷ [];
  next_id = 3;
}

remove_missing : (remove 7 two_spells).1 ≡ none
unfolding remove find_erase
remove_missing = refl

resolve_all_reverses_example :
    resolve_all 2 two_spells ≡ record counterspell { id = 2 } ∷ record bolt { id = 1 } ∷ []
resolve_all_reverses_example = resolve_all_reverses two_spells 2 (omega arith)

run-IsValid_example : IsValid (run (pushes bolt ∷ removes 1 ∷ resolves ∷ []) two_spells)
run-IsValid_example =
    run-IsValid (pushes bolt ∷ removes 1 ∷ resolves ∷ []) two_spells (omega arith) (omega arith)

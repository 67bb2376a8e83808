-- ===== src/Stack.antt =====
-- the_stack.hpp and the_stack.cpp (server/src/engine): spells and abilities that wait to resolve.
-- The list is the vector in its own order, so its back is the top of the stack. A card stands for
-- its instance id, a Lua function for its reference in Lua's registry. `id` and `next_id` are
-- 64-bit words.
pub mod Order
pub mod Ids
mod Tests
use Prim.Native.String.{String}
use uud.Base.Int.{ℤ}
use uud.Base.{
  ◌==◌, length, push_back, back, pop_back, find_erase, ℕ, ◌+◌, ◌%◌, ◌^◌, Bool, Option, none, some,
  List, [],
}

pub data Content : Type 0 where
  spell : (card : ℕ) → Content
  activated_ability : (source_permanent_id ability_index effect : ℕ) → Content
  triggered_ability : (source_id trigger_type effect : ℕ) → Content

pub record StackEntry : Type 0 where
  pub id : ℕ
  pub content : Content
  pub controller_id : ℕ
  pub targets : List ℕ
  pub target_filter : String
  pub chosen_modes : List ℤ
  pub x_value : ℤ
  pub kicked : Bool
  pub flashback : Bool
  pub adventure : Bool

pub record TheStack : Type 0 where
  pub entries : List StackEntry
  pub next_id : ℕ

abbrev pub init : TheStack
init = record { entries = []; next_id = 1 }

unfoldable pub push : StackEntry → TheStack → TheStack × ℕ
push entry s = (
  record {
    entries = push_back s.entries (record entry { id = s.next_id });
    next_id = (s.next_id + 1) % 2 ^ 64;
  },
  s.next_id,
)

unfoldable pub resolve_top : TheStack → TheStack × Option StackEntry
resolve_top s = (record s { entries = pop_back s.entries }, back s.entries)

abbrev pub has_id : ℕ → StackEntry → Bool
has_id entry_id e = e.id == entry_id

unfoldable pub remove : ℕ → TheStack → TheStack × Option StackEntry
remove entry_id s = elim (find_erase (has_id entry_id) s.entries) [
  | none ↦ (s, none)
  | some (e, rest) ↦ (record s { entries = rest }, some e)
]

unfoldable pub peek : TheStack → Option StackEntry
peek s = back s.entries

unfoldable pub is_empty : TheStack → Bool
is_empty s = length s.entries == 0

unfoldable pub clear : TheStack → TheStack
clear s = record s { entries = [] }

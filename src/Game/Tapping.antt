-- ===== src/Game/Tapping.antt =====
-- Mana from lands and its undo (Game::auto_tap_lands, push_mana_undo and pop_mana_undo of
-- server/src/engine/game.cpp). The Lua function of an ability is a parameter; it gets the game, the
-- player and the permanent. std::sort leaves the order of lands alike open, and keeps it here.
use Prim.Native.String.{String}
use text.Mathlib.Text.{◌==◌ as str_eq, find?}
use uud.Base.Int.{ℤ, pos}
use uud.Base.Maps.{Map}
use uud.Base.Maps
use uud.Base.{
  ltb, leb, ◌==◌, if◌then◌else◌, is_some, length, push_back, back, pop_back, keep_if, ℕ, Bool, true,
  false, not, ◌&&◌, Option, none, some, List, [], ◌∷◌, ◌++◌,
}
use uud.Card.{same_type, ActivatedAbility, land}
use uud.Mana.Afford.{can_pay_cost}
use uud.Mana.Cost.{ManaCost}
use uud.Mana.Pool.{spend}
use uud.Permanent.{Permanent, set_tapped}
use uud.Player.{Player}
use uud.Zones.{ZoneManager, find_permanent}
use uud.Game.{ManaUndoEntry, Game, find_player, update_player}

-- std::string::find
abbrev pub has_text : String → String → Bool
has_text text part = is_some (find? text part)

-- A change through the pointer that find_permanent returns.
abbrev pub change_found : ℕ → (Permanent → Permanent) → Option Permanent → ZoneManager → ZoneManager
change_found id change none z = z
change_found id change (some perm) z = record z {
  battlefield = Maps.insert id (change perm) z.battlefield;
}

unfoldable pub change_permanent : ℕ → (Permanent → Permanent) → Game → Game
change_permanent id change g = record g {
  zones = change_found id change (find_permanent id g.zones) g.zones;
}

abbrev pub undo_stack : ℕ → Game → List ManaUndoEntry
undo_stack player_id g = Maps.at [] player_id g.mana_undo_stacks

abbrev pub set_undo_stack : ℕ → List ManaUndoEntry → Game → Game
set_undo_stack player_id entries g = record g {
  mana_undo_stacks = Maps.insert player_id entries g.mana_undo_stacks;
}

abbrev pub tail : List ManaUndoEntry → List ManaUndoEntry
tail [] = []
tail (entry ∷ entries) = entries

abbrev pub with_entry : List ManaUndoEntry → ManaUndoEntry → List ManaUndoEntry
with_entry entries entry =
    push_back (if leb 64 (length entries) then tail entries else entries) entry

unfoldable pub push_mana_undo : ℕ → ManaUndoEntry → Game → Game
push_mana_undo player_id entry g =
    set_undo_stack player_id (with_entry (undo_stack player_id g) entry) g

abbrev pub spend_mana : String → ℤ → Player → Player
spend_mana color amount p = record p { mana_pool = (spend color amount p.mana_pool).0 }

abbrev pub undo_entry : ℕ → Option ManaUndoEntry → List ManaUndoEntry → Game → Game
undo_entry player_id none rest g = g
undo_entry player_id (some entry) rest g =
    let g' =
      change_permanent entry.permanent_id (set_tapped false) (set_undo_stack player_id rest g) in
    record g' { players = update_player player_id (spend_mana entry.color entry.amount) g'.players }

unfoldable pub pop_mana_undo : ℕ → Game → Game
unfolding change_permanent
pop_mana_undo player_id g =
    undo_entry player_id (back (undo_stack player_id g)) (pop_back (undo_stack player_id g)) g

-- The color that the text of a mana ability names.
abbrev pub produced_color : String → String
produced_color text =
    if has_text text "{W}"
    then "W"
    else if has_text text "{U}"
    then "U"
    else if has_text text "{B}"
    then "B"
    else if has_text text "{R}"
    then "R"
    else if has_text text "{G}"
    then "G"
    else "C"

-- The first mana ability of a card.
abbrev pub first_mana_ability : List ActivatedAbility → Option ActivatedAbility
first_mana_ability [] = none
first_mana_ability (a ∷ abilities) =
    let rest = first_mana_ability abilities in if a.is_mana_ability then some a else rest

abbrev pub with_land : Bool → ℕ → Option ActivatedAbility → List (ℕ × String) → List (ℕ × String)
with_land true id (some a) lands = (id, produced_color a.effect_text) ∷ lands
with_land true id none lands = lands
with_land false id ability lands = lands

unfoldable pub untapped_lands : ℕ → Map Permanent → List (ℕ × String)
untapped_lands player_id [] = []
untapped_lands player_id ((id, perm) ∷ m) =
    with_land (perm.controller_id == player_id && same_type perm.card.type land && not perm.tapped)
      id (first_mana_ability perm.card.activated_abilities) (untapped_lands player_id m)

abbrev pub needed_color : ManaCost → String → Bool
needed_color cost c =
    if str_eq c "W"
    then ltb 0 cost.white
    else if str_eq c "U"
    then ltb 0 cost.blue
    else if str_eq c "B"
    then ltb 0 cost.black
    else if str_eq c "R"
    then ltb 0 cost.red
    else if str_eq c "G"
    then ltb 0 cost.green
    else false

abbrev pub needed_first : ManaCost → List (ℕ × String) → List (ℕ × String)
needed_first cost lands =
    keep_if (λ l. needed_color cost l.1) lands ++ keep_if (λ l. not (needed_color cost l.1)) lands

abbrev pub pool_pays : ManaCost → Option Player → Bool
pool_pays cost none = true
pool_pays cost (some p) = can_pay_cost cost p.mana_pool

abbrev pub ability_of : Option Permanent → Option ActivatedAbility
ability_of none = none
ability_of (some perm) =
    if perm.tapped then none else first_mana_ability perm.card.activated_abilities

module _ (run_effect : ℕ → ℕ → ℕ → Game → Game) where
  -- The effect of an ability, if its function is valid.
  abbrev pub run_ability : Option ℕ → ℕ → ℕ → Game → Game
  run_ability none player_id source_id g = g
  run_ability (some effect) player_id source_id g = run_effect effect player_id source_id g

  abbrev pub tap_with : Option ActivatedAbility → ℕ → ℕ × String → Game → Game
  tap_with none player_id site g = g
  tap_with (some a) player_id site g =
      push_mana_undo player_id (record { permanent_id = site.0; color = site.1; amount = pos 1 })
        (run_ability a.effect player_id site.0 (change_permanent site.0 (set_tapped true) g))

  -- The loop over the lands, which ends when the pool pays the cost.
  unfoldable pub tap_each : ManaCost → ℕ → List (ℕ × String) → Game → Game
  tap_each cost player_id [] g = g
  tap_each cost player_id (site ∷ lands) g =
      let paid = pool_pays cost (find_player player_id g.players) in
      let rest =
        tap_each cost player_id lands
          (tap_with (ability_of (find_permanent site.0 g.zones)) player_id site g) in
      if paid then g else rest

  unfoldable pub auto_tap_lands : ℕ → ManaCost → Game → Game
  unfolding tap_each
  auto_tap_lands player_id cost g =
      if pool_pays cost (find_player player_id g.players)
      then g
      else tap_each cost player_id
          (needed_first cost (untapped_lands player_id g.zones.battlefield)) g

-- ===== src/Game/Abilities.antt =====
-- The activated abilities of permanents (Game::process_action of server/src/engine/game.cpp). The
-- effects of abilities are a parameter. A cost text is the list of its bytes.
use Prim.Native.String.{String}
use uud.Actions.{ActionData}
use uud.Base.Int.{ℤ, pos_part, pos, negsuc}
use uud.Base.Maps
use uud.Base.{
  ◌==◌, if◌then◌else◌, is_some, length, get_elem?, push_back, erase_if, ℕ, zero, suc, Bool, true,
  false, not, ◌&&◌, ◌||◌, Option, none, some, List, [], ◌∷◌,
}
use uud.Card.{ActivatedAbility}
use uud.Mana.Color.{Result, ok, err}
use uud.Mana.Cost.{ManaCost, from_string}
use uud.Permanent.{Permanent, set_tapped, is_creature, has_keyword}
use uud.Priority
use uud.Stack
use uud.Stack.{activated_ability}
use uud.Targets.{bytes}
use uud.Turn.{is_main_phase}
use uud.Zones.{find_permanent}
use uud.Game.{Game, find_player, ability_activated}
use uud.Game.Tapping.{change_permanent, run_ability}
use uud.Game.Paying.{new_entry}
use uud.Game.Casting.{tap_and_pay}

-- What stands behind a "{T}" that a text starts with.
abbrev pub behind_tap : List ℕ → Option (List ℕ)
behind_tap (a ∷ b ∷ c ∷ rest) = if a == b'{' && b == b'T' && c == b'}' then some rest else none
behind_tap _ = none

abbrev pub or_later : Option (List ℕ) → ℕ → Option (List ℕ) → Option (List ℕ)
or_later (some rest) a later = some rest
or_later none a none = none
or_later none a (some cut) = some (a ∷ cut)

-- The text without its first "{T}".
unfoldable pub cut_tap : List ℕ → Option (List ℕ)
cut_tap [] = none
cut_tap (a ∷ rest) = or_later (behind_tap (a ∷ rest)) a (cut_tap rest)

abbrev pub cut_again : (List ℕ → List ℕ) → List ℕ → Option (List ℕ) → List ℕ
cut_again again text none = text
cut_again again text (some cut) = again cut

-- The loop that cuts out every "{T}"; each round takes three bytes, so the length is enough fuel.
unfoldable pub strip_taps : ℕ → List ℕ → List ℕ
strip_taps zero text = text
strip_taps (suc fuel) text = cut_again (strip_taps fuel) text (cut_tap text)

unfoldable pub mana_portion : String → List ℕ
unfolding strip_taps
mana_portion cost_text =
    let text = bytes cost_text in erase_if (λ ch. ch == b',') (strip_taps (length text) text)

abbrev pub requires_tap : ActivatedAbility → Bool
requires_tap ability = is_some (cut_tap (bytes ability.cost_text))

abbrev pub first_index : List ℤ → ℤ
first_index [] = pos 0
first_index (i ∷ indices) = i

abbrev pub ability_at : ℤ → List ActivatedAbility → Option ActivatedAbility
ability_at (pos n) abilities = get_elem? abilities n
ability_at (negsuc n) abilities = none

-- The guards before an ability is paid for.
abbrev pub may_activate : ActivatedAbility → Permanent → Game → Bool
may_activate ability perm g =
    if ability.sorcery_speed_only
      && not ability.is_mana_ability
      && (not (is_main_phase g.turns) || not (Stack.is_empty g.stack))
    then false
    else if requires_tap ability && perm.tapped
    then false
    else if requires_tap ability
        && is_creature perm
        && perm.summoning_sick
        && not (has_keyword "Haste" perm)
    then false
    else true

module _ (run_effect : ℕ → ℕ → ℕ → Game → Game) where
  -- What an ability does once it is paid for.
  unfoldable pub use_ability : ℕ → ActionData → ActivatedAbility → Game → Game
  use_ability player_id action ability g =
      let g1 =
        if requires_tap ability then change_permanent action.target_id (set_tapped true) g else g in
      let (stack, stack_id) =
        Stack.push
          (new_entry
            (activated_ability action.target_id (pos_part (first_index action.indices))
              (Maps.get_or_default 0 ability.effect))
            player_id action.ids)
          g1.stack in
      if ability.is_mana_ability
      then run_ability run_effect ability.effect player_id action.target_id g1
      else record g1 {
        stack = stack;
        events =
            push_back g1.events (ability_activated action.target_id ability.effect_text stack_id);
        priority = Priority.interrupt g1.priority;
      }

  abbrev pub use_if_paid : ℕ → ActionData → ActivatedAbility → Bool × Game → Game
  use_if_paid player_id action ability (false, g) = g
  use_if_paid player_id action ability (true, g) = use_ability player_id action ability g

  abbrev pub pay_ability :
      ℕ → ActionData → ActivatedAbility → List ℕ → Result ManaCost → Game → Game
  pay_ability player_id action ability [] cost g = use_ability player_id action ability g
  pay_ability player_id action ability (ch ∷ text) (err e) g = g
  pay_ability player_id action ability (ch ∷ text) (ok cost) g =
      use_if_paid player_id action ability (tap_and_pay run_effect player_id cost g)

  abbrev pub activate_found : ℕ → ActionData → Permanent → Option ActivatedAbility → Game → Game
  activate_found player_id action perm none g = g
  activate_found player_id action perm (some ability) g =
      let text = mana_portion ability.cost_text in
      if not (may_activate ability perm g)
      then g
      else if not (is_some (find_player player_id g.players))
      then g
      else pay_ability player_id action ability text (from_string text) g

  abbrev pub activate_on : ℕ → ActionData → Option Permanent → Game → Game
  activate_on player_id action none g = g
  activate_on player_id action (some perm) g =
      if perm.controller_id == player_id
      then activate_found player_id action perm
          (ability_at (first_index action.indices) perm.card.activated_abilities) g
      else g

  unfoldable pub activate_ability : ℕ → ActionData → Game → Game
  activate_ability player_id action g =
      activate_on player_id action (find_permanent action.target_id g.zones) g

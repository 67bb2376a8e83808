-- ===== src/Game/UndoAbilities.antt =====
-- Undo stacks after an ability (Game::process_action of server/src/engine/game.cpp).
use uud.Actions.{ActionData}
use uud.Base.{
  ◌==◌, is_some, ℕ, ◌≡◌, refl, Bool, true, false, not, Option, none, some, List, [], ◌∷◌,
}
use uud.Card.{ActivatedAbility}
use uud.Mana.Color.{Result, ok, err}
use uud.Mana.Cost.{ManaCost}
use uud.Permanent.{Permanent, set_tapped}
use uud.Zones.{find_permanent}
use uud.Game.{Game, find_player}
use uud.Game.Tapping.{change_permanent}
use uud.Game.Casting.{tap_and_pay}
use uud.Game.Abilities.{
  requires_tap, first_index, ability_at, may_activate, use_ability, use_if_paid, pay_ability,
  activate_found, activate_on, activate_ability,
}
use uud.Game.UndoStacks.{IsUndoFree}
use uud.Game.UndoTaps.{same_free, either_free, run_ability-keeps, tap_and_pay-IsUndoFree}

module _ (run_effect : ℕ → ℕ → ℕ → Game → Game)
    (keeps : (e p s : ℕ) (g : Game)
      → (run_effect e p s g).mana_undo_stacks ≡ g.mana_undo_stacks) where
  use_ability-IsUndoFree :
      (p : ℕ) (action : ActionData) (ability : ActivatedAbility) (g : Game)
      → IsUndoFree g
      → IsUndoFree (use_ability run_effect p action ability g)
  unfolding use_ability change_permanent
  use_ability-IsUndoFree p action ability g free =
      let tapped =
        either_free (requires_tap ability) (change_permanent action.target_id (set_tapped true) g) g
          (same_free g _ free refl) free in
      either_free ability.is_mana_ability _ _
        (same_free _ _ tapped
          (run_ability-keeps run_effect keeps ability.effect p action.target_id _))
        (same_free _ _ tapped refl)

  pay_ability-IsUndoFree :
      (p : ℕ) (action : ActionData) (ability : ActivatedAbility) (text : List ℕ)
      (cost : Result ManaCost) (g : Game)
      → IsUndoFree g
      → IsUndoFree (pay_ability run_effect p action ability text cost g)
  pay_ability-IsUndoFree p action ability [] cost g free =
      use_ability-IsUndoFree p action ability g free
  pay_ability-IsUndoFree p action ability (ch ∷ text) (err e) g free = free
  pay_ability-IsUndoFree p action ability (ch ∷ text) (ok cost) g free =
      used (tap_and_pay run_effect p cost g) (tap_and_pay-IsUndoFree run_effect keeps p cost g free)
    where
      used :
          (paid : Bool × Game)
          → IsUndoFree paid.1
          → IsUndoFree (use_if_paid run_effect p action ability paid)
      used (false, g') free' = free'
      used (true, g') free' = use_ability-IsUndoFree p action ability g' free'

  pub activate_ability-IsUndoFree :
      (p : ℕ) (action : ActionData) (g : Game)
      → IsUndoFree g
      → IsUndoFree (activate_ability run_effect p action g)
  unfolding activate_ability
  activate_ability-IsUndoFree p action g free = on (find_permanent action.target_id g.zones)
    where
      with_ability :
          (perm : Permanent) (ability : Option ActivatedAbility)
          → IsUndoFree (activate_found run_effect p action perm ability g)
      with_ability perm none = free
      with_ability perm (some ability) = either_free (not (may_activate ability perm g)) _ _ free (
          either_free (not (is_some (find_player p g.players))) _ _ free
            (pay_ability-IsUndoFree p action ability _ _ g free))

      on : (perm : Option Permanent) → IsUndoFree (activate_on run_effect p action perm g)
      on none = free
      on (some perm) =
          either_free (perm.controller_id == p) _ _
            (with_ability perm
              (ability_at (first_index action.indices) perm.card.activated_abilities))
            free

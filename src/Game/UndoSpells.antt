-- ===== src/Game/UndoSpells.antt =====
-- Undo stacks after a spell (Game::process_action of server/src/engine/game.cpp).
use Prim.Native.String.{String}
use uud.Actions.{ActionData}
use uud.Base.Int.{ltb_ℤ, pos}
use uud.Base.{if◌then◌else◌, is_some, ℕ, ◌≡◌, refl, not, ◌&&◌, Option, none, some}
use uud.Card.{Card}
use uud.Mana.Color.{Result, ok, err}
use uud.Mana.Cost.{ManaCost, from_string}
use uud.Targets.{bytes}
use uud.Zones.{remove_from_hand, remove_from_graveyard}
use uud.Game.{Game, find_player}
use uud.Game.Casting.{
  tap_and_pay, cast_spell, play_found, play_card, flashback_for, flashback_found, play_flashback,
}
use uud.Game.Paying.{return_to_hand, bury_card, has_card_keyword, sorcery_time, has_instant_speed}
use uud.Game.UndoStacks.{IsUndoFree, either_paid, convoked, delve-IsUndoFree}
use uud.Game.UndoTaps.{
  same_free, either_free, return-IsUndoFree, flash_or_bury-IsUndoFree, cast_or_return-IsUndoFree,
  tap_and_pay-IsUndoFree, pay_spell-IsUndoFree,
}

module _ (run_effect : ℕ → ℕ → ℕ → Game → Game)
    (keeps : (e p s : ℕ) (g : Game)
      → (run_effect e p s g).mana_undo_stacks ≡ g.mana_undo_stacks) where
  cast_spell-IsUndoFree :
      (p : ℕ) (action : ActionData) (card : Card) (g : Game)
      → IsUndoFree g
      → IsUndoFree (cast_spell run_effect p action card g)
  unfolding cast_spell
  cast_spell-IsUndoFree p action card g free = cast_or_return-IsUndoFree p card _ _ (
      pay_spell-IsUndoFree run_effect keeps p _ _ (
        either_paid (has_card_keyword "Delve" card && ltb_ℤ (pos 0) action.delve_count) _ _
          (delve-IsUndoFree p action.delve_count _ (convoked p action card _ g free))
          (convoked p action card _ g free)))

  pub play_card-IsUndoFree :
      (p : ℕ) (action : ActionData) (g : Game)
      → IsUndoFree g
      → IsUndoFree (play_card run_effect p action g)
  unfolding play_card return_to_hand
  play_card-IsUndoFree p action g free =
      played ((remove_from_hand p action.target_id g.zones).0) _ (same_free g _ free refl)
    where
      played :
          (card : Option Card) (g' : Game)
          → IsUndoFree g'
          → IsUndoFree (play_found run_effect p action card g')
      played none g' free' = free'
      played (some card) g' free' =
          either_free (not (has_instant_speed card) && not (sorcery_time p g')) _ _
            (return-IsUndoFree p card g' free')
            (either_free (not (is_some (find_player p g'.players))) _ _
              (return-IsUndoFree p card g' free') (cast_spell-IsUndoFree p action card g' free'))

  flashback_for-IsUndoFree :
      (p : ℕ) (action : ActionData) (card : Card) (cost : Result ManaCost) (g : Game)
      → IsUndoFree g
      → IsUndoFree (flashback_for run_effect p action card cost g)
  flashback_for-IsUndoFree p action card (err e) g free = same_free g _ free refl
  flashback_for-IsUndoFree p action card (ok cost) g free =
      flash_or_bury-IsUndoFree p card _ (tap_and_pay run_effect p cost g)
        (tap_and_pay-IsUndoFree run_effect keeps p cost g free)

  pub play_flashback-IsUndoFree :
      (p : ℕ) (action : ActionData) (g : Game)
      → IsUndoFree g
      → IsUndoFree (play_flashback run_effect p action g)
  unfolding play_flashback
  play_flashback-IsUndoFree p action g free =
      played ((remove_from_graveyard p action.target_id g.zones).0) _ (same_free g _ free refl)
    where
      played :
          (card : Option Card) (g' : Game)
          → IsUndoFree g'
          → IsUndoFree (flashback_found run_effect p action card g')
      played none g' free' = free'
      played (some card) g' free' = priced card.flashback_cost
        where
          priced :
              (text : Option String)
              → IsUndoFree (elim text [
                | none ↦ bury_card p card g'
                | some t ↦
                    if is_some (find_player p g'.players)
                    then flashback_for run_effect p action card (from_string (bytes t)) g'
                    else bury_card p card g'
              ])
          priced none = same_free g' _ free' refl
          priced (some t) =
              either_free (is_some (find_player p g'.players)) _ _
                (flashback_for-IsUndoFree p action card (from_string (bytes t)) g' free')
                (same_free g' _ free' refl)

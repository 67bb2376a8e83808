-- ===== src/Game/UndoTaps.antt =====
-- Undo stacks after lands are tapped to pay a cost (Game::auto_tap_lands of
-- server/src/engine/game.cpp).
use Prim.Native.String.{String}
use uud.Base.Maps
use uud.Base.{
  if◌then◌else◌, ℕ, ◌≡◌, refl, ap, ◌∙◌, Bool, true, false, Option, none, some, List, [], ◌∷◌,
}
use uud.Card.{ActivatedAbility, Card}
use uud.Mana.Cost.{ManaCost}
use uud.Permanent.{set_tapped}
use uud.Stack.{StackEntry}
use uud.Zones.{find_permanent}
use uud.Game.{Game, find_player}
use uud.Game.Tapping.{
  change_permanent, push_mana_undo, pool_pays, ability_of, run_ability, tap_with, tap_each,
  auto_tap_lands,
}
use uud.Game.Casting.{put_on_stack, cast_or_return, flash_or_bury, tap_and_pay, pay_spell}
use uud.Game.Paying.{return_to_hand, has_cost}
use uud.Game.UndoStacks.{
  IsUndoFree, LeavesOthers, set_stack_other, either_kept, pay_now-keeps, emptied, either_paid,
}

-- The same stacks.
pub same_free :
    (g g' : Game) → IsUndoFree g → g'.mana_undo_stacks ≡ g.mana_undo_stacks → IsUndoFree g'
unfolding IsUndoFree
same_free g g' free e q = ap (λ m. Maps.at [] q m) e ∙ free q

pub either_free :
    (b : Bool) (x y : Game) → IsUndoFree x → IsUndoFree y → IsUndoFree (if b then x else y)
either_free true x y f g = f
either_free false x y f g = g

pub return-IsUndoFree :
    (p : ℕ) (card : Card) (g : Game) → IsUndoFree g → IsUndoFree (return_to_hand p card g)
unfolding return_to_hand
return-IsUndoFree p card g free = same_free g _ free refl

pub flash_or_bury-IsUndoFree :
    (p : ℕ) (card : Card) (entry : StackEntry) (paid : Bool × Game)
    → IsUndoFree paid.1
    → IsUndoFree (flash_or_bury p card entry paid)
unfolding put_on_stack
flash_or_bury-IsUndoFree p card entry (false, g) free = same_free g _ free refl
flash_or_bury-IsUndoFree p card entry (true, g) free = same_free g _ free refl

pub cast_or_return-IsUndoFree :
    (p : ℕ) (card : Card) (entry : StackEntry) (paid : Bool × Game)
    → IsUndoFree paid.1
    → IsUndoFree (cast_or_return p card entry paid)
unfolding IsUndoFree return_to_hand put_on_stack
cast_or_return-IsUndoFree p card entry (false, g) free = free
cast_or_return-IsUndoFree p card entry (true, g) free = free

module _ (run_effect : ℕ → ℕ → ℕ → Game → Game)
    (keeps : (e p s : ℕ) (g : Game)
      → (run_effect e p s g).mana_undo_stacks ≡ g.mana_undo_stacks) where
  pub run_ability-keeps :
      (effect : Option ℕ) (p s : ℕ) (g : Game)
      → (run_ability run_effect effect p s g).mana_undo_stacks ≡ g.mana_undo_stacks
  run_ability-keeps none p s g = refl
  run_ability-keeps (some e) p s g = keeps e p s g

  tap_with-LeavesOthers :
      (ability : Option ActivatedAbility) (p : ℕ) (site : ℕ × String) (g : Game)
      → LeavesOthers p g (tap_with run_effect ability p site g)
  unfolding push_mana_undo change_permanent
  tap_with-LeavesOthers none p site g q e = refl
  tap_with-LeavesOthers (some a) p site g q e =
      set_stack_other p q _
        (run_ability run_effect a.effect p site.0 (change_permanent site.0 (set_tapped true) g)) e
      ∙ ap (λ m. Maps.at [] q m) (run_ability-keeps a.effect p site.0 _)

  tap_each-LeavesOthers :
      (cost : ManaCost) (p : ℕ) (lands : List (ℕ × String)) (g : Game)
      → LeavesOthers p g (tap_each run_effect cost p lands g)
  unfolding tap_each
  tap_each-LeavesOthers cost p [] g q e = refl
  tap_each-LeavesOthers cost p (site ∷ lands) g q e =
      either_kept (pool_pays cost (find_player p g.players)) q g _ (
        tap_each-LeavesOthers cost p lands _ q e
        ∙ tap_with-LeavesOthers (ability_of (find_permanent site.0 g.zones)) p site g q e)

  auto_tap-LeavesOthers :
      (p : ℕ) (cost : ManaCost) (g : Game) → LeavesOthers p g (auto_tap_lands run_effect p cost g)
  unfolding auto_tap_lands
  auto_tap-LeavesOthers p cost g q e =
      either_kept (pool_pays cost (find_player p g.players)) q g _
        (tap_each-LeavesOthers cost p _ g q e)

  pub tap_and_pay-IsUndoFree :
      (p : ℕ) (cost : ManaCost) (g : Game)
      → IsUndoFree g
      → IsUndoFree ((tap_and_pay run_effect p cost g).1)
  unfolding tap_and_pay IsUndoFree
  tap_and_pay-IsUndoFree p cost g free q =
      ap (λ m. Maps.at [] q m) (pay_now-keeps p cost _)
      ∙ emptied p q (auto_tap_lands run_effect p cost g)
          (λ e. auto_tap-LeavesOthers p cost g q e ∙ free q)

  pub pay_spell-IsUndoFree :
      (p : ℕ) (cost : ManaCost) (g : Game)
      → IsUndoFree g
      → IsUndoFree ((pay_spell run_effect p cost g).1)
  pay_spell-IsUndoFree p cost g free =
      either_paid (has_cost cost) _ _ (tap_and_pay-IsUndoFree p cost g free) free

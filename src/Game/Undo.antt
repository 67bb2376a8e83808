-- ===== src/Game/Undo.antt =====
-- The undo of mana (Game::pop_mana_undo of server/src/engine/game.cpp) along the actions of a game.
use Prim.Native.String.{String, ◌++◌ as str_append}
use text.Mathlib.Text.{◌==◌ as str_eq}
use uud.Actions.{ActionData}
use uud.Base.{
  ◌==◌, if◌then◌else◌, is_some, ℕ, ◌≡◌, refl, sym, subst, Bool, true, false, not, ◌&&◌, ◌||◌,
  Option, none, some,
}
use uud.Card.{same_type, AdventureFace, Card, land}
use uud.Player.{Player, eliminate}
use uud.Stack.{StackEntry, spell}
use uud.Zones.{remove_from_hand}
use uud.Game.{
  AutoPassMode, GameOverResult, Game, emit, contains_id, erase_id, find_player, update_player,
  set_auto_pass, check_win, end_with, game_log,
}
use uud.Game.Tapping.{change_permanent, pop_mana_undo}
use uud.Game.Casting.{
  put_on_stack, adventure_or_return, adventure_found, play_adventure, on_landfall, may_play_land,
  enter_land, land_found, play_land_card,
}
use uud.Game.Paying.{return_to_hand, sorcery_time, pay_now, new_entry}
use uud.Game.Sideboard.{swap_for, sideboard_swap}
use uud.Game.Process.{
  concede_as, concede, answer_yes_no, request_concede, offer_draw, answer_draw, mode_of, set_mode,
  process_action,
}
use uud.Game.UndoStacks.{IsUndoFree, pay_now-keeps}
use uud.Game.UndoTaps.{same_free, either_free, return-IsUndoFree}
use uud.Game.UndoSpells.{play_card-IsUndoFree, play_flashback-IsUndoFree}
use uud.Game.UndoAbilities.{activate_ability-IsUndoFree}

-- The actions without mana abilities.
adventure_or_return-IsUndoFree :
    (p : ℕ) (card : Card) (entry : StackEntry) (paid : Bool × Game)
    → IsUndoFree paid.1
    → IsUndoFree (adventure_or_return p card entry paid)
unfolding put_on_stack
adventure_or_return-IsUndoFree p card entry (false, g) free = return-IsUndoFree p card g free
adventure_or_return-IsUndoFree p card entry (true, g) free = same_free g _ free refl

play_adventure-IsUndoFree :
    (p : ℕ) (action : ActionData) (g : Game) → IsUndoFree g → IsUndoFree (play_adventure p action g)
unfolding play_adventure
play_adventure-IsUndoFree p action g free =
    played ((remove_from_hand p action.target_id g.zones).0) _ (same_free g _ free refl)
  where
    face_up :
        (card : Card) (face : Option AdventureFace) (g' : Game)
        → IsUndoFree g'
        → IsUndoFree (elim face [
          | none ↦ return_to_hand p card g'
          | some f ↦
              if is_some (find_player p g'.players)
              then adventure_or_return p card
                  (record (new_entry (spell card.instance_id) p action.ids) { adventure = true })
                  (pay_now p f.mana_cost g')
              else return_to_hand p card g'
        ])
    face_up card none g' free' = return-IsUndoFree p card g' free'
    face_up card (some f) g' free' =
        either_free (is_some (find_player p g'.players)) _ _
          (adventure_or_return-IsUndoFree p card _ (pay_now p f.mana_cost g')
            (same_free g' _ free' (pay_now-keeps p f.mana_cost g')))
          (return-IsUndoFree p card g' free')

    played :
        (card : Option Card) (g' : Game)
        → IsUndoFree g'
        → IsUndoFree (adventure_found p action card g')
    played none g' free' = free'
    played (some card) g' free' = face_up card card.adventure g' free'

swap_for-IsUndoFree :
    (p : ℕ) (action : ActionData) (player : Option Player) (g : Game)
    → IsUndoFree g
    → IsUndoFree (swap_for p action player g)
swap_for-IsUndoFree p action none g free = free
swap_for-IsUndoFree p action (some player) g free = same_free g _ free refl

end_with-IsUndoFree :
    (win : Option GameOverResult) (reason : Option String) (g : Game)
    → IsUndoFree g
    → IsUndoFree (end_with win reason g)
end_with-IsUndoFree none reason g free = free
end_with-IsUndoFree (some win) reason g free = same_free g _ free refl

concede-IsUndoFree :
    (p : ℕ) (text : String) (g : Game) → IsUndoFree g → IsUndoFree (concede p text g)
unfolding concede
concede-IsUndoFree p text g free =
    either_free (not (str_eq text "forced") && not (contains_id p g.pending_concede)) _ _ free
      (gone (find_player p g.players))
  where
    gone :
        (player : Option Player)
        → IsUndoFree
            (concede_as p player (record g { pending_concede = erase_id p g.pending_concede }))
    gone none = same_free g _ free refl
    gone (some player) =
        let left = record g {
          pending_concede = erase_id p g.pending_concede;
          players = update_player p eliminate g.players;
        } in
        let logged = emit (game_log (str_append player.username " concedes") p "concede") left in
        end_with-IsUndoFree (check_win logged.players) none logged (same_free g logged free refl)

answer_yes_no-IsUndoFree :
    (p : ℕ) (flag : Bool) (g : Game) → IsUndoFree g → IsUndoFree (answer_yes_no p flag g)
unfolding answer_yes_no
answer_yes_no-IsUndoFree p flag g free =
    either_free (contains_id p g.pending_concede) _ _
      (either_free flag _ _ (concede-IsUndoFree p "" g free) (same_free g _ free refl)) free

draw-IsUndoFree :
    (p : ℕ) (flag : Bool) (g : Game) → IsUndoFree g → IsUndoFree (answer_draw p flag g)
unfolding answer_draw
draw-IsUndoFree p flag g free =
    either_free (g.pending_draw_offer_from == 0 || g.pending_draw_offer_from == p) _ _ free
      (either_free flag _ _ (same_free g _ free refl) (same_free g _ free refl))

set_mode-IsUndoFree :
    (p : ℕ) (mode : Option AutoPassMode) (g : Game) → IsUndoFree g → IsUndoFree (set_mode p mode g)
unfolding set_auto_pass
set_mode-IsUndoFree p none g free = free
set_mode-IsUndoFree p (some mode) g free = same_free g _ free refl

-- With nothing to undo, an undo changes nothing.
pub pop_mana_undo-IsUndoFree : (p : ℕ) (g : Game) → IsUndoFree g → pop_mana_undo p g ≡ g
unfolding pop_mana_undo IsUndoFree
pop_mana_undo-IsUndoFree p g free = rw (free p) refl

undo-IsUndoFree : (p : ℕ) (g : Game) → IsUndoFree g → IsUndoFree (pop_mana_undo p g)
undo-IsUndoFree p g free = subst IsUndoFree (sym (pop_mana_undo-IsUndoFree p g free)) free

module _ (run_effect : ℕ → ℕ → ℕ → Game → Game) (fire_triggers : ℕ → ℕ → ℕ → Game → Game)
    (effects-keep : (e p s : ℕ) (g : Game)
      → (run_effect e p s g).mana_undo_stacks ≡ g.mana_undo_stacks)
    (triggers-keep : (t s p : ℕ) (g : Game)
      → (fire_triggers t s p g).mana_undo_stacks ≡ g.mana_undo_stacks) where
  land_found-IsUndoFree :
      (p : ℕ) (card : Option Card) (g : Game)
      → IsUndoFree g
      → IsUndoFree (land_found fire_triggers p card g)
  unfolding enter_land change_permanent
  land_found-IsUndoFree p none g free = free
  land_found-IsUndoFree p (some card) g free =
      either_free (same_type card.type land) _ _
        (same_free g _ free (triggers-keep on_landfall _ p _)) (return-IsUndoFree p card g free)

  play_land_card-IsUndoFree :
      (p : ℕ) (action : ActionData) (g : Game)
      → IsUndoFree g
      → IsUndoFree (play_land_card fire_triggers p action g)
  unfolding play_land_card
  play_land_card-IsUndoFree p action g free =
      either_free (not (may_play_land (find_player p g.players))) _ _ free (
        either_free (not (sorcery_time p g)) _ _ free (
          land_found-IsUndoFree p ((remove_from_hand p action.target_id g.zones).0) _
            (same_free g _ free refl)))

  processed :
      (p : ℕ) (action : ActionData) (g : Game)
      → IsUndoFree g
      → IsUndoFree (process_action run_effect fire_triggers p action g)
  unfolding process_action sideboard_swap request_concede offer_draw
  processed p action g free =
      let is = str_eq action.action_type in
      either_free (is "play_card") _ _
        (play_card-IsUndoFree run_effect effects-keep p action g free)
        (either_free (is "play_card_flashback") _ _
          (play_flashback-IsUndoFree run_effect effects-keep p action g free)
          (either_free (is "play_card_adventure") _ _ (play_adventure-IsUndoFree p action g free) (
            either_free (is "play_land") _ _ (play_land_card-IsUndoFree p action g free) (
              either_free (is "activate_ability") _ _
                (activate_ability-IsUndoFree run_effect effects-keep p action g free)
                (either_free (is "pay_mana") _ _ free (
                  either_free (is "undo") _ _ (undo-IsUndoFree p g free) (
                    either_free (is "sideboard_swap") _ _
                      (swap_for-IsUndoFree p action (find_player p g.players) g free)
                      (either_free (is "yes_no") _ _ (answer_yes_no-IsUndoFree p action.flag g free)
                        (either_free (is "concede_request") _ _ (same_free g _ free refl) (
                          either_free (is "concede_cancel") _ _ (same_free g _ free refl) (
                            either_free (is "concede") _ _ (concede-IsUndoFree p action.text g free)
                              (either_free (is "draw_offer") _ _
                                (either_free (not (g.pending_draw_offer_from == 0)) _ _ free
                                  (same_free g _ free refl))
                                (either_free (is "draw_response") _ _
                                  (draw-IsUndoFree p action.flag g free)
                                  (either_free (is "set_auto_pass") _ _
                                    (set_mode-IsUndoFree p (mode_of action.x_value) g free)
                                    free))))))))))))))

  -- No action leaves anything to undo: where no player has a recorded tap for mana and the effects and
  -- the triggers record none, none has one after an action of any kind, so an undo that follows it
  -- changes nothing.
  pub process_action-IsUndoFree :
      (p : ℕ) (action : ActionData) (g : Game)
      → IsUndoFree g
      → (let g' = process_action run_effect fire_triggers p action g in
          IsUndoFree g' × ((q : ℕ) → pop_mana_undo q g' ≡ g'))
  process_action-IsUndoFree p action g free =
      let after = processed p action g free in (after, λ q. pop_mana_undo-IsUndoFree q _ after)

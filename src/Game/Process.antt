-- ===== src/Game/Process.antt =====
-- The other actions of Game::process_action (server/src/engine/game.cpp), and the choice among all.
-- The effects of abilities and the triggers are parameters, as in Casting.
use Prim.Native.String.{String, ◌++◌ as str_append}
use text.Mathlib.Text.{◌==◌ as str_eq}
use uud.Actions.{ActionData}
use uud.Base.Int.{ℤ, pos, negsuc}
use uud.Base.{◌==◌, if◌then◌else◌, ℕ, Bool, true, not, ◌&&◌, ◌||◌, Option, none, some}
use uud.Player.{Player, eliminate}
use uud.Game.{
  AutoPassMode, GameOverResult, Game, emit, contains_id, insert_id, erase_id, find_player,
  update_player, set_auto_pass, check_win, end_with, disabled, no_actions, until_end_of_turn,
  full_control, game_log, draw_offered, draw_declined, concede_confirm,
}
use uud.Game.Tapping.{pop_mana_undo}
use uud.Game.Casting.{play_card, play_flashback, play_adventure, play_land_card}
use uud.Game.Abilities.{activate_ability}
use uud.Game.Sideboard.{sideboard_swap}

-- "concede", confirmed or forced.
abbrev pub concede_as : ℕ → Option Player → Game → Game
concede_as player_id none g = g
concede_as player_id (some p) g =
    let g' = record g { players = update_player player_id eliminate g.players } in
    let logged = emit (game_log (str_append p.username " concedes") player_id "concede") g' in
    end_with (check_win logged.players) none logged

unfoldable pub concede : ℕ → String → Game → Game
concede player_id text g =
    if not (str_eq text "forced") && not (contains_id player_id g.pending_concede)
    then g
    else concede_as player_id (find_player player_id g.players)
        (record g { pending_concede = erase_id player_id g.pending_concede })

unfoldable pub answer_yes_no : ℕ → Bool → Game → Game
unfolding concede
answer_yes_no player_id flag g =
    if contains_id player_id g.pending_concede
    then (if flag
        then concede player_id "" g
        else record g { pending_concede = erase_id player_id g.pending_concede })
    else g

unfoldable pub request_concede : ℕ → Game → Game
request_concede player_id g =
    emit (concede_confirm player_id)
      (record g { pending_concede = insert_id player_id g.pending_concede })

unfoldable pub offer_draw : ℕ → Game → Game
offer_draw player_id g =
    if not (g.pending_draw_offer_from == 0)
    then g
    else emit (draw_offered player_id) (record g { pending_draw_offer_from = player_id })

abbrev pub agreed_draw : GameOverResult
agreed_draw = record { winner_id = 0; reason = "Draw agreed by mutual consent"; is_draw = true }

unfoldable pub answer_draw : ℕ → Bool → Game → Game
answer_draw player_id flag g =
    if g.pending_draw_offer_from == 0 || g.pending_draw_offer_from == player_id
    then g
    else if flag
    then end_with (some agreed_draw) none g
    else emit (draw_declined player_id) (record g { pending_draw_offer_from = 0 })

-- static_cast<AutoPassMode> of a value from 0 to 3
abbrev pub mode_number : ℕ → Option AutoPassMode
mode_number n =
    if n == 0
    then some disabled
    else if n == 1
    then some no_actions
    else if n == 2
    then some until_end_of_turn
    else if n == 3
    then some full_control
    else none

abbrev pub mode_of : ℤ → Option AutoPassMode
mode_of (pos n) = mode_number n
mode_of (negsuc n) = none

abbrev pub set_mode : ℕ → Option AutoPassMode → Game → Game
set_mode player_id none g = g
set_mode player_id (some mode) g = set_auto_pass player_id mode g

module _ (run_effect : ℕ → ℕ → ℕ → Game → Game) (fire_triggers : ℕ → ℕ → ℕ → Game → Game) where
  unfoldable pub process_action : ℕ → ActionData → Game → Game
  process_action player_id action g =
      let is = str_eq action.action_type in
      if is "play_card"
      then play_card run_effect player_id action g
      else if is "play_card_flashback"
      then play_flashback run_effect player_id action g
      else if is "play_card_adventure"
      then play_adventure player_id action g
      else if is "play_land"
      then play_land_card fire_triggers player_id action g
      else if is "activate_ability"
      then activate_ability run_effect player_id action g
      else if is "pay_mana"
      then g
      else if is "undo"
      then pop_mana_undo player_id g
      else if is "sideboard_swap"
      then sideboard_swap player_id action g
      else if is "yes_no"
      then answer_yes_no player_id action.flag g
      else if is "concede_request"
      then request_concede player_id g
      else if is "concede_cancel"
      then record g { pending_concede = erase_id player_id g.pending_concede }
      else if is "concede"
      then concede player_id action.text g
      else if is "draw_offer"
      then offer_draw player_id g
      else if is "draw_response"
      then answer_draw player_id action.flag g
      else if is "set_auto_pass"
      then set_mode player_id (mode_of action.x_value) g
      else g

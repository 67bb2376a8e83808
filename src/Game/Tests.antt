-- ===== src/Game/Tests.antt =====
-- Runs of a game's lobby (server/src/engine/game.cpp).
use uud.Base.Maps
use uud.Base.{
  length, find_erase, ℕ, ◌≡◌, refl, Bool, true, false, ◌||◌, Option, none, some, [], ◌∷◌,
}
use uud.Player.{set_submitted_deck_names, is_alive, eliminate}
use uud.Mana.Pool
use uud.Mana.Cost.{zero_cost, mana_value}
use uud.Zones.{init_player, remove_from_hand, add_to_battlefield, find_permanent}
use uud.Actions.{ActionData}
use uud.Base.Int.{◌+ℤ◌, ◌-ℤ◌, pos}
use uud.Card.{ActivatedAbility, Card, new_card, instant, land}
use uud.Targets.{bytes}
use uud.Permanent.{Permanent, set_tapped, is_creature}
use uud.Game.Casting.{put_on_stack, tap_and_pay, cast_spell, play_card}
use uud.Game.CastOutcome.{IsCastOrKept, play_card-IsCastOrKept}
use uud.Game.Tapping.{
  change_permanent, push_mana_undo, pop_mana_undo, untapped_lands, auto_tap_lands,
}
use uud.Game.Paying.{pay_now}
use uud.Mana.Afford.{can_pay_cost}
use uud.Mana.Payment.{compute_optimal_payment}
use uud.Stack
use uud.Game.Abilities.{cut_tap, mana_portion, use_ability, activate_ability}
use uud.Game.Process.{process_action}
use uud.Game.UndoStacks.{IsUndoFree}
use uud.Game.Undo.{process_action-IsUndoFree}
use uud.Game.{
  Game, new_game, find_player, update_player, same_state, add_player, submit_deck, start, check_win,
  begin_wait, end_wait, waiting_for_decks, in_progress, paused,
}
use uud.Game.Sound.{IsSound, joins, submits, starts, waits, resumes, created, after}
use uud.Game.Lobby.{IsReached-IsSound}

abbrev full_lobby : Game
full_lobby = (add_player 2 "bob" (add_player 1 "ann" (new_game "game-000001")).1).1

abbrev with_decks : Game
with_decks = (submit_deck 1 ("Forest" ∷ []) [] (submit_deck 2 ("Island" ∷ []) [] full_lobby).1).1

full_lobby-state : full_lobby.state ≡ waiting_for_decks
unfolding add_player init_player
full_lobby-state = refl

third_player : (add_player 3 "eve" full_lobby).0 ≡ false
unfolding add_player init_player
third_player = refl

early_start : (start 7 full_lobby).running ≡ false
unfolding add_player init_player start
early_start = refl

started-state : (start 7 with_decks).state ≡ in_progress
unfolding add_player init_player start submit_deck find_player update_player
    set_submitted_deck_names
started-state = refl

-- The first player is away at the start of the turn and does not come back in time.
abbrev left_alone : Game
left_alone = (end_wait false 1 (begin_wait 1 (start 7 with_decks)).1).1

left_alone-winner :
    left_alone.result
    ≡ some (record { winner_id = 2; reason = "Last player standing"; is_draw = false })
unfolding add_player init_player start submit_deck find_player update_player
    set_submitted_deck_names begin_wait end_wait is_alive eliminate check_win
left_alone-winner = refl

waiting-paused :
    (same_state (begin_wait 1 (start 7 with_decks)).1.state paused
      || same_state (begin_wait 1 (start 7 with_decks)).1.state in_progress)
    ≡ true
unfolding add_player init_player start submit_deck find_player update_player
    set_submitted_deck_names begin_wait
waiting-paused = refl

IsReached-IsSound_example : IsSound left_alone
IsReached-IsSound_example = IsReached-IsSound (
    after
      (after
        (after
          (after
            (after (after (after (created "game-000001") (joins 1 "ann")) (joins 2 "bob"))
              (submits 2 ("Island" ∷ []) []))
            (submits 1 ("Forest" ∷ []) []))
          (starts 7))
        (waits 1))
      (resumes false 1 waiting-paused))

-- A land whose ability makes mana, and the action that uses it.
abbrev forest_ability : ActivatedAbility
forest_ability = record {
  cost_text = "{T}";
  effect_text = "add {G}";
  effect = some 0;
  sorcery_speed_only = false;
  is_mana_ability = true;
}

abbrev forest_card : Card
forest_card = record (new_card 9 "Forest" land) { activated_abilities = forest_ability ∷ [] }

abbrev tap_forest : ActionData
tap_forest = record {
  player_id = 1;
  prompt_id = "";
  action_type = "activate_ability";
  target_id = 9;
  ids = [];
  indices = pos 0 ∷ [];
  flag = false;
  text = "";
  x_value = pos 0;
  convoke_ids = [];
  delve_count = pos 0;
  mana_payment = record {
    white = pos 0;
    blue = pos 0;
    black = pos 0;
    red = pos 0;
    green = pos 0;
    colorless = pos 0;
  };
}

abbrev with_forest : Game
unfolding add_to_battlefield
with_forest = record with_decks { zones = (add_to_battlefield forest_card 1 1 with_decks.zones).1 }

abbrev plain_effect : ℕ → ℕ → ℕ → Game → Game
plain_effect e p s g = g

abbrev green_effect : ℕ → ℕ → ℕ → Game → Game
unfolding Pool.add update_player
green_effect e p s g = record g {
  players =
      update_player p (λ x. record x { mana_pool = Pool.add "G" (pos 1) x.mana_pool }) g.players;
}

with_forest-IsUndoFree : IsUndoFree with_forest
unfolding IsUndoFree submit_deck add_player Maps.lookup with_forest find_player update_player
with_forest-IsUndoFree q = refl

is_tapped : Option Permanent → Bool
is_tapped none = false
is_tapped (some perm) = perm.tapped

forest_tapped :
    is_tapped
      (find_permanent 9 (process_action green_effect plain_effect 1 tap_forest with_forest).zones)
    ≡ true
unfolding add_player init_player submit_deck find_player update_player set_submitted_deck_names
    add_to_battlefield process_action activate_ability change_permanent use_ability find_permanent
    with_forest is_tapped Maps.lookup Maps.emplace Maps.insert cut_tap bytes is_creature
    mana_portion green_effect set_tapped
forest_tapped = refl

process_action-IsUndoFree_example :
    (let g' = process_action green_effect plain_effect 1 tap_forest with_forest in
      IsUndoFree g' × ((q : ℕ) → pop_mana_undo q g' ≡ g'))
unfolding green_effect
process_action-IsUndoFree_example =
    process_action-IsUndoFree green_effect plain_effect (λ e p s g. refl) (λ t s p g. refl) 1
      tap_forest with_forest with_forest-IsUndoFree

-- An instant that is paid with the land.
abbrev growth : Card
growth = record (new_card 5 "Growth" instant) { mana_cost = record zero_cost { green = 1 } }

abbrev with_growth : Game
with_growth = record with_forest {
  zones = record with_forest.zones { hands = Maps.insert 1 (growth ∷ []) with_forest.zones.hands };
}

abbrev play_growth : ActionData
play_growth = record tap_forest { action_type = "play_card"; target_id = 5 }

with_growth-hand : (remove_from_hand 1 5 with_growth.zones).0 ≡ some growth
unfolding remove_from_hand with_forest find_erase Maps.lookup Maps.insert submit_deck find_player
    add_player update_player init_player
with_growth-hand = refl

growth_cast : length (play_card green_effect 1 play_growth with_growth).stack.entries ≡ 1
unfolding play_card cast_spell tap_and_pay pay_now put_on_stack Stack.push remove_from_hand
    with_forest green_effect find_erase Maps.lookup Maps.insert submit_deck find_player add_player
    update_player init_player auto_tap_lands can_pay_cost compute_optimal_payment mana_value
    set_submitted_deck_names ◌-ℤ◌ untapped_lands Maps.emplace find_permanent push_mana_undo
    change_permanent Pool.color_field ◌+ℤ◌ Pool.pay_cost
growth_cast = refl

play_card-IsCastOrKept_example :
    (let g1 = record with_growth { zones = (remove_from_hand 1 5 with_growth.zones).1 } in
      IsCastOrKept 1 play_growth growth g1 (play_card green_effect 1 play_growth with_growth))
unfolding green_effect
play_card-IsCastOrKept_example =
    play_card-IsCastOrKept green_effect (λ e p s g. (refl, refl)) 1 play_growth with_growth growth
      with_growth-hand

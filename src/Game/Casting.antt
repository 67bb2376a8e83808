-- ===== src/Game/Casting.antt =====
-- Spells and lands that a player plays (the first four actions of Game::process_action of
-- server/src/engine/game.cpp). The effects of mana abilities and the triggers of a land are
-- parameters; the log lines of the server are left out.
use Prim.Native.String.{String, ◌++◌ as str_append}
use uud.Actions.{ActionData}
use uud.Base.Int.{ltb_ℤ, pos}
use uud.Base.{
  if◌then◌else◌, is_some, push_back, ℕ, Bool, true, false, not, ◌&&◌, Option, none, some, [],
}
use uud.Card.{same_type, Card, land}
use uud.Mana.Color.{Result, ok, err}
use uud.Mana.Cost.{ManaCost, from_string}
use uud.Permanent.{set_summoning_sickness}
use uud.Player.{Player, play_land, can_play_land}
use uud.Priority
use uud.Stack
use uud.Stack.{StackEntry, spell}
use uud.Targets.{bytes}
use uud.Zones.{remove_from_hand, add_to_battlefield, remove_from_graveyard}
use uud.Game.{Game, emit, find_player, update_player, card_played, permanent_entered, game_log}
use uud.Game.Tapping.{change_permanent, set_undo_stack, auto_tap_lands}
use uud.Game.Paying.{
  return_to_hand, bury_card, has_card_keyword, sorcery_time, has_instant_speed, chosen_x, with_x,
  with_kicker, convoke_each, delve, has_cost, pay_now, new_entry, name_of_player,
}

-- The spell goes to the stack, and priority starts again.
unfoldable pub put_on_stack : ℕ → Card → StackEntry → Game → Game
put_on_stack player_id card entry g =
    let (stack, stack_id) = Stack.push entry g.stack in
    record g {
      stack = stack;
      events = push_back g.events (card_played player_id card stack_id);
      priority = Priority.interrupt g.priority;
    }

abbrev pub log_action : ℕ → String → String → String → Game → Game
log_action player_id verb name category g =
    emit
      (game_log
        (str_append (name_of_player (find_player player_id g.players)) (str_append verb name))
        player_id category)
      g

abbrev pub cast_or_return : ℕ → Card → StackEntry → Bool × Game → Game
cast_or_return player_id card entry (false, g) = return_to_hand player_id card g
cast_or_return player_id card entry (true, g) =
    log_action player_id " casts " card.name "spell" (put_on_stack player_id card entry g)

abbrev pub flash_or_bury : ℕ → Card → StackEntry → Bool × Game → Game
flash_or_bury player_id card entry (false, g) = bury_card player_id card g
flash_or_bury player_id card entry (true, g) = put_on_stack player_id card entry g

module _ (run_effect : ℕ → ℕ → ℕ → Game → Game) where
  -- auto_tap_lands, the cleared undo stack and the payment.
  unfoldable pub tap_and_pay : ℕ → ManaCost → Game → Bool × Game
  unfolding auto_tap_lands
  tap_and_pay player_id cost g =
      pay_now player_id cost
        (set_undo_stack player_id [] (auto_tap_lands run_effect player_id cost g))

  abbrev pub pay_spell : ℕ → ManaCost → Game → Bool × Game
  pay_spell player_id cost g = if has_cost cost then tap_and_pay player_id cost g else (true, g)

  -- A spell whose time is right, from its cost on.
  unfoldable pub cast_spell : ℕ → ActionData → Card → Game → Game
  unfolding tap_and_pay
  cast_spell player_id action card g =
      let x = chosen_x action card.mana_cost in
      let (kicked, cost) = with_kicker action.flag card.kicker_cost (with_x x card.mana_cost) in
      let (cost', g') =
        if has_card_keyword "Convoke" card
        then convoke_each player_id action.convoke_ids (cost, g)
        else (cost, g) in
      let (cost'', g'') =
        if has_card_keyword "Delve" card && ltb_ℤ (pos 0) action.delve_count
        then delve player_id action.delve_count (cost', g')
        else (cost', g') in
      let entry = record (new_entry (spell card.instance_id) player_id action.ids) {
        x_value = pos x;
        kicked = kicked;
      } in
      cast_or_return player_id card entry (pay_spell player_id cost'' g'')

  abbrev pub play_found : ℕ → ActionData → Option Card → Game → Game
  play_found player_id action none g = g
  play_found player_id action (some card) g =
      if not (has_instant_speed card) && not (sorcery_time player_id g)
      then return_to_hand player_id card g
      else if not (is_some (find_player player_id g.players))
      then return_to_hand player_id card g
      else cast_spell player_id action card g

  unfoldable pub play_card : ℕ → ActionData → Game → Game
  unfolding cast_spell
  play_card player_id action g =
      let (card, zones) = remove_from_hand player_id action.target_id g.zones in
      play_found player_id action card (record g { zones = zones })

  abbrev pub flashback_for : ℕ → ActionData → Card → Result ManaCost → Game → Game
  flashback_for player_id action card (err e) g = bury_card player_id card g
  flashback_for player_id action card (ok cost) g =
      flash_or_bury player_id card
        (record (new_entry (spell card.instance_id) player_id action.ids) { flashback = true })
        (tap_and_pay player_id cost g)

  abbrev pub flashback_found : ℕ → ActionData → Option Card → Game → Game
  flashback_found player_id action none g = g
  flashback_found player_id action (some card) g = elim card.flashback_cost [
    | none ↦ bury_card player_id card g
    | some text ↦
        if is_some (find_player player_id g.players)
        then flashback_for player_id action card (from_string (bytes text)) g
        else bury_card player_id card g
  ]

  unfoldable pub play_flashback : ℕ → ActionData → Game → Game
  unfolding tap_and_pay
  play_flashback player_id action g =
      let (card, zones) = remove_from_graveyard player_id action.target_id g.zones in
      flashback_found player_id action card (record g { zones = zones })

abbrev pub adventure_or_return : ℕ → Card → StackEntry → Bool × Game → Game
adventure_or_return player_id card entry (false, g) = return_to_hand player_id card g
adventure_or_return player_id card entry (true, g) = put_on_stack player_id card entry g

abbrev pub adventure_found : ℕ → ActionData → Option Card → Game → Game
adventure_found player_id action none g = g
adventure_found player_id action (some card) g = elim card.adventure [
  | none ↦ return_to_hand player_id card g
  | some face ↦
      if is_some (find_player player_id g.players)
      then adventure_or_return player_id card
          (record (new_entry (spell card.instance_id) player_id action.ids) { adventure = true })
          (pay_now player_id face.mana_cost g)
      else return_to_hand player_id card g
]

unfoldable pub play_adventure : ℕ → ActionData → Game → Game
play_adventure player_id action g =
    let (card, zones) = remove_from_hand player_id action.target_id g.zones in
    adventure_found player_id action card (record g { zones = zones })

-- TriggerType::OnLandfall
abbrev pub on_landfall : ℕ
on_landfall = 31

abbrev pub may_play_land : Option Player → Bool
may_play_land none = false
may_play_land (some p) = can_play_land p

module _ (fire_triggers : ℕ → ℕ → ℕ → Game → Game) where
  -- A land enters the battlefield.
  unfoldable pub enter_land : ℕ → Card → Game → Game
  enter_land player_id card g =
      let (perm_id, zones) = add_to_battlefield card player_id player_id g.zones in
      let g1 =
        change_permanent perm_id (set_summoning_sickness false)
          (record g { zones = zones; players = update_player player_id play_land g.players }) in
      let g2 =
        emit (permanent_entered perm_id player_id card) (emit (card_played player_id card 0) g1) in
      log_action player_id " plays " card.name "land"
        (fire_triggers on_landfall perm_id player_id g2)

  abbrev pub land_found : ℕ → Option Card → Game → Game
  land_found player_id none g = g
  land_found player_id (some card) g =
      if same_type card.type land
      then enter_land player_id card g
      else return_to_hand player_id card g

  unfoldable pub play_land_card : ℕ → ActionData → Game → Game
  unfolding enter_land
  play_land_card player_id action g =
      if not (may_play_land (find_player player_id g.players))
      then g
      else if not (sorcery_time player_id g)
      then g
      else (let (card, zones) = remove_from_hand player_id action.target_id g.zones in
          land_found player_id card (record g { zones = zones }))

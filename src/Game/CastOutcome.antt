-- ===== src/Game/CastOutcome.antt =====
-- What becomes of a card that is played from the hand (Game::process_action of
-- server/src/engine/game.cpp).
use uud.Actions.{ActionData}
use uud.Base.Int.{ltb_ℤ, pos}
use uud.Base.{
  if◌then◌else◌, is_some, ℕ, ◌≡◌, refl, sym, ap, subst, ◌⊎◌, inl, inr, Bool, true, false, not, ◌&&◌,
  some,
}
use uud.Card.{Card}
use uud.Mana.Cost.{ManaCost}
use uud.Stack
use uud.Stack.{StackEntry, spell}
use uud.Zones.{push_card, remove_from_hand}
use uud.Game.{Game, find_player}
use uud.Game.Paying.{
  return_to_hand, has_card_keyword, sorcery_time, has_instant_speed, chosen_x, with_x, with_kicker,
  convoke_each, delve,
}
use uud.Game.Casting.{put_on_stack, cast_or_return, cast_spell, play_found, play_card}
use uud.Game.CastUntouched.{
  IsUntouched, both, either_same, convoke_each-same, delve-same, pay_spell-same,
}

-- The card is back in the hand and the stack as before, or it is the new top of the stack and the
-- hands are as before.
unfoldable pub IsCastOrKept : ℕ → ActionData → Card → Game → Game → Type 0
IsCastOrKept p action card g g' =
    ((g'.zones.hands ≡ push_card p card g.zones.hands) × (g'.stack ≡ g.stack))
    ⊎ ((entry : StackEntry) × (entry.content ≡ spell card.instance_id)
        × (entry.controller_id ≡ p)
        × (entry.targets ≡ action.ids)
        × (g'.stack ≡ (Stack.push entry g.stack).0)
        × (g'.zones.hands ≡ g.zones.hands))

-- The end of a cast, for the game before the costs.
cast_or_return-IsCastOrKept :
    (p : ℕ) (action : ActionData) (card : Card) (entry : StackEntry) (g : Game) (paid : Bool × Game)
    → (entry.content ≡ spell card.instance_id)
      × (entry.controller_id ≡ p)
      × (entry.targets ≡ action.ids)
    → IsUntouched g paid.1
    → IsCastOrKept p action card g (cast_or_return p card entry paid)
unfolding IsCastOrKept return_to_hand put_on_stack
cast_or_return-IsCastOrKept p action card entry g (false, g') made (hands, stack) =
    inl (ap (push_card p card) hands, stack)
cast_or_return-IsCastOrKept p action card entry g (true, g') (content, controller, targets)
      (hands, stack) =
    inr (entry, content, controller, targets, ap (λ s. (Stack.push entry s).0) stack, hands)

kept :
    (p : ℕ) (action : ActionData) (card : Card) (g : Game)
    → IsCastOrKept p action card g (return_to_hand p card g)
unfolding IsCastOrKept return_to_hand
kept p action card g = inl (refl, refl)

either_outcome :
    (b : Bool) (p : ℕ) (action : ActionData) (card : Card) (x y g : Game)
    → IsCastOrKept p action card g x
    → IsCastOrKept p action card g y
    → IsCastOrKept p action card g (if b then x else y)
either_outcome true p action card x y g f f' = f
either_outcome false p action card x y g f f' = f'

module _ (run_effect : ℕ → ℕ → ℕ → Game → Game)
    (keeps : (e p s : ℕ) (g : Game) → IsUntouched g (run_effect e p s g)) where
  cast_spell-IsCastOrKept :
      (p : ℕ) (action : ActionData) (card : Card) (g : Game)
      → IsCastOrKept p action card g (cast_spell run_effect p action card g)
  unfolding cast_spell
  cast_spell-IsCastOrKept p action card g =
      let x = chosen_x action card.mana_cost in
      let (kicked, cost) = with_kicker action.flag card.kicker_cost (with_x x card.mana_cost) in
      let convoked =
        either_same (has_card_keyword "Convoke" card) (convoke_each p action.convoke_ids (cost, g))
          (cost, g) g (convoke_each-same p action.convoke_ids (cost, g)) (refl, refl) in
      let st =
        if◌then◌else◌ {A = ManaCost × Game} (has_card_keyword "Convoke" card)
          (convoke_each p action.convoke_ids (cost, g)) (cost, g) in
      let delved =
        either_same (has_card_keyword "Delve" card && ltb_ℤ (pos 0) action.delve_count)
          (delve p action.delve_count st) st g (both convoked (delve-same p action.delve_count st))
          convoked in
      cast_or_return-IsCastOrKept p action card _ g _ (refl, refl, refl)
        (both delved (pay_spell-same run_effect keeps p _ _))

  play_found-IsCastOrKept :
      (p : ℕ) (action : ActionData) (card : Card) (g : Game)
      → IsCastOrKept p action card g (play_found run_effect p action (some card) g)
  play_found-IsCastOrKept p action card g =
      either_outcome (not (has_instant_speed card) && not (sorcery_time p g)) p action card _ _ g
        (kept p action card g)
        (either_outcome (not (is_some (find_player p g.players))) p action card _ _ g
          (kept p action card g) (cast_spell-IsCastOrKept p action card g))

  -- When the effects of mana abilities leave the hands and the stack alone, a card that is played
  -- from the hand is never lost nor doubled: either it is at the end of the hand again and the stack
  -- is as before, or it is the new top of the stack under its player's control, with the targets that
  -- the player chose, and the hands are those without it.
  pub play_card-IsCastOrKept :
      (p : ℕ) (action : ActionData) (g : Game) (card : Card)
      → (remove_from_hand p action.target_id g.zones).0 ≡ some card
      → (let g1 = record g { zones = (remove_from_hand p action.target_id g.zones).1 } in
          IsCastOrKept p action card g1 (play_card run_effect p action g))
  unfolding play_card
  play_card-IsCastOrKept p action g card e =
      let g1 = record g { zones = (remove_from_hand p action.target_id g.zones).1 } in
      subst (λ c. IsCastOrKept p action card g1 (play_found run_effect p action c g1)) (sym e)
        (play_found-IsCastOrKept p action card g1)

-- ===== src/Game/Starting.antt =====
-- The calls on a game before it runs (server/src/engine/game.cpp).
use Prim.Native.String.{String}
use uud.Base.{
  ltb, leb, if◌then◌else◌, Bool-cases, length, push_back, all_of, ℕ, ◌≡◌, refl, inl, inr, Bool,
  true, false, not, Option, none, some, List, [], ◌∷◌, arith,
}
use uud.Player.{Player, new_player, set_submitted_deck_names, set_submitted_sideboard_names}
use uud.Game.{
  GameState, Game, find_player, max_players, state_after_join, same_state, add_player, submit_names,
  submit_for, submit_deck, start, waiting_for_players, waiting_for_decks, in_progress, paused,
  finished,
}
use uud.Game.Sound.{Fits, is_known, IsSound}
use uud.Game.PlayerChanges.{update-IsDistinct, update-Fits}
use uud.Game.Joining.{push-IsDistinct}

two_players :
    (running : Bool) (state : GameState) (players : List Player)
    → same_state state waiting_for_decks ≡ true
    → running ≡ false
    → Fits running state players
    → length players ≡ 2
two_players true state players e r f = absurd (cc)
two_players false waiting_for_players players e r f = absurd (cc)
two_players false waiting_for_decks players e r f = f
two_players false in_progress players e r f = absurd (cc)
two_players false paused players e r f = absurd (cc)
two_players false finished players e r f = absurd (cc)

-- Each call keeps it.
join_Fits :
    (running : Bool) (state : GameState) (players : List Player) (p : Player)
    → same_state state waiting_for_players ≡ true
    → Fits running state players
    → Fits running (state_after_join state (push_back players p)) (push_back players p)
join_Fits true waiting_for_players players p e f = elim f [ ]
join_Fits false waiting_for_players [] p e f = omega arith
join_Fits false waiting_for_players (q ∷ []) p e f = refl
join_Fits false waiting_for_players (q ∷ r ∷ players) p e f = absurd (omega (arith, f))
join_Fits running waiting_for_decks players p e f = absurd (cc)
join_Fits running in_progress players p e f = absurd (cc)
join_Fits running paused players p e f = absurd (cc)
join_Fits running finished players p e f = absurd (cc)

pub add_player-IsSound :
    (player_id : ℕ) (name : String) (g : Game)
    → IsSound g
    → IsSound ((add_player player_id name g).1)
unfolding IsSound add_player
add_player-IsSound player_id name g (f, d, t) =
    elim (Bool-cases (same_state g.state waiting_for_players)) [
      | inr e ↦ rw e (f, d, t)
      | inl e ↦ elim (Bool-cases (leb max_players (length g.players))) [
        | inl full ↦ rw (e, full) (f, d, t)
        | inr room ↦ elim (Bool-cases (is_known player_id g.players)) [
          | inl old ↦ rw (e, room, old) (f, d, t)
          | inr new ↦
              rw (e, room, new)
                (
                  join_Fits g.running g.state g.players (new_player player_id name) e f,
                  push-IsDistinct g.players (new_player player_id name) new d,
                  t,
                )
        ]
      ]
    ]

submit_names_id : (cards side : List String) (p : Player) → (submit_names cards side p).id ≡ p.id
unfolding set_submitted_deck_names set_submitted_sideboard_names
submit_names_id cards [] p = refl
submit_names_id cards (name ∷ names) p = refl

submit_names_deck :
    (cards side : List String) (p : Player)
    → p.deck_submitted ≡ true
    → (submit_names cards side p).deck_submitted ≡ true
unfolding set_submitted_deck_names set_submitted_sideboard_names
submit_names_deck cards [] p e = refl
submit_names_deck cards (name ∷ names) p e = refl

pub submit_deck-IsSound :
    (player_id : ℕ) (cards side : List String) (g : Game)
    → IsSound g
    → IsSound ((submit_deck player_id cards side g).1)
unfolding IsSound submit_deck
submit_deck-IsSound player_id cards side g (f, d, t) = submitted (find_player player_id g.players)
  where
    submitted : (found : Option Player) → IsSound ((submit_for found player_id cards side g).1)
    submitted none = (f, d, t)
    submitted (some p) = elim (Bool-cases p.deck_submitted) [
      | inl e ↦ rw e (f, d, t)
      | inr e ↦ rw e (
        update-Fits player_id (submit_names cards side) (submit_names_id cards side)
            (submit_names_deck cards side) g.running g.state g.players f,
        update-IsDistinct player_id (submit_names cards side) (submit_names_id cards side)
            (submit_names_deck cards side) g.players d,
        t,
      )
    ]

pub not-false : (b : Bool) → not b ≡ false → b ≡ true
not-false b h = ground arith

started :
    (now : ℕ) (g : Game)
    → same_state g.state waiting_for_decks ≡ true
    → g.running ≡ false
    → all_of (λ p. p.deck_submitted) g.players ≡ true
    → IsSound g
    → IsSound (record g { running = true; started_at = now; state = in_progress })
unfolding IsSound
started now g waiting idle decks (f, d, t) =
    ((two_players g.running g.state g.players waiting idle f, decks), d, t)

pub either_IsSound :
    (b : Bool) (x y : Game)
    → (b ≡ true → IsSound x)
    → (b ≡ false → IsSound y)
    → IsSound (if b then x else y)
either_IsSound true x y f g = f refl
either_IsSound false x y f g = g refl

pub either_result :
    (b : Bool) (x y : Bool × Game)
    → (b ≡ true → IsSound x.1)
    → (b ≡ false → IsSound y.1)
    → IsSound ((if b then x else y).1)
either_result true x y f g = f refl
either_result false x y f g = g refl

pub start-IsSound : (now : ℕ) (g : Game) → IsSound g → IsSound (start now g)
unfolding start
start-IsSound now g sound =
    either_IsSound g.running _ _ (λ e. sound)
      (λ idle.
        either_IsSound (not (same_state g.state waiting_for_decks)) _ _ (λ e. sound)
          (λ waiting.
            either_IsSound (not (all_of (λ p. p.deck_submitted) g.players)) _ _ (λ e. sound)
              (λ decks.
                either_IsSound (ltb (length g.players) 2) _ _ (λ e. sound)
                  (λ enough_players.
                    started now g (not-false _ waiting) idle (not-false _ decks) sound))))

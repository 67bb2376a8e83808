-- ===== src/Game/PlayerChanges.antt =====
-- Changes of one player of a game (server/src/engine/game.cpp).
use uud.Base.{
  ◌==◌, Bool-cases, &&_split, length, all_of, ℕ, suc, ◌≡◌, refl, sym, ap, subst, ◌∙◌, inl, inr,
  Bool, true, false, ◌||◌, List, [], ◌∷◌,
}
use uud.Player.{Player}
use uud.Game.{
  GameState, update_player, waiting_for_players, waiting_for_decks, in_progress, paused, finished,
}
use uud.Game.Sound.{IsReady, Fits, is_known, IsDistinct}

-- A change of one player that keeps the id and, once submitted, the deck.
module _ (id : ℕ) (change : Player → Player) (keeps_id : (p : Player) → (change p).id ≡ p.id)
    (keeps_deck : (p : Player) → p.deck_submitted ≡ true → (change p).deck_submitted ≡ true) where
  length-update :
      (players : List Player) → length (update_player id change players) ≡ length players
  unfolding update_player
  length-update [] = refl
  length-update (p ∷ players) = elim (Bool-cases (p.id == id)) [
    | inl e ↦ rw e refl
    | inr e ↦ rw e (ap suc (length-update players))
  ]

  is_known-update :
      (other : ℕ) (players : List Player)
      → is_known other (update_player id change players) ≡ is_known other players
  unfolding update_player
  is_known-update other [] = refl
  is_known-update other (p ∷ players) = elim (Bool-cases (p.id == id)) [
    | inl e ↦ simp e (ap (λ i. i == other || is_known other players) (keeps_id p))
    | inr e ↦ simp e (ap (λ b. p.id == other || b) (is_known-update other players))
  ]

  pub update-IsDistinct :
      (players : List Player) → IsDistinct players → IsDistinct (update_player id change players)
  unfolding update_player
  update-IsDistinct [] d = tt
  update-IsDistinct (p ∷ players) (new, d) = elim (Bool-cases (p.id == id)) [
    | inl e ↦ simp e (subst (λ i. is_known i players ≡ false) (sym (keeps_id p)) new, d)
    | inr e ↦ simp e (is_known-update p.id players ∙ new, update-IsDistinct players d)
  ]

  update-decks :
      (players : List Player)
      → all_of (λ p. p.deck_submitted) players ≡ true
      → all_of (λ p. p.deck_submitted) (update_player id change players) ≡ true
  unfolding update_player
  update-decks [] h = refl
  update-decks (p ∷ players) h =
      let (first, others) = &&_split p.deck_submitted _ h in
      elim (Bool-cases (p.id == id)) [
        | inl e ↦ simp (e, keeps_deck p first) others
        | inr e ↦ simp (e, first) (update-decks players others)
      ]

  pub update-IsReady :
      (players : List Player) → IsReady players → IsReady (update_player id change players)
  update-IsReady players (two, decks) = (length-update players ∙ two, update-decks players decks)

  pub update-Fits :
      (running : Bool) (state : GameState) (players : List Player)
      → Fits running state players
      → Fits running state (update_player id change players)
  update-Fits true in_progress players f = update-IsReady players f
  update-Fits true paused players f = update-IsReady players f
  update-Fits true waiting_for_players players f = f
  update-Fits true waiting_for_decks players f = f
  update-Fits true finished players f = f
  update-Fits false waiting_for_players players f = rw (length-update players) f
  update-Fits false waiting_for_decks players f = length-update players ∙ f
  update-Fits false in_progress players f = update-IsReady players f
  update-Fits false paused players f = update-IsReady players f
  update-Fits false finished players f = update-IsReady players f

-- ===== src/Zones/Steps.antt =====
-- The calls of the zone manager (server/src/engine/zone_manager.cpp) as a step relation.
use uud.Base.{ℕ, ◌+◌, ◌≤◌, ◌≡◌, Bool, List, []}
use uud.Card.{Card}
use uud.Zones.{
  ZoneManager, no_zones, clear_all, cards_of, init_player, set_library, draw_card, shuffle_library,
  return_hand_to_library, put_on_top, put_on_bottom, peek_top, remove_top, remove_from_hand,
  add_to_battlefield, remove_from_battlefield, add_to_graveyard, remove_from_graveyard,
  add_to_exile, remove_from_exile,
}
use uud.Zones.Counts.{count_in, total}

-- One call of the manager that changes it. A card that is added is in no zone, a library that is
-- set replaces an empty one and holds cards that are in no zone, each once, and the player who is
-- initialized has no cards in the three lists that are reset.
pub data Step : ZoneManager → ZoneManager → Type 0 where
  clear : {z : ZoneManager} → Step z (clear_all z)
  init :
      {z : ZoneManager} (player_id : ℕ)
      → cards_of player_id z.libraries ≡ []
      → cards_of player_id z.hands ≡ []
      → cards_of player_id z.graveyards ≡ []
      → Step z (init_player player_id z)
  draw : {z : ZoneManager} (player_id : ℕ) → Step z ((draw_card player_id z).1)
  shuffle :
      {z : ZoneManager} (f : List Card → List Card) (player_id : ℕ)
      → ((id : ℕ) (cards : List Card) → count_in id (f cards) ≡ count_in id cards)
      → Step z (shuffle_library f player_id z)
  return_hand : {z : ZoneManager} (player_id : ℕ) → Step z (return_hand_to_library player_id z)
  top :
      {z : ZoneManager} (player_id : ℕ) (card : Card)
      → total card.instance_id z ≡ 0
      → Step z (put_on_top player_id card z)
  bottom :
      {z : ZoneManager} (player_id : ℕ) (card : Card)
      → total card.instance_id z ≡ 0
      → Step z (put_on_bottom player_id card z)
  peek : {z : ZoneManager} (player_id : ℕ) → Step z ((peek_top player_id z).1)
  take_top : {z : ZoneManager} (player_id : ℕ) → Step z ((remove_top player_id z).1)
  take_hand : {z : ZoneManager} (player_id id : ℕ) → Step z ((remove_from_hand player_id id z).1)
  enter :
      {z : ZoneManager} (card : Card) (controller_id owner_id : ℕ)
      → total card.instance_id z ≡ 0
      → Step z ((add_to_battlefield card controller_id owner_id z).1)
  leave : {z : ZoneManager} (id : ℕ) → Step z ((remove_from_battlefield id z).1)
  bury :
      {z : ZoneManager} (player_id : ℕ) (card : Card)
      → total card.instance_id z ≡ 0
      → Step z (add_to_graveyard player_id card z)
  take_grave :
      {z : ZoneManager} (player_id id : ℕ) → Step z ((remove_from_graveyard player_id id z).1)
  banish :
      {z : ZoneManager} (card : Card) (owner_id : ℕ) (face_down : Bool) (exiled_by : ℕ)
      → total card.instance_id z ≡ 0
      → Step z (add_to_exile card owner_id face_down exiled_by z)
  take_exile : {z : ZoneManager} (id : ℕ) → Step z ((remove_from_exile id z).1)
  fill :
      {z : ZoneManager} (player_id : ℕ) (cards : List Card)
      → cards_of player_id z.libraries ≡ []
      → ((id : ℕ) → count_in id cards + total id z ≤ 1)
      → Step z (set_library player_id cards z)

pub data Reachable : ZoneManager → Type 0 where
  start : Reachable no_zones
  next : {z z' : ZoneManager} → Reachable z → Step z z' → Reachable z'

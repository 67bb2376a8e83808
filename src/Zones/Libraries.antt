-- ===== src/Zones/Libraries.antt =====
-- The calls on libraries and hands (server/src/engine/zone_manager.cpp) keep the index of zones
-- consistent.
use uud.Base.Maps
use uud.Base.{
  Option-cases, back, pop_back, ℕ, ◌+◌, ◌≤◌, ◌≡◌, inl, inr, none, some, List, [], ◌∷◌, ◌++◌, arith,
}
use uud.Card.{Card}
use uud.Zones.{
  ZoneManager, cards_of, touch, push_card, set_zone, set_library, draw_card, shuffle_library,
  return_hand_to_library, put_on_top, put_on_bottom, remove_top, has_id, find_card_zone,
}
use uud.Zones.Counts.{
  count_in, count_players, total, count_if-cons, count_if-append, count_players-insert,
}
use uud.Zones.Index.{
  actual_zone, IsConsistent, zone_in-set, zone_in-erase, drawn, gained_libraries, lost_libraries,
  returned, library_set, zone_in-place_all,
}
use uud.Zones.Piles.{count-touch, count-push_card, count-pop_card, fresh_card}

-- What the calls do on their branches.
pub draw_card-empty :
    (player_id : ℕ) (z : ZoneManager)
    → back (cards_of player_id z.libraries) ≡ none
    → draw_card player_id z ≡ (none, record z { libraries = touch player_id z.libraries })
unfolding draw_card
draw_card-empty player_id z e = rw (e, draw_card)

pub draw_card-some :
    (player_id : ℕ) (card : Card) (z : ZoneManager)
    → back (cards_of player_id z.libraries) ≡ some card
    → draw_card player_id z ≡ (
      some card,
      record z {
        libraries = Maps.insert player_id (pop_back (cards_of player_id z.libraries)) z.libraries;
        hands = push_card player_id card z.hands;
        card_zone = set_zone card.instance_id "Hand" z.card_zone;
      },
    )
unfolding draw_card
draw_card-some player_id card z e = rw (e, draw_card)

pub touched_libraries :
    (player_id : ℕ) (z : ZoneManager)
    → IsConsistent z
    → IsConsistent (record z { libraries = touch player_id z.libraries })
unfolding IsConsistent total find_card_zone actual_zone
touched_libraries player_id z v id = rw (count-touch id player_id z.libraries) (v id)

pub draw_card-IsConsistent :
    (player_id : ℕ) (z : ZoneManager) → IsConsistent z → IsConsistent ((draw_card player_id z).1)
unfolding IsConsistent total find_card_zone actual_zone
draw_card-IsConsistent player_id z v id =
    elim (Option-cases (back (cards_of player_id z.libraries))) [
      | inl e ↦ rw (draw_card-empty player_id z e) (touched_libraries player_id z v id)
      | inr (card, e) ↦ rw (draw_card-some player_id card z e) (
          drawn id z _ _ _ (has_id id card) (v id) (count-pop_card id player_id card z.libraries e)
            (count-push_card id player_id card z.hands)
            (zone_in-set card.instance_id id "Hand" z.card_zone))
    ]

remove_top-empty :
    (player_id : ℕ) (z : ZoneManager)
    → back (cards_of player_id z.libraries) ≡ none
    → remove_top player_id z ≡ (none, record z { libraries = touch player_id z.libraries })
unfolding remove_top
remove_top-empty player_id z e = rw (e, remove_top)

remove_top-some :
    (player_id : ℕ) (card : Card) (z : ZoneManager)
    → back (cards_of player_id z.libraries) ≡ some card
    → remove_top player_id z ≡ (
      some card,
      record z {
        libraries = Maps.insert player_id (pop_back (cards_of player_id z.libraries)) z.libraries;
        card_zone = Maps.erase card.instance_id z.card_zone;
      },
    )
unfolding remove_top
remove_top-some player_id card z e = rw (e, remove_top)

pub remove_top-IsConsistent :
    (player_id : ℕ) (z : ZoneManager) → IsConsistent z → IsConsistent ((remove_top player_id z).1)
unfolding IsConsistent total find_card_zone actual_zone
remove_top-IsConsistent player_id z v id =
    elim (Option-cases (back (cards_of player_id z.libraries))) [
      | inl e ↦ rw (remove_top-empty player_id z e) (touched_libraries player_id z v id)
      | inr (card, e) ↦ rw (remove_top-some player_id card z e) (
          lost_libraries id z _ _ (has_id id card) (v id)
            (count-pop_card id player_id card z.libraries e)
            (zone_in-erase card.instance_id id z.card_zone))
    ]

pub shuffle_library-IsConsistent :
    (f : List Card → List Card) (player_id : ℕ) (z : ZoneManager)
    → ((id : ℕ) (cards : List Card) → count_in id (f cards) ≡ count_in id cards)
    → IsConsistent z
    → IsConsistent (shuffle_library f player_id z)
unfolding IsConsistent total find_card_zone actual_zone shuffle_library
shuffle_library-IsConsistent f player_id z keeps v id =
    let lib = cards_of player_id z.libraries in
    let same : count_players id (Maps.insert player_id (f lib) z.libraries)
        ≡ count_players id z.libraries =
      omega (arith, count_players-insert id player_id (f lib) z.libraries, keeps id lib) in
    rw same (v id)

pub return_hand-IsConsistent :
    (player_id : ℕ) (z : ZoneManager)
    → IsConsistent z
    → IsConsistent (return_hand_to_library player_id z)
unfolding IsConsistent total find_card_zone actual_zone return_hand_to_library
return_hand-IsConsistent player_id z v id =
    let hand = cards_of player_id z.hands in
    let lib = cards_of player_id z.libraries in
    returned id z _ _ (count_in id hand) _ (v id)
      (omega (arith, count_players-insert id player_id [] z.hands))
      (omega (
        arith,
        count_players-insert id player_id (lib ++ hand) z.libraries,
        count_if-append (has_id id) lib hand,
      ))
      (zone_in-place_all id "Library" hand z.card_zone)

pub put_on_top-IsConsistent :
    (player_id : ℕ) (card : Card) (z : ZoneManager)
    → total card.instance_id z ≡ 0
    → IsConsistent z
    → IsConsistent (put_on_top player_id card z)
unfolding IsConsistent total find_card_zone actual_zone put_on_top
put_on_top-IsConsistent player_id card z fresh v id =
    gained_libraries id z _ _ (has_id id card) (v id) (fresh_card id card z fresh)
      (count-push_card id player_id card z.libraries)
      (zone_in-set card.instance_id id "Library" z.card_zone)

pub put_on_bottom-IsConsistent :
    (player_id : ℕ) (card : Card) (z : ZoneManager)
    → total card.instance_id z ≡ 0
    → IsConsistent z
    → IsConsistent (put_on_bottom player_id card z)
unfolding IsConsistent total find_card_zone actual_zone put_on_bottom
put_on_bottom-IsConsistent player_id card z fresh v id =
    let lib = cards_of player_id z.libraries in
    gained_libraries id z _ _ (has_id id card) (v id) (fresh_card id card z fresh)
      (omega (
        arith,
        count_players-insert id player_id (card ∷ lib) z.libraries,
        count_if-cons (has_id id) card lib,
      ))
      (zone_in-set card.instance_id id "Library" z.card_zone)

pub set_library-IsConsistent :
    (player_id : ℕ) (cards : List Card) (z : ZoneManager)
    → cards_of player_id z.libraries ≡ []
    → ((id : ℕ) → count_in id cards + total id z ≤ 1)
    → IsConsistent z
    → IsConsistent (set_library player_id cards z)
unfolding IsConsistent total find_card_zone actual_zone set_library
set_library-IsConsistent player_id cards z empty fresh v id =
    let old : count_in id (cards_of player_id z.libraries) ≡ 0 = rw empty in
    library_set id z _ (count_in id cards) _ (v id) (fresh id)
      (omega (arith, count_players-insert id player_id cards z.libraries, old))
      (zone_in-place_all id "Library" cards z.card_zone)

-- ===== src/Zones/Reach.antt =====
-- What holds of every state of the zone manager (server/src/engine/zone_manager.cpp) that its
-- calls reach from a new one.
use uud.Base.Maps.{Map}
use uud.Base.Maps
use uud.Base.{ℕ, ◌≡◌, refl, List, [], arith}
use uud.Card.{Card}
use uud.Zones.{ZoneManager, no_zones, clear_all, cards_of, init_player, peek_top, find_card_zone}
use uud.Zones.Counts.{count_in, count_players, total, count_players-insert}
use uud.Zones.Index.{actual_zone, IsConsistent}
use uud.Zones.Steps.{
  Step, Reachable, clear, init, draw, shuffle, return_hand, top, bottom, peek, take_top, take_hand,
  enter, leave, bury, take_grave, banish, take_exile, fill, start, next,
}
use uud.Zones.Libraries.{
  touched_libraries, draw_card-IsConsistent, remove_top-IsConsistent, shuffle_library-IsConsistent,
  return_hand-IsConsistent, put_on_top-IsConsistent, put_on_bottom-IsConsistent,
  set_library-IsConsistent,
}
use uud.Zones.Fields.{
  remove_from_hand-IsConsistent, remove_from_graveyard-IsConsistent, add_to_graveyard-IsConsistent,
  add_to_battlefield-IsConsistent, remove_from_battlefield-IsConsistent, add_to_exile-IsConsistent,
  remove_from_exile-IsConsistent,
}

no_zones-IsConsistent : IsConsistent no_zones
unfolding IsConsistent total find_card_zone actual_zone Maps.lookup
no_zones-IsConsistent id = (omega arith, refl)

clear_all-IsConsistent : (z : ZoneManager) → IsConsistent (clear_all z)
unfolding clear_all
clear_all-IsConsistent z = no_zones-IsConsistent

emptied :
    (id player_id : ℕ) (m : Map (List Card))
    → cards_of player_id m ≡ []
    → count_players id (Maps.insert player_id [] m) ≡ count_players id m
emptied id player_id m e =
    let old : count_in id (cards_of player_id m) ≡ 0 = rw e in
    omega (arith, count_players-insert id player_id [] m, old)

init_player-IsConsistent :
    (player_id : ℕ) (z : ZoneManager)
    → cards_of player_id z.libraries ≡ []
    → cards_of player_id z.hands ≡ []
    → cards_of player_id z.graveyards ≡ []
    → IsConsistent z
    → IsConsistent (init_player player_id z)
unfolding IsConsistent total find_card_zone actual_zone init_player
init_player-IsConsistent player_id z l h g v id =
    rw
      (
        emptied id player_id z.libraries l,
        emptied id player_id z.hands h,
        emptied id player_id z.graveyards g,
      )
      (v id)

peek_top-IsConsistent :
    (player_id : ℕ) (z : ZoneManager) → IsConsistent z → IsConsistent ((peek_top player_id z).1)
unfolding peek_top
peek_top-IsConsistent player_id z v = touched_libraries player_id z v

step-IsConsistent : {z z' : ZoneManager} → IsConsistent z → Step z z' → IsConsistent z'
step-IsConsistent {z} v clear = clear_all-IsConsistent z
step-IsConsistent {z} v (init p l h g) = init_player-IsConsistent p z l h g v
step-IsConsistent {z} v (draw p) = draw_card-IsConsistent p z v
step-IsConsistent {z} v (shuffle f p keeps) = shuffle_library-IsConsistent f p z keeps v
step-IsConsistent {z} v (return_hand p) = return_hand-IsConsistent p z v
step-IsConsistent {z} v (top p c fresh) = put_on_top-IsConsistent p c z fresh v
step-IsConsistent {z} v (bottom p c fresh) = put_on_bottom-IsConsistent p c z fresh v
step-IsConsistent {z} v (peek p) = peek_top-IsConsistent p z v
step-IsConsistent {z} v (take_top p) = remove_top-IsConsistent p z v
step-IsConsistent {z} v (take_hand p id) = remove_from_hand-IsConsistent p id z v
step-IsConsistent {z} v (enter c k o fresh) = add_to_battlefield-IsConsistent c k o z fresh v
step-IsConsistent {z} v (leave id) = remove_from_battlefield-IsConsistent id z v
step-IsConsistent {z} v (bury p c fresh) = add_to_graveyard-IsConsistent p c z fresh v
step-IsConsistent {z} v (take_grave p id) = remove_from_graveyard-IsConsistent p id z v
step-IsConsistent {z} v (banish c o f b fresh) = add_to_exile-IsConsistent c o f b z fresh v
step-IsConsistent {z} v (take_exile id) = remove_from_exile-IsConsistent id z v
step-IsConsistent {z} v (fill p cards empty fresh) =
    set_library-IsConsistent p cards z empty fresh v

-- In every state that is reached from a new manager by calls that add only cards which are in no
-- zone, set only empty libraries, initialize only players without cards and shuffle without
-- changing which cards there are, a card's id stands in at most one place, and find_card_zone names
-- the zone it is in, or says "Unknown" when it is in none.
pub Reachable-IsConsistent : {z : ZoneManager} → Reachable z → IsConsistent z
Reachable-IsConsistent start = no_zones-IsConsistent
Reachable-IsConsistent (next r s) = step-IsConsistent (Reachable-IsConsistent r) s

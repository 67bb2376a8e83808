-- ===== src/Zones/Piles.antt =====
-- The lists of cards of the players (server/src/engine/zone_manager.cpp), seen by one id.
use uud.Base.Maps.{Map}
use uud.Base.Maps
use uud.Base.{
  ◌==◌, push_back, back, pop_back, find_erase, ℕ, ◌+◌, ◌≡◌, subst, true, some, List, arith,
}
use uud.Card.{Card}
use uud.Zones.{ZoneManager, cards_of, touch, push_card, has_id}
use uud.Zones.Counts.{
  count_players, one_if, total, count_if-push_back, count_if-pop_back, count_if-find_erase,
  count_players-insert,
}

-- The changes of a map of lists, seen by one id.
pub count-touch :
    (id player_id : ℕ) (m : Map (List Card))
    → count_players id (touch player_id m) ≡ count_players id m
count-touch id player_id m =
    omega (arith, count_players-insert id player_id (cards_of player_id m) m)

pub count-push_card :
    (id player_id : ℕ) (card : Card) (m : Map (List Card))
    → count_players id (push_card player_id card m) ≡ count_players id m + one_if (has_id id card)
count-push_card id player_id card m = omega (
  arith,
  count_players-insert id player_id (push_back (cards_of player_id m) card) m,
  count_if-push_back (has_id id) (cards_of player_id m) card,
)

pub count-pop_card :
    (id player_id : ℕ) (card : Card) (m : Map (List Card))
    → back (cards_of player_id m) ≡ some card
    → count_players id (Maps.insert player_id (pop_back (cards_of player_id m)) m)
        + one_if (has_id id card)
      ≡ count_players id m
count-pop_card id player_id card m e = omega (
  arith,
  count_players-insert id player_id (pop_back (cards_of player_id m)) m,
  count_if-pop_back (has_id id) (cards_of player_id m) card e,
)

pub count-take_card :
    (id player_id wanted : ℕ) (card : Card) (rest : List Card) (m : Map (List Card))
    → find_erase (has_id wanted) (cards_of player_id m) ≡ some (card, rest)
    → count_players id (Maps.insert player_id rest m) + one_if (wanted == id) ≡ count_players id m
count-take_card id player_id wanted card rest m e =
    let (count, hit) =
      count_if-find_erase (has_id id) (has_id wanted) (cards_of player_id m) card rest e in
    let placed = count_players-insert id player_id rest m in ground (arith, count, hit, placed)

-- A card that is added is in no zone yet.
pub fresh_card :
    (id : ℕ) (card : Card) (z : ZoneManager)
    → total card.instance_id z ≡ 0
    → has_id id card ≡ true
    → total id z ≡ 0
fresh_card id card z fresh e =
    let same : card.instance_id ≡ id = ground (arith, e) in subst (λ i. total i z ≡ 0) same fresh

-- ===== src/Zones/Fields.antt =====
-- The calls on hands, graveyards, the battlefield and exile (server/src/engine/zone_manager.cpp) keep the index of zones
-- consistent.
use uud.Base.Maps.{Map}
use uud.Base.Maps
use uud.Base.{
  ◌==◌, if◌then◌else◌, Option-cases, find_erase, ℕ, ◌+◌, ◌≡◌, refl, ap, subst, ◌∙◌, inl, inr, Bool,
  true, false, Option, none, some, List, arith,
}
use uud.Card.{Card}
use uud.Permanent.{Permanent, new_permanent}
use uud.Zones.{
  ExiledCard, ZoneManager, cards_of, touch, has_id, remove_from_hand, add_to_battlefield,
  remove_from_battlefield, add_to_graveyard, remove_from_graveyard, add_to_exile, remove_from_exile,
  find_card_zone,
}
use uud.Zones.Counts.{
  count_some, count_permanents, count_exiled, one_if, total, count_if-push_back,
  count_if-find_erase,
}
use uud.Zones.Index.{
  actual_zone, IsConsistent, zone_in-set, zone_in-erase, gained_battlefield, gained_graveyards,
  gained_exile, lost_hands, lost_battlefield, lost_graveyards, lost_exile,
}
use uud.Zones.Piles.{count-touch, count-push_card, count-take_card, fresh_card}

remove_from_hand-missing :
    (player_id wanted : ℕ) (z : ZoneManager)
    → find_erase (has_id wanted) (cards_of player_id z.hands) ≡ none
    → remove_from_hand player_id wanted z ≡ (none, record z { hands = touch player_id z.hands })
unfolding remove_from_hand
remove_from_hand-missing player_id wanted z e = rw (e, remove_from_hand)

remove_from_hand-found :
    (player_id wanted : ℕ) (found : Card × List Card) (z : ZoneManager)
    → find_erase (has_id wanted) (cards_of player_id z.hands) ≡ some found
    → remove_from_hand player_id wanted z ≡ (
      some found.0,
      record z {
        hands = Maps.insert player_id found.1 z.hands;
        card_zone = Maps.erase wanted z.card_zone;
      },
    )
unfolding remove_from_hand
remove_from_hand-found player_id wanted found z e = rw (e, remove_from_hand)

touched_hands :
    (player_id : ℕ) (z : ZoneManager)
    → IsConsistent z
    → IsConsistent (record z { hands = touch player_id z.hands })
unfolding IsConsistent total find_card_zone actual_zone
touched_hands player_id z v id = rw (count-touch id player_id z.hands) (v id)

pub remove_from_hand-IsConsistent :
    (player_id wanted : ℕ) (z : ZoneManager)
    → IsConsistent z
    → IsConsistent ((remove_from_hand player_id wanted z).1)
unfolding IsConsistent total find_card_zone actual_zone
remove_from_hand-IsConsistent player_id wanted z v id =
    elim (Option-cases (find_erase (has_id wanted) (cards_of player_id z.hands))) [
      | inl e ↦ rw (remove_from_hand-missing player_id wanted z e) (touched_hands player_id z v id)
      | inr (found, e) ↦ rw (remove_from_hand-found player_id wanted found z e) (
          lost_hands id z _ _ (wanted == id) (v id)
            (count-take_card id player_id wanted found.0 found.1 z.hands e)
            (zone_in-erase wanted id z.card_zone))
    ]

remove_from_graveyard-missing :
    (player_id wanted : ℕ) (z : ZoneManager)
    → find_erase (has_id wanted) (cards_of player_id z.graveyards) ≡ none
    → remove_from_graveyard player_id wanted z
      ≡ (none, record z { graveyards = touch player_id z.graveyards })
unfolding remove_from_graveyard
remove_from_graveyard-missing player_id wanted z e = rw (e, remove_from_graveyard)

remove_from_graveyard-found :
    (player_id wanted : ℕ) (found : Card × List Card) (z : ZoneManager)
    → find_erase (has_id wanted) (cards_of player_id z.graveyards) ≡ some found
    → remove_from_graveyard player_id wanted z ≡ (
      some found.0,
      record z {
        graveyards = Maps.insert player_id found.1 z.graveyards;
        card_zone = Maps.erase wanted z.card_zone;
      },
    )
unfolding remove_from_graveyard
remove_from_graveyard-found player_id wanted found z e = rw (e, remove_from_graveyard)

touched_graveyards :
    (player_id : ℕ) (z : ZoneManager)
    → IsConsistent z
    → IsConsistent (record z { graveyards = touch player_id z.graveyards })
unfolding IsConsistent total find_card_zone actual_zone
touched_graveyards player_id z v id = rw (count-touch id player_id z.graveyards) (v id)

pub remove_from_graveyard-IsConsistent :
    (player_id wanted : ℕ) (z : ZoneManager)
    → IsConsistent z
    → IsConsistent ((remove_from_graveyard player_id wanted z).1)
unfolding IsConsistent total find_card_zone actual_zone
remove_from_graveyard-IsConsistent player_id wanted z v id =
    elim (Option-cases (find_erase (has_id wanted) (cards_of player_id z.graveyards))) [
      | inl e ↦
          rw (remove_from_graveyard-missing player_id wanted z e)
            (touched_graveyards player_id z v id)
      | inr (found, e) ↦ rw (remove_from_graveyard-found player_id wanted found z e) (
          lost_graveyards id z _ _ (wanted == id) (v id)
            (count-take_card id player_id wanted found.0 found.1 z.graveyards e)
            (zone_in-erase wanted id z.card_zone))
    ]

pub add_to_graveyard-IsConsistent :
    (player_id : ℕ) (card : Card) (z : ZoneManager)
    → total card.instance_id z ≡ 0
    → IsConsistent z
    → IsConsistent (add_to_graveyard player_id card z)
unfolding IsConsistent total find_card_zone actual_zone add_to_graveyard
add_to_graveyard-IsConsistent player_id card z fresh v id =
    gained_graveyards id z _ _ (has_id id card) (v id) (fresh_card id card z fresh)
      (count-push_card id player_id card z.graveyards)
      (zone_in-set card.instance_id id "Graveyard" z.card_zone)

-- A card that stands nowhere is no permanent.
absent_permanent : (id : ℕ) (z : ZoneManager) → total id z ≡ 0 → Maps.lookup id z.battlefield ≡ none
unfolding total
absent_permanent id z fresh = elim (Option-cases (Maps.lookup id z.battlefield)) [
  | inl e ↦ e
  | inr (p, e) ↦
      let one : count_permanents id z.battlefield ≡ 1 = rw e in absurd (omega (arith, one, fresh))
]

some_gained :
    (b : Bool) (o : Option Permanent) (p : Permanent)
    → (b ≡ true → o ≡ none)
    → count_some (if b then some p else o) ≡ count_some o + one_if b
some_gained true o p h = let e = h refl in rw e
some_gained false o p h = omega arith

some_lost :
    (b : Bool) (o : Option Permanent) (p : Permanent)
    → (b ≡ true → o ≡ some p)
    → count_some (if b then none else o) + one_if b ≡ count_some o
some_lost true o p h = let e = h refl in rw e
some_lost false o p h = omega arith

lookup-same :
    (id k : ℕ) (m : Map Permanent) (o : Option Permanent)
    → (k == id) ≡ true
    → Maps.lookup k m ≡ o
    → Maps.lookup id m ≡ o
lookup-same id k m o e h =
    let same : k ≡ id = ground (arith, e) in subst (λ i. Maps.lookup i m ≡ o) same h

count-emplace :
    (id k : ℕ) (p : Permanent) (m : Map Permanent)
    → Maps.lookup k m ≡ none
    → count_permanents id (Maps.emplace k p m) ≡ count_permanents id m + one_if (k == id)
count-emplace id k p m h =
    ap count_some (Maps.lookup-emplace k id p m h)
    ∙ some_gained (k == id) (Maps.lookup id m) p (λ e. lookup-same id k m none e h)

count-erase :
    (id k : ℕ) (p : Permanent) (m : Map Permanent)
    → Maps.lookup k m ≡ some p
    → count_permanents id (Maps.erase k m) + one_if (k == id) ≡ count_permanents id m
count-erase id k p m h =
    ap (λ o. count_some o + one_if (k == id)) (Maps.lookup-erase k id m)
    ∙ some_lost (k == id) (Maps.lookup id m) p (λ e. lookup-same id k m (some p) e h)

pub add_to_battlefield-IsConsistent :
    (card : Card) (controller_id owner_id : ℕ) (z : ZoneManager)
    → total card.instance_id z ≡ 0
    → IsConsistent z
    → IsConsistent ((add_to_battlefield card controller_id owner_id z).1)
unfolding IsConsistent total find_card_zone actual_zone add_to_battlefield
add_to_battlefield-IsConsistent card controller_id owner_id z fresh v id =
    gained_battlefield id z _ _ (has_id id card) (v id) (fresh_card id card z fresh)
      (count-emplace id card.instance_id (new_permanent card controller_id owner_id) z.battlefield
        (absent_permanent card.instance_id z fresh))
      (zone_in-set card.instance_id id "Battlefield" z.card_zone)

remove_from_battlefield-missing :
    (permanent_id : ℕ) (z : ZoneManager)
    → Maps.lookup permanent_id z.battlefield ≡ none
    → remove_from_battlefield permanent_id z ≡ (none, z)
unfolding remove_from_battlefield
remove_from_battlefield-missing permanent_id z e = rw (e, remove_from_battlefield)

remove_from_battlefield-found :
    (permanent_id : ℕ) (p : Permanent) (z : ZoneManager)
    → Maps.lookup permanent_id z.battlefield ≡ some p
    → remove_from_battlefield permanent_id z ≡ (
      some p,
      record z {
        battlefield = Maps.erase permanent_id z.battlefield;
        card_zone = Maps.erase permanent_id z.card_zone;
      },
    )
unfolding remove_from_battlefield
remove_from_battlefield-found permanent_id p z e = rw (e, remove_from_battlefield)

pub remove_from_battlefield-IsConsistent :
    (permanent_id : ℕ) (z : ZoneManager)
    → IsConsistent z
    → IsConsistent ((remove_from_battlefield permanent_id z).1)
unfolding IsConsistent total find_card_zone actual_zone
remove_from_battlefield-IsConsistent permanent_id z v id =
    elim (Option-cases (Maps.lookup permanent_id z.battlefield)) [
      | inl e ↦ rw (remove_from_battlefield-missing permanent_id z e) (v id)
      | inr (p, e) ↦ rw (remove_from_battlefield-found permanent_id p z e) (
          lost_battlefield id z _ _ (permanent_id == id) (v id)
            (count-erase id permanent_id p z.battlefield e)
            (zone_in-erase permanent_id id z.card_zone))
    ]

pub add_to_exile-IsConsistent :
    (card : Card) (owner_id : ℕ) (face_down : Bool) (exiled_by : ℕ) (z : ZoneManager)
    → total card.instance_id z ≡ 0
    → IsConsistent z
    → IsConsistent (add_to_exile card owner_id face_down exiled_by z)
unfolding IsConsistent total find_card_zone actual_zone add_to_exile
add_to_exile-IsConsistent card owner_id face_down exiled_by z fresh v id =
    gained_exile id z _ _ (has_id id card) (v id) (fresh_card id card z fresh)
      (count_if-push_back (λ e. e.card.instance_id == id) z.exile
        (record { card = card; owner_id = owner_id; face_down = face_down; exiled_by = exiled_by }))
      (zone_in-set card.instance_id id "Exile" z.card_zone)

remove_from_exile-missing :
    (wanted : ℕ) (z : ZoneManager)
    → find_erase (λ e. e.card.instance_id == wanted) z.exile ≡ none
    → remove_from_exile wanted z ≡ (none, z)
unfolding remove_from_exile
remove_from_exile-missing wanted z e = rw (e, remove_from_exile)

remove_from_exile-found :
    (wanted : ℕ) (found : ExiledCard × List ExiledCard) (z : ZoneManager)
    → find_erase (λ e. e.card.instance_id == wanted) z.exile ≡ some found
    → remove_from_exile wanted z
      ≡ (some found.0, record z { exile = found.1; card_zone = Maps.erase wanted z.card_zone })
unfolding remove_from_exile
remove_from_exile-found wanted found z e = rw (e, remove_from_exile)

count-take_exiled :
    (id wanted : ℕ) (found : ExiledCard × List ExiledCard) (exile : List ExiledCard)
    → find_erase (λ e. e.card.instance_id == wanted) exile ≡ some found
    → count_exiled id found.1 + one_if (wanted == id) ≡ count_exiled id exile
count-take_exiled id wanted found exile e =
    let (count, hit) =
      count_if-find_erase (λ x. x.card.instance_id == id) (λ x. x.card.instance_id == wanted) exile
        found.0 found.1 e in
    ground (arith, count, hit)

pub remove_from_exile-IsConsistent :
    (wanted : ℕ) (z : ZoneManager) → IsConsistent z → IsConsistent ((remove_from_exile wanted z).1)
unfolding IsConsistent total find_card_zone actual_zone
remove_from_exile-IsConsistent wanted z v id =
    elim (Option-cases (find_erase (λ e. e.card.instance_id == wanted) z.exile)) [
      | inl e ↦ rw (remove_from_exile-missing wanted z e) (v id)
      | inr (found, e) ↦ rw (remove_from_exile-found wanted found z e) (
          lost_exile id z _ _ (wanted == id) (v id) (count-take_exiled id wanted found z.exile e)
            (zone_in-erase wanted id z.card_zone))
    ]

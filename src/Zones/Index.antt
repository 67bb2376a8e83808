-- ===== src/Zones/Index.antt =====
-- The index of zones that the manager keeps beside the cards (card_zone_ of
-- server/src/engine/zone_manager.cpp): what it says of a card after each kind of change.
use Prim.Native.String.{String}
use uud.Base.Maps.{Map}
use uud.Base.Maps
use uud.Base.{
  ltb, ◌==◌, if◌then◌else◌, ℕ, ◌+◌, ◌≤◌, ◌≡◌, refl, Bool, true, false, List, [], ◌∷◌, arith,
}
use uud.Card.{Card}
use uud.Zones.{ZoneManager, set_zone, place_all, find_card_zone}
use uud.Zones.Counts.{count_in, count_players, count_permanents, count_exiled, one_if, total}

-- The zone that holds a card which stands that often in the libraries, the hands, on the
-- battlefield, in the graveyards and in exile.
abbrev pub zone_name : ℕ → ℕ → ℕ → ℕ → ℕ → String
zone_name libraries hands battlefield graveyards exile =
    if ltb 0 libraries
    then "Library"
    else (if ltb 0 hands
        then "Hand"
        else (if ltb 0 battlefield
            then "Battlefield"
            else (if ltb 0 graveyards
                then "Graveyard"
                else (if ltb 0 exile then "Exile" else "Unknown"))))

-- Where the cards really are.
unfoldable pub actual_zone : ℕ → ZoneManager → String
actual_zone id z =
    zone_name (count_players id z.libraries) (count_players id z.hands)
      (count_permanents id z.battlefield) (count_players id z.graveyards) (count_exiled id z.exile)

-- An id stands in at most one place, and the index names the zone it is in.
abbrev pub IsPlaced : ℕ → ZoneManager → Type 0
IsPlaced id z = (total id z ≤ 1) × (find_card_zone id z ≡ actual_zone id z)

-- The same of every card's id.
unfoldable pub IsConsistent : ZoneManager → Type 0
IsConsistent z = (id : ℕ) → IsPlaced id z

abbrev pub Located : (libraries hands battlefield graveyards exile : ℕ) (zone : String) → Type 0
Located libraries hands battlefield graveyards exile zone =
    (libraries + hands + battlefield + graveyards + exile ≤ 1)
    × (zone ≡ zone_name libraries hands battlefield graveyards exile)

abbrev pub zone_in : ℕ → Map String → String
zone_in id m = Maps.get_or_default "Unknown" (Maps.lookup id m)

pub zone_in-set :
    (k id : ℕ) (zone : String) (m : Map String)
    → zone_in id (set_zone k zone m) ≡ (if k == id then zone else zone_in id m)
zone_in-set k id zone m = ground (arith, Maps.lookup-insert k id zone m)

pub zone_in-erase :
    (k id : ℕ) (m : Map String)
    → zone_in id (Maps.erase k m) ≡ (if k == id then "Unknown" else zone_in id m)
zone_in-erase k id m = ground (arith, Maps.lookup-erase k id m)

-- The changes of one id's place, by the zone that gains or loses it.
pub drawn :
    (id : ℕ) (z : ZoneManager) (l' h' : ℕ) (zone' : String) (moved : Bool)
    → IsPlaced id z
    → l' + one_if moved ≡ (count_players id z.libraries)
    → h' ≡ (count_players id z.hands) + one_if moved
    → zone' ≡ (if moved then "Hand" else zone_in id z.card_zone)
    → Located l' h'
        (count_permanents id z.battlefield)
        (count_players id z.graveyards)
        (count_exiled id z.exile)
        zone'
unfolding total find_card_zone actual_zone
drawn id z l' h' zone' moved v lost gained named = ground arith

pub gained_libraries :
    (id : ℕ) (z : ZoneManager) (l' : ℕ) (zone' : String) (moved : Bool)
    → IsPlaced id z
    → (moved ≡ true → total id z ≡ 0)
    → l' ≡ (count_players id z.libraries) + one_if moved
    → zone' ≡ (if moved then "Library" else zone_in id z.card_zone)
    → Located l'
        (count_players id z.hands)
        (count_permanents id z.battlefield)
        (count_players id z.graveyards)
        (count_exiled id z.exile)
        zone'
unfolding total find_card_zone actual_zone
gained_libraries id z l' zone' true v fresh count named = ground arith
gained_libraries id z l' zone' false v fresh count named = ground arith

pub gained_battlefield :
    (id : ℕ) (z : ZoneManager) (b' : ℕ) (zone' : String) (moved : Bool)
    → IsPlaced id z
    → (moved ≡ true → total id z ≡ 0)
    → b' ≡ (count_permanents id z.battlefield) + one_if moved
    → zone' ≡ (if moved then "Battlefield" else zone_in id z.card_zone)
    → Located
        (count_players id z.libraries)
        (count_players id z.hands)
        b'
        (count_players id z.graveyards)
        (count_exiled id z.exile)
        zone'
unfolding total find_card_zone actual_zone
gained_battlefield id z b' zone' true v fresh count named = ground arith
gained_battlefield id z b' zone' false v fresh count named = ground arith

pub gained_graveyards :
    (id : ℕ) (z : ZoneManager) (g' : ℕ) (zone' : String) (moved : Bool)
    → IsPlaced id z
    → (moved ≡ true → total id z ≡ 0)
    → g' ≡ (count_players id z.graveyards) + one_if moved
    → zone' ≡ (if moved then "Graveyard" else zone_in id z.card_zone)
    → Located
        (count_players id z.libraries)
        (count_players id z.hands)
        (count_permanents id z.battlefield)
        g'
        (count_exiled id z.exile)
        zone'
unfolding total find_card_zone actual_zone
gained_graveyards id z g' zone' true v fresh count named = ground arith
gained_graveyards id z g' zone' false v fresh count named = ground arith

pub gained_exile :
    (id : ℕ) (z : ZoneManager) (e' : ℕ) (zone' : String) (moved : Bool)
    → IsPlaced id z
    → (moved ≡ true → total id z ≡ 0)
    → e' ≡ (count_exiled id z.exile) + one_if moved
    → zone' ≡ (if moved then "Exile" else zone_in id z.card_zone)
    → Located
        (count_players id z.libraries)
        (count_players id z.hands)
        (count_permanents id z.battlefield)
        (count_players id z.graveyards)
        e'
        zone'
unfolding total find_card_zone actual_zone
gained_exile id z e' zone' true v fresh count named = ground arith
gained_exile id z e' zone' false v fresh count named = ground arith

pub lost_libraries :
    (id : ℕ) (z : ZoneManager) (l' : ℕ) (zone' : String) (moved : Bool)
    → IsPlaced id z
    → l' + one_if moved ≡ (count_players id z.libraries)
    → zone' ≡ (if moved then "Unknown" else zone_in id z.card_zone)
    → Located l'
        (count_players id z.hands)
        (count_permanents id z.battlefield)
        (count_players id z.graveyards)
        (count_exiled id z.exile)
        zone'
unfolding total find_card_zone actual_zone
lost_libraries id z l' zone' moved v count named = ground arith

pub lost_hands :
    (id : ℕ) (z : ZoneManager) (h' : ℕ) (zone' : String) (moved : Bool)
    → IsPlaced id z
    → h' + one_if moved ≡ (count_players id z.hands)
    → zone' ≡ (if moved then "Unknown" else zone_in id z.card_zone)
    → Located
        (count_players id z.libraries)
        h'
        (count_permanents id z.battlefield)
        (count_players id z.graveyards)
        (count_exiled id z.exile)
        zone'
unfolding total find_card_zone actual_zone
lost_hands id z h' zone' moved v count named = ground arith

pub lost_battlefield :
    (id : ℕ) (z : ZoneManager) (b' : ℕ) (zone' : String) (moved : Bool)
    → IsPlaced id z
    → b' + one_if moved ≡ (count_permanents id z.battlefield)
    → zone' ≡ (if moved then "Unknown" else zone_in id z.card_zone)
    → Located
        (count_players id z.libraries)
        (count_players id z.hands)
        b'
        (count_players id z.graveyards)
        (count_exiled id z.exile)
        zone'
unfolding total find_card_zone actual_zone
lost_battlefield id z b' zone' moved v count named = ground arith

pub lost_graveyards :
    (id : ℕ) (z : ZoneManager) (g' : ℕ) (zone' : String) (moved : Bool)
    → IsPlaced id z
    → g' + one_if moved ≡ (count_players id z.graveyards)
    → zone' ≡ (if moved then "Unknown" else zone_in id z.card_zone)
    → Located
        (count_players id z.libraries)
        (count_players id z.hands)
        (count_permanents id z.battlefield)
        g'
        (count_exiled id z.exile)
        zone'
unfolding total find_card_zone actual_zone
lost_graveyards id z g' zone' moved v count named = ground arith

pub lost_exile :
    (id : ℕ) (z : ZoneManager) (e' : ℕ) (zone' : String) (moved : Bool)
    → IsPlaced id z
    → e' + one_if moved ≡ (count_exiled id z.exile)
    → zone' ≡ (if moved then "Unknown" else zone_in id z.card_zone)
    → Located
        (count_players id z.libraries)
        (count_players id z.hands)
        (count_permanents id z.battlefield)
        (count_players id z.graveyards)
        e'
        zone'
unfolding total find_card_zone actual_zone
lost_exile id z e' zone' moved v count named = ground arith

pub returned :
    (id : ℕ) (z : ZoneManager) (l' h' hand : ℕ) (zone' : String)
    → IsPlaced id z
    → h' + hand ≡ count_players id z.hands
    → l' ≡ count_players id z.libraries + hand
    → zone' ≡ (if ltb 0 hand then "Library" else zone_in id z.card_zone)
    → Located l' h'
        (count_permanents id z.battlefield)
        (count_players id z.graveyards)
        (count_exiled id z.exile)
        zone'
unfolding total find_card_zone actual_zone
returned id z l' h' hand zone' v lost gained named = ground arith

pub library_set :
    (id : ℕ) (z : ZoneManager) (l' cards : ℕ) (zone' : String)
    → IsPlaced id z
    → cards + total id z ≤ 1
    → l' ≡ count_players id z.libraries + cards
    → zone' ≡ (if ltb 0 cards then "Library" else zone_in id z.card_zone)
    → Located l'
        (count_players id z.hands)
        (count_permanents id z.battlefield)
        (count_players id z.graveyards)
        (count_exiled id z.exile)
        zone'
unfolding total find_card_zone actual_zone
library_set id z l' cards zone' v fresh count named = ground arith

pub zone_in-place_all :
    (id : ℕ) (zone : String) (cards : List Card) (m : Map String)
    → zone_in id (place_all zone cards m)
      ≡ (if ltb 0 (count_in id cards) then zone else zone_in id m)
zone_in-place_all id zone [] m = refl
zone_in-place_all id zone (c ∷ cs) m =
    let rest = zone_in-place_all id zone cs (set_zone c.instance_id zone m) in
    let here = zone_in-set c.instance_id id zone m in ground (arith, rest, here)

-- ===== src/Zones.antt =====
-- zone_manager.hpp and zone_manager.cpp (server/src/engine): where the cards of a game are. The
-- end of a library's list is its top. A shared pointer to a card is the card; no operation is
-- called with a null pointer. The random shuffle is an argument.
pub mod Counts
pub mod Index
pub mod Piles
pub mod Libraries
pub mod Draws
pub mod Fields
pub mod Reach
pub mod Steps
mod Tests
use Prim.Native.String.{String}
use text.Mathlib.Text.{◌==◌ as str_eq}
use uud.Base.Maps.{Map}
use uud.Base.Maps
use uud.Base.{
  ◌==◌, if◌then◌else◌, length, push_back, back, pop_back, find_erase, keep_if, ℕ, Bool, ◌&&◌,
  Option, none, some, List, [], ◌∷◌, ◌++◌, map,
}
use uud.Card.{CardType, same_type, Card}
use uud.Permanent.{Permanent, new_permanent, is_creature, contains}

pub record ExiledCard : Type 0 where
  pub card : Card
  pub owner_id : ℕ
  pub face_down : Bool
  pub exiled_by : ℕ

pub record ZoneManager : Type 0 where
  pub libraries : Map (List Card)
  pub hands : Map (List Card)
  pub battlefield : Map Permanent
  pub graveyards : Map (List Card)
  pub exile : List ExiledCard
  pub card_owner : Map ℕ
  pub card_zone : Map String

-- A new ZoneManager, and what clear_all leaves.
abbrev pub no_zones : ZoneManager
no_zones = record {
  libraries = [];
  hands = [];
  battlefield = [];
  graveyards = [];
  exile = [];
  card_owner = [];
  card_zone = [];
}

unfoldable pub clear_all : ZoneManager → ZoneManager
clear_all z = no_zones

-- m[player_id] of a map of lists, as it is read.
abbrev pub cards_of : ℕ → Map (List Card) → List Card
cards_of player_id m = Maps.at [] player_id m

-- The entry that operator[] makes for a player who has none.
abbrev pub touch : ℕ → Map (List Card) → Map (List Card)
touch player_id m = Maps.insert player_id (cards_of player_id m) m

abbrev pub push_card : ℕ → Card → Map (List Card) → Map (List Card)
push_card player_id card m = Maps.insert player_id (push_back (cards_of player_id m) card) m

abbrev pub set_zone : ℕ → String → Map String → Map String
set_zone = Maps.insert

unfoldable pub init_player : ℕ → ZoneManager → ZoneManager
init_player player_id z = record z {
  libraries = Maps.insert player_id [] z.libraries;
  hands = Maps.insert player_id [] z.hands;
  graveyards = Maps.insert player_id [] z.graveyards;
}

abbrev pub own_all : ℕ → List Card → Map ℕ → Map ℕ
own_all player_id [] m = m
own_all player_id (c ∷ cs) m = own_all player_id cs (Maps.insert c.instance_id player_id m)

abbrev pub place_all : String → List Card → Map String → Map String
place_all zone [] m = m
place_all zone (c ∷ cs) m = place_all zone cs (set_zone c.instance_id zone m)

unfoldable pub set_library : ℕ → List Card → ZoneManager → ZoneManager
set_library player_id cards z = record z {
  libraries = Maps.insert player_id cards z.libraries;
  card_owner = own_all player_id cards z.card_owner;
  card_zone = place_all "Library" cards z.card_zone;
}

unfoldable pub draw_card : ℕ → ZoneManager → Option Card × ZoneManager
draw_card player_id z =
    let lib = cards_of player_id z.libraries in
    elim (back lib) [
      | none ↦ (none, record z { libraries = touch player_id z.libraries })
      | some card ↦ (
        some card,
        record z {
          libraries = Maps.insert player_id (pop_back lib) z.libraries;
          hands = push_card player_id card z.hands;
          card_zone = set_zone card.instance_id "Hand" z.card_zone;
        },
      )
    ]

unfoldable pub shuffle_library : (List Card → List Card) → ℕ → ZoneManager → ZoneManager
shuffle_library shuffle player_id z = record z {
  libraries = Maps.insert player_id (shuffle (cards_of player_id z.libraries)) z.libraries;
}

unfoldable pub library_size : ℕ → ZoneManager → ℕ
library_size player_id z = length (cards_of player_id z.libraries)

unfoldable pub return_hand_to_library : ℕ → ZoneManager → ZoneManager
return_hand_to_library player_id z =
    let hand = cards_of player_id z.hands in
    record z {
      libraries = Maps.insert player_id (cards_of player_id z.libraries ++ hand) z.libraries;
      hands = Maps.insert player_id [] z.hands;
      card_zone = place_all "Library" hand z.card_zone;
    }

unfoldable pub put_on_top : ℕ → Card → ZoneManager → ZoneManager
put_on_top player_id card z = record z {
  libraries = push_card player_id card z.libraries;
  card_zone = set_zone card.instance_id "Library" z.card_zone;
}

unfoldable pub put_on_bottom : ℕ → Card → ZoneManager → ZoneManager
put_on_bottom player_id card z = record z {
  libraries = Maps.insert player_id (card ∷ cards_of player_id z.libraries) z.libraries;
  card_zone = set_zone card.instance_id "Library" z.card_zone;
}

unfoldable pub peek_top : ℕ → ZoneManager → Option Card × ZoneManager
peek_top player_id z =
    (back (cards_of player_id z.libraries), record z { libraries = touch player_id z.libraries })

unfoldable pub remove_top : ℕ → ZoneManager → Option Card × ZoneManager
remove_top player_id z =
    let lib = cards_of player_id z.libraries in
    elim (back lib) [
      | none ↦ (none, record z { libraries = touch player_id z.libraries })
      | some card ↦ (
        some card,
        record z {
          libraries = Maps.insert player_id (pop_back lib) z.libraries;
          card_zone = Maps.erase card.instance_id z.card_zone;
        },
      )
    ]

unfoldable pub hand_size : ℕ → ZoneManager → ℕ
hand_size player_id z = length (cards_of player_id z.hands)

abbrev pub has_id : ℕ → Card → Bool
has_id id c = c.instance_id == id

unfoldable pub remove_from_hand : ℕ → ℕ → ZoneManager → Option Card × ZoneManager
remove_from_hand player_id id z = elim (find_erase (has_id id) (cards_of player_id z.hands)) [
  | none ↦ (none, record z { hands = touch player_id z.hands })
  | some found ↦ (
    some found.0,
    record z {
      hands = Maps.insert player_id found.1 z.hands;
      card_zone = Maps.erase id z.card_zone;
    },
  )
]

-- The permanent's id is the card's; emplace leaves a permanent of that id as it is.
unfoldable pub add_to_battlefield : Card → ℕ → ℕ → ZoneManager → ℕ × ZoneManager
add_to_battlefield card controller_id owner_id z = (
  card.instance_id,
  record z {
    battlefield =
        Maps.emplace card.instance_id (new_permanent card controller_id owner_id) z.battlefield;
    card_zone = set_zone card.instance_id "Battlefield" z.card_zone;
  },
)

unfoldable pub remove_from_battlefield : ℕ → ZoneManager → Option Permanent × ZoneManager
remove_from_battlefield permanent_id z = elim (Maps.lookup permanent_id z.battlefield) [
  | none ↦ (none, z)
  | some perm ↦ (
    some perm,
    record z {
      battlefield = Maps.erase permanent_id z.battlefield;
      card_zone = Maps.erase permanent_id z.card_zone;
    },
  )
]

unfoldable pub find_permanent : ℕ → ZoneManager → Option Permanent
find_permanent permanent_id z = Maps.lookup permanent_id z.battlefield

-- The ids of the permanents that a test accepts.
abbrev pub ids_where : (Permanent → Bool) → Map Permanent → List ℕ
ids_where test [] = []
ids_where test ((id, perm) ∷ m) =
    let rest = ids_where test m in if test perm then id ∷ rest else rest

unfoldable pub permanents_controlled_by : ℕ → ZoneManager → List ℕ
permanents_controlled_by player_id z = ids_where (λ p. p.controller_id == player_id) z.battlefield

unfoldable pub permanents_with_type : ℕ → CardType → ZoneManager → List ℕ
permanents_with_type player_id type z =
    ids_where (λ p. p.controller_id == player_id && same_type p.card.type type) z.battlefield

unfoldable pub permanents_with_subtype : ℕ → String → ZoneManager → List ℕ
permanents_with_subtype player_id subtype z =
    ids_where (λ p. p.controller_id == player_id && contains subtype p.card.subtypes) z.battlefield

unfoldable pub all_creatures : ZoneManager → List ℕ
all_creatures z = ids_where is_creature z.battlefield

unfoldable pub add_to_graveyard : ℕ → Card → ZoneManager → ZoneManager
add_to_graveyard player_id card z = record z {
  graveyards = push_card player_id card z.graveyards;
  card_zone = set_zone card.instance_id "Graveyard" z.card_zone;
}

unfoldable pub remove_from_graveyard : ℕ → ℕ → ZoneManager → Option Card × ZoneManager
remove_from_graveyard player_id id z =
    elim (find_erase (has_id id) (cards_of player_id z.graveyards)) [
      | none ↦ (none, record z { graveyards = touch player_id z.graveyards })
      | some found ↦ (
        some found.0,
        record z {
          graveyards = Maps.insert player_id found.1 z.graveyards;
          card_zone = Maps.erase id z.card_zone;
        },
      )
    ]

unfoldable pub graveyard_cards_with_subtype : ℕ → String → ZoneManager → List ℕ
graveyard_cards_with_subtype player_id subtype z =
    map (λ c. c.instance_id)
      (keep_if (λ c. contains subtype c.subtypes) (cards_of player_id z.graveyards))

unfoldable pub add_to_exile : Card → ℕ → Bool → ℕ → ZoneManager → ZoneManager
add_to_exile card owner_id face_down exiled_by z = record z {
  exile =
      push_back z.exile
        (record { card = card; owner_id = owner_id; face_down = face_down; exiled_by = exiled_by });
  card_zone = set_zone card.instance_id "Exile" z.card_zone;
}

unfoldable pub exile_for_player : ℕ → ZoneManager → List ExiledCard
exile_for_player player_id z = keep_if (λ e. e.owner_id == player_id) z.exile

unfoldable pub remove_from_exile : ℕ → ZoneManager → Option ExiledCard × ZoneManager
remove_from_exile id z = elim (find_erase (λ e. e.card.instance_id == id) z.exile) [
  | none ↦ (none, z)
  | some found ↦ (some found.0, record z { exile = found.1; card_zone = Maps.erase id z.card_zone })
]

unfoldable pub find_card_zone : ℕ → ZoneManager → String
find_card_zone id z = Maps.get_or_default "Unknown" (Maps.lookup id z.card_zone)

unfoldable pub find_card_owner : ℕ → ZoneManager → ℕ
find_card_owner id z = Maps.at 0 id z.card_owner

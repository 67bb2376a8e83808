-- ===== src/Game/Sideboard.antt =====
-- The swap of cards with the sideboard (Game::process_action of server/src/engine/game.cpp).
use Prim.Native.String.{String}
use text.Mathlib.Text.{◌==◌ as str_eq}
use uud.Actions.{ActionData}
use uud.Base.Maps
use uud.Base.{
  ◌==◌, if◌then◌else◌, length, find_erase, keep_if, ℕ, not, Option, none, some, List, [], ◌∷◌, ◌++◌,
}
use uud.Card.{Card}
use uud.Player.{Player}
use uud.Targets.Parse.{split_parts, is_token}
use uud.Zones.{ZoneManager, cards_of, remove_from_hand}
use uud.Game.{Game, find_player, update_player}

-- The cards that leave the hand for the sideboard.
abbrev pub or_skip : Option Card → List Card → List Card
or_skip none cards = cards
or_skip (some card) cards = card ∷ cards

unfoldable pub take_out : ℕ → List ℕ → ZoneManager → List Card × ZoneManager
take_out player_id [] z = ([], z)
take_out player_id (id ∷ ids) z =
    let (card, z') = remove_from_hand player_id id z in
    let (cards, z'') = take_out player_id ids z' in (or_skip card cards, z'')

-- And those that are found by name in the sideboard, with the rest of it.
abbrev pub or_miss :
    Option (Card × List Card)
    → List Card
    → (List Card → List Card × List Card)
    → List Card × List Card
or_miss none sideboard more = more sideboard
or_miss (some (card, rest)) sideboard more = let (cards, left) = more rest in (card ∷ cards, left)

unfoldable pub take_in : List String → List Card → List Card × List Card
take_in [] sideboard = ([], sideboard)
take_in (name ∷ names) sideboard =
    or_miss (find_erase (λ c. str_eq c.name name) sideboard) sideboard (take_in names)

abbrev pub put_in_hand : ℕ → List Card → ZoneManager → ZoneManager
put_in_hand player_id cards z = record z {
  hands = Maps.insert player_id (cards_of player_id z.hands ++ cards) z.hands;
}

abbrev pub swap_cards : ℕ → List String → List Card → Player → ZoneManager → Player × ZoneManager
swap_cards player_id names cards_out p z =
    let (cards_in, left) = take_in names p.sideboard in
    if not (length names == length cards_out)
    then (p, put_in_hand player_id cards_out z)
    else if not (length cards_in == length cards_out)
    then (record p { sideboard = left ++ cards_in }, put_in_hand player_id cards_out z)
    else (record p { sideboard = left ++ cards_out }, put_in_hand player_id cards_in z)

abbrev pub same_player : Player → Player → Player
same_player new old = new

abbrev pub swap_for : ℕ → ActionData → Option Player → Game → Game
swap_for player_id action none g = g
swap_for player_id action (some p) g =
    let (cards_out, z) = take_out player_id action.ids g.zones in
    let names = keep_if is_token (split_parts b',' action.text) in
    let (p', z') = swap_cards player_id names cards_out p z in
    record g { zones = z'; players = update_player player_id (same_player p') g.players }

unfoldable pub sideboard_swap : ℕ → ActionData → Game → Game
sideboard_swap player_id action g = swap_for player_id action (find_player player_id g.players) g

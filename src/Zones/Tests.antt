-- ===== src/Zones/Tests.antt =====
-- Tests and witnesses for the zones.
use uud.Base.Maps
use uud.Base.{find_erase, ℕ, ◌+◌, ◌≤◌, ◌≡◌, refl, List, [], ◌∷◌, ◌++◌, reverse, arith}
use uud.Card.{Card, new_card, creature, land}
use uud.Zones.{
  ZoneManager, no_zones, cards_of, set_library, draw_card, remove_from_hand, add_to_battlefield,
  remove_from_battlefield, add_to_graveyard, find_card_zone,
}
use uud.Zones.Counts.{count_in, total}
use uud.Zones.Draws.{draw_cards, draw_cards-order}
use uud.Zones.Index.{IsConsistent}
use uud.Zones.Reach.{Reachable-IsConsistent}
use uud.Zones.Steps.{Reachable, draw, fill, start, next}

abbrev forest : Card
forest = new_card 1 "Forest" land

abbrev elf : Card
elf = new_card 2 "Elf" creature

abbrev deck : List Card
deck = forest ∷ elf ∷ []

abbrev dealt : ZoneManager
dealt = set_library 9 deck no_zones

abbrev drawn_once : ZoneManager
drawn_once = (draw_card 9 dealt).1

elf_in_hand : find_card_zone 2 drawn_once ≡ "Hand"
unfolding find_card_zone draw_card set_library Maps.lookup Maps.insert
elf_in_hand = refl

abbrev played : ZoneManager
played = (add_to_battlefield elf 9 9 ((remove_from_hand 9 2 drawn_once).1)).1

elf_dies :
    find_card_zone 2 (add_to_graveyard 9 elf ((remove_from_battlefield 2 played).1)) ≡ "Graveyard"
unfolding find_card_zone draw_card set_library remove_from_hand add_to_battlefield
    remove_from_battlefield add_to_graveyard Maps.lookup Maps.insert Maps.erase Maps.emplace
    find_erase
elf_dies = refl

deck_fresh : (id : ℕ) → count_in id deck + total id no_zones ≤ 1
unfolding total Maps.lookup
deck_fresh id = ground arith

dealt-Reachable : Reachable drawn_once
unfolding Maps.lookup
dealt-Reachable = next (next start (fill 9 deck refl deck_fresh)) (draw 9)

Reachable-IsConsistent_example : IsConsistent drawn_once
Reachable-IsConsistent_example = Reachable-IsConsistent dealt-Reachable

dealt_library : cards_of 9 dealt.libraries ≡ [] ++ reverse (elf ∷ forest ∷ [])
unfolding set_library Maps.insert Maps.lookup
dealt_library = refl

draw_cards-order_example :
    (cards_of 9 (draw_cards 2 9 dealt).libraries ≡ [])
    × (cards_of 9 (draw_cards 2 9 dealt).hands ≡ cards_of 9 dealt.hands ++ elf ∷ forest ∷ [])
draw_cards-order_example = draw_cards-order 9 (elf ∷ forest ∷ []) [] dealt dealt_library

-- ===== src/Targets/Tests.antt =====
-- Runs of target_filter.cpp (server/src/engine).
use uud.Base.Int.{pos}
use uud.Base.{◌≡◌, refl, ◌≢◌, some, [], ◌∷◌}
use uud.Card.{Card, new_card, creature}
use uud.Targets.{
  TargetFilter, new_filter, lower, bytes, is_legal_permanent, collect, legal_permanents,
  apply_filter, you, opponent, battlefield, graveyard, any_zone,
}
use uud.Permanent.{new_permanent, has_keyword}
use uud.Zones.{ZoneManager, no_zones}
use uud.Targets.Parse.Words.{tokens_of}
use uud.Targets.Parse.Tokens.{is_unmarked, join}
use uud.Targets.Parse.RoundTrip.{parse_filter-print}
use uud.Targets.Parse.{
  split_parts, split_tokens, try_parse_card_type, parse_token, parse_tokens, parse_filter,
}

goblin_filter : parse_filter "goblin_you_control_with_Haste_mv3_or_less" ≡ record new_filter {
  subtype = some "goblin";
  controller = you;
  required_keyword = some "Haste";
  max_mana_value = some (pos 3);
}
unfolding parse_filter parse_tokens split_tokens split_parts parse_token try_parse_card_type bytes
goblin_filter = refl

grave_filter :
    parse_filter "creature_card_in_graveyard_opponent"
    ≡ record new_filter { card_type = some creature; controller = opponent; zone = graveyard }
unfolding parse_filter parse_tokens split_tokens split_parts parse_token try_parse_card_type bytes
grave_filter = refl

-- A zone after "permanent" is put back to the battlefield.
permanent_filter : parse_filter "permanent_in_hand" ≡ new_filter
unfolding parse_filter parse_tokens split_tokens split_parts parse_token try_parse_card_type bytes
permanent_filter = refl

abbrev haste_goblins : TargetFilter
haste_goblins = record new_filter {
  card_type = some creature;
  subtype = some "goblin";
  controller = opponent;
  required_keyword = some "Haste";
}

battlefield_named : battlefield ≢ any_zone
battlefield_named e = absurd (cc)

parse_filter-print_example : parse_filter (join (tokens_of haste_goblins)) ≡ haste_goblins
unfolding is_unmarked bytes
parse_filter-print_example = parse_filter-print haste_goblins refl battlefield_named refl refl

abbrev elf_card : Card
elf_card = record (new_card 7 "Llanowar Elves" creature) {
  subtypes = "Elf" ∷ [];
  keywords = "Hexproof" ∷ [];
}

-- Player 2 may not choose player 1's permanent with Hexproof, player 1 may.
abbrev elf_zones : ZoneManager
elf_zones = record no_zones { battlefield = (7, new_permanent elf_card 1 1) ∷ [] }

abbrev elf_filter : TargetFilter
elf_filter = record new_filter { subtype = some "elf" }

own_elf : apply_filter elf_filter 1 elf_zones [] ≡ 7 ∷ []
unfolding apply_filter legal_permanents collect is_legal_permanent has_keyword lower bytes
own_elf = refl

other_elf : apply_filter elf_filter 2 elf_zones [] ≡ []
unfolding apply_filter legal_permanents collect is_legal_permanent has_keyword lower bytes
other_elf = refl

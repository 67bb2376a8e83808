-- ===== src/Decks/Tests.antt =====
-- Runs of deck_validator.cpp (server/src/engine).
use Prim.Native.String.{String}
use text.Mathlib.Text.{◌==◌ as str_eq}
use uud.Base.StringMaps
use uud.Base.{
  ◌==◌, length, replicate, all_of, ℕ, ◌≡◌, refl, Bool, true, false, ◌&&◌, ◌||◌, List, [], ◌∷◌, ◌++◌,
}
use uud.Decks.{
  is_basic_land, check_copies, check_known, check_sideboard_known, validate, validate_sideboard,
}
use uud.Decks.Legal.{few_copies, validate_lem}

abbrev known_card : String → Bool
known_card name = is_basic_land name || str_eq name "Llanowar Elves"

abbrev two_of : ℕ → String
two_of n = "two"

abbrev green_deck : List String
green_deck = replicate 36 "Forest" ++ replicate 4 "Llanowar Elves"

-- Five copies, one card too many, and an unknown card twice: three errors.
abbrev bad_deck : List String
bad_deck = replicate 34 "Forest" ++ replicate 5 "Llanowar Elves" ++ "Ruby" ∷ "Ruby" ∷ []

green_deck-valid : (validate two_of known_card green_deck).valid ≡ true
unfolding validate check_known check_copies is_basic_land StringMaps.lookup StringMaps.insert
green_deck-valid = refl

bad_deck-errors : length (validate two_of known_card bad_deck).errors ≡ 3
unfolding validate check_known check_copies is_basic_land StringMaps.lookup StringMaps.insert
bad_deck-errors = refl

sideboard_unknown : (validate_sideboard two_of known_card ("Ruby" ∷ "Forest" ∷ [])).valid ≡ false
unfolding validate_sideboard check_sideboard_known is_basic_land
sideboard_unknown = refl

validate_lem_example : (validate two_of known_card green_deck).valid ≡ (
    length green_deck == 40
    && all_of (few_copies green_deck) green_deck
    && all_of known_card green_deck)
validate_lem_example = validate_lem two_of known_card green_deck

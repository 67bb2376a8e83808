-- ===== src/Decks.antt =====
-- deck_validator.hpp and deck_validator.cpp (server/src/engine). What the registry knows is a
-- parameter, and so is std::to_string, which only the texts of the errors use. An `int` counter is
-- a natural number.
mod Copies
mod Known
mod Legal
mod Tests
use Prim.Native.String.{String, ◌++◌ as str_append}
use text.Mathlib.Text.{◌==◌ as str_eq}
use uud.Base.StringMaps
use uud.Base.StringMaps.{StringMap}
use uud.Base.Maps
use uud.Base.{
  ltb, ◌==◌, if◌then◌else◌, is_some, length, push_back, ℕ, ◌+◌, Bool, true, false, not, ◌&&◌, ◌||◌,
  List, [], ◌∷◌,
}

pub record DeckValidationResult : Type 0 where
  pub valid : Bool
  pub errors : List String

abbrev pub no_errors : DeckValidationResult
no_errors = record { valid = true; errors = [] }

-- result.valid = false; result.errors.push_back(error)
abbrev pub fail : String → DeckValidationResult → DeckValidationResult
fail error r = record r { valid = false; errors = push_back r.errors error }

abbrev pub required_size : ℕ
required_size = 40

abbrev pub max_copies : ℕ
max_copies = 4

abbrev pub max_sideboard_size : ℕ
max_sideboard_size = 15

unfoldable pub is_basic_land : String → Bool
is_basic_land name =
    str_eq name "Plains"
    || str_eq name "Island"
    || str_eq name "Swamp"
    || str_eq name "Mountain"
    || str_eq name "Forest"
    || str_eq name "Wastes"

-- counts[name], as it is read, and counts[name]++
abbrev pub count_at : String → StringMap ℕ → ℕ
count_at name counts = Maps.get_or_default 0 (StringMaps.lookup name counts)

abbrev pub counted : String → StringMap ℕ → ℕ
counted name counts = count_at name counts + 1

module _ (to_string : ℕ → String) where
  abbrev size_error : ℕ → String
  size_error n = str_append "Deck must contain exactly " (
      str_append (to_string required_size)
        (str_append " cards (has " (str_append (to_string n) ")")))

  abbrev pub copies_error : String → String
  copies_error name =
      str_append "Cannot have more than "
        (str_append (to_string max_copies) (str_append " copies of '" (str_append name "'")))

  -- The loop over the names that counts the copies.
  unfoldable pub check_copies :
      List String → StringMap ℕ → DeckValidationResult → DeckValidationResult
  check_copies [] counts r = r
  check_copies (name ∷ names) counts r =
      let n = counted name counts in
      let basic = is_basic_land name in
      check_copies names (if basic then counts else StringMaps.insert name n counts)
        (if not basic && ltb max_copies n then fail (copies_error name) r else r)

module _ (has_card : String → Bool) where
  -- The loop over the names that asks the registry, once for each name.
  unfoldable pub check_known :
      List String → StringMap Bool → DeckValidationResult → DeckValidationResult
  check_known [] checked r = r
  check_known (name ∷ names) checked r =
      let fresh = not (is_some (StringMaps.lookup name checked)) in
      check_known names (if fresh then StringMaps.insert name true checked else checked) (
        if fresh && not (has_card name)
        then fail (str_append "Unknown card: '" (str_append name "'")) r
        else r)

  unfoldable pub check_sideboard_known : List String → DeckValidationResult → DeckValidationResult
  check_sideboard_known [] r = r
  check_sideboard_known (name ∷ names) r = check_sideboard_known names (
      if has_card name
      then r
      else fail (str_append "Unknown sideboard card: '" (str_append name "'")) r)

module _ (to_string : ℕ → String) (has_card : String → Bool) where
  unfoldable pub validate : List String → DeckValidationResult
  validate card_names =
      let r =
        if length card_names == required_size
        then no_errors
        else fail (size_error to_string (length card_names)) no_errors in
      check_known has_card card_names [] (check_copies to_string card_names [] r)

  abbrev sideboard_error : ℕ → String
  sideboard_error n = str_append "Sideboard cannot exceed " (
      str_append (to_string max_sideboard_size)
        (str_append " cards (has " (str_append (to_string n) ")")))

  unfoldable pub validate_sideboard : List String → DeckValidationResult
  validate_sideboard names =
      let r =
        if ltb max_sideboard_size (length names)
        then fail (sideboard_error (length names)) no_errors
        else no_errors in
      check_sideboard_known has_card names r

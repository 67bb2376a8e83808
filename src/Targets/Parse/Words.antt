-- ===== src/Targets/Parse/Words.antt =====
-- Target filters written as tokens (server/src/engine/target_filter.cpp).
use Prim.Native.String.{String}
use text.Mathlib.Text.{◌==◌ as str_eq}
use uud.Base.{
  is_some, any_of, Bool, true, false, not, ◌&&◌, Option, none, some, List, [], ◌∷◌, ◌++◌,
}
use uud.Card.{CardType, creature, instant, sorcery, enchantment, artifact, planeswalker, land}
use uud.Targets.{
  Controller, TargetZone, TargetFilter, bytes, any, you, opponent, battlefield, graveyard, hand,
  any_zone,
}
use uud.Targets.Parse.{value_text}
use uud.Targets.Parse.Tokens.{is_clean}

-- A filter as a text: its type, its subtype, "player", its controller, its keyword and its zone.
abbrev pub type_word : CardType → String
type_word creature = "creature"
type_word instant = "instant"
type_word sorcery = "sorcery"
type_word enchantment = "enchantment"
type_word artifact = "artifact"
type_word planeswalker = "planeswalker"
type_word land = "land"

abbrev pub type_tokens : Option CardType → List String
type_tokens none = []
type_tokens (some t) = type_word t ∷ []

abbrev pub subtype_tokens : Option String → List String
subtype_tokens none = []
subtype_tokens (some s) = s ∷ []

abbrev pub player_tokens : Bool → List String
player_tokens false = []
player_tokens true = "player" ∷ []

abbrev pub controller_tokens : Controller → List String
controller_tokens any = []
controller_tokens you = "you" ∷ "control" ∷ []
controller_tokens opponent = "opponent" ∷ []

abbrev pub keyword_tokens : Option String → List String
keyword_tokens none = []
keyword_tokens (some k) = "with" ∷ k ∷ []

-- No text stands for TargetFilter::Zone::Any.
abbrev pub zone_tokens : TargetZone → List String
zone_tokens battlefield = []
zone_tokens graveyard = "in" ∷ "graveyard" ∷ []
zone_tokens hand = "in" ∷ "hand" ∷ []
zone_tokens any_zone = []

abbrev pub tokens_of : TargetFilter → List String
tokens_of f =
    type_tokens f.card_type
    ++ (subtype_tokens f.subtype
        ++ (player_tokens f.targets_players
            ++ (controller_tokens f.controller
                ++ (keyword_tokens f.required_keyword ++ zone_tokens f.zone))))

-- The words that the parser does not read as a subtype.
abbrev pub reserved : List String
reserved =
    "you" ∷ "control" ∷ "opponent" ∷ "in" ∷ "with" ∷ "or" ∷ "less" ∷ "player" ∷ "card" ∷ "permanent"
    ∷ "creature" ∷ "enchantment" ∷ "artifact" ∷ "land" ∷ "planeswalker" ∷ "instant" ∷ "sorcery" ∷ []

abbrev pub is_noun : String → Bool
is_noun s =
    is_clean s && not (any_of (λ w. str_eq s w) reserved) && not (is_some (value_text (bytes s)))

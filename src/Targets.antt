-- ===== src/Targets.antt =====
-- target_filter.hpp and target_filter.cpp (server/src/engine): the filters that say which targets
-- are legal. A text is a sequence of characters, which are bytes as long as they are ASCII;
-- std::tolower changes the capitals of ASCII only. The maps and lists are read as in Zones.
pub mod Parse
mod Targetable
mod Reflected
mod Collected
mod Legal
mod Tests
use Prim.Native.Char.{Char, code}
use Prim.Native.String.{String, [] as no_text, ◌∷◌ as text_cons}
use text.Mathlib.Text.{◌==◌ as str_eq}
use uud.Base.Int.{ℤ, ltb_ℤ, pos}
use uud.Base.Maps.{Map}
use uud.Base.{
  leb, ◌==◌, if◌then◌else◌, any_of, ℕ, ◌+◌, Bool, true, false, not, ◌&&◌, Option, none, some, List,
  [], ◌∷◌, ◌++◌,
}
use uud.Card.{CardType, same_type, Card}
use uud.Mana.Cost.{mana_value}
use uud.Permanent.{Permanent, has_keyword}
use uud.Player.{Player, is_alive}
use uud.Zones.{ZoneManager, cards_of}

pub data Controller : Type 0 where
  any you opponent : Controller

pub data TargetZone : Type 0 where
  battlefield graveyard hand any_zone : TargetZone

pub record TargetFilter : Type 0 where
  pub card_type : Option CardType
  pub subtype : Option String
  pub controller : Controller
  pub zone : TargetZone
  pub required_keyword : Option String
  pub max_mana_value : Option ℤ
  pub targets_players : Bool

abbrev pub new_filter : TargetFilter
new_filter = record {
  card_type = none;
  subtype = none;
  controller = any;
  zone = battlefield;
  required_keyword = none;
  max_mana_value = none;
  targets_players = false;
}

-- std::tolower on the bytes of a text
abbrev pub to_lower : ℕ → ℕ
to_lower ch = if leb b'A' ch && leb ch b'Z' then ch + 32 else ch

unfoldable pub lower : String → List ℕ
lower no_text = []
lower (text_cons ch s) = to_lower (code ch) ∷ lower s

unfoldable pub bytes : String → List ℕ
bytes no_text = []
bytes (text_cons ch s) = code ch ∷ bytes s

abbrev pub same_bytes : List ℕ → List ℕ → Bool
same_bytes [] [] = true
same_bytes (a ∷ xs) (b ∷ ys) = a == b && same_bytes xs ys
same_bytes _ _ = false

-- The tests of apply_filter, one for each `continue`.
abbrev pub type_passes : Option CardType → Card → Bool
type_passes none card = true
type_passes (some t) card = same_type card.type t

abbrev pub subtype_passes : Option String → Card → Bool
subtype_passes none card = true
subtype_passes (some s) card = any_of (λ st. same_bytes (lower st) (bytes s)) card.subtypes

abbrev pub keyword_passes : Option String → Permanent → Bool
keyword_passes none perm = true
keyword_passes (some k) perm = has_keyword k perm

abbrev pub value_passes : Option ℤ → Card → Bool
value_passes none card = true
value_passes (some n) card = not (ltb_ℤ n (pos (mana_value card.mana_cost)))

abbrev pub controller_passes : Controller → ℕ → ℕ → Bool
controller_passes any choosing id = true
controller_passes you choosing id = id == choosing
controller_passes opponent choosing id = not (id == choosing)

unfoldable pub is_legal_permanent : TargetFilter → ℕ → Permanent → Bool
is_legal_permanent filter choosing perm =
    not (has_keyword "Shroud" perm)
    && (not (has_keyword "Hexproof" perm && not (perm.controller_id == choosing))
        && (type_passes filter.card_type perm.card
            && (controller_passes filter.controller choosing perm.controller_id
                && (subtype_passes filter.subtype perm.card
                    && (keyword_passes filter.required_keyword perm
                        && value_passes filter.max_mana_value perm.card)))))

-- The loops that push the id of everything that passes.
unfoldable pub collect {ℓ} : {A : Type ℓ} → (A → Bool) → (A → ℕ) → List A → List ℕ
collect test id_of [] = []
collect test id_of (x ∷ xs) =
    let rest = collect test id_of xs in if test x then id_of x ∷ rest else rest

unfoldable pub legal_permanents : TargetFilter → ℕ → Map Permanent → List ℕ
unfolding collect
legal_permanents filter choosing =
    collect (λ entry. is_legal_permanent filter choosing entry.1) (λ entry. entry.0)

unfoldable pub is_legal_card : TargetFilter → Card → Bool
is_legal_card filter card =
    type_passes filter.card_type card
    && (subtype_passes filter.subtype card && value_passes filter.max_mana_value card)

unfoldable pub legal_cards : (Card → Bool) → List Card → List ℕ
unfolding collect
legal_cards test = collect test (λ card. card.instance_id)

unfoldable pub legal_in_graveyards : TargetFilter → ℕ → ZoneManager → List Player → List ℕ
legal_in_graveyards filter choosing z [] = []
legal_in_graveyards filter choosing z (p ∷ players) =
    let rest = legal_in_graveyards filter choosing z players in
    if controller_passes filter.controller choosing p.id
    then legal_cards (is_legal_card filter) (cards_of p.id z.graveyards) ++ rest
    else rest

unfoldable pub legal_players : Controller → ℕ → List Player → List ℕ
unfolding collect
legal_players controller choosing =
    collect (λ p. is_alive p && controller_passes controller choosing p.id) (λ p. p.id)

abbrev pub legal_in_zone : TargetZone → TargetFilter → ℕ → ZoneManager → List Player → List ℕ
legal_in_zone battlefield filter choosing z players = legal_permanents filter choosing z.battlefield
legal_in_zone graveyard filter choosing z players = legal_in_graveyards filter choosing z players
legal_in_zone hand filter choosing z players =
    legal_cards (type_passes filter.card_type) (cards_of choosing z.hands)
legal_in_zone any_zone filter choosing z players =
    legal_permanents filter choosing z.battlefield ++ legal_in_graveyards filter choosing z players

unfoldable pub apply_filter : TargetFilter → ℕ → ZoneManager → List Player → List ℕ
apply_filter filter choosing z players =
    if filter.targets_players
    then legal_players filter.controller choosing players
    else legal_in_zone filter.zone filter choosing z players

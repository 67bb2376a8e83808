-- ===== src/Permanent.antt =====
-- permanent.hpp and permanent.cpp (server/src/engine): a card on the battlefield. An `int` is an
-- integer. A card is shared by pointer and not changed once it is built, so a permanent holds the
-- card itself.
pub mod Annihilation
pub mod Counters
pub mod Keywords
mod Tests
use Prim.Native.String.{String, ◌++◌ as str_append}
use text.Mathlib.Text.{◌==◌ as str_eq}
use uud.Base.Int.{ℤ, pos_part, neg_part, ◌+ℤ◌, ◌-ℤ◌, ltb_ℤ, pos}
use uud.Base.StringMaps
use uud.Base.StringMaps.{StringMap}
use uud.Base.{
  ◌==◌, if◌then◌else◌, push_back, any_of, erase_if, ℕ, ◌+◌, Bool, true, false, not, ◌&&◌, ◌||◌,
  Option, none, some, List, [], ◌∷◌,
}
use uud.Card.{
  same_type, color_white, color_blue, color_black, color_red, color_green, color_colorless,
  color_and, CreatureStats, Card, creature, land,
}

pub record Permanent : Type 0 where
  pub card : Card
  pub controller_id : ℕ
  pub owner_id : ℕ
  pub tapped : Bool
  pub summoning_sick : Bool
  pub damage_marked : ℤ
  pub deathtouch_marked : Bool
  pub is_token : Bool
  pub power_mod : ℤ
  pub toughness_mod : ℤ
  pub granted_keywords : List String
  pub counters : StringMap ℤ
  pub attached_to : Option ℕ
  pub attachments : List ℕ
  pub animated : Bool
  pub animated_until_eot : Bool
  pub animated_power : ℤ
  pub animated_toughness : ℤ

-- Permanent(card, controller_id, owner_id)
abbrev pub new_permanent : Card → ℕ → ℕ → Permanent
new_permanent card controller_id owner_id = record {
  card = card;
  controller_id = controller_id;
  owner_id = owner_id;
  tapped = false;
  summoning_sick = true;
  damage_marked = pos 0;
  deathtouch_marked = false;
  is_token = false;
  power_mod = pos 0;
  toughness_mod = pos 0;
  granted_keywords = [];
  counters = [];
  attached_to = none;
  attachments = [];
  animated = false;
  animated_until_eot = false;
  animated_power = pos 0;
  animated_toughness = pos 0;
}

abbrev pub or_zero : Option ℤ → ℤ
or_zero none = pos 0
or_zero (some n) = n

unfoldable pub get_counters : String → Permanent → ℤ
get_counters type p = or_zero (StringMaps.lookup type p.counters)

-- counters_[type] += amount
unfoldable pub add_counter : String → ℤ → Permanent → Permanent
add_counter type amount p = record p {
  counters = StringMaps.insert type (get_counters type p +ℤ amount) p.counters;
}

abbrev pub max_ℤ : ℤ → ℤ → ℤ
max_ℤ a b = if ltb_ℤ a b then b else a

abbrev pub min_ℤ : ℤ → ℤ → ℤ
min_ℤ a b = if ltb_ℤ b a then b else a

abbrev pub eqb_ℤ : ℤ → ℤ → Bool
eqb_ℤ a b = pos_part a + neg_part b == pos_part b + neg_part a

-- What is left of a counter; at zero its entry is erased.
abbrev pub store_counter : String → ℤ → Permanent → Permanent
store_counter type left p =
    if eqb_ℤ left (pos 0)
    then record p { counters = StringMaps.erase type p.counters }
    else record p { counters = StringMaps.insert type left p.counters }

unfoldable pub remove_counter : String → ℤ → Permanent → Permanent
remove_counter type amount p = elim (StringMaps.lookup type p.counters) [
  | none ↦ p
  | some n ↦ store_counter type (max_ℤ (pos 0) (n -ℤ amount)) p
]

-- The setters that the class has inline.
unfoldable pub set_controller : ℕ → Permanent → Permanent
set_controller id p = record p { controller_id = id }

unfoldable pub set_tapped : Bool → Permanent → Permanent
set_tapped b p = record p { tapped = b }

unfoldable pub set_summoning_sickness : Bool → Permanent → Permanent
set_summoning_sickness sick p = record p { summoning_sick = sick }

unfoldable pub mark_deathtouch : Permanent → Permanent
mark_deathtouch p = record p { deathtouch_marked = true }

unfoldable pub set_token : Bool → Permanent → Permanent
set_token token p = record p { is_token = token }

unfoldable pub attach_to : ℕ → Permanent → Permanent
attach_to target_id p = record p { attached_to = some target_id }

unfoldable pub detach : Permanent → Permanent
detach p = record p { attached_to = none }

unfoldable pub is_creature : Permanent → Bool
is_creature p = same_type p.card.type creature || p.animated

unfoldable pub is_land : Permanent → Bool
is_land p = same_type p.card.type land

unfoldable pub modify_power_toughness : ℤ → ℤ → Permanent → Permanent
modify_power_toughness power_mod toughness_mod p = record p {
  power_mod = p.power_mod +ℤ power_mod;
  toughness_mod = p.toughness_mod +ℤ toughness_mod;
}

abbrev pub base_power : Option CreatureStats → ℤ
base_power none = pos 0
base_power (some stats) = stats.power

abbrev pub base_toughness : Option CreatureStats → ℤ
base_toughness none = pos 0
base_toughness (some stats) = stats.toughness

abbrev pub plus_one : String
plus_one = "+1/+1"

abbrev pub minus_one : String
minus_one = "-1/-1"

unfoldable pub counter_mod : Permanent → ℤ
unfolding get_counters
counter_mod p = get_counters plus_one p -ℤ get_counters minus_one p

unfoldable pub effective_power : Permanent → ℤ
effective_power p =
    if p.animated
    then p.animated_power +ℤ p.power_mod +ℤ counter_mod p
    else base_power p.card.creature_stats +ℤ p.power_mod +ℤ counter_mod p

unfoldable pub effective_toughness : Permanent → ℤ
effective_toughness p =
    if p.animated
    then p.animated_toughness +ℤ p.toughness_mod +ℤ counter_mod p
    else base_toughness p.card.creature_stats +ℤ p.toughness_mod +ℤ counter_mod p

unfoldable pub has_lethal_damage : Permanent → Bool
has_lethal_damage p =
    if not (is_creature p) then false else not (ltb_ℤ p.damage_marked (effective_toughness p))

abbrev pub contains : String → List String → Bool
contains kw = any_of (λ k. str_eq k kw)

unfoldable pub has_keyword : String → Permanent → Bool
has_keyword keyword p =
    if contains keyword p.granted_keywords then true else contains keyword p.card.keywords

unfoldable pub grant_keyword : String → Permanent → Permanent
grant_keyword keyword p =
    if has_keyword keyword p
    then p
    else record p { granted_keywords = push_back p.granted_keywords keyword }

unfoldable pub remove_keyword : String → Permanent → Permanent
remove_keyword keyword p = record p {
  granted_keywords = erase_if (λ k. str_eq k keyword) p.granted_keywords;
}

abbrev append_new : List String → List String → List String
append_new result [] = result
append_new result (kw ∷ kws) =
    append_new (if contains kw result then result else push_back result kw) kws

unfoldable pub all_keywords : Permanent → List String
all_keywords p = append_new p.card.keywords p.granted_keywords

unfoldable pub animate : ℤ → ℤ → Bool → Permanent → Permanent
animate power toughness until_eot p = record p {
  animated = true;
  animated_until_eot = until_eot;
  animated_power = power;
  animated_toughness = toughness;
}

unfoldable pub remove_animation : Permanent → Permanent
remove_animation p = record p {
  animated = false;
  animated_until_eot = false;
  animated_power = pos 0;
  animated_toughness = pos 0;
}

abbrev pub counter_name : String → String
counter_name keyword = str_append keyword " counter"

unfoldable pub add_keyword_counter : String → Permanent → Permanent
add_keyword_counter keyword p = grant_keyword keyword (add_counter (counter_name keyword) (pos 1) p)

unfoldable pub remove_keyword_counter : String → Permanent → Permanent
remove_keyword_counter keyword p =
    let less = remove_counter (counter_name keyword) (pos 1) p in
    if ltb_ℤ (pos 0) (get_counters (counter_name keyword) p)
    then (if eqb_ℤ (get_counters (counter_name keyword) less) (pos 0)
        then remove_keyword keyword less
        else less)
    else p

unfoldable pub add_attachment : ℕ → Permanent → Permanent
add_attachment equipment_id p = record p { attachments = push_back p.attachments equipment_id }

unfoldable pub remove_attachment : ℕ → Permanent → Permanent
remove_attachment equipment_id p = record p {
  attachments = erase_if (λ id. id == equipment_id) p.attachments;
}

unfoldable pub mark_damage : ℤ → Permanent → Permanent
mark_damage amount p = record p { damage_marked = p.damage_marked +ℤ amount }

unfoldable pub clear_damage : Permanent → Permanent
clear_damage p = record p { damage_marked = pos 0; deathtouch_marked = false }

unfoldable pub has_protection_from_color : String → Permanent → Bool
has_protection_from_color color p = has_keyword (str_append "Protection from " color) p

abbrev color_map : List (ℕ × String)
color_map =
    (color_white, "white")
    ∷ (color_blue, "blue")
    ∷ (color_black, "black")
    ∷ (color_red, "red")
    ∷ (color_green, "green")
    ∷ []

unfoldable pub has_protection_from : Permanent → Permanent → Bool
has_protection_from source p =
    if source.card.colors == color_colorless
    then false
    else any_of
        (λ entry.
          not (color_and source.card.colors entry.0 == color_colorless)
          && has_protection_from_color entry.1 p)
        color_map

-- The last check of StateBasedActions for one permanent: pairs of counters annihilate.
unfoldable pub cancel_counters : Permanent → Permanent
cancel_counters p =
    let plus = get_counters plus_one p in
    let minus = get_counters minus_one p in
    let cancel = min_ℤ plus minus in
    if ltb_ℤ (pos 0) plus && ltb_ℤ (pos 0) minus
    then remove_counter minus_one cancel (remove_counter plus_one cancel p)
    else p

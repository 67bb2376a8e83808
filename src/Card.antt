-- ===== src/Card.antt =====
-- The card type of the library (engine/include/cle/core: card.hpp, card_type.hpp, color.hpp,
-- creature_stats.hpp). A Lua function stands for its reference in Lua's registry. `colors` is the
-- byte of the bitwise enum. The instance id that a constructor draws from the global counter is an
-- argument. A Lua function that is not valid is none. The members for static abilities, modes and the
-- back face are left out: no modelled code reads them.
use Prim.Native.Nat.{bit_and}
use Prim.Native.String.{String}
use uud.Base.Int.{ℤ}
use uud.Base.{ℕ, Bool, true, false, Option, none, List, []}
use uud.Mana.Cost.{ManaCost, zero_cost}

pub data CardType : Type 0 where
  creature instant sorcery enchantment artifact planeswalker land : CardType

abbrev pub same_type : CardType → CardType → Bool
same_type creature creature = true
same_type instant instant = true
same_type sorcery sorcery = true
same_type enchantment enchantment = true
same_type artifact artifact = true
same_type planeswalker planeswalker = true
same_type land land = true
same_type _ _ = false

-- enum Color
abbrev pub color_white : ℕ
color_white = 1

abbrev pub color_blue : ℕ
color_blue = 2

abbrev pub color_black : ℕ
color_black = 4

abbrev pub color_red : ℕ
color_red = 8

abbrev pub color_green : ℕ
color_green = 16

abbrev pub color_colorless : ℕ
color_colorless = 0

-- operator& of Color
abbrev pub color_and : ℕ → ℕ → ℕ
color_and a b = bit_and a b

pub record CreatureStats : Type 0 where
  pub power : ℤ
  pub toughness : ℤ

pub record ActivatedAbility : Type 0 where
  pub cost_text : String
  pub effect_text : String
  pub effect : Option ℕ
  pub sorcery_speed_only : Bool
  pub is_mana_ability : Bool

pub record AdventureFace : Type 0 where
  pub name : String
  pub type : CardType
  pub mana_cost : ManaCost
  pub effect : Option ℕ

pub record Card : Type 0 where
  pub name : String
  pub type : CardType
  pub mana_cost : ManaCost
  pub colors : ℕ
  pub oracle_text : String
  pub flavor_text : String
  pub subtypes : List String
  pub keywords : List String
  pub creature_stats : Option CreatureStats
  pub instance_id : ℕ
  pub triggers : List (ℕ × ℕ)
  pub kicker_cost : Option String
  pub flashback_cost : Option String
  pub activated_abilities : List ActivatedAbility
  pub adventure : Option AdventureFace

-- Card(std::string name, CardType type), with the id from the counter.
abbrev pub new_card : ℕ → String → CardType → Card
new_card id name type = record {
  name = name;
  type = type;
  mana_cost = zero_cost;
  colors = color_colorless;
  oracle_text = "";
  flavor_text = "";
  subtypes = [];
  keywords = [];
  creature_stats = none;
  instance_id = id;
  triggers = [];
  kicker_cost = none;
  flashback_cost = none;
  activated_abilities = [];
  adventure = none;
}

-- ===== src/Player.antt =====
-- player.hpp and player.cpp (server/src/engine): a player of a game. An `int` is an integer.
use Prim.Native.String.{String}
use uud.Base.Int.{ℤ, ◌+ℤ◌, ◌-ℤ◌, ltb_ℤ, pos}
use uud.Base.{ℕ, Bool, true, false, not, List, []}
use uud.Card.{Card}
use uud.Mana.Pool.{ManaPool, empty_pool, clear}

pub record Player : Type 0 where
  pub id : ℕ
  pub username : String
  pub life : ℤ
  pub poison_counters : ℤ
  pub mana_pool : ManaPool
  pub lands_played : ℤ
  pub max_land_plays : ℤ
  pub has_drawn_for_turn : Bool
  pub has_lost : Bool
  pub failed_to_draw : Bool
  pub deck_submitted : Bool
  pub deck : List Card
  pub submitted_deck_names : List String
  pub sideboard : List Card
  pub submitted_sideboard_names : List String

-- Player(id, username)
abbrev pub new_player : ℕ → String → Player
new_player id username = record {
  id = id;
  username = username;
  life = pos 20;
  poison_counters = pos 0;
  mana_pool = empty_pool;
  lands_played = pos 0;
  max_land_plays = pos 1;
  has_drawn_for_turn = false;
  has_lost = false;
  failed_to_draw = false;
  deck_submitted = false;
  deck = [];
  submitted_deck_names = [];
  sideboard = [];
  submitted_sideboard_names = [];
}

unfoldable pub set_life : ℤ → Player → Player
set_life life p = record p { life = life }

unfoldable pub gain_life : ℤ → Player → Player
gain_life amount p = record p { life = p.life +ℤ amount }

unfoldable pub lose_life : ℤ → Player → Player
lose_life amount p = record p { life = p.life -ℤ amount }

unfoldable pub add_poison : ℤ → Player → Player
add_poison amount p = record p { poison_counters = p.poison_counters +ℤ amount }

unfoldable pub set_max_land_plays : ℤ → Player → Player
set_max_land_plays n p = record p { max_land_plays = n }

unfoldable pub play_land : Player → Player
play_land p = record p { lands_played = p.lands_played +ℤ pos 1 }

unfoldable pub can_play_land : Player → Bool
can_play_land p = ltb_ℤ p.lands_played p.max_land_plays

unfoldable pub set_drawn_for_turn : Bool → Player → Player
set_drawn_for_turn drawn p = record p { has_drawn_for_turn = drawn }

unfoldable pub set_deck : List Card → Player → Player
set_deck deck p = record p { deck = deck }

unfoldable pub clear_deck : Player → Player
clear_deck p = record p { deck = [] }

unfoldable pub set_submitted_deck_names : List String → Player → Player
set_submitted_deck_names names p = record p { submitted_deck_names = names; deck_submitted = true }

unfoldable pub set_submitted_sideboard_names : List String → Player → Player
set_submitted_sideboard_names names p = record p { submitted_sideboard_names = names }

unfoldable pub set_sideboard : List Card → Player → Player
set_sideboard sideboard p = record p { sideboard = sideboard }

unfoldable pub is_alive : Player → Bool
is_alive p = not p.has_lost

unfoldable pub eliminate : Player → Player
eliminate p = record p { has_lost = true }

unfoldable pub set_failed_to_draw : Player → Player
set_failed_to_draw p = record p { failed_to_draw = true }

unfoldable pub reset_for_turn : Player → Player
reset_for_turn p = record p {
  lands_played = pos 0;
  has_drawn_for_turn = false;
  mana_pool = clear p.mana_pool;
}

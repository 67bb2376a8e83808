-- ===== src/Game/Paying.antt =====
-- What the player of a spell pays (the costs in Game::process_action of server/src/engine/game.cpp).
use Prim.Native.String.{String}
use uud.Actions.{ActionData}
use uud.Base.Int.{ℤ, pos_part, pos}
use uud.Base.Maps
use uud.Base.{
  ltb, ◌==◌, if◌then◌else◌, length, back, pop_back, ℕ, zero, suc, ◌+◌, ◌-◌, ◌*◌, Bool, true, false,
  not, ◌&&◌, ◌||◌, Option, none, some, List, [], ◌∷◌,
}
use uud.Card.{
  same_type, color_white, color_blue, color_black, color_red, color_green, color_colorless,
  color_and, Card, instant,
}
use uud.Mana.Color.{Result, ok, err}
use uud.Mana.Cost.{ManaCost, mana_value, from_string}
use uud.Mana.Pool.{ManaPayment, pay_cost}
use uud.Mana.Payment.{compute_optimal_payment}
use uud.Permanent.{Permanent, set_tapped, is_creature, contains}
use uud.Player.{Player}
use uud.Stack
use uud.Stack.{Content, StackEntry}
use uud.Targets.{bytes}
use uud.Turn.{is_main_phase}
use uud.Zones.{cards_of, push_card, find_permanent, add_to_graveyard, add_to_exile}
use uud.Game.{Game, find_player, update_player}
use uud.Game.Tapping.{change_permanent}

-- zones_.get_hand(player_id).push_back(card)
unfoldable pub return_to_hand : ℕ → Card → Game → Game
return_to_hand player_id card g = record g {
  zones = record g.zones { hands = push_card player_id card g.zones.hands };
}

abbrev pub bury_card : ℕ → Card → Game → Game
bury_card player_id card g = record g { zones = add_to_graveyard player_id card g.zones }

abbrev pub has_card_keyword : String → Card → Bool
has_card_keyword keyword card = contains keyword card.keywords

-- When spells of sorcery speed and lands may be played.
abbrev pub sorcery_time : ℕ → Game → Bool
sorcery_time player_id g =
    player_id == g.turns.active_player && is_main_phase g.turns && Stack.is_empty g.stack

abbrev pub has_instant_speed : Card → Bool
has_instant_speed card = same_type card.type instant || has_card_keyword "Flash" card

-- X in the cost, which the player chooses.
abbrev pub chosen_x : ActionData → ManaCost → ℕ
chosen_x action cost = if ltb 0 cost.x_count then pos_part action.x_value else 0

abbrev pub with_x : ℕ → ManaCost → ManaCost
with_x x cost =
    if ltb 0 cost.x_count
    then record cost { colorless = cost.colorless + x * cost.x_count; x_count = 0 }
    else cost

abbrev pub add_kicker : Result ManaCost → ManaCost → Bool × ManaCost
add_kicker (err e) cost = (false, cost)
add_kicker (ok kicker) cost = (
  true,
  record cost {
    white = cost.white + kicker.white;
    blue = cost.blue + kicker.blue;
    black = cost.black + kicker.black;
    red = cost.red + kicker.red;
    green = cost.green + kicker.green;
    colorless = cost.colorless + kicker.colorless;
  },
)

-- wants_kick and the cost with it.
abbrev pub with_kicker : Bool → Option String → ManaCost → Bool × ManaCost
with_kicker true (some kicker) cost = add_kicker (from_string (bytes kicker)) cost
with_kicker true none cost = (false, cost)
with_kicker false kicker cost = (false, cost)

abbrev pub has_color : ℕ → ℕ → Bool
has_color colors color = not (color_and colors color == color_colorless)

-- What one creature tapped for Convoke takes off the cost.
unfoldable pub convoke_one : ℕ → ManaCost → ManaCost
convoke_one colors cost =
    if has_color colors color_white && ltb 0 cost.white
    then record cost { white = cost.white - 1 }
    else if has_color colors color_blue && ltb 0 cost.blue
    then record cost { blue = cost.blue - 1 }
    else if has_color colors color_black && ltb 0 cost.black
    then record cost { black = cost.black - 1 }
    else if has_color colors color_red && ltb 0 cost.red
    then record cost { red = cost.red - 1 }
    else if has_color colors color_green && ltb 0 cost.green
    then record cost { green = cost.green - 1 }
    else record cost { colorless = cost.colorless - 1 }

abbrev pub convokes : ℕ → Permanent → Bool
convokes player_id perm = is_creature perm && (perm.controller_id == player_id) && not perm.tapped

abbrev pub convoke_with : ℕ → ℕ → Option Permanent → ManaCost × Game → ManaCost × Game
convoke_with player_id id none (cost, g) = (cost, g)
convoke_with player_id id (some perm) (cost, g) =
    if convokes player_id perm
    then (convoke_one perm.card.colors cost, change_permanent id (set_tapped true) g)
    else (cost, g)

unfoldable pub convoke_each : ℕ → List ℕ → ManaCost × Game → ManaCost × Game
convoke_each player_id [] (cost, g) = (cost, g)
convoke_each player_id (id ∷ ids) (cost, g) =
    convoke_each player_id ids (convoke_with player_id id (find_permanent id g.zones) (cost, g))

-- The cards from the back of the graveyard that Delve exiles, and how many.
abbrev pub delve_card : ℕ → Option Card → Game → ℕ × Game
delve_card player_id none g = (0, g)
delve_card player_id (some card) g = (
  1,
  record g {
    zones = add_to_exile card player_id false 0 (record g.zones {
      graveyards =
          Maps.insert player_id (pop_back (cards_of player_id g.zones.graveyards))
            g.zones.graveyards;
    });
  },
)

unfoldable pub delve_cards : ℕ → ℕ → Game → ℕ × Game
delve_cards zero player_id g = (0, g)
delve_cards (suc n) player_id g =
    let (one, g') = delve_card player_id (back (cards_of player_id g.zones.graveyards)) g in
    let (others, g'') = delve_cards n player_id g' in (one + others, g'')

abbrev pub at_most : ℕ → ℕ → ℕ
at_most a b = if ltb b a then b else a

unfoldable pub delve : ℕ → ℤ → ManaCost × Game → ManaCost × Game
delve player_id delve_count (cost, g) =
    let size = length (cards_of player_id g.zones.graveyards) in
    let count = at_most (at_most (pos_part delve_count) size) cost.colorless in
    let (delved, g') = delve_cards count player_id g in
    (record cost { colorless = cost.colorless - delved }, g')

abbrev pub has_cost : ManaCost → Bool
has_cost cost = ltb 0 (mana_value cost) || not (length cost.hybrid_costs == 0)

abbrev pub set_pool : ManaPayment → Player → Player
set_pool payment p = record p { mana_pool = (pay_cost payment p.mana_pool).0 }

-- compute_optimal_payment and pay_cost for a player, and whether both succeeded.
abbrev pub pay_with : ℕ → Option ManaPayment → Option Player → Game → Bool × Game
pay_with player_id none p g = (false, g)
pay_with player_id (some payment) none g = (false, g)
pay_with player_id (some payment) (some p) g =
    if (pay_cost payment p.mana_pool).1
    then (true, record g { players = update_player player_id (set_pool payment) g.players })
    else (false, g)

abbrev pub payment_of : ManaCost → Option Player → Option ManaPayment
payment_of cost none = none
payment_of cost (some p) = compute_optimal_payment cost p.mana_pool

unfoldable pub pay_now : ℕ → ManaCost → Game → Bool × Game
pay_now player_id cost g =
    let p = find_player player_id g.players in pay_with player_id (payment_of cost p) p g

abbrev pub new_entry : Content → ℕ → List ℕ → StackEntry
new_entry content controller_id targets = record {
  id = 0;
  content = content;
  controller_id = controller_id;
  targets = targets;
  target_filter = "";
  chosen_modes = [];
  x_value = pos 0;
  kicked = false;
  flashback = false;
  adventure = false;
}

abbrev pub name_of_player : Option Player → String
name_of_player none = ""
name_of_player (some p) = p.username

-- ===== src/Mana/Cost.antt =====
-- mana_cost.hpp (engine/include/cle/mana): the cost of a card and its parser. A std::string_view is
-- the list of its bytes. The counters are `int`; the parser only adds to them from 0, and a sum past
-- INT_MAX is undefined in C++, so they are numbers without an upper bound here, while the value of
-- one numeric token is refused past INT_MAX as std::from_chars refuses it.
pub mod Symbols
pub mod RoundTrip
mod Ending
mod Tests
use uud.Base.{
  leb, ◌==◌, if◌then◌else◌, length, push_back, back, any_of, ℕ, zero, suc, ◌+◌, ◌-◌, ◌*◌, ◌^◌, Bool,
  false, ◌&&◌, ◌||◌, Option, none, some, List, [], ◌∷◌,
}
use uud.Mana.Color.{
  ManaColor, Result, ◌>>=◌, char_to_color, HybridCost, same_color, invalid_format, unknown_token,
  ok, err,
}

pub record ManaCost : Type 0 where
  pub colorless : ℕ
  pub white : ℕ
  pub blue : ℕ
  pub black : ℕ
  pub red : ℕ
  pub green : ℕ
  pub x_count : ℕ
  pub hybrid_costs : List HybridCost
  pub phyrexian_costs : List ManaColor

abbrev pub zero_cost : ManaCost
zero_cost = record {
  colorless = 0;
  white = 0;
  blue = 0;
  black = 0;
  red = 0;
  green = 0;
  x_count = 0;
  hybrid_costs = [];
  phyrexian_costs = [];
}

unfoldable pub hybrid_value : List HybridCost → ℕ
hybrid_value [] = 0
hybrid_value (h ∷ hs) =
    let rest = hybrid_value hs in
    if same_color h.primary ManaColor.colorless then 2 + rest else 1 + rest

unfoldable pub mana_value : ManaCost → ℕ
unfolding hybrid_value
mana_value c =
    c.colorless
    + c.white
    + c.blue
    + c.black
    + c.red
    + c.green
    + hybrid_value c.hybrid_costs
    + length c.phyrexian_costs

unfoldable pub add_color : ManaColor → ManaCost → ManaCost
add_color ManaColor.white c = record c { white = c.white + 1 }
add_color ManaColor.blue c = record c { blue = c.blue + 1 }
add_color ManaColor.black c = record c { black = c.black + 1 }
add_color ManaColor.red c = record c { red = c.red + 1 }
add_color ManaColor.green c = record c { green = c.green + 1 }
add_color ManaColor.colorless c = record c { colorless = c.colorless + 1 }

-- std::isdigit
abbrev pub is_digit : ℕ → Bool
is_digit ch = leb b'0' ch && leb ch b'9'

abbrev pub int_max : ℕ
int_max = 2 ^ 31 - 1

-- std::from_chars on an int that must use up the whole token: the digits from the left, refused at
-- the first byte that is no digit, and past INT_MAX. Once out of range the value stays there.
unfoldable pub from_chars : ℕ → List ℕ → Option ℕ
from_chars n [] = if leb n int_max then some n else none
from_chars n (ch ∷ rest) =
    let more = from_chars (n * 10 + (ch - b'0')) rest in if is_digit ch then more else none

unfoldable pub parse_colorless : List ℕ → ManaCost → Result ManaCost
parse_colorless token c = elim (from_chars 0 token) [
  | none ↦ err unknown_token
  | some value ↦ ok (record c { colorless = c.colorless + value })
]

unfoldable pub parse_color : List ℕ → ManaCost → Result ManaCost
parse_color (ch ∷ []) c = do color ← char_to_color ch; ok (add_color color c)
parse_color _ c = err invalid_format

-- std::string_view::find from the front: what stands before the first match and what behind it.
unfoldable pub split_at : ℕ → List ℕ → Option (List ℕ × List ℕ)
split_at mark [] = none
split_at mark (ch ∷ rest) =
    let more = split_at mark rest in
    if ch == mark
    then some ([], rest)
    else elim more [ none ↦ none | some (before, after) ↦ some (ch ∷ before, after) ]

unfoldable pub first_of_hybrid : ℕ → Result ManaColor
first_of_hybrid ch = if is_digit ch then ok ManaColor.colorless else char_to_color ch

-- The two parts of a hybrid token, once the slash is found.
unfoldable pub hybrid_of_parts : List ℕ → List ℕ → ManaCost → Result ManaCost
hybrid_of_parts (first ∷ more) (second ∷ []) c = do
  second_color ← char_to_color second
  if length more == 0
      then (do
        first_color ← first_of_hybrid first
        ok (record c {
          hybrid_costs =
              push_back c.hybrid_costs (record { primary = first_color; secondary = second_color });
        }))
      else err invalid_format
hybrid_of_parts _ _ c = err invalid_format

unfoldable pub parse_hybrid : List ℕ → ManaCost → Result ManaCost
parse_hybrid token c = elim (split_at b'/' token) [
  | none ↦ err invalid_format
  | some (first_part, second_part) ↦ hybrid_of_parts first_part second_part c
]

-- token == "X"
abbrev pub is_x : List ℕ → Bool
is_x (ch ∷ []) = ch == b'X'
is_x _ = false

-- A token of three bytes that ends in "/P" or "/p".
abbrev pub is_phyrexian : List ℕ → Bool
is_phyrexian (a ∷ b ∷ ch ∷ []) = b == b'/' && (ch == b'P' || ch == b'p')
is_phyrexian _ = false

abbrev pub has_slash : List ℕ → Bool
has_slash = any_of (λ ch. ch == b'/')

unfoldable pub apply_token : List ℕ → ManaCost → Result ManaCost
apply_token [] c = err invalid_format
apply_token (ch ∷ rest) c =
    if is_x (ch ∷ rest)
    then ok (record c { x_count = c.x_count + 1 })
    else if is_phyrexian (ch ∷ rest)
    then (do
      color ← char_to_color ch
      ok (record c { phyrexian_costs = push_back c.phyrexian_costs color }))
    else if has_slash (ch ∷ rest)
    then parse_hybrid (ch ∷ rest) c
    else if is_digit ch
    then parse_colorless (ch ∷ rest) c
    else parse_color (ch ∷ rest) c

-- The loop of `from_string` on what is left of the input. Each round drops at least the two braces,
-- so the length of the input is enough fuel.
unfoldable pub parse_tokens : ℕ → List ℕ → ManaCost → Result ManaCost
parse_tokens fuel [] c = ok c
parse_tokens zero (ch ∷ rest) c = err invalid_format
parse_tokens (suc fuel) (ch ∷ rest) c =
    if ch == b'{'
    then (elim (split_at b'}' rest) [
      | none ↦ err invalid_format
      | some (token, after) ↦ apply_token token c >>= parse_tokens fuel after
    ])
    else err invalid_format

abbrev pub ends_in_braces : List ℕ → Bool
ends_in_braces [] = false
ends_in_braces (ch ∷ rest) =
    ch == b'{' && (elim (back (ch ∷ rest)) [ none ↦ false | some last ↦ last == b'}' ])

unfoldable pub from_string : List ℕ → Result ManaCost
from_string input =
    if ends_in_braces input then parse_tokens (length input) input zero_cost else err invalid_format

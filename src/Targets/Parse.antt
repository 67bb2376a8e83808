-- ===== src/Targets/Parse.antt =====
-- The parser of target filters (server/src/engine/target_filter.cpp).
pub mod Tokens
pub mod Words
pub mod Steps
pub mod RoundTrip
use Prim.Native.Char.{code}
use Prim.Native.String.{String, [] as no_text, ◌∷◌ as text_cons}
use text.Mathlib.Text.{◌==◌ as str_eq}
use uud.Base.Int.{ℤ, ◌-ℤ◌, pos}
use uud.Base.{
  leb, ◌==◌, if◌then◌else◌, is_some, keep_if, ℕ, ◌+◌, ◌-◌, ◌*◌, ◌^◌, Bool, true, false, not, ◌&&◌,
  ◌||◌, Option, none, some, List, [], ◌∷◌,
}
use uud.Card.{CardType, creature, instant, sorcery, enchantment, artifact, planeswalker, land}
use uud.Mana.Cost.{is_digit, int_max}
use uud.Targets.{TargetFilter, new_filter, bytes, you, opponent, battlefield, graveyard, hand}

-- std::getline with a mark: the parts between the marks, of which the parser drops the empty ones.
abbrev pub onto_first : List String → (String → String) → List String
onto_first [] f = f no_text ∷ []
onto_first (part ∷ parts) f = f part ∷ parts

unfoldable pub split_parts : ℕ → String → List String
split_parts mark no_text = no_text ∷ []
split_parts mark (text_cons ch s) =
    let rest = split_parts mark s in
    if code ch == mark then no_text ∷ rest else onto_first rest (λ part. text_cons ch part)

abbrev pub is_token : String → Bool
is_token no_text = false
is_token (text_cons ch s) = true

unfoldable pub split_tokens : String → List String
unfolding split_parts
split_tokens filter = keep_if is_token (split_parts b'_' filter)

unfoldable pub try_parse_card_type : String → Option CardType
try_parse_card_type token =
    if str_eq token "creature"
    then some creature
    else if str_eq token "enchantment"
    then some enchantment
    else if str_eq token "artifact"
    then some artifact
    else if str_eq token "land"
    then some land
    else if str_eq token "planeswalker"
    then some planeswalker
    else if str_eq token "instant"
    then some instant
    else if str_eq token "sorcery"
    then some sorcery
    else none

-- The digits that a text starts with, as a number.
abbrev pub digits_from : ℕ → List ℕ → ℕ
digits_from n [] = n
digits_from n (ch ∷ rest) =
    let more = digits_from (n * 10 + (ch - b'0')) rest in if is_digit ch then more else n

-- What std::from_chars accepts into an int, by its sign and the bound of that sign.
abbrev pub bounded : (ℕ → ℤ) → ℕ → List ℕ → Option ℤ
bounded sign bound [] = none
bounded sign bound (ch ∷ rest) =
    let n = digits_from 0 (ch ∷ rest) in if is_digit ch && leb n bound then some (sign n) else none

abbrev pub parse_int : List ℕ → Option ℤ
parse_int [] = none
parse_int (ch ∷ rest) =
    if ch == b'-'
    then bounded (λ n. pos 0 -ℤ pos n) (2 ^ 31) rest
    else bounded pos int_max (ch ∷ rest)

-- The filter so far, and is_permanent_filter.
pub record ParseState : Type 0 where
  pub filter : TargetFilter
  pub permanent : Bool

abbrev pub set_filter : TargetFilter → ParseState → ParseState
set_filter f r = record r { filter = f }

abbrev pub with_value : Option ℤ → ParseState → ParseState
with_value none r = r
with_value (some n) r = set_filter (record r.filter { max_mana_value = some n }) r

-- The bytes behind "mv", of a token that has any.
abbrev pub value_text : List ℕ → Option (List ℕ)
value_text (a ∷ b ∷ ch ∷ rest) = if a == b'm' && b == b'v' then some (ch ∷ rest) else none
value_text _ = none

abbrev pub parse_noun : String → Option CardType → ParseState → ParseState
parse_noun tok (some type) r = set_filter (record r.filter { card_type = some type }) r
parse_noun tok none r = set_filter (record r.filter { subtype = some tok }) r

-- The checks of one token from "mv" on.
abbrev pub parse_word : String → Option (List ℕ) → ParseState → ParseState
parse_word tok (some number) r = with_value (parse_int number) r
parse_word tok none r =
    if str_eq tok "or" || str_eq tok "less"
    then r
    else if str_eq tok "player"
    then set_filter (record r.filter { targets_players = true }) r
    else if str_eq tok "card"
    then r
    else if str_eq tok "permanent"
    then record r { permanent = true }
    else parse_noun tok (try_parse_card_type tok) r

abbrev pub set_zone_word : String → ParseState → ParseState
set_zone_word word r =
    if str_eq word "graveyard"
    then set_filter (record r.filter { zone = graveyard }) r
    else if str_eq word "hand"
    then set_filter (record r.filter { zone = hand }) r
    else r

-- "in" and "with" take the next token, when there is one.
abbrev pub parse_pair : String → Option String → ParseState → ParseState
parse_pair tok none r = parse_word tok (value_text (bytes tok)) r
parse_pair tok (some next) r =
    if str_eq tok "in"
    then set_zone_word next r
    else if str_eq tok "with"
    then set_filter (record r.filter { required_keyword = some next }) r
    else parse_word tok (value_text (bytes tok)) r

unfoldable pub parse_token : String → Option String → ParseState → ParseState
parse_token tok next r =
    if str_eq tok "you" || str_eq tok "control"
    then set_filter (record r.filter { controller = you }) r
    else if str_eq tok "opponent"
    then set_filter (record r.filter { controller = opponent }) r
    else parse_pair tok next r

abbrev pub next_token : List String → Option String
next_token [] = none
next_token (tok ∷ tokens) = some tok

abbrev pub takes_next : String → Bool
takes_next tok = str_eq tok "in" || str_eq tok "with"

-- The loop over the tokens; `skip` stands for the extra ++i.
unfoldable pub parse_tokens : Bool → List String → ParseState → ParseState
parse_tokens skip [] r = r
parse_tokens true (tok ∷ tokens) r = parse_tokens false tokens r
parse_tokens false (tok ∷ tokens) r =
    parse_tokens (takes_next tok) tokens (parse_token tok (next_token tokens) r)

abbrev pub finish : ParseState → TargetFilter
finish r =
    if r.permanent && not (is_some r.filter.card_type)
    then record r.filter { zone = battlefield }
    else r.filter

unfoldable pub parse_filter : String → TargetFilter
unfolding parse_tokens split_tokens
parse_filter filter =
    finish
      (parse_tokens false (split_tokens filter) (record { filter = new_filter; permanent = false }))

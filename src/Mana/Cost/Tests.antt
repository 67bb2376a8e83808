-- ===== src/Mana/Cost/Tests.antt =====
-- Runs of the parser, and the theorems at concrete inputs.
use Prim.Native.Char.{code}
use Prim.Native.String.{String}
use uud.Base.{ℕ, ◌≡◌, refl, ◌↔◌, true, List, [], ◌∷◌, arith}
use uud.Mana.Color.{ManaColor, Result, char_to_color, invalid_format, unknown_token, ok, err}
use uud.Mana.Cost.{
  ManaCost, zero_cost, mana_value, add_color, from_chars, parse_colorless, parse_color, split_at,
  apply_token, parse_tokens, from_string,
}
use uud.Mana.Cost.Symbols.{Symbol, add_all, variable, generic, phyrexian, generic_hybrid}
use uud.Mana.Cost.RoundTrip.{from_string-print, mana_value-from_string}
use uud.Mana.Cost.Ending.{Parses, parse_tokens-Parses}

abbrev bytes : String → List ℕ
bytes String.[] = []
bytes (String.◌∷◌ c s) = code c ∷ bytes s

parse_plain :
    from_string (bytes "{2}{W}{U}") ≡ ok (record zero_cost { colorless = 2; white = 1; blue = 1 })
unfolding from_string parse_tokens split_at apply_token parse_colorless from_chars parse_color
    char_to_color add_color
parse_plain = refl

parse_unclosed : from_string (bytes "{2}W}") ≡ err invalid_format
unfolding from_string parse_tokens split_at apply_token parse_colorless from_chars parse_color
    char_to_color add_color
parse_unclosed = refl

parse_unknown : from_string (bytes "{Z}") ≡ err unknown_token
unfolding from_string parse_tokens split_at apply_token parse_color char_to_color
parse_unknown = refl

abbrev written : List Symbol
written = generic_hybrid b'2' ManaColor.red ∷ phyrexian ManaColor.black true ∷ variable ∷ []

from_string-print_example :
    from_string (bytes "{13}{2/R}{B/p}{X}")
    ≡ ok (add_all (generic (bytes "13") ∷ written) zero_cost)
from_string-print_example = from_string-print (generic (bytes "13")) written (omega arith)

mana_value-from_string_example :
    mana_value (add_all (generic (bytes "13") ∷ written) zero_cost) ≡ 16
mana_value-from_string_example =
    mana_value-from_string (generic (bytes "13")) written _ (omega arith)
      (from_string-print (generic (bytes "13")) written (omega arith))

-- The third token is unknown: the error is that of the token, however much fuel there is.
parse_tokens-Parses_example :
    Parses (bytes "{2}{W}{Q}") zero_cost (parse_tokens 12 (bytes "{2}{W}{Q}") zero_cost)
    × ((result : Result ManaCost)
        → Parses (bytes "{2}{W}{Q}") zero_cost result
          ↔ (parse_tokens 12 (bytes "{2}{W}{Q}") zero_cost ≡ result))
parse_tokens-Parses_example = parse_tokens-Parses 12 (bytes "{2}{W}{Q}") zero_cost (omega arith)

-- ===== src/Mana/Cost/RoundTrip.antt =====
-- The parser reads every written cost back, and the mana value is that of its symbols.
use uud.Base.{
  if◌then◌else◌, length, length-append, All, push_back, back, back-push_back, back-append, ℕ, zero,
  suc, ◌+◌, ◌-◌, ◌*◌, ◌≤◌, ◌<◌, ◌≡◌, refl, sym, ap, ◌∙◌, ◌≢◌, Bool, true, false, some, List, [],
  ◌∷◌, ◌++◌, arith,
}
use uud.Mana.Color.{ManaColor, char_to_color, HybridCost, same_color, ok}
use uud.Mana.Cost.{
  ManaCost, zero_cost, hybrid_value, mana_value, add_color, int_max, from_chars, parse_colorless,
  parse_color, split_at, first_of_hybrid, hybrid_of_parts, parse_hybrid, has_slash, apply_token,
  parse_tokens, from_string,
}
use uud.Mana.Cost.Symbols.{
  Symbol, letter, token, IsDigit, decimal, IsProper, add, add_all, value, total_value, print,
  variable, color, generic, phyrexian, hybrid, generic_hybrid,
}

char_to_color-letter : (c : ManaColor) → char_to_color (letter c) ≡ ok c
unfolding char_to_color
char_to_color-letter ManaColor.white = refl
char_to_color-letter _ = refl

from_chars-decimal :
    (n : ℕ) (ds : List ℕ)
    → All IsDigit ds
    → decimal n ds ≤ int_max
    → from_chars n ds ≡ some (decimal n ds)
unfolding from_chars
from_chars-decimal n [] a h = ground arith
from_chars-decimal n (d ∷ ds) a h =
    ground (arith, from_chars-decimal (n * 10 + (d - b'0')) ds a.1 h)

digits-no_slash : (ds : List ℕ) → All IsDigit ds → has_slash ds ≡ false
digits-no_slash [] a = refl
digits-no_slash (d ∷ ds) a = ground (arith, digits-no_slash ds a.1)

generic_lem :
    (ds : List ℕ) (c : ManaCost)
    → IsProper (generic ds)
    → apply_token ds c ≡ ok (add (generic ds) c)
unfolding apply_token parse_colorless
generic_lem [] c p = absurd (omega arith)
generic_lem (d ∷ []) c p = ground (arith, from_chars-decimal 0 (d ∷ []) p.0 p.2)
generic_lem (d ∷ e ∷ []) c p = ground (arith, from_chars-decimal 0 (d ∷ e ∷ []) p.0 p.2)
generic_lem (d ∷ e ∷ f ∷ []) c p = ground (arith, from_chars-decimal 0 (d ∷ e ∷ f ∷ []) p.0 p.2)
generic_lem (d ∷ e ∷ f ∷ g ∷ ds) c p =
    ground
      (arith, from_chars-decimal 0 (d ∷ e ∷ f ∷ g ∷ ds) p.0 p.2, digits-no_slash ds p.0.1.1.1.1)

-- A letter is none of the bytes that the parser gives another meaning.
abbrev IsPlain : ℕ → Type 0
IsPlain ch =
    (b'9' < ch) × (ch ≢ b'X') × (ch ≢ b'P') × (ch ≢ b'p') × (ch ≢ b'/') × (ch ≢ b'{') × (ch ≢ b'}')

letter-IsPlain : (c : ManaColor) → IsPlain (letter c)
letter-IsPlain ManaColor.white = omega arith
letter-IsPlain _ = omega arith

color_lem : (a : ManaColor) (c : ManaCost) → apply_token (letter a ∷ []) c ≡ ok (add_color a c)
unfolding apply_token parse_color
color_lem a c = ground (arith, letter-IsPlain a, char_to_color-letter a)

phyrexian_lem :
    (a : ManaColor) (lower : Bool) (c : ManaCost)
    → apply_token (token (phyrexian a lower)) c ≡ ok (add (phyrexian a lower) c)
unfolding apply_token
phyrexian_lem a true c = ground (arith, char_to_color-letter a)
phyrexian_lem a false c = ground (arith, char_to_color-letter a)

split_at-second :
    (mark a : ℕ) (rest : List ℕ) → a ≢ mark → split_at mark (a ∷ mark ∷ rest) ≡ some (a ∷ [], rest)
unfolding split_at
split_at-second mark a rest h = ground arith

hybrid_lem :
    (a b : ManaColor) (c : ManaCost) → apply_token (token (hybrid a b)) c ≡ ok (add (hybrid a b) c)
unfolding apply_token parse_hybrid hybrid_of_parts first_of_hybrid
hybrid_lem a b c = ground (
  arith,
  letter-IsPlain a,
  letter-IsPlain b,
  char_to_color-letter a,
  char_to_color-letter b,
  split_at-second b'/' (letter a) (letter b ∷ []),
)

generic_hybrid_lem :
    (d : ℕ) (b : ManaColor) (c : ManaCost)
    → IsDigit d
    → apply_token (token (generic_hybrid d b)) c ≡ ok (add (generic_hybrid d b) c)
unfolding apply_token parse_hybrid hybrid_of_parts first_of_hybrid
generic_hybrid_lem d b c p =
    ground (arith, letter-IsPlain b, char_to_color-letter b, split_at-second b'/' d (letter b ∷ []))

-- The token of a symbol is applied as the symbol is meant.
apply_token-token :
    (s : Symbol) (c : ManaCost) → IsProper s → apply_token (token s) c ≡ ok (add s c)
unfolding apply_token
apply_token-token variable c p = refl
apply_token-token (color a) c p = color_lem a c
apply_token-token (generic ds) c p = generic_lem ds c p
apply_token-token (phyrexian a lower) c p = phyrexian_lem a lower c
apply_token-token (hybrid a b) c p = hybrid_lem a b c
apply_token-token (generic_hybrid d b) c p = generic_hybrid_lem d b c p

abbrev NoBrace : List ℕ → Type 0
NoBrace = All (λ ch. ch ≢ b'}')

split_at-append : (xs ys : List ℕ) → NoBrace xs → split_at b'}' (xs ++ (b'}' ∷ ys)) ≡ some (xs, ys)
unfolding split_at
split_at-append [] ys h = refl
split_at-append (x ∷ xs) ys h = ground (arith, split_at-append xs ys h.1)

digits-NoBrace : (ds : List ℕ) → All IsDigit ds → NoBrace ds
digits-NoBrace [] a = tt
digits-NoBrace (d ∷ ds) a = (omega arith, digits-NoBrace ds a.1)

token-NoBrace : (s : Symbol) → IsProper s → NoBrace (token s)
token-NoBrace variable p = omega arith
token-NoBrace (color a) p = omega (arith, letter-IsPlain a)
token-NoBrace (generic ds) p = digits-NoBrace ds p.0
token-NoBrace (phyrexian a true) p = omega (arith, letter-IsPlain a)
token-NoBrace (phyrexian a false) p = omega (arith, letter-IsPlain a)
token-NoBrace (hybrid a b) p = omega (arith, letter-IsPlain a, letter-IsPlain b)
token-NoBrace (generic_hybrid d b) p = omega (arith, letter-IsPlain b)

parse_tokens-print :
    (ss : List Symbol) (fuel : ℕ) (c : ManaCost)
    → All IsProper ss
    → length (print ss) ≤ fuel
    → parse_tokens fuel (print ss) c ≡ ok (add_all ss c)
unfolding parse_tokens
parse_tokens-print [] zero c p h = refl
parse_tokens-print [] (suc fuel) c p h = refl
parse_tokens-print (s ∷ ss) zero c p h = elim h [ ]
parse_tokens-print (s ∷ ss) (suc fuel) c p h =
    rw (split_at-append (token s) (print ss) (token-NoBrace s p.0), apply_token-token s c p.0)
      (parse_tokens-print ss fuel (add s c) p.1
        (omega (arith, length-append (token s) (b'}' ∷ print ss))))

back-brace : (s : Symbol) (ss : List Symbol) → back (print (s ∷ ss)) ≡ some b'}'
back-brace s [] = back-push_back (b'{' ∷ token s) b'}'
back-brace s (t ∷ ts) = back-append (b'{' ∷ token s) b'}' (print (t ∷ ts)) ∙ back-brace t ts

-- Every cost written as one or more proper symbols in braces is accepted, and parsed to the sum of
-- what the symbols add.
pub from_string-print :
    (s : Symbol) (ss : List Symbol)
    → All IsProper (s ∷ ss)
    → from_string (print (s ∷ ss)) ≡ ok (add_all (s ∷ ss) zero_cost)
unfolding from_string
from_string-print s ss p =
    rw (back-brace s ss)
      (parse_tokens-print (s ∷ ss) (length (print (s ∷ ss))) zero_cost p (omega arith))

hybrid_value-push_back :
    (hs : List HybridCost) (h : HybridCost)
    → hybrid_value (push_back hs h)
      ≡ hybrid_value hs + (if same_color h.primary ManaColor.colorless then 2 else 1)
unfolding hybrid_value
hybrid_value-push_back [] h = ground arith
hybrid_value-push_back (x ∷ hs) h = ground (arith, hybrid_value-push_back hs h)

mana_value-add : (s : Symbol) (c : ManaCost) → mana_value (add s c) ≡ mana_value c + value s
unfolding mana_value add_color
mana_value-add variable c = omega arith
mana_value-add (color ManaColor.white) c = omega arith
mana_value-add (color _) c = omega arith
mana_value-add (generic ds) c = omega arith
mana_value-add (phyrexian a lower) c = omega (arith, length-append c.phyrexian_costs (a ∷ []))
mana_value-add (hybrid a b) c =
    omega (arith, hybrid_value-push_back c.hybrid_costs (record { primary = a; secondary = b }))
mana_value-add (generic_hybrid d b) c = omega (
  arith,
  hybrid_value-push_back c.hybrid_costs (record { primary = ManaColor.colorless; secondary = b }),
)

mana_value-add_all :
    (ss : List Symbol) (c : ManaCost) → mana_value (add_all ss c) ≡ mana_value c + total_value ss
mana_value-add_all [] c = omega arith
mana_value-add_all (s ∷ ss) c = omega (arith, mana_value-add s c, mana_value-add_all ss (add s c))

-- The mana value of a cost that was parsed from proper symbols is the sum of the symbols' values:
-- nothing for X, the number for a number, two for a hybrid whose first part is colorless, and one
-- for all else.
pub mana_value-from_string :
    (s : Symbol) (ss : List Symbol) (c : ManaCost)
    → All IsProper (s ∷ ss)
    → from_string (print (s ∷ ss)) ≡ ok c
    → mana_value c ≡ total_value (s ∷ ss)
mana_value-from_string s ss c p h =
    let e : add_all (s ∷ ss) zero_cost ≡ c = cc (from_string-print s ss p) in
    ap mana_value (sym e) ∙ mana_value-add_all (s ∷ ss) zero_cost ∙ zero_value (s ∷ ss)
  where
    zero_value : (ts : List Symbol) → mana_value zero_cost + total_value ts ≡ total_value ts
    zero_value ts = unfold mana_value in omega arith

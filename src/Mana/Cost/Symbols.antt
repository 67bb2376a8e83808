-- ===== src/Mana/Cost/Symbols.antt =====
-- What a mana cost is written in: an independent description of the symbols between the braces, of
-- what each adds to a cost and of what it counts for in the mana value.
use uud.Base.{
  if◌then◌else◌, length, All, push_back, ℕ, ◌+◌, ◌-◌, ◌*◌, ◌≤◌, ◌<◌, Bool, List, [], ◌∷◌, ◌++◌,
}
use uud.Mana.Color.{ManaColor, same_color}
use uud.Mana.Cost.{ManaCost, add_color, int_max}

pub data Symbol : Type 0 where
  variable : Symbol
  color : ManaColor → Symbol
  generic : (digits : List ℕ) → Symbol
  phyrexian : ManaColor → (lower : Bool) → Symbol
  hybrid : ManaColor → ManaColor → Symbol
  generic_hybrid : (digit : ℕ) → ManaColor → Symbol

abbrev pub letter : ManaColor → ℕ
letter ManaColor.white = b'W'
letter ManaColor.blue = b'U'
letter ManaColor.black = b'B'
letter ManaColor.red = b'R'
letter ManaColor.green = b'G'
letter ManaColor.colorless = b'C'

abbrev pub token : Symbol → List ℕ
token variable = b'X' ∷ []
token (color c) = letter c ∷ []
token (generic digits) = digits
token (phyrexian c lower) = letter c ∷ b'/' ∷ (if lower then b'p' else b'P') ∷ []
token (hybrid a b) = letter a ∷ b'/' ∷ letter b ∷ []
token (generic_hybrid digit b) = digit ∷ b'/' ∷ letter b ∷ []

abbrev pub IsDigit : ℕ → Type 0
IsDigit ch = (b'0' ≤ ch) × (ch ≤ b'9')

abbrev pub decimal : ℕ → List ℕ → ℕ
decimal n [] = n
decimal n (ch ∷ rest) = decimal (n * 10 + (ch - b'0')) rest

-- A number has at least one digit, and its value fits an int.
abbrev pub IsProper : Symbol → Type 0
IsProper variable = Unit
IsProper (color c) = Unit
IsProper (generic digits) = All IsDigit digits × (0 < length digits) × (decimal 0 digits ≤ int_max)
IsProper (phyrexian c lower) = Unit
IsProper (hybrid a b) = Unit
IsProper (generic_hybrid digit b) = IsDigit digit

abbrev pub add : Symbol → ManaCost → ManaCost
add variable c = record c { x_count = c.x_count + 1 }
add (color a) c = add_color a c
add (generic digits) c = record c { colorless = c.colorless + decimal 0 digits }
add (phyrexian a lower) c = record c { phyrexian_costs = push_back c.phyrexian_costs a }
add (hybrid a b) c = record c {
  hybrid_costs = push_back c.hybrid_costs (record { primary = a; secondary = b });
}
add (generic_hybrid digit b) c = record c {
  hybrid_costs = push_back c.hybrid_costs (record { primary = ManaColor.colorless; secondary = b });
}

abbrev pub add_all : List Symbol → ManaCost → ManaCost
add_all [] c = c
add_all (s ∷ ss) c = add_all ss (add s c)

abbrev pub value : Symbol → ℕ
value variable = 0
value (color c) = 1
value (generic digits) = decimal 0 digits
value (phyrexian c lower) = 1
value (hybrid a b) = if same_color a ManaColor.colorless then 2 else 1
value (generic_hybrid digit b) = 2

abbrev pub total_value : List Symbol → ℕ
total_value [] = 0
total_value (s ∷ ss) = value s + total_value ss

abbrev pub print : List Symbol → List ℕ
print [] = []
print (s ∷ ss) = b'{' ∷ (token s ++ (b'}' ∷ print ss))

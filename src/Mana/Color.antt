-- ===== src/Mana/Color.antt =====
-- mana_color.hpp and hybrid_cost.hpp (engine/include/cle/mana). A `char` is its byte.
use uud.Base.{◌==◌, if◌then◌else◌, ℕ, Bool, true, false}

pub data ManaColor : Type 0 where
  white blue black red green colorless : ManaColor

pub data ManaParseError : Type 0 where
  invalid_format unknown_token : ManaParseError

-- std::expected<A, ManaParseError>
pub data Result {ℓ} (A : Type ℓ) : Type ℓ where
  ok : A → Result A
  err : ManaParseError → Result A

infixl 5 ◌>>=◌
abbrev pub ◌>>=◌ {ℓ κ} : {A : Type ℓ} {B : Type κ} → Result A → (A → Result B) → Result B
ok a >>= f = f a
err e >>= f = err e

unfoldable pub char_to_color : ℕ → Result ManaColor
char_to_color c =
    if c == b'W'
    then ok white
    else if c == b'U'
    then ok blue
    else if c == b'B'
    then ok black
    else if c == b'R'
    then ok red
    else if c == b'G'
    then ok green
    else if c == b'C'
    then ok colorless
    else err unknown_token

pub record HybridCost : Type 0 where
  pub primary : ManaColor
  pub secondary : ManaColor

abbrev pub same_color : ManaColor → ManaColor → Bool
same_color white white = true
same_color blue blue = true
same_color black black = true
same_color red red = true
same_color green green = true
same_color colorless colorless = true
same_color _ _ = false

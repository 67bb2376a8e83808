-- ===== src/Mana/Pool.antt =====
-- mana_pool.hpp and mana_pool.cpp (server/src/engine), with ManaPayment of action_queue.hpp. An
-- `int` is an integer: the amounts of mana in a game are far from its bounds, where C++ leaves the
-- result of an addition undefined. The pointer that `color_field` returns is the color of the field.
pub mod Access
mod Tests
use Prim.Native.String.{String}
use text.Mathlib.Text.{◌==◌ as str_eq}
use uud.Base.Int.{ℤ, pos_part, neg_part, ◌+ℤ◌, ◌-ℤ◌, ltb_ℤ, pos}
use uud.Base.{◌==◌, if◌then◌else◌, ◌+◌, Bool, true, false, not, ◌||◌, Option, none, some}
use uud.Mana.Color.{ManaColor}

pub record ManaPool : Type 0 where
  pub white : ℤ
  pub blue : ℤ
  pub black : ℤ
  pub red : ℤ
  pub green : ℤ
  pub colorless : ℤ

abbrev pub empty_pool : ManaPool
empty_pool = record {
  white = pos 0;
  blue = pos 0;
  black = pos 0;
  red = pos 0;
  green = pos 0;
  colorless = pos 0;
}

pub record ManaPayment : Type 0 where
  pub white : ℤ
  pub blue : ℤ
  pub black : ℤ
  pub red : ℤ
  pub green : ℤ
  pub colorless : ℤ

abbrev named : String → String → String → Bool
named short long color = str_eq color short || str_eq color long

unfoldable pub color_field : String → Option ManaColor
color_field color =
    if named "W" "White" color
    then some ManaColor.white
    else if named "U" "Blue" color
    then some ManaColor.blue
    else if named "B" "Black" color
    then some ManaColor.black
    else if named "R" "Red" color
    then some ManaColor.red
    else if named "G" "Green" color
    then some ManaColor.green
    else if named "C" "Colorless" color
    then some ManaColor.colorless
    else none

-- Reading and writing through the pointer.
abbrev pub field : ManaColor → ManaPool → ℤ
field ManaColor.white p = p.white
field ManaColor.blue p = p.blue
field ManaColor.black p = p.black
field ManaColor.red p = p.red
field ManaColor.green p = p.green
field ManaColor.colorless p = p.colorless

abbrev pub set_field : ManaColor → ℤ → ManaPool → ManaPool
set_field ManaColor.white n p = record p { white = n }
set_field ManaColor.blue n p = record p { blue = n }
set_field ManaColor.black n p = record p { black = n }
set_field ManaColor.red n p = record p { red = n }
set_field ManaColor.green n p = record p { green = n }
set_field ManaColor.colorless n p = record p { colorless = n }

abbrev pub geb_ℤ : ℤ → ℤ → Bool
geb_ℤ a b = not (ltb_ℤ a b)

unfoldable pub add : String → ℤ → ManaPool → ManaPool
add color amount p = elim (color_field color) [
  | none ↦ p
  | some c ↦ set_field c (field c p +ℤ amount) p
]

unfoldable pub can_pay : String → ℤ → ManaPool → Bool
can_pay color amount p = elim (color_field color) [
  | none ↦ false
  | some c ↦ geb_ℤ (field c p) amount
]

-- The new pool and the result.
unfoldable pub spend : String → ℤ → ManaPool → ManaPool × Bool
unfolding can_pay
spend color amount p =
    if not (can_pay color amount p) then (p, false) else (elim (color_field color) [
      | none ↦ (p, false)
      | some c ↦ (set_field c (field c p -ℤ amount) p, true)
    ])

unfoldable pub get : String → ManaPool → ℤ
get color p = elim (color_field color) [ none ↦ pos 0 | some c ↦ field c p ]

unfoldable pub total : ManaPool → ℤ
total p = p.white +ℤ p.blue +ℤ p.black +ℤ p.red +ℤ p.green +ℤ p.colorless

unfoldable pub clear : ManaPool → ManaPool
clear p = empty_pool

abbrev pub eqb_ℤ : ℤ → ℤ → Bool
eqb_ℤ a b = pos_part a + neg_part b == pos_part b + neg_part a

unfoldable pub empty : ManaPool → Bool
unfolding total
empty p = eqb_ℤ (total p) (pos 0)

abbrev pub exceeds : ManaPayment → ManaPool → Bool
exceeds payment p =
    ltb_ℤ p.white payment.white
    || ltb_ℤ p.blue payment.blue
    || ltb_ℤ p.black payment.black
    || ltb_ℤ p.red payment.red
    || ltb_ℤ p.green payment.green
    || ltb_ℤ p.colorless payment.colorless

unfoldable pub pay_cost : ManaPayment → ManaPool → ManaPool × Bool
pay_cost payment p = if exceeds payment p then (p, false) else (
  record {
    white = p.white -ℤ payment.white;
    blue = p.blue -ℤ payment.blue;
    black = p.black -ℤ payment.black;
    red = p.red -ℤ payment.red;
    green = p.green -ℤ payment.green;
    colorless = p.colorless -ℤ payment.colorless;
  },
  true,
)

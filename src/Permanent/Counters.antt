-- ===== src/Permanent/Counters.antt =====
-- The counters of a permanent (server/src/engine/permanent.cpp) and the annihilation of +1/+1 and
-- -1/-1 counters (server/src/engine/state_based_actions.cpp).
use Prim.Native.String.{String}
use text.Mathlib.Text.{◌==◌ as str_eq}
use text.Mathlib.TextEquality.{eq_iff}
use uud.Base.{if◌then◌else◌, Bool-cases, Option-cases, ◌≡◌, inl, inr, true, none, some, arith}
use uud.Base.Int.{ℤ, ◌+ℤ◌, ◌-ℤ◌, ◌≤ℤ◌, int_laws, pos}
use uud.Base.StringMaps
use uud.Permanent.{
  Permanent, get_counters, add_counter, max_ℤ, eqb_ℤ, store_counter, remove_counter,
}

pub max_ℤ_zero : (a : ℤ) → a ≤ℤ pos 0 → max_ℤ (pos 0) a ≡ pos 0
max_ℤ_zero a h = ground arith

eqb_ℤ→≡ : (a b : ℤ) → eqb_ℤ a b ≡ true → a ≡ b
eqb_ℤ→≡ a b h = ground arith

-- add_counter adds to the counters of its own name and leaves the others as they are.
pub get_counters-add_counter :
    (type name : String) (amount : ℤ) (p : Permanent)
    → get_counters name (add_counter type amount p)
      ≡ (if str_eq type name then get_counters type p +ℤ amount else get_counters name p)
unfolding get_counters add_counter
get_counters-add_counter type name amount p = elim (Bool-cases (str_eq type name)) [
  | inl same ↦
      rw (StringMaps.lookup-insert type name (get_counters type p +ℤ amount) p.counters, same)
  | inr other ↦
      rw (StringMaps.lookup-insert type name (get_counters type p +ℤ amount) p.counters, other)
]

str_eq→≡ : (a b : String) → str_eq a b ≡ true → a ≡ b
str_eq→≡ a b e = ground (arith, eq_iff a b)

-- A counter that reaches zero loses its entry, which reads as zero again.
get_counters-store_counter :
    (type name : String) (left : ℤ) (p : Permanent)
    → get_counters name (store_counter type left p)
      ≡ (if str_eq type name then left else get_counters name p)
unfolding get_counters
get_counters-store_counter type name left p = ground (
  arith,
  eqb_ℤ→≡ left (pos 0),
  StringMaps.lookup-erase type name p.counters,
  StringMaps.lookup-insert type name left p.counters,
)

pub remove_counter-absent :
    (type : String) (amount : ℤ) (p : Permanent)
    → StringMaps.lookup type p.counters ≡ none
    → remove_counter type amount p ≡ p
unfolding remove_counter
remove_counter-absent type amount p e = rw (e, remove_counter)

pub remove_counter-present :
    (type : String) (amount : ℤ) (p : Permanent) (n : ℤ)
    → StringMaps.lookup type p.counters ≡ some n
    → remove_counter type amount p ≡ store_counter type (max_ℤ (pos 0) (n -ℤ amount)) p
unfolding remove_counter
remove_counter-present type amount p n e = rw (e, remove_counter)

get_counters-absent :
    (type : String) (p : Permanent)
    → StringMaps.lookup type p.counters ≡ none
    → get_counters type p ≡ pos 0
unfolding get_counters
get_counters-absent type p e = rw e

get_counters-present :
    (type : String) (p : Permanent) (n : ℤ)
    → StringMaps.lookup type p.counters ≡ some n
    → get_counters type p ≡ n
unfolding get_counters
get_counters-present type p n e = rw e

nothing_left : (amount : ℤ) → pos 0 ≤ℤ amount → max_ℤ (pos 0) (pos 0 -ℤ amount) ≡ pos 0
nothing_left amount h = max_ℤ_zero (pos 0 -ℤ amount) (omega int_laws)

-- Removing an amount that is not negative leaves `max 0 (count - amount)` counters of the name, so
-- the count never falls below zero, whether or not the permanent has the counter; the counters of
-- every other name keep their count.
pub get_counters-remove_counter :
    (type name : String) (amount : ℤ) (p : Permanent)
    → pos 0 ≤ℤ amount
    → get_counters name (remove_counter type amount p) ≡ (
        if str_eq type name
        then max_ℤ (pos 0) (get_counters type p -ℤ amount)
        else get_counters name p)
get_counters-remove_counter type name amount p nonneg =
    elim (Option-cases (StringMaps.lookup type p.counters)) [
      | inl absent ↦
          let zero = get_counters-absent type p absent in
          elim (Bool-cases (str_eq type name)) [
            | inl same ↦ rw (
              remove_counter-absent type amount p absent,
              zero,
              same,
              nothing_left amount nonneg,
              ← str_eq→≡ type name same,
              zero,
            )
            | inr other ↦ rw (remove_counter-absent type amount p absent, other)
          ]
      | inr (n, present) ↦ rw (
        remove_counter-present type amount p n present,
        get_counters-store_counter type name (max_ℤ (pos 0) (n -ℤ amount)) p,
        get_counters-present type p n present,
      )
    ]

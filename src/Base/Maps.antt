-- ===== src/Base/Maps.antt =====
-- std::unordered_map with integer keys, as an association list. `insert` is operator[] followed by
-- an assignment, `emplace` leaves a present key alone, `erase` drops the key. The order of the
-- entries stands for the unspecified order of iteration, so no theorem depends on it.
use Prim.Native.Nat.{ℕ}
use mathlib.Core.Path.{◌≡◌, refl}
use mathlib.Core.List.{List, [], ◌∷◌}
use mathlib.Core.Option.{Option, none, some}
use native.Mathlib.Omega.{arith}
use uud.Base.Tests.{◌==◌, if◌then◌else◌}

abbrev pub Map {ℓ} : Type ℓ → Type ℓ
Map V = List (ℕ × V)

module _ {ℓ} {V : Type ℓ} where
  unfoldable pub lookup : ℕ → Map V → Option V
  lookup key [] = none
  lookup key ((here, value) ∷ map) = if here == key then some value else lookup key map

  unfoldable pub erase : ℕ → Map V → Map V
  erase key [] = []
  erase key ((here, value) ∷ map) =
      let others = erase key map in if here == key then others else (here, value) ∷ others

  unfoldable pub insert : ℕ → V → Map V → Map V
  insert key value [] = (key, value) ∷ []
  insert key value ((here, old) ∷ map) =
      if here == key then (key, value) ∷ map else (here, old) ∷ insert key value map

  abbrev pub get_or_default : V → Option V → V
  get_or_default d none = d
  get_or_default d (some v) = v

  -- m[k], where a missing key reads as the default.
  abbrev pub at : V → ℕ → Map V → V
  at d k m = get_or_default d (lookup k m)

  unfoldable pub emplace : ℕ → V → Map V → Map V
  emplace k v m = elim (lookup k m) [ none ↦ insert k v m | some w ↦ m ]

  pub lookup-insert :
      (key other : ℕ) (value : V) (map : Map V)
      → lookup other (insert key value map)
        ≡ (if key == other then some value else lookup other map)
  unfolding lookup insert
  lookup-insert key other value [] = refl
  lookup-insert key other value ((here, w) ∷ map) =
      ground (arith, lookup-insert key other value map)

  pub lookup-erase :
      (key other : ℕ) (map : Map V)
      → lookup other (erase key map) ≡ (if key == other then none else lookup other map)
  unfolding lookup erase
  lookup-erase key other [] = ground arith
  lookup-erase key other ((here, w) ∷ map) = ground (arith, lookup-erase key other map)

  pub lookup-emplace :
      (k j : ℕ) (v : V) (m : Map V)
      → lookup k m ≡ none
      → lookup j (emplace k v m) ≡ (if k == j then some v else lookup j m)
  unfolding emplace
  lookup-emplace k j v m h = ground (arith, lookup-insert k j v m)

pub ruleset map_laws = (lookup-insert, lookup-erase)

-- ===== src/Base/StringMaps.antt =====
-- std::unordered_map with string keys, as an association list; the names are those of Base.Maps.
use Prim.Native.String.{String}
use mathlib.Core.Path.{◌≡◌, refl}
use mathlib.Core.List.{List, [], ◌∷◌}
use mathlib.Core.Option.{Option, none, some}
use native.Mathlib.Omega.{arith}
use text.Mathlib.Text.{◌==◌ as str_eq}
use text.Mathlib.TextEquality.{eq_iff}
use uud.Base.Tests.{if◌then◌else◌}

abbrev pub StringMap {ℓ} : Type ℓ → Type ℓ
StringMap V = List (String × V)

module _ {ℓ} {V : Type ℓ} where
  unfoldable pub lookup : String → StringMap V → Option V
  lookup key [] = none
  lookup key ((here, value) ∷ map) = if str_eq here key then some value else lookup key map

  unfoldable pub erase : String → StringMap V → StringMap V
  erase key [] = []
  erase key ((here, value) ∷ map) =
      let others = erase key map in if str_eq here key then others else (here, value) ∷ others

  unfoldable pub insert : String → V → StringMap V → StringMap V
  insert key value [] = (key, value) ∷ []
  insert key value ((here, old) ∷ map) =
      if str_eq here key then (key, value) ∷ map else (here, old) ∷ insert key value map

  pub lookup-insert :
      (key other : String) (value : V) (map : StringMap V)
      → lookup other (insert key value map)
        ≡ (if str_eq key other then some value else lookup other map)
  unfolding lookup insert
  lookup-insert key other value [] = refl
  lookup-insert key other value ((here, w) ∷ map) = ground (
    arith,
    lookup-insert key other value map,
    eq_iff here other,
    eq_iff here key,
    eq_iff key other,
  )

  pub lookup-erase :
      (key other : String) (map : StringMap V)
      → lookup other (erase key map) ≡ (if str_eq key other then none else lookup other map)
  unfolding lookup erase
  lookup-erase key other [] = ground arith
  lookup-erase key other ((here, w) ∷ map) =
      ground
        (arith, lookup-erase key other map, eq_iff here other, eq_iff here key, eq_iff key other)

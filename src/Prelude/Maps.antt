-- ===== src/Prelude/Maps.antt =====
-- Go's `map[string]V` as a list of entries in no particular order. A missing key reads as `none`;
-- `erase` drops the entries of a key, and `insert` puts the new entry in front of the others.
use Prim.Native.String.{String}
use text.Mathlib.Text.{◌==◌}
use text.Mathlib.TextEquality.{eq_iff}
use mathlib.Core.Path.{◌≡◌}
use mathlib.Core.Option.{Option, none, some}
use mathlib.Core.List.{List, [], ◌∷◌}
use native.Mathlib.Omega.{arith}
use package.typeclaw_operator.Prelude.Tests.{if◌then◌else◌}

module _ {ℓ} {V : Type ℓ} where
  unfoldable pub lookup : String → List (String × V) → Option V
  lookup key [] = none
  lookup key (entry ∷ others) = if entry.0 == key then some entry.1 else lookup key others

  unfoldable pub erase : String → List (String × V) → List (String × V)
  erase key [] = []
  erase key (entry ∷ others) =
      let kept = erase key others in if entry.0 == key then kept else entry ∷ kept

  unfoldable pub insert : String → V → List (String × V) → List (String × V)
  unfolding erase
  insert key value entries = (key, value) ∷ erase key entries

  pub lookup-erase :
      (key other : String) (entries : List (String × V))
      → lookup other (erase key entries) ≡ (if key == other then none else lookup other entries)
  unfolding lookup erase
  lookup-erase key other [] = ground arith
  lookup-erase key other (entry ∷ others) = ground (
    arith,
    eq_iff key other,
    eq_iff entry.0 key,
    eq_iff entry.0 other,
    lookup-erase key other others,
  )

  pub lookup-insert :
      (key other : String) (value : V) (entries : List (String × V))
      → lookup other (insert key value entries)
        ≡ (if key == other then some value else lookup other entries)
  unfolding lookup insert
  lookup-insert key other value entries =
      ground (arith, eq_iff key other, lookup-erase key other entries)

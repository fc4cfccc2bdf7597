-- ===== src/Base/Maps.antt =====
-- Go maps with string keys, as association lists. The order of the list stands for the order in
-- which a `range` loop meets the entries.
use Prim.Native.String.{String}
use mathlib.Core.Path.{◌≡◌, refl}
use mathlib.Core.Bool.{Bool, false, ◌||◌}
use mathlib.Core.Option.{Option, none, some}
use mathlib.Core.List.{List, [], ◌∷◌}
use text.Mathlib.Text.{◌==◌}
use text.Mathlib.TextEquality.{eq_iff}
use native.Mathlib.Omega.{arith}
use test_permission.Base.Tests.{if◌then◌else◌}

module _ {ℓ} {V : Type ℓ} where
  -- `m[k] = v`
  unfoldable pub insert : String → V → List (String × V) → List (String × V)
  insert key value (entry ∷ others) =
      let rest = insert key value others in
      if entry.0 == key then (key, value) ∷ others else entry ∷ rest
  insert key value [] = (key, value) ∷ []

  -- `v, ok := m[k]`
  unfoldable pub lookup : String → List (String × V) → Option V
  lookup key (entry ∷ others) =
      let rest = lookup key others in if entry.0 == key then some entry.1 else rest
  lookup key [] = none

  -- A write is read back under its own key, and changes no other.
  pub lookup-insert :
      (written read : String) (value : V) (entries : List (String × V))
      → lookup read (insert written value entries)
        ≡ (if written == read then some value else lookup read entries)
  unfolding insert lookup
  lookup-insert written read value (entry ∷ others) = ground (
    lookup-insert written read value others,
    arith,
    eq_iff entry.0 read,
    eq_iff entry.0 written,
    eq_iff written read,
  )
  lookup-insert written read value [] = refl

  abbrev pub keys : List (String × V) → List String
  keys [] = []
  keys ((k, v) ∷ m) = k ∷ keys m

unfoldable pub contains : List String → String → Bool
contains [] s = false
contains (x ∷ xs) s = x == s || contains xs s

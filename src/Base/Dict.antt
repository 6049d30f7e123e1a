-- ===== src/Base/Dict.antt =====
-- A Go map with string keys, as an association list.
use Prim.Native.String.{String}
use mathlib.Core.Path.{◌≡◌}
use mathlib.Core.List.{List, [], ◌∷◌}
use mathlib.Core.Option.{Option, none, some}
use native.Mathlib.Omega.{arith}
use text.Mathlib.Text.{◌==◌}
use text.Mathlib.TextEquality.{eq_iff}
use anvilkit_agent_api.Base.Tests.{if◌then◌else◌}

module _ {ℓ} {V : Type ℓ} where
  unfoldable pub lookup : String → List (String × V) → Option V
  lookup key [] = none
  lookup key ((name, value) ∷ rest) = if name == key then some value else lookup key rest

  -- `delete(m, key)`: no entry of the key is left.
  unfoldable pub erase : String → List (String × V) → List (String × V)
  erase key [] = []
  erase key ((name, value) ∷ rest) =
      let kept = erase key rest in if name == key then kept else (name, value) ∷ kept

  -- `m[key] = value`
  unfoldable pub insert : String → V → List (String × V) → List (String × V)
  unfolding erase
  insert key value m = (key, value) ∷ erase key m

  pub lookup-erase :
      (key other : String) (m : List (String × V))
      → lookup other (erase key m) ≡ (if key == other then none else lookup other m)
  unfolding lookup erase
  lookup-erase key other [] = ground arith
  lookup-erase key other ((name, value) ∷ rest) =
      ground
        (arith, eq_iff key other, eq_iff name key, eq_iff name other, lookup-erase key other rest)

  pub lookup-insert :
      (key other : String) (value : V) (m : List (String × V))
      → lookup other (insert key value m) ≡ (if key == other then some value else lookup other m)
  unfolding lookup insert
  lookup-insert key other value m = ground (arith, lookup-erase key other m)

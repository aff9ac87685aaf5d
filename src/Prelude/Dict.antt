-- ===== src/Prelude/Dict.antt =====
-- A Go map with text keys, as an association list in which a key stands once.
pub mod Fresh
use Prim.Native.String.{String}
use mathlib.Core.Path.{◌≡◌, refl}
use mathlib.Core.Option.{Option, none, some}
use mathlib.Core.List.{List, [], ◌∷◌}
use native.Mathlib.Omega.{arith}
use text.Mathlib.Text.{◌==◌ as str_eq}
use text.Mathlib.TextEquality.{eq_iff}
use vpn.Prelude.Tests.{if◌then◌else◌}

module _ {ℓ} {V : Type ℓ} where
  -- The value under a key, if there is one.
  unfoldable pub lookup : String → List (String × V) → Option V
  lookup key [] = none
  lookup key ((other, value) ∷ rest) = if str_eq other key then some value else lookup key rest

  -- A key that is there keeps its place, and a new one comes last.
  unfoldable pub insert : String → V → List (String × V) → List (String × V)
  insert key value [] = (key, value) ∷ []
  insert key value ((other, old) ∷ rest) =
      if str_eq other key then (key, value) ∷ rest else (other, old) ∷ insert key value rest

  pub lookup-insert :
      (key wanted : String) (value : V) (dict : List (String × V))
      → lookup wanted (insert key value dict)
        ≡ (if str_eq key wanted then some value else lookup wanted dict)
  unfolding lookup insert
  lookup-insert key wanted value [] = refl
  lookup-insert key wanted value ((other, old) ∷ rest) = ground (
    arith,
    lookup-insert key wanted value rest,
    eq_iff other wanted,
    eq_iff other key,
    eq_iff key wanted,
  )

-- The value under a key, and the empty text where there is none: Go's `m[key]`.
unfoldable pub value_of : List (String × String) → String → String
value_of m k = elim (lookup k m) [ none ↦ "" | some v ↦ v ]

pub value_of-insert :
    (k j : String) (v : String) (m : List (String × String))
    → value_of (insert k v m) j ≡ (if str_eq k j then v else value_of m j)
unfolding value_of
value_of-insert k j v m = ground (arith, lookup-insert k j v m)

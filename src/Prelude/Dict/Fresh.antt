-- ===== src/Prelude/Dict/Fresh.antt =====
-- A map that is filled with keys that differ keeps them in order.
use Prim.Native.String.{String}
use mathlib.Core.Path.{◌≡◌, refl, ap, ◌∙◌, sym}
use mathlib.Core.Logic.{inl, inr}
use mathlib.Core.Bool.{false}
use mathlib.Core.Option.{none}
use mathlib.Core.List.{List, [], ◌∷◌, ◌++◌, append-nil, append_assoc}
use native.Mathlib.Omega.{arith}
use text.Mathlib.Text.{◌==◌ as str_eq}
use text.Mathlib.TextEquality.{eq_iff}
use vpn.Prelude.Lists.{All}
use vpn.Prelude.Tests.{Bool-cases}
use vpn.Prelude.Dict.{lookup, insert, lookup-insert}

flip_false : (s t : String) → str_eq s t ≡ false → str_eq t s ≡ false
flip_false s t h = ground (arith, h, eq_iff s t, eq_iff t s)

module _ {ℓ} {V : Type ℓ} where
  -- Each key stands once.
  abbrev pub Distinct : List (String × V) → Type ℓ
  Distinct [] = Unit
  Distinct ((key, value) ∷ rest) = (lookup key rest ≡ none) × Distinct rest

  abbrev pub insert_all : List (String × V) → List (String × V) → List (String × V)
  insert_all [] dict = dict
  insert_all ((key, value) ∷ rest) dict = insert_all rest (insert key value dict)

  abbrev Fresh : List (String × V) → String × V → Type ℓ
  Fresh dict e = lookup e.0 dict ≡ none

  pub insert-Fresh :
      (key : String) (value : V) (dict : List (String × V))
      → lookup key dict ≡ none
      → insert key value dict ≡ dict ++ (key, value) ∷ []
  unfolding lookup insert
  insert-Fresh key value [] h = refl
  insert-Fresh key value ((other, old) ∷ rest) h =
      ground (arith, h, insert-Fresh key value rest, eq_iff other key)

  lookup-insert_other :
      (key wanted : String) (value : V) (dict : List (String × V))
      → str_eq key wanted ≡ false
      → lookup wanted dict ≡ none
      → lookup wanted (insert key value dict) ≡ none
  lookup-insert_other key wanted value dict differ h =
      ground (arith, differ, h, lookup-insert key wanted value dict)

  pub lookup-cons_other :
      (key other : String) (v : V) (rest : List (String × V))
      → str_eq other key ≡ false
      → lookup key ((other, v) ∷ rest) ≡ lookup key rest
  unfolding lookup
  lookup-cons_other key other v rest h = rw h refl

  pub lookup-none :
      (key other : String) (v : V) (rest : List (String × V))
      → lookup key ((other, v) ∷ rest) ≡ none
      → (str_eq other key ≡ false) × (lookup key rest ≡ none)
  unfolding lookup
  lookup-none key other v rest h = elim (Bool-cases (str_eq other key)) [
    | inl t ↦ absurd (ground (arith, h, t))
    | inr f ↦ (f, ground (arith, h, f))
  ]

  still_Fresh :
      (key : String) (value : V) (rest dict : List (String × V))
      → lookup key rest ≡ none
      → All (Fresh dict) rest
      → All (Fresh (insert key value dict)) rest
  still_Fresh key value [] dict h fresh = tt
  still_Fresh key value ((other, v) ∷ rest) dict h fresh =
      let n = lookup-none key other v rest h in
      (
        lookup-insert_other key other value dict (flip_false other key n.0) fresh.0,
        still_Fresh key value rest dict n.1 fresh.1,
      )

  -- Filling a map with keys that differ, and that it does not have, puts them behind its own.
  insert_all-Distinct :
      (es dict : List (String × V))
      → Distinct es
      → All (Fresh dict) es
      → insert_all es dict ≡ dict ++ es
  insert_all-Distinct [] dict d f = sym (append-nil dict)
  insert_all-Distinct ((key, value) ∷ es) dict d f =
      insert_all-Distinct es (insert key value dict) d.1 (still_Fresh key value es dict d.0 f.1)
      ∙ ap (λ t. t ++ es) (insert-Fresh key value dict f.0)
      ∙ append_assoc dict ((key, value) ∷ []) es

  nothing_in_nil : (es : List (String × V)) → All (Fresh []) es
  unfolding lookup
  nothing_in_nil [] = tt
  nothing_in_nil (e ∷ es) = (refl, nothing_in_nil es)

  pub insert_all-nil : (es : List (String × V)) → Distinct es → insert_all es [] ≡ es
  insert_all-nil es d = insert_all-Distinct es [] d (nothing_in_nil es)

  pub insert-Distinct :
      (key : String) (value : V) (dict : List (String × V))
      → Distinct dict
      → Distinct (insert key value dict)
  unfolding insert
  insert-Distinct key value [] d = (unfold lookup in refl, tt)
  insert-Distinct key value ((other, old) ∷ rest) d = elim (Bool-cases (str_eq other key)) [
    | inl t ↦ rw t (ap (λ k. lookup k rest) (sym ((eq_iff other key).0 t)) ∙ d.0, d.1)
    | inr f ↦ rw f (
      lookup-insert_other key other value rest (flip_false other key f) d.0,
      insert-Distinct key value rest d.1,
    )
  ]

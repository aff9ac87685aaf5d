-- ===== src/Prelude/Results.antt =====
-- A Go result `(T, error)`: a value or an error. An error is its text.
use Prim.Native.String.{String}
use mathlib.Core.Path.{◌≡◌, refl}
use mathlib.Core.Logic.{◌⊎◌, inl, inr}
use mathlib.Core.Bool.{Bool, true, false}

pub data Result {ℓ} (A : Type ℓ) : Type ℓ where
  ok : A → Result A
  err : String → Result A

-- `if !condition { return ..., fmt.Errorf(...) }`.
abbrev pub guard : (condition : Bool) (message : String) → Result (Unit {0})
guard false message = err message
guard true message = ok tt

infixl 5 ◌>>=◌ ◌>>◌
-- The rest of a function behind a call that returned an error or not.
abbrev pub ◌>>=◌ {ℓ κ} : {A : Type ℓ} {B : Type κ} (r : Result A) (rest : A → Result B) → Result B
err e >>= rest = err e
ok value >>= rest = rest value

abbrev pub ◌>>◌ {ℓ} : {A : Type ℓ} (r : Result (Unit {0})) (rest : Result A) → Result A
r >> rest = r >>= (λ u. rest)

pub Result-cases {ℓ} :
    {A : Type ℓ} (r : Result A) → ((a : A) × (r ≡ ok a)) ⊎ ((e : String) × (r ≡ err e))
Result-cases (ok a) = inl (a, refl)
Result-cases (err e) = inr (e, refl)

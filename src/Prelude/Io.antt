-- ===== src/Prelude/Io.antt =====
-- Go code that changes the host and may fail: a function over a state `H` that returns the changed
-- state also with an error.
use Prim.Native.String.{String}
use mathlib.Core.List.{List, [], ◌∷◌}
use vpn.Prelude.Results.{Result, ok, err}

abbrev pub Io : Type 0 → Type 0 → Type 0
Io H A = H → H × Result A

-- The rest of a block behind a call.
abbrev pub continue : {H A B : Type 0} → H × Result A → (A → Io H B) → H × Result B
continue (h, ok a) f = f a h
continue (h, err e) f = (h, err e)

infixl 5 ◌>>=◌ ◌>>◌
abbrev pub ◌>>=◌ : {H A B : Type 0} → Io H A → (A → Io H B) → Io H B
◌>>=◌ m f h = continue (m h) f

abbrev pub ◌>>◌ : {H B : Type 0} → Io H (Unit {0}) → Io H B → Io H B
◌>>◌ m k h = continue (m h) (λ _. k)

abbrev pub return : {H A : Type 0} → A → Io H A
return a h = (h, ok a)

abbrev pub throw : {H A : Type 0} → String → Io H A
throw e h = (h, err e)

-- A result with no effect.
abbrev pub lift : {H A : Type 0} → Result A → Io H A
lift r h = (h, r)

-- An action on one of two parts of the host.
abbrev pub on_left : {H K A : Type 0} → Io H A → Io (H × K) A
on_left m (h, k) = (((m h).0, k), (m h).1)

abbrev pub on_right : {H K A : Type 0} → Io K A → Io (H × K) A
on_right m (h, k) = ((h, (m k).0), (m k).1)

-- `for _, x := range xs { if err := f(x); err != nil { return err } }`.
unfoldable pub for_each : {H A : Type 0} → List A → (A → Io H (Unit {0})) → Io H (Unit {0})
for_each [] f h = (h, ok tt)
for_each (x ∷ xs) f h = continue (f x h) (λ _ h'. for_each xs f h')

-- ===== src/Prelude/Bits.antt =====
-- Laws of `&` on numbers, and tables over small ranges.
use Prim.Native.Nat.{
  ℕ, zero, suc, ◌+◌, ◌*◌, ◌/◌, ◌%◌, ◌≤◌, ◌<◌, min, bit_and, digits, bit_and-bitwise,
}
use mathlib.Core.Path.{◌≡◌, refl, sym, ap, ◌∙◌}
use mathlib.Core.Bool.{Bool, true, ◌&&◌}
use native.Mathlib.Nat.{le_refl}
use native.Mathlib.Omega.{arith}

-- A test holds of every number below a bound.
unfoldable pub every_below : (bound : ℕ) → (ℕ → Bool) → Bool
every_below zero holds = true
every_below (suc bound) holds = holds bound && every_below bound holds

pub every_below-get :
    (holds : ℕ → Bool) (bound i : ℕ) → every_below bound holds ≡ true → i < bound → holds i ≡ true
unfolding every_below
every_below-get holds zero i all lt = absurd (omega (arith, lt))
every_below-get holds (suc bound) i all lt = ground (arith, all, every_below-get holds bound i, lt)

-- The lowest binary digits, as many as there is fuel for.
abbrev low : ℕ → ℕ → ℕ → ℕ
low fuel x y = digits (λ _. zero) min fuel x y

low-fuel : (i j x y : ℕ) → x ≤ i → x ≤ j → low i x y ≡ low j x y
low-fuel i j zero y s t = none_left i ∙ sym (none_left j)
  where
    none_left : (k : ℕ) → low k 0 y ≡ 0
    none_left zero = refl
    none_left (suc k) = refl
low-fuel zero j (suc x) y s t = absurd (omega (arith, s))
low-fuel (suc i) zero (suc x) y s t = absurd (omega (arith, t))
low-fuel (suc i) (suc j) (suc x) y s t =
    ap (λ l. l * 2 + min (suc x % 2) (y % 2))
      (low-fuel i j (suc x / 2) (y / 2) (omega (arith, s)) (omega (arith, t)))

pub zero_and : (y : ℕ) → bit_and 0 y ≡ 0
zero_and y = bit_and-bitwise 0 y

-- `&` digit by digit.
and_halves : (x y : ℕ) → bit_and x y ≡ bit_and (x / 2) (y / 2) * 2 + min (x % 2) (y % 2)
and_halves zero y = ground (arith, zero_and y, zero_and (y / 2))
and_halves (suc x) y =
    let rest : low x (suc x / 2) (y / 2) ≡ bit_and (suc x / 2) (y / 2) =
      low-fuel x (suc x / 2) (suc x / 2) (y / 2) (omega arith) (le_refl (suc x / 2))
      ∙ sym (bit_and-bitwise (suc x / 2) (y / 2)) in
    bit_and-bitwise (suc x) y ∙ ap (λ l. l * 2 + min (suc x % 2) (y % 2)) rest

-- The halves and the lowest digit of `&`.
and-half : (x y : ℕ) → bit_and x y / 2 ≡ bit_and (x / 2) (y / 2)
and-half x y = ground (arith, and_halves x y)

and-lowest : (x y : ℕ) → bit_and x y % 2 ≡ min (x % 2) (y % 2)
and-lowest x y = ground (arith, and_halves x y)

assoc_below : (n x y z : ℕ) → x ≤ n → bit_and (bit_and x y) z ≡ bit_and x (bit_and y z)
assoc_below n zero y z le =
    ap (λ l. bit_and l z) (zero_and y) ∙ zero_and z ∙ sym (zero_and (bit_and y z))
assoc_below zero (suc x) y z le = absurd (omega (arith, le))
assoc_below (suc n) (suc x) y z le =
    let halves = assoc_below n (suc x / 2) (y / 2) (z / 2) (omega (arith, le)) in
    ground (
      arith,
      halves,
      and_halves (bit_and (suc x) y) z,
      and_halves (suc x) (bit_and y z),
      and-half (suc x) y,
      and-half y z,
      and-lowest (suc x) y,
      and-lowest y z,
    )

pub and_assoc : (x y z : ℕ) → bit_and (bit_and x y) z ≡ bit_and x (bit_and y z)
and_assoc x y z = assoc_below x x y z (le_refl x)

zero_below : (n x : ℕ) → x ≤ n → bit_and x 0 ≡ 0
zero_below n zero le = zero_and 0
zero_below zero (suc x) le = absurd (omega (arith, le))
zero_below (suc n) (suc x) le =
    ground (arith, and_halves (suc x) 0, zero_below n (suc x / 2) (omega (arith, le)))

pub and_zero : (x : ℕ) → bit_and x 0 ≡ 0
and_zero x = zero_below x x (le_refl x)

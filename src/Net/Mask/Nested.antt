-- ===== src/Net/Mask/Nested.antt =====
-- Masks of `net.IPMask` that have all their ones before their zeros: of two of one length, one is
-- nested in the other.
use Prim.Native.Nat.{bit_and}
use vpn.Prelude.{
  ℕ, ◌≤◌, ◌<◌, ◌≡◌, refl, sym, ap, ◌∙◌, ◌⊎◌, inl, inr, Bool, true, some, List, [], ◌∷◌, leb, ◌==◌,
  ◌&&◌, if◌then◌else◌, length, get_or, arith, Bool-cases, Option-cases, All,
}
use mathlib.Core.Path.{subst}
use vpn.Prelude.Bits.{every_below, every_below-get, and_assoc, and_zero}
use vpn.Net.Ip.{all_zero}
use vpn.Net.Mask.{byte_ones, mask_length, same_network}

-- Each byte of the first mask is contained in that of the second.
abbrev pub Nested : List ℕ → List ℕ → Type 0
Nested [] n = Unit
Nested (v ∷ m) [] = Unit
Nested (v ∷ m) (w ∷ n) = (bit_and w v ≡ v) × Nested m n

pub ands : (s t : Bool) → (s && t) ≡ true → (s ≡ true) × (t ≡ true)
ands s t h = ground (arith, h)

pub eq_of : {i j : ℕ} → (i == j) ≡ true → i ≡ j
eq_of h = ground (arith, h)

-- Masking with a contained byte, through the byte that contains it.
through : (x w v : ℕ) → bit_and w v ≡ v → bit_and x v ≡ bit_and (bit_and x w) v
through x w v h = ap (bit_and x) (sym h) ∙ sym (and_assoc x w v)

-- An address in a network is, with a longer mask, in the network of the shorter mask that holds it.
pub same_network-Nested :
    (a m b n x : List ℕ)
    → Nested m n
    → length a ≡ length x
    → length b ≡ length x
    → length m ≡ length x
    → length n ≡ length x
    → same_network a m x ≡ true
    → same_network b n x ≡ true
    → same_network a m b ≡ true
unfolding same_network
same_network-Nested [] m b n x h la lb lm ln p q = refl
same_network-Nested (a ∷ as') [] b n x h la lb lm ln p q = refl
same_network-Nested (a ∷ as') (v ∷ m) [] n x h la lb lm ln p q = refl
same_network-Nested (a ∷ as') (v ∷ m) (b ∷ bs) [] x h la lb lm ln p q =
    absurd (omega (arith, ln, lb))
same_network-Nested (a ∷ as') (v ∷ m) (b ∷ bs) (w ∷ n) [] h la lb lm ln p q =
    absurd (omega (arith, la))
same_network-Nested (a ∷ as') (v ∷ m) (b ∷ bs) (w ∷ n) (x ∷ xs) h la lb lm ln p q =
    let (here, there) = ands (bit_and a v == bit_and x v) (same_network as' m xs) p in
    let (near, far) = ands (bit_and b w == bit_and x w) (same_network bs n xs) q in
    let ih =
      same_network-Nested as' m bs n xs h.1 (omega (arith, la)) (omega (arith, lb))
        (omega (arith, lm)) (omega (arith, ln)) there far in
    let byte : bit_and a v ≡ bit_and b v =
      eq_of here
      ∙ through x w v h.0
      ∙ ap (λ t. bit_and t v) (sym (eq_of near))
      ∙ sym (through b w v h.0) in
    ground (arith, byte, ih)

pub same_network_refl : (a m : List ℕ) → same_network a m a ≡ true
unfolding same_network
same_network_refl [] m = refl
same_network_refl (a ∷ as') [] = refl
same_network_refl (a ∷ as') (v ∷ m) = ground (arith, same_network_refl as' m)

unfoldable pub byte_of : ℕ → ℕ
byte_of k = get_or (0 ∷ 128 ∷ 192 ∷ 224 ∷ 240 ∷ 248 ∷ 252 ∷ 254 ∷ 255 ∷ []) k 0

-- Of two bytes with their ones first, the one with fewer ones is contained in the other.
bytes_table :
    every_below 9 (λ i.
      every_below 9 (λ j. if leb i j then bit_and (byte_of j) (byte_of i) == byte_of i else true))
    ≡ true
unfolding every_below byte_of
bytes_table = refl

bytes_nested : (i j : ℕ) → i ≤ j → j < 9 → bit_and (byte_of j) (byte_of i) ≡ byte_of i
bytes_nested i j le lt =
    let row =
      every_below-get
        (λ k.
          every_below 9
            (λ l. if leb k l then bit_and (byte_of l) (byte_of k) == byte_of k else true))
        9 i bytes_table (omega (arith, le, lt)) in
    let cell =
      every_below-get (λ l. if leb i l then bit_and (byte_of l) (byte_of i) == byte_of i else true)
        9 j row lt in
    let less : leb i j ≡ true = ground (arith, le) in
    eq_of (
      subst (λ b. (if b then bit_and (byte_of j) (byte_of i) == byte_of i else true) ≡ true) less
        cell)

values :
    (byte_of 0 ≡ 0)
    × (byte_of 1 ≡ 128)
    × (byte_of 2 ≡ 192)
    × (byte_of 3 ≡ 224)
    × (byte_of 4 ≡ 240)
    × (byte_of 5 ≡ 248)
    × (byte_of 6 ≡ 252)
    × (byte_of 7 ≡ 254)
    × (byte_of 8 ≡ 255)
unfolding byte_of
values = (refl, refl, refl, refl, refl, refl, refl, refl, refl)

byte_ones-byte_of : (v k : ℕ) → byte_ones v ≡ some k → (v ≡ byte_of k) × (k < 9)
unfolding byte_ones
byte_ones-byte_of v k h = ground (arith, h, values)

-- A mask with a length is contained in 255 and nothing, byte by byte.
all_zero-Nested : (m n : List ℕ) → all_zero m ≡ true → Nested m n
unfolding all_zero
all_zero-Nested [] n h = tt
all_zero-Nested (v ∷ m) [] h = tt
all_zero-Nested (v ∷ m) (w ∷ n) h =
    let (z, rest) = ands (v == 0) (all_zero m) h in
    (rw (eq_of z) (and_zero w), all_zero-Nested m n rest)

-- The first byte of a mask with a length: 255, or the last byte with ones.
data Head (v : ℕ) (m : List ℕ) : Type 0 where
  full : (p : ℕ) → v ≡ 255 → mask_length m ≡ some p → Head v m
  last : (k : ℕ) → v ≡ byte_of k → k < 9 → all_zero m ≡ true → Head v m

mask_length-Head : (v : ℕ) (m : List ℕ) (p : ℕ) → mask_length (v ∷ m) ≡ some p → Head v m
unfolding mask_length
mask_length-Head v m p e = elim (Bool-cases (v == 255)) [
  | inl t ↦ elim (Option-cases (mask_length m)) [
    | inl n ↦ absurd (ground (arith, e, t, n))
    | inr s ↦ full s.0 (eq_of t) s.1
  ]
  | inr f ↦ elim (Bool-cases (all_zero m)) [
    | inr g ↦ absurd (ground (arith, e, f, g))
    | inl z ↦ (let (is, lt) = byte_ones-byte_of v p (ground (arith, e, f, z)) in last p is lt z)
  ]
]

head_nested : (v w k l : ℕ) → v ≡ byte_of k → w ≡ byte_of l → k ≤ l → l < 9 → bit_and w v ≡ v
head_nested v w k l a b le lt = rw (a, b) (bytes_nested k l le lt)

full_byte : (v : ℕ) → v ≡ 255 → v ≡ byte_of 8
full_byte v e = e ∙ sym values.8

heads-Nested :
    (v w : ℕ) (m n : List ℕ)
    → ((p q : ℕ) → mask_length m ≡ some p → mask_length n ≡ some q → Nested m n ⊎ Nested n m)
    → Head v m
    → Head w n
    → Nested (v ∷ m) (w ∷ n) ⊎ Nested (w ∷ n) (v ∷ m)
heads-Nested v w m n rest (full p a e) (full q b f) = elim (rest p q e f) [
  | inl h ↦ inl (head_nested v w 8 8 (full_byte v a) (full_byte w b) (omega arith) (omega arith), h)
  | inr h ↦ inr (head_nested w v 8 8 (full_byte w b) (full_byte v a) (omega arith) (omega arith), h)
]
heads-Nested v w m n rest (full p a e) (last l b lt z) =
    inr (
      head_nested w v l 8 b (full_byte v a) (omega (arith, lt)) (omega arith),
      all_zero-Nested n m z,
    )
heads-Nested v w m n rest (last k a lt z) (full q b f) =
    inl (
      head_nested v w k 8 a (full_byte w b) (omega (arith, lt)) (omega arith),
      all_zero-Nested m n z,
    )
heads-Nested v w m n rest (last k a lt z) (last l b lt' z') = elim (Bool-cases (leb k l)) [
  | inl le ↦ inl (head_nested v w k l a b (ground (arith, le)) lt', all_zero-Nested m n z)
  | inr gt ↦ inr (head_nested w v l k b a (ground (arith, gt)) lt, all_zero-Nested n m z')
]

-- A byte with its ones first.
abbrev pub IsMaskByte : ℕ → Type 0
IsMaskByte m = (k : ℕ) × (k < 9) × (m ≡ byte_of k)

all_zero-IsMaskByte : (m : List ℕ) → all_zero m ≡ true → All IsMaskByte m
unfolding all_zero
all_zero-IsMaskByte [] h = tt
all_zero-IsMaskByte (v ∷ m) h =
    let (z, rest) = ands (v == 0) (all_zero m) h in
    ((0, omega arith, eq_of z ∙ sym values.0), all_zero-IsMaskByte m rest)

-- Every byte of a mask with a length has its ones first.
pub mask_length-IsMaskByte : (m : List ℕ) (p : ℕ) → mask_length m ≡ some p → All IsMaskByte m
mask_length-IsMaskByte [] p e = tt
mask_length-IsMaskByte (v ∷ m) p e = elim (mask_length-Head v m p e) [
  | full q is rest ↦ ((8, omega arith, full_byte v is), mask_length-IsMaskByte m q rest)
  | last k is lt z ↦ ((k, lt, is), all_zero-IsMaskByte m z)
]

-- Of two masks with lengths, one is nested in the other.
pub mask_length-Nested :
    (m n : List ℕ) (p q : ℕ)
    → mask_length m ≡ some p
    → mask_length n ≡ some q
    → Nested m n ⊎ Nested n m
mask_length-Nested [] n p q e f = inl tt
mask_length-Nested (v ∷ m) [] p q e f = inl tt
mask_length-Nested (v ∷ m) (w ∷ n) p q e f =
    heads-Nested v w m n (mask_length-Nested m n) (mask_length-Head v m p e)
      (mask_length-Head w n q f)

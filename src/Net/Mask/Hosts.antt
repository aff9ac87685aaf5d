-- ===== src/Net/Mask/Hosts.antt =====
-- The network and the host bits of a byte under a byte of a mask.
use Prim.Native.Nat.{bit_and, bit_or}
use native.Mathlib.Nat.{mod-lt, mod-mod, add-mul-mod_self_right, add-mul-div_right, div-eq_of_lt}
use vpn.Prelude.{
  ℕ, ◌+◌, ◌-◌, ◌*◌, ◌/◌, ◌%◌, ◌≤◌, ◌<◌, ◌≡◌, refl, sym, ap, ◌∙◌, Bool, true, [], ◌∷◌, get_or, leb,
  ltb, ◌==◌, ◌&&◌, arith,
}
use vpn.Prelude.Bits.{every_below, every_below-get}
use vpn.Net.Mask.Nested.{byte_of, IsMaskByte, eq_of, ands}

-- How many values the zeros of a byte with so many ones leave.
size : ℕ → ℕ
size k = get_or (256 ∷ 128 ∷ 64 ∷ 32 ∷ 16 ∷ 8 ∷ 4 ∷ 2 ∷ 1 ∷ []) k 0

-- The two parts of a byte are its remainder and what is left of it.
parts : ℕ → ℕ → Bool
parts k y =
    ltb 0 (size k)
    && (bit_and y (255 - byte_of k) == y % size k
        && (bit_and y (byte_of k) == y / size k * size k
            && (bit_or (y % size k) (y / size k * size k) == y
                && leb (y / size k * size k + size k) 256)))

table : every_below 9 (λ k. every_below 256 (parts k)) ≡ true
unfolding every_below parts size byte_of
table = refl

record Parts (k y : ℕ) : Type 0 where
  positive : 0 < size k
  hosts : bit_and y (255 - byte_of k) ≡ y % size k
  net : bit_and y (byte_of k) ≡ y / size k * size k
  joined : bit_or (y % size k) (y / size k * size k) ≡ y
  room : y / size k * size k + size k ≤ 256

Parts-get : (k y : ℕ) → k < 9 → y < 256 → Parts k y
unfolding parts
Parts-get k y lk ly =
    let row = every_below-get (λ i. every_below 256 (parts i)) 9 k table lk in
    let (p, r) = ands (ltb 0 (size k)) _ (every_below-get (parts k) 256 y row ly) in
    let (h, r') = ands (bit_and y (255 - byte_of k) == y % size k) _ r in
    let (n, r'') = ands (bit_and y (byte_of k) == y / size k * size k) _ r' in
    let (j, m) = ands (bit_or (y % size k) (y / size k * size k) == y) _ r'' in
    record {
      positive = ground (arith, p);
      hosts = eq_of h;
      net = eq_of n;
      joined = eq_of j;
      room = ground (arith, m);
    }

-- The host bits of `a` over the network bits of `b`.
abbrev pub over : ℕ → ℕ → ℕ → ℕ
over a m b = bit_or (bit_and a (255 - m)) b

module _ (k : ℕ) (lk : k < 9) where
  over_own_k : (a : ℕ) → a < 256 → over a (byte_of k) (bit_and a (byte_of k)) ≡ a
  over_own_k a la =
      let p = Parts-get k a lk la in
      ap (λ x. bit_or x (bit_and a (byte_of k))) p.hosts ∙ ap (bit_or (a % size k)) p.net ∙ p.joined

  module _ (a b : ℕ) (la : a < 256) (lb : b < 256) (fixed : bit_and b (byte_of k) ≡ b) where
    abbrev joint : ℕ
    joint = a % size k + b / size k * size k

    positive : 0 < size k
    positive = (Parts-get k a lk la).positive

    multiple : b / size k * size k ≡ b
    multiple = sym (Parts-get k b lk lb).net ∙ fixed

    joint_fits : joint < 256
    joint_fits = omega (arith, mod-lt a positive, (Parts-get k b lk lb).room)

    joint_hosts : joint % size k ≡ a % size k
    joint_hosts = add-mul-mod_self_right (a % size k) (b / size k) (size k) ∙ mod-mod a (size k)

    joint_over : joint / size k ≡ b / size k
    joint_over = omega (
      arith,
      add-mul-div_right (a % size k) (b / size k) positive,
      div-eq_of_lt (mod-lt a positive),
    )

    joint_net : joint / size k * size k ≡ b
    joint_net = ap (λ q. q * size k) joint_over ∙ multiple

    over-joint : over a (byte_of k) b ≡ joint
    over-joint =
        ap (λ x. bit_or x b) ((Parts-get k a lk la).hosts ∙ sym joint_hosts)
        ∙ ap (bit_or (joint % size k)) (sym joint_net)
        ∙ (Parts-get k joint lk joint_fits).joined

    over_parts_k :
        (over a (byte_of k) b < 256)
        × (bit_and (over a (byte_of k) b) (byte_of k) ≡ b)
        × (bit_and (over a (byte_of k) b) (255 - byte_of k) ≡ bit_and a (255 - byte_of k))
    over_parts_k =
        let x = Parts-get k joint lk joint_fits in
        rw over-joint
          (joint_fits, x.net ∙ joint_net, x.hosts ∙ joint_hosts ∙ sym (Parts-get k a lk la).hosts)

-- A byte is made of its host bits and its network bits.
pub over_own : (a m : ℕ) → a < 256 → IsMaskByte m → over a m (bit_and a m) ≡ a
over_own a m la (k, lk, e) = rw e (over_own_k k lk a la)

-- The host bits of one byte over the network bits of another are a byte with just these bits.
pub over_parts :
    (a m b : ℕ)
    → a < 256
    → b < 256
    → IsMaskByte m
    → bit_and b m ≡ b
    → (over a m b < 256)
      × (bit_and (over a m b) m ≡ b)
      × (bit_and (over a m b) (255 - m) ≡ bit_and a (255 - m))
over_parts a m b la lb (k, lk, e) fixed =
    rw e (over_parts_k k lk a b la lb (sym (ap (bit_and b) e) ∙ fixed))

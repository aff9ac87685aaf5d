-- ===== src/Net/Mask.antt =====
-- `net.IPMask` and `net.IPNet` of the Go library.
pub mod Nested
pub mod Hosts
use Prim.Native.Nat.{bit_and}
use vpn.Prelude.{
  ℕ, zero, suc, ◌+◌, ◌-◌, ◌*◌, ◌/◌, ◌^◌, ◌≡◌, refl, Bool, true, Option, none, some, List, [], ◌∷◌,
  leb, ◌==◌, ◌&&◌, ◌||◌, if◌then◌else◌, length, take, drop, replicate,
}
use vpn.Net.Ip.{Ip, to4, all_zero}

pub record IpNet : Type 0 where
  pub ip : Ip
  pub mask : List ℕ

-- `CIDRMask(ones, 8 * n)` with `ones` at most `8 * n`, byte by byte.
unfoldable pub mask_bytes : ℕ → ℕ → List ℕ
mask_bytes zero ones = []
mask_bytes (suc n) ones =
    if leb 8 ones then 255 ∷ mask_bytes n (ones - 8) else (256 - 2 ^ (8 - ones)) ∷ replicate n 0

-- `CIDRMask`; nil is the empty list.
unfoldable pub cidr_mask : ℕ → ℕ → List ℕ
unfolding mask_bytes
cidr_mask ones bits =
    if (bits == 32 || bits == 128) && leb ones bits then mask_bytes (bits / 8) ones else []

-- `And` of the bytes of an address with those of a mask.
unfoldable pub and_bytes : List ℕ → List ℕ → List ℕ
and_bytes (a ∷ as') (m ∷ ms) = bit_and a m ∷ and_bytes as' ms
and_bytes _ _ = []

-- `IP.Mask`; nil where the lengths do not fit.
unfoldable pub ip_mask : Ip → List ℕ → Ip
unfolding and_bytes to4 all_zero
ip_mask ip mask =
    let m : List ℕ =
      if length mask == 16 && (length ip == 4 && all_ones (take 12 mask))
      then drop 12 mask
      else mask in
    let x : Ip =
      if length m == 4 && length ip == 16 then elim (to4 ip) [ some v4 ↦ v4 | none ↦ ip ] else ip in
    if length x == length m then and_bytes x m else []
  where
    all_ones : List ℕ → Bool
    all_ones [] = true
    all_ones (b ∷ bs) = b == 255 && all_ones bs

-- The ones of a byte that has all its ones before its zeros.
unfoldable pub byte_ones : ℕ → Option ℕ
byte_ones v =
    if v == 255
    then some 8
    else if v == 254
    then some 7
    else if v == 252
    then some 6
    else if v == 248
    then some 5
    else if v == 240
    then some 4
    else if v == 224
    then some 3
    else if v == 192
    then some 2
    else if v == 128
    then some 1
    else if v == 0
    then some 0
    else none

-- The length of a mask that has all its ones before its zeros.
unfoldable pub mask_length : List ℕ → Option ℕ
unfolding byte_ones all_zero
mask_length [] = some 0
mask_length (v ∷ vs) =
    let rest = mask_length vs in
    if v == 255
    then elim rest [ some n ↦ some (8 + n) | none ↦ none ]
    else if all_zero vs
    then byte_ones v
    else none

-- `IPMask.Size`: the ones and the bits, or 0 and 0.
unfoldable pub mask_size : List ℕ → ℕ × ℕ
unfolding mask_length
mask_size m = elim (mask_length m) [ some ones ↦ (ones, 8 * length m) | none ↦ (0, 0) ]

-- `networkNumberAndMask`: the network address in its shorter form with the mask of its length; two
-- empty lists where they do not fit together.
unfoldable pub network_number_and_mask : IpNet → List ℕ × List ℕ
network_number_and_mask n =
    let ip : Ip = elim (to4 n.ip) [
      | some v4 ↦ v4
      | none ↦ if length n.ip == 16 then n.ip else []
    ] in
    if length ip == 0
    then ([], [])
    else if length n.mask == length ip
    then (ip, n.mask)
    else if length n.mask == 16 && length ip == 4
    then (ip, drop 12 n.mask)
    else ([], [])

-- The test of `Contains`, byte by byte, on lists of one length.
unfoldable pub same_network : List ℕ → List ℕ → List ℕ → Bool
same_network [] m xs = true
same_network (a ∷ as') [] xs = true
same_network (a ∷ as') (m ∷ ms) [] = true
same_network (a ∷ as') (m ∷ ms) (x ∷ xs) = bit_and a m == bit_and x m && same_network as' ms xs

-- `IPNet.Contains`.
unfoldable pub net_contains : IpNet → Ip → Bool
net_contains n ip =
    let (nn, m) = network_number_and_mask n in
    let x : Ip = elim (to4 ip) [ some v4 ↦ v4 | none ↦ ip ] in
    length x == length nn && same_network nn m x

mask_12 : cidr_mask 12 32 ≡ 255 ∷ 240 ∷ 0 ∷ 0 ∷ []
unfolding cidr_mask
mask_12 = refl

mask_12_size : mask_size (255 ∷ 240 ∷ 0 ∷ 0 ∷ []) ≡ (12, 32)
unfolding mask_size
mask_12_size = refl

contains_test :
    net_contains
      (record { ip = 10 ∷ 96 ∷ 0 ∷ 0 ∷ []; mask = 255 ∷ 224 ∷ 0 ∷ 0 ∷ [] })
      (10 ∷ 99 ∷ 1 ∷ 1 ∷ [])
    ≡ true
unfolding net_contains network_number_and_mask same_network to4
contains_test = refl

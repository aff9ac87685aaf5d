-- ===== src/Network/Netmap/Back.antt =====
-- `netmapIP` of pkg/network/netmap.go: where a mapped address lies, and that the mapping back into
-- the network that it came from gives the address again.
use Prim.Native.Nat.{bit_and, bit_or}
use vpn.Prelude.{
  length-drop, ℕ, suc, ◌-◌, ◌<◌, ◌≡◌, refl, sym, ap, ◌∙◌, true, some, List, [], ◌∷◌, ok, length,
  All, drop, get_or, ◌==◌, ◌&&◌, arith,
}
use vpn.Net.Ip.{Ip, to4}
use vpn.Net.Mask.{
  IpNet, mask_length, and_bytes, same_network, net_contains, network_number_and_mask,
}
use vpn.Net.Mask.Nested.{IsMaskByte, mask_length-IsMaskByte, ands, eq_of}
use vpn.Net.Mask.Hosts.{over, over_own, over_parts}
use vpn.Network.Netmap.{map_bytes, netmap_ip_net}

abbrev pub IsByte : ℕ → Type 0
IsByte b = b < 256

-- An IPv4 network as `ParseIPNet` gives it: four bytes that the mask keeps, and a mask of four bytes
-- with its ones first.
pub record IsSubnet (n : IpNet) : Type 0 where
  pub four : length n.ip ≡ 4
  pub mask_four : length n.mask ≡ 4
  pub mask_ones : (p : ℕ) × (mask_length n.mask ≡ some p)
  pub kept : and_bytes n.ip n.mask ≡ n.ip
  pub bytes : All IsByte n.ip

cons-eq : {x y : ℕ} {xs ys : List ℕ} → ◌≡◌ {A = List ℕ} (x ∷ xs) (y ∷ ys) → (x ≡ y) × (xs ≡ ys)
cons-eq h = (ap (λ l. get_or l 0 0) h, ap (drop 1) h)

-- Of lists of one length: the mapped bytes are in the network of `b`, and mapped back into a network
-- that holds `a` they are `a`.
map_bytes-net :
    (a m b : List ℕ)
    → length a ≡ length b
    → length m ≡ length b
    → All IsByte a
    → All IsByte b
    → All IsMaskByte m
    → and_bytes b m ≡ b
    → (length (map_bytes a m b) ≡ length b) × (same_network b m (map_bytes a m b) ≡ true)
unfolding map_bytes same_network and_bytes
map_bytes-net [] m [] la lm wa wb wm k = (refl, refl)
map_bytes-net [] m (b ∷ bs) la lm wa wb wm k = absurd (omega (arith, la))
map_bytes-net (a ∷ as') m [] la lm wa wb wm k = absurd (omega (arith, la))
map_bytes-net (a ∷ as') [] (b ∷ bs) la lm wa wb wm k = absurd (omega (arith, lm))
map_bytes-net (a ∷ as') (m ∷ ms) (b ∷ bs) la lm wa wb wm k =
    let (k0, k1) = cons-eq k in
    let p = over_parts a m b wa.0 wb.0 wm.0 k0 in
    let (l, n) =
      map_bytes-net as' ms bs (omega (arith, la)) (omega (arith, lm)) wa.1 wb.1 wm.1 k1 in
    (ap suc l, ground (arith, k0, p.1, n))

map_bytes-back :
    (a m b c : List ℕ)
    → length a ≡ length b
    → length m ≡ length b
    → length c ≡ length b
    → All IsByte a
    → All IsByte b
    → All IsMaskByte m
    → and_bytes b m ≡ b
    → and_bytes c m ≡ c
    → same_network c m a ≡ true
    → map_bytes (map_bytes a m b) m c ≡ a
unfolding map_bytes same_network and_bytes
map_bytes-back [] m b c la lm lc wa wb wm kb kc s = refl
map_bytes-back (a ∷ as') m [] c la lm lc wa wb wm kb kc s = absurd (omega (arith, la))
map_bytes-back (a ∷ as') [] (b ∷ bs) c la lm lc wa wb wm kb kc s = absurd (omega (arith, lm))
map_bytes-back (a ∷ as') (m ∷ ms) (b ∷ bs) [] la lm lc wa wb wm kb kc s = absurd (omega (arith, lc))
map_bytes-back (a ∷ as') (m ∷ ms) (b ∷ bs) (c ∷ cs) la lm lc wa wb wm kb kc s =
    let (kb0, kb1) = cons-eq kb in
    let (kc0, kc1) = cons-eq kc in
    let (s0, s1) = ands (bit_and c m == bit_and a m) (same_network cs ms as') s in
    let hosts = (over_parts a m b wa.0 wb.0 wm.0 kb0).2 in
    let net : c ≡ bit_and a m = sym kc0 ∙ eq_of s0 in
    let head : over (over a m b) m c ≡ a =
      ap (λ x. bit_or x c) hosts ∙ ap (bit_or (bit_and a (255 - m))) net ∙ over_own a m wa.0 wm.0 in
    let rest =
      map_bytes-back as' ms bs cs (omega (arith, la)) (omega (arith, lm)) (omega (arith, lc)) wa.1
        wb.1 wm.1 kb1 kc1 s1 in
    λ i. head i ∷ rest i

to4-four : (l : List ℕ) → length l ≡ 4 → to4 l ≡ some l
unfolding to4
to4-four l h = ground (arith, h)

to4-length : (ip v4 : Ip) → to4 ip ≡ some v4 → length v4 ≡ 4
unfolding to4
to4-length ip v4 h = ground (arith, h, length-drop 12 ip)

subnet_number : (n : IpNet) → IsSubnet n → network_number_and_mask n ≡ (n.ip, n.mask)
unfolding network_number_and_mask
subnet_number n w = ground (arith, to4-four n.ip w.four, w.four, w.mask_four)

-- An IPv4 network contains an address as its bytes say.
contains_bytes :
    (n : IpNet) (ip v4 : Ip)
    → IsSubnet n
    → to4 ip ≡ some v4
    → net_contains n ip ≡ (length v4 == length n.ip && same_network n.ip n.mask v4)
unfolding net_contains
contains_bytes n ip v4 w h = rw (subnet_number n w, h) refl

netmap_bytes :
    (ip v4 : Ip) (n : IpNet)
    → IsSubnet n
    → to4 ip ≡ some v4
    → netmap_ip_net ip n ≡ ok (map_bytes v4 n.mask n.ip)
unfolding netmap_ip_net
netmap_bytes ip v4 n w h = ground (arith, h, to4-four n.ip w.four)

-- An IPv4 address of a network is mapped into another network with the same mask, it then lies in
-- that network, and mapping it back into the first gives the address again.
pub netmap_ip_net-back :
    (ip v4 : Ip) (src dst : IpNet)
    → to4 ip ≡ some v4
    → All IsByte v4
    → IsSubnet src
    → IsSubnet dst
    → src.mask ≡ dst.mask
    → net_contains src ip ≡ true
    → (mapped : Ip) × (netmap_ip_net ip dst ≡ ok mapped)
      × (net_contains dst mapped ≡ true)
      × (netmap_ip_net mapped src ≡ ok v4)
netmap_ip_net-back ip v4 src dst h bytes ws wd same inside =
    let m = dst.mask in
    let y = map_bytes v4 m dst.ip in
    let long = to4-length ip v4 h ∙ sym wd.four in
    let masks = mask_length-IsMaskByte m wd.mask_ones.0 wd.mask_ones.1 in
    let (l, n) =
      map_bytes-net v4 m dst.ip long (wd.mask_four ∙ sym wd.four) bytes wd.bytes masks wd.kept in
    let four = to4-four y (l ∙ wd.four) in
    let held =
      (ands (length v4 == length src.ip) (same_network src.ip src.mask v4)
        (sym (contains_bytes src ip v4 ws h) ∙ inside)).1 in
    let back =
      map_bytes-back v4 m dst.ip src.ip long (wd.mask_four ∙ sym wd.four) (ws.four ∙ sym wd.four)
        bytes wd.bytes masks wd.kept (ap (and_bytes src.ip) (sym same) ∙ ws.kept)
        (ap (λ x. same_network src.ip x v4) (sym same) ∙ held) in
    (
      y,
      netmap_bytes ip v4 dst wd h,
      contains_bytes dst y y wd four ∙ ground (arith, l, n),
      netmap_bytes y y src ws four ∙ ap ok (ap (λ x. map_bytes y x src.ip) same ∙ back),
    )

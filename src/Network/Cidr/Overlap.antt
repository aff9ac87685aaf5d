-- ===== src/Network/Cidr/Overlap.antt =====
-- `Overlap` of pkg/network/types.go compares the addresses of two networks; that decides whether they
-- share an address.
use vpn.Prelude.{
  length-drop, ℕ, ◌≡◌, ◌↔◌, sym, ap, ◌∙◌, inl, inr, true, false, none, some, List, [], ◌∷◌, ◌==◌,
  length, arith, Bool-cases, All, Any,
}
use vpn.Net.Ip.{Ip, to4}
use vpn.Net.Mask.{mask_length, network_number_and_mask, same_network, net_contains}
use vpn.Net.Mask.Nested.{
  Nested, same_network-Nested, same_network_refl, mask_length-Nested, ands, eq_of,
}
use vpn.Network.Cidr.{Cidr, overlap, overlap_any}

-- The network number, its mask, and the shorter form of an address.
abbrev number : Cidr → List ℕ
number n = (network_number_and_mask n).0

abbrev mask_of : Cidr → List ℕ
mask_of n = (network_number_and_mask n).1

abbrev short : Ip → Ip
short ip = elim (to4 ip) [ some v4 ↦ v4 | none ↦ ip ]

-- A network as `ParseIPNet` gives it: an address, and a mask of its length with its ones first.
pub record IsNetwork (n : Cidr) : Type 0 where
  pub has_number : (length (network_number_and_mask n).0 == 0) ≡ false
  pub mask_ones : (p : ℕ) × (mask_length (network_number_and_mask n).1 ≡ some p)

number_lem :
    (n : Cidr)
    → (length (number n) == 0) ≡ false
    → (short n.ip ≡ number n) × (length (mask_of n) ≡ length (number n))
unfolding network_number_and_mask
number_lem n h = ground (arith, h, length-drop 12 n.mask)

module _ (n : Cidr) (ip : Ip) where
  contains-split :
      net_contains n ip ≡ true
      → (length (short ip) ≡ length (number n))
        × (same_network (number n) (mask_of n) (short ip) ≡ true)
  unfolding net_contains
  contains-split h =
      let (l, s) =
        ands (length (short ip) == length (number n))
          (same_network (number n) (mask_of n) (short ip)) h in
      (eq_of l, s)

  contains-join :
      length (short ip) ≡ length (number n)
      → same_network (number n) (mask_of n) (short ip) ≡ true
      → net_contains n ip ≡ true
  unfolding net_contains
  contains-join l s = ground (arith, l, s)

-- Two networks have an address in common.
abbrev pub Shares : Cidr → Cidr → Type 0
Shares a b = (ip : Ip) × (net_contains a ip ≡ true) × (net_contains b ip ≡ true)

contains_own : (n : Cidr) → IsNetwork n → net_contains n n.ip ≡ true
contains_own n w =
    let e = (number_lem n w.has_number).0 in
    contains-join n n.ip (ap length e)
      (ap (same_network (number n) (mask_of n)) e ∙ same_network_refl (number n) (mask_of n))

-- With the shorter mask, a network that has an address in common with another holds its address.
contains_of_Nested :
    (a b : Cidr)
    → IsNetwork a
    → IsNetwork b
    → Nested (mask_of a) (mask_of b)
    → Shares a b
    → net_contains a b.ip ≡ true
contains_of_Nested a b wa wb h (ip, ca, cb) =
    let (la, sa) = contains-split a ip ca in
    let (lb, sb) = contains-split b ip cb in
    let (own, mb) = number_lem b wb.has_number in
    let ma = (number_lem a wa.has_number).1 in
    let inside =
      same_network-Nested (number a) (mask_of a) (number b) (mask_of b) (short ip) h (sym la)
        (sym lb) (ma ∙ sym la) (mb ∙ sym lb) sa sb in
    contains-join a b.ip (ap length own ∙ sym lb ∙ la)
      (ap (same_network (number a) (mask_of a)) own ∙ inside)

overlap-Shares : (a b : Cidr) → IsNetwork a → IsNetwork b → overlap a b ≡ true → Shares a b
unfolding overlap
overlap-Shares a b wa wb h = elim (Bool-cases (net_contains a b.ip)) [
  | inl t ↦ (b.ip, t, contains_own b wb)
  | inr f ↦ (a.ip, contains_own a wa, ground (arith, h, f))
]

Shares-overlap : (a b : Cidr) → IsNetwork a → IsNetwork b → Shares a b → overlap a b ≡ true
unfolding overlap
Shares-overlap a b wa wb (ip, ca, cb) =
    elim (mask_length-Nested (mask_of a) (mask_of b) wa.mask_ones.0 wb.mask_ones.0 wa.mask_ones.1
      wb.mask_ones.1) [
        | inl h ↦ ground (arith, contains_of_Nested a b wa wb h (ip, ca, cb))
        | inr h ↦ ground (arith, contains_of_Nested b a wb wa h (ip, cb, ca))
      ]

overlap_any-Shares :
    (nw : Cidr) (os : List Cidr)
    → IsNetwork nw
    → All IsNetwork os
    → overlap_any nw os ≡ true
    → Any (Shares nw) os
unfolding overlap_any
overlap_any-Shares nw [] w ws h = absurd (ground (arith, h))
overlap_any-Shares nw (o ∷ os) w ws h = elim (Bool-cases (overlap nw o)) [
  | inl t ↦ inl (overlap-Shares nw o w ws.0 t)
  | inr f ↦ inr (overlap_any-Shares nw os w ws.1 (ground (arith, h, f)))
]

Shares-overlap_any :
    (nw : Cidr) (os : List Cidr)
    → IsNetwork nw
    → All IsNetwork os
    → Any (Shares nw) os
    → overlap_any nw os ≡ true
unfolding overlap_any
Shares-overlap_any nw [] w ws h = absurd h
Shares-overlap_any nw (o ∷ os) w ws (inl s) = ground (arith, Shares-overlap nw o w ws.0 s)
Shares-overlap_any nw (o ∷ os) w ws (inr s) = ground (arith, Shares-overlap_any nw os w ws.1 s)

-- The test of overlap, which only looks at the addresses of the networks, holds if and only if the
-- network has an address in common with one of the others, where all are networks with their ones
-- before their zeros.
pub overlap_any_iff :
    (nw : Cidr) (others : List Cidr)
    → IsNetwork nw
    → All IsNetwork others
    → (overlap_any nw others ≡ true) ↔ Any (Shares nw) others
overlap_any_iff nw others w ws =
    (overlap_any-Shares nw others w ws, Shares-overlap_any nw others w ws)

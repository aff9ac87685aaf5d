-- ===== src/Network/Bonding/Apart.antt =====
-- The addresses of pkg/network/ip.go are different where they have to be.
use vpn.Prelude.{
  ℕ, zero, suc, ◌-◌, ◌/◌, ◌%◌, ◌<◌, ◌≡◌, ◌≢◌, refl, List, [], ◌∷◌, length, get_or, set, arith, ap,
  length-set, if◌then◌else◌, ◌==◌,
}
use vpn.Net.Ip.{Ip}
use vpn.Net.Mask.{IpNet}
use vpn.Network.Bonding.{
  bytes16, bonding_shoot_client_ip, bonding_seed_client_range,
  client_index_from_bonding_shoot_client_ip,
}
use vpn.IpPool.Broker.{Broker, address_of_index}

-- Reading a list after a write.
get_or-set :
    (xs : List ℕ) (i j v d : ℕ)
    → j < length xs
    → get_or (set xs j v) i d ≡ (if i == j then v else get_or xs i d)
get_or-set [] i j v d lt = ground arith
get_or-set (x ∷ xs) zero zero v d lt = refl
get_or-set (x ∷ xs) zero (suc j) v d lt = ground arith
get_or-set (x ∷ xs) (suc i) zero v d lt = ground arith
get_or-set (x ∷ xs) (suc i) (suc j) v d lt = ground (arith, get_or-set xs i j v d)

shoot_byte_13 :
    (nw : IpNet) (i : ℕ)
    → length (bytes16 nw.ip) ≡ 16
    → get_or (bonding_shoot_client_ip nw i) 13 0 ≡ 0xb
unfolding bonding_shoot_client_ip
shoot_byte_13 nw i l =
    let a = set (bytes16 nw.ip) 15 (i % 256) in
    ground (
      arith,
      get_or-set (set a 14 0) 13 13 0xb 0,
      length-set a 14 0,
      length-set (bytes16 nw.ip) 15 (i % 256),
    )

shoot_length :
    (nw : IpNet) (i : ℕ) → length (bytes16 nw.ip) ≡ 16 → length (bonding_shoot_client_ip nw i) ≡ 16
unfolding bonding_shoot_client_ip
shoot_length nw i l =
    let a = set (bytes16 nw.ip) 15 (i % 256) in
    ground (
      arith,
      length-set (set a 14 0) 13 0xb,
      length-set a 14 0,
      length-set (bytes16 nw.ip) 15 (i % 256),
    )

shoot_byte_15 :
    (nw : IpNet) (i : ℕ)
    → length (bytes16 nw.ip) ≡ 16
    → get_or (bonding_shoot_client_ip nw i) 15 0 ≡ i % 256
unfolding bonding_shoot_client_ip
shoot_byte_15 nw i l =
    let b = bytes16 nw.ip in
    let a = set b 15 (i % 256) in
    ground (
      arith,
      get_or-set (set a 14 0) 15 13 0xb 0,
      get_or-set a 15 14 0 0,
      get_or-set b 15 15 (i % 256) 0,
      length-set a 14 0,
      length-set b 15 (i % 256),
    )

-- The index that the path controller reads off the address of a shoot client is the one that the
-- address was made for, for indices below 256.
pub client_index-shoot_client_ip :
    (nw : IpNet) (i : ℕ)
    → length (bytes16 nw.ip) ≡ 16
    → i < 256
    → client_index_from_bonding_shoot_client_ip (bonding_shoot_client_ip nw i) ≡ i
unfolding client_index_from_bonding_shoot_client_ip
client_index-shoot_client_ip nw i l lt = ground (arith, shoot_length nw i, shoot_byte_15 nw i)

base_byte_13 :
    (ip : Ip) → length (bytes16 ip) ≡ 16 → get_or (bonding_seed_client_range ip).0 13 0 ≡ 0xa
unfolding bonding_seed_client_range
base_byte_13 ip l =
    let c = set (set (bytes16 ip) 15 0) 14 0 in
    ground (
      arith,
      get_or-set c 13 13 0xa 0,
      length-set (set (bytes16 ip) 15 0) 14 0,
      length-set (bytes16 ip) 15 0,
    )

base_length : (ip : Ip) → length (bytes16 ip) ≡ 16 → length (bonding_seed_client_range ip).0 ≡ 16
unfolding bonding_seed_client_range
base_length ip l =
    let c = set (set (bytes16 ip) 15 0) 14 0 in
    ground (
      arith,
      length-set c 13 0xa,
      length-set (set (bytes16 ip) 15 0) 14 0,
      length-set (bytes16 ip) 15 0,
    )

-- Writes to the last two of sixteen bytes leave byte 13.
last_two :
    (base : List ℕ) (u v : ℕ)
    → length base ≡ 16
    → (get_or (set base (length base - 1) u) 13 0 ≡ get_or base 13 0)
      × (get_or
            (set (set base (length base - 1) u) (length (set base (length base - 1) u) - 2) v)
            13
            0
          ≡ get_or base 13 0)
last_two base u v l =
    let j = length base - 1 in
    let c = set base j u in
    let p = get_or-set base 13 j u 0 (omega arith) in
    let q = get_or-set c 13 (length c - 2) v 0 (ground (arith, length-set base j u)) in
    ground (arith, p, q, length-set base j u)

seed_byte_13 :
    (b : Broker) (nw : IpNet) (n : ℕ)
    → length (bytes16 nw.ip) ≡ 16
    → b.base ≡ (bonding_seed_client_range nw.ip).0
    → get_or (address_of_index b n) 13 0 ≡ 0xa
unfolding address_of_index
seed_byte_13 b nw n l e = ground (
  arith,
  last_two b.base (n % 256) (n / 256 % 256),
  base_length nw.ip,
  base_byte_13 nw.ip,
  ap length e,
  ap (λ (x : List ℕ). get_or x 13 0) e,
)

-- No index of the pool of the seed clients, over the base of the network, gives the bonding
-- address of a shoot client of that network.
pub seed_and_shoot_apart :
    (b : Broker) (nw : IpNet) (n i : ℕ)
    → length (bytes16 nw.ip) ≡ 16
    → b.base ≡ (bonding_seed_client_range nw.ip).0
    → address_of_index b n ≢ bonding_shoot_client_ip nw i
seed_and_shoot_apart b nw n i l e h =
    absurd
      (ground (arith, seed_byte_13 b nw n l e, shoot_byte_13 nw i l, ap (λ ip. get_or ip 13 0) h))

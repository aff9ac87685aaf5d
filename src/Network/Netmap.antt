-- ===== src/Network/Netmap.antt =====
-- pkg/network/netmap.go: IPv4 networks mapped into another network of the same size.
-- `net.ParseCIDR` and `net.ParseIP` of the Go library are parameters.
use Prim.Native.Nat.{bit_and, bit_or}
use Prim.Native.String.compare as compare_text
use vpn.Prelude.{
  ℕ, zero, suc, ◌+◌, ◌-◌, ◌*◌, ◌/◌, ◌%◌, ◌^◌, ◌≤◌, ◌≡◌, refl, String, Bool, true, false, Option,
  none, some, List, [], ◌∷◌, ◌++◌, Result, ok, err, ltb, leb, ◌==◌, ◌&&◌, ◌||◌, if◌then◌else◌,
  length, get_or, drop, str_eq, map,
}
use vpn.Prelude.Dict.{lookup, insert}
use vpn.Net.Ip.{Ip, to4, ipv4, ip_string, all_zero}
use vpn.Net.Mask.{IpNet, cidr_mask, mask_size, ip_mask}
use vpn.Network.Cidr.{Cidr, cidr_string, get_by_ip_family, ipv4_family, parse_ip_net_ignore_error}
pub mod Complete
pub mod Sorting
pub mod Back
mod Tests

-- The loop of `netmapIP`: the host bits of an address over the bytes of a network.
unfoldable pub map_bytes : List ℕ → List ℕ → List ℕ → List ℕ
map_bytes [] mask base = []
map_bytes (a ∷ as') mask base =
    bit_or (bit_and a (255 - get_or mask 0 0)) (get_or base 0 0)
    ∷ map_bytes as' (drop 1 mask) (drop 1 base)

-- `netmapIP`.
unfoldable pub netmap_ip_net : Ip → IpNet → Result Ip
unfolding map_bytes to4
netmap_ip_net ip subnet = elim (to4 ip) [
  | none ↦ err "only IPv4 is supported for mapping"
  | some v4 ↦ elim (to4 subnet.ip) [
    | none ↦ err "only IPv4 is supported for mapping"
    | some base ↦ ok (map_bytes v4 subnet.mask base)
  ]
]

-- `NetmapIP`.
unfoldable pub netmap_ip :
    (String → Option Ip) → (String → Result IpNet) → String → String → Result String
unfolding netmap_ip_net ip_string
netmap_ip parse_ip parse_cidr ip subnet = elim (parse_ip ip) [
  | none ↦ err "failed to parse ip"
  | some src ↦ elim (parse_cidr subnet) [
    | err e ↦ err "failed to parse subnet"
    | ok net ↦ elim (netmap_ip_net src net) [ err e ↦ err e | ok mapped ↦ ok (ip_string mapped) ]
  ]
]

-- A `uint32` as the address that `subnetSplit` makes of it.
unfoldable pub address_of_uint32 : ℕ → Ip
unfolding ipv4
address_of_uint32 n = ipv4 (n / 2 ^ 24 % 256) (n / 2 ^ 16 % 256) (n / 2 ^ 8 % 256) (n % 256)

-- The loop of `subnetSplit`, from a counter on.
unfoldable pub subnets_from : ℕ → ℕ → ℕ → List ℕ → ℕ → List IpNet
unfolding address_of_uint32 ip_mask
subnets_from base incr i mask zero = []
subnets_from base incr i mask (suc n) =
    record {
      ip = ip_mask (address_of_uint32 ((base + i * incr % 2 ^ 32) % 2 ^ 32)) mask;
      mask = mask;
    }
    ∷ subnets_from base incr (i + 1) mask n

-- The four bytes of an address as a number.
unfoldable pub uint32_of : List ℕ → ℕ
uint32_of ip =
    get_or ip 0 0 * 2 ^ 24 + get_or ip 1 0 * 2 ^ 16 + get_or ip 2 0 * 2 ^ 8 + get_or ip 3 0

-- `subnetSplit`; a shift of a `uint32` by 32 gives 0. The shift by a negative amount panics, which is
-- an error here.
unfoldable pub subnet_split : IpNet → ℕ → Result (List IpNet)
unfolding mask_size subnets_from to4 ip_mask uint32_of cidr_mask
subnet_split parent new_prefix =
    let size : ℕ × ℕ = mask_size parent.mask in
    if ltb new_prefix size.0 || ltb size.1 new_prefix
    then err "invalid new prefix length"
    else elim (to4 (ip_mask parent.ip parent.mask)) [
      | none ↦ err "only IPv4 is supported"
      | some base ↦
          if ltb 32 new_prefix
          then err "negative shift amount"
          else ok (
              subnets_from (uint32_of base) (2 ^ (32 - new_prefix) % 2 ^ 32) 0
                (cidr_mask new_prefix size.1) (2 ^ (new_prefix - size.0) % 2 ^ 32))
    ]

-- `netmapSubnet`.
unfoldable pub netmap_subnet : IpNet → IpNet → Result IpNet
unfolding netmap_ip_net to4
netmap_subnet src dst = elim (to4 src.ip) [
  | none ↦ err "only IPv4 is supported for subnet mapping"
  | some s ↦ elim (to4 dst.ip) [
    | none ↦ err "only IPv4 is supported for subnet mapping"
    | some d ↦ elim (netmap_ip_net src.ip dst) [
      | err e ↦ err e
      | ok mapped ↦ ok (record { ip = mapped; mask = dst.mask })
    ]
  ]
]

-- `srcInfo`.
pub record SrcInfo : Type 0 where
  pub raw : String
  pub net : IpNet
  pub prefix : ℕ

-- The loop of `NetmapSubnets` over the sources.
unfoldable pub src_infos : (String → Result IpNet) → List String → Result (List SrcInfo)
src_infos parse_cidr [] = ok []
src_infos parse_cidr (src ∷ srcs) = elim (parse_cidr src) [
  | err e ↦ err "failed to parse source subnet"
  | ok net ↦
      if (mask_size net.mask).1 == 32
      then elim (src_infos parse_cidr srcs) [
        | err e ↦ err e
        | ok infos ↦ ok (record { raw = src; net = net; prefix = (mask_size net.mask).0 } ∷ infos)
      ]
      else err "only IPv4 is supported"
]

-- `sort.Slice` of the package sort, on these slices; it need not be stable.
abbrev pub Sort : Type 0
Sort = (SrcInfo → SrcInfo → Bool) → List SrcInfo → List SrcInfo

-- The call of `sort.Slice`, by the prefix lengths.
unfoldable pub sort_infos : Sort → List SrcInfo → List SrcInfo
sort_infos sort infos = sort (λ s t. ltb s.prefix t.prefix) infos

-- The loop of `mapSubnetsRec` that splits the subnets that are left.
unfoldable pub split_all : List IpNet → ℕ → Result (List IpNet)
unfolding subnet_split
split_all [] prefix = ok []
split_all (dst ∷ dsts) prefix = elim (subnet_split dst prefix) [
  | err e ↦ err "failed to split destination subnet"
  | ok subnets ↦ elim (split_all dsts prefix) [ err e ↦ err e | ok rest ↦ ok (subnets ++ rest) ]
]

-- The first candidate, taken for the source.
unfoldable pub map_first : SrcInfo → List IpNet → Result (IpNet × List IpNet)
unfolding netmap_subnet
map_first src [] = err "not enough space"
map_first src (c ∷ cs) = elim (netmap_subnet src.net c) [
  | err e ↦ err "failed to map subnet"
  | ok mapped ↦ ok (mapped, cs)
]

-- `mapSubnetsRec`, with the map that it fills.
unfoldable pub map_subnets_rec :
    List SrcInfo → List IpNet → List (String × String) → Result (List (String × String))
map_subnets_rec [] dsts result = ok result
map_subnets_rec (src ∷ srcs) dsts result = elim (split_all dsts src.prefix) [
  | err e ↦ err e
  | ok candidates ↦ elim (map_first src candidates) [
    | err e ↦ err e
    | ok (mapped, rest) ↦ map_subnets_rec srcs rest (insert src.raw (cidr_string mapped) result)
  ]
]

-- `NetmapSubnets`.
unfoldable pub netmap_subnets :
    Sort → (String → Result IpNet) → List String → String → Result (List (String × String))
netmap_subnets sort parse_cidr srcs dst = elim (parse_cidr dst) [
  | err e ↦ err "failed to parse destination CIDR"
  | ok net ↦ elim (src_infos parse_cidr srcs) [
    | err e ↦ err e
    | ok infos ↦ map_subnets_rec (sort_infos sort infos) (net ∷ []) []
  ]
]

-- The loop of `NetmapCIDRs` over the mapped texts. The keys of the Go map are pointers, so it is a
-- list of pairs.
unfoldable pub parse_pairs :
    (String → Result IpNet) → List (String × String) → Result (List (Cidr × Cidr))
parse_pairs parse_cidr [] = ok []
parse_pairs parse_cidr ((src, dst) ∷ pairs) = elim (parse_cidr src) [
  | err e ↦ err "failed to parse source CIDR"
  | ok s ↦ elim (parse_cidr dst) [
    | err e ↦ err "failed to parse destination CIDR"
    | ok d ↦ elim (parse_pairs parse_cidr pairs) [ err e ↦ err e | ok rest ↦ ok ((s, d) ∷ rest) ]
  ]
]

-- `NetmapCIDRs`.
unfoldable pub netmap_cidrs :
    Sort → (String → Result IpNet) → List Cidr → Cidr → Result (List (Cidr × Cidr))
unfolding netmap_subnets parse_pairs cidr_string
netmap_cidrs sort parse_cidr srcs dst =
    elim (netmap_subnets sort parse_cidr (map cidr_string srcs) (cidr_string dst)) [
      | err e ↦ err "failed to map CIDRs"
      | ok mapped ↦ parse_pairs parse_cidr mapped
    ]

-- What the mapping takes from other packages: the ranges of github.com/gardener/gardener that shoot
-- networks are mapped to, and the sort.
pub record MappedRanges : Type 0 where
  pub sort : Sort
  pub shoot_pod : String
  pub shoot_service : String
  pub shoot_node : String
  pub seed_pod : String

-- `ShootNetworksForNetmap`: the mappings of pod, service and node networks.
unfoldable pub shoot_networks_for_netmap :
    (String → Result IpNet)
    → MappedRanges
    → List Cidr
    → List Cidr
    → List Cidr
    → Result (List (Cidr × Cidr) × List (Cidr × Cidr) × List (Cidr × Cidr))
unfolding netmap_cidrs get_by_ip_family parse_ip_net_ignore_error
shoot_networks_for_netmap parse_cidr ranges pods services nodes =
    elim (netmap_cidrs ranges.sort parse_cidr (get_by_ip_family pods ipv4_family)
      (parse_ip_net_ignore_error parse_cidr ranges.shoot_pod)) [
        | err e ↦ err "failed to map shoot pod networks"
        | ok p ↦
            elim (netmap_cidrs ranges.sort parse_cidr (get_by_ip_family services ipv4_family)
              (parse_ip_net_ignore_error parse_cidr ranges.shoot_service)) [
                | err e ↦ err "failed to map shoot service networks"
                | ok s ↦
                    elim (netmap_cidrs ranges.sort parse_cidr (get_by_ip_family nodes ipv4_family)
                      (parse_ip_net_ignore_error parse_cidr ranges.shoot_node)) [
                        | err e ↦ err "failed to map shoot node networks"
                        | ok n ↦ ok (p, s, n)
                      ]
              ]
      ]

-- ===== src/Network/Cidr.antt =====
-- pkg/network/types.go: CIDR ranges. `net.ParseCIDR` of the Go library is a parameter.
pub mod Overlap
use Prim.Native.String.{◌++◌}
use vpn.Prelude.{
  ℕ, ◌-◌, ◌^◌, ◌≡◌, refl, String, Bool, true, false, none, some, List, [], ◌∷◌, Result, ok, err,
  ltb, leb, ◌==◌, ◌&&◌, ◌||◌, if◌then◌else◌, length, str_eq,
}
use vpn.Net.Ip.{to4, ip_string}
use vpn.Net.Mask.{IpNet, mask_size, net_contains, network_number_and_mask, same_network}
use vpn.Net.Text.{decimal}
use vpn.Network.Link.{same_bytes, ip_equal}

-- `type CIDR net.IPNet`.
abbrev pub Cidr : Type 0
Cidr = IpNet

-- `CIDR{}`: no address and no mask.
abbrev pub no_cidr : Cidr
no_cidr = record { ip = []; mask = [] }

-- `Equal`: the texts of two masks, in hexadecimal, are the same when their bytes are.
unfoldable pub equal : Cidr → Cidr → Bool
unfolding ip_equal same_bytes
equal c other = ip_equal c.ip other.ip && same_bytes c.mask other.mask

-- `UnmarshalText`: an empty text leaves the range as it is.
unfoldable pub unmarshal_text : (String → Result Cidr) → Cidr → String → Result Cidr
unmarshal_text parse_cidr c text = if str_eq text "" then ok c else parse_cidr text

-- `String`.
unfoldable pub cidr_string : Cidr → String
unfolding mask_size ip_string decimal
cidr_string c =
    if length c.ip == 0 then "" else ip_string c.ip ++ ("/" ++ decimal (mask_size c.mask).0)

-- `IsIPv4`.
unfoldable pub is_ipv4 : Cidr → Bool
unfolding to4
is_ipv4 c = elim (to4 c.ip) [ some v4 ↦ true | none ↦ false ]

-- `CountHosts`, behind `Mask.Size`.
unfoldable pub hosts : ℕ → ℕ → ℕ
hosts ones bits =
    if bits == 0 || ltb bits ones
    then 0
    else (let total = 2 ^ (bits - ones) in
        if bits == 32 && leb ones 30 then (if leb 2 total then total - 2 else 0) else total)

unfoldable pub count_hosts : Cidr → ℕ
unfolding hosts mask_size
count_hosts c = hosts (mask_size c.mask).0 (mask_size c.mask).1

-- `ParseIPNetIgnoreError`, over `ParseIPNet`.
unfoldable pub parse_ip_net_ignore_error : (String → Result Cidr) → String → Cidr
parse_ip_net_ignore_error parse_cidr text = elim (parse_cidr text) [ ok c ↦ c | err e ↦ no_cidr ]

abbrev pub ipv4_family : String
ipv4_family = "IPv4"

abbrev pub ipv6_family : String
ipv6_family = "IPv6"

-- `GetByIPFamily`.
unfoldable pub get_by_ip_family : List Cidr → String → List Cidr
unfolding is_ipv4
get_by_ip_family [] family = []
get_by_ip_family (nw ∷ nws) family =
    let rest = get_by_ip_family nws family in
    if str_eq family ipv4_family
    then (if is_ipv4 nw then nw ∷ rest else rest)
    else if str_eq family ipv6_family
    then (if is_ipv4 nw then rest else nw ∷ rest)
    else rest

-- `Overlap`.
unfoldable pub overlap : Cidr → Cidr → Bool
overlap a b = net_contains a b.ip || net_contains b a.ip

-- `OverLapAny`.
unfoldable pub overlap_any : Cidr → List Cidr → Bool
overlap_any nw [] = false
overlap_any nw (o ∷ os) = let rest = overlap_any nw os in if overlap nw o then true else rest

hosts_24 : hosts 24 32 ≡ 254
unfolding hosts
hosts_24 = refl

overlap_test :
    overlap
      (record { ip = 10 ∷ 0 ∷ 0 ∷ 0 ∷ []; mask = 255 ∷ 0 ∷ 0 ∷ 0 ∷ [] })
      (record { ip = 10 ∷ 1 ∷ 0 ∷ 0 ∷ []; mask = 255 ∷ 255 ∷ 0 ∷ 0 ∷ [] })
    ≡ true
unfolding overlap net_contains network_number_and_mask same_network to4
overlap_test = refl

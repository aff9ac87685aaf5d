-- ===== src/Server/Values.antt =====
-- pkg/vpn_server/values.go: the settings of the OpenVPN server, from those of the program.
use Prim.Native.Nat.{Ordering}
use Prim.Native.String.{compare as compare_text, len, slice}
use vpn.Prelude.{
  ℕ, zero, suc, ◌+◌, ◌-◌, ◌^◌, ◌≤◌, ◌≡◌, refl, String, Bool, true, false, not, List, [], ◌∷◌, ◌++◌,
  Result, ok, err, guard, ◌>>◌, ◌>>=◌, ltb, leb, ◌==◌, ◌&&◌, ◌||◌, if◌then◌else◌, length, str_eq,
}
use vpn.Prelude.Int.{ℤ, pos, negsuc}
use vpn.Net.Mask.{mask_size, IpNet}
use vpn.Network.Cidr.{
  Cidr, cidr_string, is_ipv4, count_hosts, overlap_any, equal, parse_ip_net_ignore_error, no_cidr,
}
use vpn.Network.Bonding.{ha_vpn_tunnel_network}
use vpn.Network.Netmap.{MappedRanges}
use vpn.Config.Server.{VpnServer}
pub mod Bounds

-- `SeedServerValues` of pkg/openvpn/config_server.go.
pub record SeedServerValues : Type 0 where
  pub device : String
  pub status_path : String
  pub openvpn_network : Cidr
  pub shoot_networks : List Cidr
  pub shoot_networks_v4 : List Cidr
  pub shoot_networks_v6 : List Cidr
  pub seed_pod_network : Cidr
  pub ha_vpn_clients : ℤ
  pub is_ha : Bool
  pub vpn_index : ℕ
  pub local_node_ip : String
  pub tun_mtu : ℕ
  pub max_routes_per_client : ℕ

abbrev pub routes_per_client_max : ℕ
routes_per_client_max = 2 ^ 20

abbrev pub routes_per_client_min : ℕ
routes_per_client_min = 256

-- The sum of the hosts of the networks.
unfoldable pub total_hosts : List Cidr → ℕ
unfolding count_hosts
total_hosts [] = 0
total_hosts (nw ∷ nws) = count_hosts nw + total_hosts nws

unfoldable pub min : ℕ → ℕ → ℕ
min a b = if leb a b then a else b

unfoldable pub max : ℕ → ℕ → ℕ
max a b = if leb a b then b else a

-- `MaxRoutesPerClient` of a sum.
unfoldable pub max_routes : ℕ → ℕ
unfolding min max
max_routes total =
    max (min (if ltb total (2 ^ 64) then total else routes_per_client_max) routes_per_client_max)
      routes_per_client_min

-- The last two characters of the pod's name.
unfoldable pub pod_suffix : String → String
pod_suffix name = slice name (len name - 2) (len name)

-- `getHAInfo`: the expression `.*-([0-2])$` matches a name with one of three endings.
unfoldable pub get_ha_info : String → Bool × ℕ
unfolding pod_suffix
get_ha_info pod_name =
    if str_eq pod_name ""
    then (false, 0)
    else if str_eq (pod_suffix pod_name) "-0"
    then (true, 0)
    else if str_eq (pod_suffix pod_name) "-1"
    then (true, 1)
    else if str_eq (pod_suffix pod_name) "-2"
    then (true, 2)
    else (false, 0)

-- One of the loops that fill `ShootNetworks`: IPv4 networks are mapped where `doNetmap` is set.
unfoldable pub map_networks : Bool → Cidr → List Cidr → List Cidr
unfolding is_ipv4
map_networks do_netmap mapped [] = []
map_networks do_netmap mapped (nw ∷ nws) =
    (if is_ipv4 nw && do_netmap then mapped else nw) ∷ map_networks do_netmap mapped nws

-- `SortFunc` by the texts, as an insertion sort.
unfoldable pub insert_network : Cidr → List Cidr → List Cidr
unfolding cidr_string
insert_network a [] = a ∷ []
insert_network a (b ∷ bs) =
    let rest = insert_network a bs in
    elim (compare_text (cidr_string b) (cidr_string a)) [
      | Ordering.lt ↦ b ∷ rest
      | _ ↦ a ∷ (b ∷ bs)
    ]

unfoldable pub sort_networks : List Cidr → List Cidr
unfolding insert_network
sort_networks [] = []
sort_networks (a ∷ as') = insert_network a (sort_networks as')

-- `CompactFunc`, behind an element: the first of a run of equal ones stays.
unfoldable pub compact_after : Cidr → List Cidr → List Cidr
unfolding equal
compact_after a [] = []
compact_after a (b ∷ bs) = let rest = compact_after b bs in if equal a b then rest else b ∷ rest

unfoldable pub compact : List Cidr → List Cidr
unfolding compact_after
compact [] = []
compact (a ∷ as') = a ∷ compact_after a as'

-- The last loop: the networks of one family.
unfoldable pub of_family : Bool → List Cidr → List Cidr
unfolding is_ipv4
of_family v4 [] = []
of_family v4 (nw ∷ nws) =
    let rest = of_family v4 nws in
    if v4
    then (if is_ipv4 nw then nw ∷ rest else rest)
    else (if is_ipv4 nw then rest else nw ∷ rest)

-- `doNetmap`.
unfoldable pub do_netmap : Bool → VpnServer → Bool
unfolding overlap_any
do_netmap is_ha cfg =
    if is_ha
    then overlap_any cfg.seed_pod_network
        (cfg.shoot_pod_networks ++ (cfg.shoot_service_networks ++ cfg.shoot_node_networks))
    else true

-- `ShootNetworks` before it is sorted.
unfoldable pub collected : (String → Result Cidr) → MappedRanges → Bool → VpnServer → List Cidr
unfolding map_networks parse_ip_net_ignore_error
collected parse_cidr ranges map_v4 cfg =
    map_networks map_v4 (parse_ip_net_ignore_error parse_cidr ranges.shoot_service)
      cfg.shoot_service_networks
    ++ (map_networks map_v4 (parse_ip_net_ignore_error parse_cidr ranges.shoot_pod)
          cfg.shoot_pod_networks
        ++ map_networks map_v4 (parse_ip_net_ignore_error parse_cidr ranges.shoot_node)
            cfg.shoot_node_networks)

-- The values behind the checks.
unfoldable pub values : (String → Result Cidr) → MappedRanges → VpnServer → SeedServerValues
values parse_cidr ranges cfg =
    let ha : Bool × ℕ = get_ha_info cfg.pod_name in
    let networks = compact (sort_networks (collected parse_cidr ranges (do_netmap ha.0 cfg) cfg)) in
    record {
      device = if ha.0 then "tap0" else "tun0";
      status_path = cfg.status_path;
      openvpn_network =
          if ha.0 then ha_vpn_tunnel_network cfg.vpn_network.ip ha.1 else cfg.vpn_network;
      shoot_networks = networks;
      shoot_networks_v4 = of_family true networks;
      shoot_networks_v6 = of_family false networks;
      seed_pod_network = cfg.seed_pod_network;
      ha_vpn_clients = if ha.0 then cfg.ha_vpn_clients else negsuc 0;
      is_ha = ha.0;
      vpn_index = ha.1;
      local_node_ip = "";
      tun_mtu = 0;
      max_routes_per_client = max_routes (
          total_hosts
            (cfg.shoot_pod_networks ++ (cfg.shoot_service_networks ++ cfg.shoot_node_networks)));
    }

unfoldable pub same : Bool → Bool → Bool
same a b = if a then b else not b

-- `BuildValues`.
unfoldable pub build_values :
    (String → Result Cidr) → MappedRanges → VpnServer → Result SeedServerValues
build_values parse_cidr ranges cfg = do
  guard (not (length cfg.vpn_network.ip == 0)) "VPN_NETWORK must be set"
  guard (not (is_ipv4 cfg.vpn_network)) "VPN_NETWORK must be a IPv6 CIDR"
  guard ((mask_size cfg.vpn_network.mask).0 == 96) "invalid prefix length for VPN_NETWORK"
  guard (same (get_ha_info cfg.pod_name).0 cfg.is_ha)
      "IS_HA flag does not match HA info from pod name"
  ok (values parse_cidr ranges cfg)

ha_test : get_ha_info "vpn-seed-server-1" ≡ (true, 1)
unfolding get_ha_info
ha_test = refl

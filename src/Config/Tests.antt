-- ===== src/Config/Tests.antt =====
-- Settings of programs, checked, and what is built from them.
use vpn.Prelude.{◌≢◌, length, ◌^◌, ◌≤◌, ◌≡◌, refl, String, true, false, [], ◌∷◌, Result, ok}
use vpn.Prelude.Int.{ℤ, pos, negsuc}
use vpn.Net.Ip.{to4, all_zero, ip_string}
use vpn.Net.Mask.{IpNet, mask_size, mask_length, byte_ones}
use vpn.Net.Text.{split, decimal}
use vpn.Network.Cidr.{
  Cidr, cidr_string, no_cidr, is_ipv4, count_hosts, hosts, parse_ip_net_ignore_error,
}
use vpn.Network.Netmap.{MappedRanges}
use vpn.Network.Netmap.Sorting.{insertion_sort}
use vpn.Config.{with_default, validate_vpn_network_cidr}
use vpn.Config.Client.{
  VpnClient, get_vpn_client_config, check_ha, check_families, sort_texts, insert_text,
  compact_texts, compact_after, client_index_of,
}
use vpn.Config.Client.Valid.{IsValid, get_vpn_client_config-IsValid}
use vpn.Config.Server.{VpnServer}
use vpn.Server.Values.{
  SeedServerValues, build_values, values, get_ha_info, pod_suffix, do_netmap, collected,
  map_networks, sort_networks, insert_network, compact, of_family, max_routes, total_hosts, min,
  max, same,
}
use vpn.Server.Values.Bounds.{build_values-checks, NameSays}

abbrev vpn_network : IpNet
vpn_network = record {
  ip = 0xfd ∷ 0x8f ∷ 0x6d ∷ 0x53 ∷ 0xb9 ∷ 0x7a ∷ 0 ∷ 1 ∷ 0 ∷ 0 ∷ 0 ∷ 0 ∷ 0 ∷ 0 ∷ 0 ∷ 0 ∷ [];
  mask = 255 ∷ 255 ∷ 255 ∷ 255 ∷ 255 ∷ 255 ∷ 255 ∷ 255 ∷ 255 ∷ 255 ∷ 255 ∷ 255 ∷ 0 ∷ 0 ∷ 0 ∷ 0 ∷ [];
}

abbrev settings : VpnClient
settings = record {
  ip_families = "IPv6" ∷ "IPv4" ∷ [];
  endpoint = "";
  openvpn_port = 8132;
  vpn_network = vpn_network;
  seed_pod_network = no_cidr;
  shoot_service_networks = [];
  shoot_pod_networks = [];
  shoot_node_networks = [];
  is_shoot_client = true;
  pod_name = "vpn-shoot-1";
  namespace = "";
  vpn_server_index = "";
  vpn_client_index = negsuc 0;
  is_ha = true;
  reversed_vpn_header = "";
  reversed_vpn_header_key = "";
  ha_vpn_clients = 2;
  ha_vpn_servers = 2;
  pod_label_selector = "";
  wait_time = pos 2;
  bonding_mode = "active-backup";
  auto_mtu = false;
}

abbrev checked : VpnClient
checked = record settings { ip_families = "IPv4" ∷ "IPv6" ∷ []; vpn_client_index = pos 1 }

abbrev atoi : String → Result ℤ
atoi text = ok (pos 1)

accepted : get_vpn_client_config atoi (ok no_cidr) (ok settings) ≡ ok checked
unfolding get_vpn_client_config with_default validate_vpn_network_cidr check_ha check_families
    sort_texts insert_text compact_texts compact_after client_index_of split cidr_string ip_string
    decimal mask_size mask_length byte_ones all_zero to4
accepted = refl

get_vpn_client_config-IsValid_example : IsValid checked
get_vpn_client_config-IsValid_example =
    get_vpn_client_config-IsValid atoi (ok no_cidr) settings checked accepted

abbrev pods : IpNet
pods = record { ip = 100 ∷ 96 ∷ 0 ∷ 0 ∷ []; mask = 255 ∷ 255 ∷ 254 ∷ 0 ∷ [] }

abbrev mapped : IpNet
mapped = record { ip = 244 ∷ 0 ∷ 0 ∷ 0 ∷ []; mask = 255 ∷ 0 ∷ 0 ∷ 0 ∷ [] }

abbrev ranges : MappedRanges
ranges = record {
  sort = insertion_sort;
  shoot_pod = "244.0.0.0/8";
  shoot_service = "243.0.0.0/8";
  shoot_node = "242.0.0.0/8";
  seed_pod = "241.0.0.0/8";
}

abbrev parse_cidr : String → Result Cidr
parse_cidr text = ok mapped

abbrev server_settings : VpnServer
server_settings = record {
  shoot_service_networks = [];
  shoot_pod_networks = pods ∷ [];
  shoot_node_networks = [];
  vpn_network = vpn_network;
  seed_pod_network = no_cidr;
  pod_name = "vpn-seed-server-abc";
  status_path = "/srv/status";
  is_ha = false;
  ha_vpn_clients = pos 0;
  local_node_ip = "";
  auto_mtu = false;
}

abbrev server_values : SeedServerValues
server_values = record {
  device = "tun0";
  status_path = "/srv/status";
  openvpn_network = vpn_network;
  shoot_networks = mapped ∷ [];
  shoot_networks_v4 = mapped ∷ [];
  shoot_networks_v6 = [];
  seed_pod_network = no_cidr;
  ha_vpn_clients = negsuc 0;
  is_ha = false;
  vpn_index = 0;
  local_node_ip = "";
  tun_mtu = 0;
  max_routes_per_client = 510;
}

built : build_values parse_cidr ranges server_settings ≡ ok server_values
unfolding build_values values get_ha_info pod_suffix do_netmap collected map_networks sort_networks
    insert_network compact of_family max_routes total_hosts min max same is_ipv4 count_hosts hosts
    parse_ip_net_ignore_error cidr_string ip_string decimal mask_size mask_length byte_ones all_zero
    to4
built = refl

build_values-checks_example :
    (server_values.is_ha ≡ server_settings.is_ha)
    × NameSays server_settings.pod_name server_settings.is_ha server_values.vpn_index
    × (256 ≤ server_values.max_routes_per_client)
    × (server_values.max_routes_per_client ≤ 2 ^ 20)
    × ((mask_size server_settings.vpn_network.mask).0 ≡ 96)
    × (is_ipv4 server_settings.vpn_network ≡ false)
    × (length server_settings.vpn_network.ip ≢ 0)
build_values-checks_example =
    build_values-checks parse_cidr ranges server_settings server_values built

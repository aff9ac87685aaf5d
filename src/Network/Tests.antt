-- ===== src/Network/Tests.antt =====
-- A host in which every call succeeds, and runs of pkg/network.
use vpn.Prelude.{
  ◌≡◌, ◌≢◌, refl, String, true, false, ◌↔◌, Any, some, List, [], ◌∷◌, Result, ok, err, All, length,
  arith, str_eq, if◌then◌else◌,
}
use vpn.Prelude.Dict.{lookup as find_key, insert}
use vpn.Net.Ip.{to4, to16, ip_string, ipv4, all_zero}
use vpn.Net.Mask.{
  IpNet, mask_size, mask_length, mask_bytes, cidr_mask, ip_mask, and_bytes, byte_ones,
  network_number_and_mask,
}
use vpn.Net.Text.{decimal}
use vpn.Network.Netlink.{Netlink, found, Route}
use vpn.Network.Cidr.{cidr_string, overlap_any}
use vpn.Network.Cidr.Overlap.{IsNetwork, Shares, overlap_any_iff}
use vpn.Network.Bonding.{
  bytes16, bonding_seed_client_range, bonding_shoot_client_ip,
  client_index_from_bonding_shoot_client_ip,
}
use vpn.Network.Bonding.Apart.{seed_and_shoot_apart, client_index-shoot_client_ip}
use vpn.Network.Netmap.{
  netmap_subnets, src_infos, sort_infos, map_subnets_rec, split_all, subnet_split, map_first,
  netmap_subnet, netmap_ip_net, map_bytes, subnets_from, address_of_uint32, uint32_of,
}
use vpn.Network.Netmap.Complete.{IsMapped, netmap_subnets-maps}
use vpn.Network.Netmap.Sorting.{insertion_sort, insert_info, insertion_sort-IsSort}
use vpn.IpPool.Broker.{Broker, address_of_index}

abbrev pub default_route : Route
default_route = record {
  dst = some (record { ip = 0 ∷ 0 ∷ 0 ∷ 0 ∷ []; mask = 0 ∷ 0 ∷ 0 ∷ 0 ∷ [] });
  link_index = 2;
}

abbrev pub quiet_netlink : Netlink
quiet_netlink = record {
  Host = Unit {0};
  link_by_name = λ h name. found 2;
  link_del = λ index h. (h, ok tt);
  link_add = λ link h. (h, ok tt);
  link_set_up = λ name h. (h, ok tt);
  link_set_down = λ index h. (h, ok tt);
  link_set_mtu = λ name mtu h. (h, ok tt);
  link_set_master = λ index name h. (h, ok tt);
  addr_list = λ h index. ok [];
  addr_list_ipv6 = λ h index. ok [];
  addr_add = λ name addr h. (h, ok tt);
  addr_del = λ index addr h. (h, ok tt);
  route_list = λ h. ok (default_route ∷ []);
  route_replace = λ route h. (h, ok tt);
  link_mtu = λ h index. ok 1500;
}

-- The same host, but no link can be added.
abbrev pub broken_netlink : Netlink
broken_netlink = record quiet_netlink { link_add = λ link h. (h, err "no link") }

abbrev vpn_network : IpNet
vpn_network = record {
  ip = 0xfd ∷ 0x8f ∷ 0x6d ∷ 0x53 ∷ 0xb9 ∷ 0x7a ∷ 0 ∷ 1 ∷ 0 ∷ 0 ∷ 0 ∷ 0 ∷ 0 ∷ 0 ∷ 0 ∷ 0 ∷ [];
  mask = [];
}

sixteen : length (bytes16 vpn_network.ip) ≡ 16
unfolding bytes16 to16
sixteen = refl

client_index-shoot_client_ip_example :
    client_index_from_bonding_shoot_client_ip (bonding_shoot_client_ip vpn_network 3) ≡ 3
client_index-shoot_client_ip_example =
    client_index-shoot_client_ip vpn_network 3 sixteen (omega arith)

abbrev seed_broker : Broker
seed_broker = record {
  base = (bonding_seed_client_range vpn_network.ip).0;
  start_index = 1;
  end_index = 0xffff;
  own_name = "a";
  own_ip = "";
  own_used = false;
}

seed_and_shoot_apart_example :
    address_of_index seed_broker 7 ≢ bonding_shoot_client_ip vpn_network 7
seed_and_shoot_apart_example = seed_and_shoot_apart seed_broker vpn_network 7 7 sixteen refl

-- Ranges by their texts.
abbrev parse_cidr : String → Result IpNet
parse_cidr text =
    if str_eq text "10.0.0.0/16"
    then ok (record { ip = 10 ∷ 0 ∷ 0 ∷ 0 ∷ []; mask = 255 ∷ 255 ∷ 0 ∷ 0 ∷ [] })
    else if str_eq text "10.1.0.0/17"
    then ok (record { ip = 10 ∷ 1 ∷ 0 ∷ 0 ∷ []; mask = 255 ∷ 255 ∷ 128 ∷ 0 ∷ [] })
    else if str_eq text "242.0.0.0/15"
    then ok (record { ip = 242 ∷ 0 ∷ 0 ∷ 0 ∷ []; mask = 255 ∷ 254 ∷ 0 ∷ 0 ∷ [] })
    else err "invalid CIDR address"

abbrev sources : List String
sources = "10.1.0.0/17" ∷ "10.0.0.0/16" ∷ []

abbrev mapping : List (String × String)
mapping = ("10.0.0.0/16", "242.0.0.0/16") ∷ ("10.1.0.0/17", "242.1.0.0/17") ∷ []

-- The larger network comes first.
mapped : netmap_subnets insertion_sort parse_cidr sources "242.0.0.0/15" ≡ ok mapping
unfolding netmap_subnets src_infos sort_infos insertion_sort insert_info map_subnets_rec split_all
    subnet_split map_first netmap_subnet netmap_ip_net map_bytes subnets_from address_of_uint32
    uint32_of mask_size mask_length byte_ones all_zero to4 ip_mask and_bytes cidr_mask mask_bytes
    ipv4 cidr_string ip_string decimal find_key insert
mapped = refl

netmap_subnets-maps_example : All (IsMapped mapping) sources
netmap_subnets-maps_example =
    netmap_subnets-maps insertion_sort parse_cidr sources "242.0.0.0/15" mapping
      insertion_sort-IsSort mapped

abbrev wide : IpNet
wide = record { ip = 242 ∷ 0 ∷ 0 ∷ 0 ∷ []; mask = 255 ∷ 254 ∷ 0 ∷ 0 ∷ [] }

abbrev halves : List IpNet
halves =
    record { ip = 242 ∷ 0 ∷ 0 ∷ 0 ∷ []; mask = 255 ∷ 255 ∷ 0 ∷ 0 ∷ [] }
    ∷ record { ip = 242 ∷ 1 ∷ 0 ∷ 0 ∷ []; mask = 255 ∷ 255 ∷ 0 ∷ 0 ∷ [] }
    ∷ []

halved : subnet_split wide 16 ≡ ok halves
unfolding subnet_split subnets_from address_of_uint32 uint32_of mask_size mask_length byte_ones
    all_zero to4 ip_mask and_bytes cidr_mask mask_bytes ipv4
halved = refl

abbrev pods : IpNet
pods = record { ip = 10 ∷ 96 ∷ 0 ∷ 0 ∷ []; mask = 255 ∷ 240 ∷ 0 ∷ 0 ∷ [] }

abbrev nodes : IpNet
nodes = record { ip = 10 ∷ 99 ∷ 0 ∷ 0 ∷ []; mask = 255 ∷ 255 ∷ 0 ∷ 0 ∷ [] }

pods-IsNetwork : IsNetwork pods
unfolding network_number_and_mask to4 mask_length
pods-IsNetwork = record { has_number = refl; mask_ones = (12, refl) }

nodes-IsNetwork : IsNetwork nodes
unfolding network_number_and_mask to4 mask_length
nodes-IsNetwork = record { has_number = refl; mask_ones = (16, refl) }

overlap_any_iff_example : (overlap_any pods (nodes ∷ []) ≡ true) ↔ Any (Shares pods) (nodes ∷ [])
overlap_any_iff_example = overlap_any_iff pods (nodes ∷ []) pods-IsNetwork (nodes-IsNetwork, tt)

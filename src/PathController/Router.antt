-- ===== src/PathController/Router.antt =====
-- cmd/vpn_client/app/pathcontroller/client_router.go and pathcontroller.go. A key of `goodIPs` is the
-- text of an address; `net.ParseIP` of the Go library, and the pings, are parameters.
use vpn.Prelude.{
  ℕ, zero, suc, ◌+◌, ◌%◌, ◌==◌, ◌≡◌, refl, String, Bool, true, false, not, Option, none, some, List,
  [], ◌∷◌, ◌++◌, Result, ok, err, if◌then◌else◌, length, get_or, str_eq, contains, ◌&&◌,
}
use vpn.Prelude.Io.{Io, continue, ◌>>=◌, ◌>>◌, return, throw, for_each}
use vpn.Net.Ip.{Ip, ip_string, to4}
use vpn.Net.Mask.{IpNet}
use vpn.Network.Cidr.{Cidr, is_ipv4, overlap_any, parse_ip_net_ignore_error}
use vpn.Network.Bonding.{
  client_index_from_bonding_shoot_client_ip, bond_ip6_tunnel_link_name,
  all_bonding_shoot_client_ips,
}
use vpn.Network.Netlink.{Netlink}
use vpn.Network.Link.{link_index, route_for_network}
use vpn.Network.Netmap.{MappedRanges, shoot_networks_for_netmap, netmap_ip}
use vpn.Server.Values.{map_networks}
use vpn.Config.{PathController}
pub mod Primary

-- `clientRouter`: the primary client, nil at first, and `goodIPs`.
pub record ClientRouter : Type 0 where
  pub primary : Ip
  pub good_ips : List String

-- `delete(r.goodIPs, ...)`.
unfoldable pub remove : String → List String → List String
remove ip [] = []
remove ip (g ∷ gs) = let rest = remove ip gs in if str_eq g ip then rest else g ∷ rest

-- What a goroutine of `pingAllShootClients` does under the lock: the ping of a client failed or not.
unfoldable pub ping_done : ClientRouter → Ip → Bool → ClientRouter
unfolding remove
ping_done r client true = record r {
  good_ips =
      if contains r.good_ips (ip_string client) then r.good_ips else ip_string client ∷ r.good_ips;
}
ping_done r client false = record r { good_ips = remove (ip_string client) r.good_ips }

-- `pingAllShootClients`: the goroutines in the order in which they take the lock.
unfoldable pub pings_done : ClientRouter → List (Ip × Bool) → ClientRouter
unfolding ping_done
pings_done r [] = r
pings_done r ((client, answer) ∷ rest) = pings_done (ping_done r client answer) rest

-- `selectNewPrimaryShootClient`: the first key of a Go map, whose order is not specified, is the
-- element that a number picks.
unfoldable pub select_new_primary : (String → Ip) → ℕ → ClientRouter → Result Ip
select_new_primary parse_ip pick r =
    if length r.good_ips == 0
    then err "no more good ips in pool"
    else ok (parse_ip (get_or r.good_ips (pick % length r.good_ips) ""))

-- `netlinkRouter`.
pub record NetlinkRouter : Type 0 where
  pub shoot_pod_networks : List Cidr
  pub shoot_service_networks : List Cidr
  pub shoot_node_networks : List Cidr
  pub seed_pod_network : Cidr

-- The networks that routes are set for: services, pods, nodes. Where the seed's network overlaps one
-- of the shoot's, an IPv4 network is replaced by its range.
unfoldable pub routed_networks : (String → Result IpNet) → MappedRanges → NetlinkRouter → List Cidr
unfolding overlap_any map_networks
routed_networks parse_cidr ranges r =
    let overlap =
      overlap_any r.seed_pod_network
        (r.shoot_pod_networks ++ (r.shoot_service_networks ++ r.shoot_node_networks)) in
    map_networks overlap (parse_ip_net_ignore_error parse_cidr ranges.shoot_service)
      r.shoot_service_networks
    ++ (map_networks overlap (parse_ip_net_ignore_error parse_cidr ranges.shoot_pod)
          r.shoot_pod_networks
        ++ map_networks overlap (parse_ip_net_ignore_error parse_cidr ranges.shoot_node)
            r.shoot_node_networks)

module _ (nl : Netlink) (parse_cidr : String → Result IpNet) (ranges : MappedRanges) where
  open nl use {Host}

  -- The body of the last loop of `updateRouting`.
  unfoldable pub replace_network : ℕ → Cidr → Io Host (Unit {0})
  unfolding route_for_network
  replace_network index n h =
      let (h', r) = nl.route_replace (route_for_network nl n index) h in
      elim r [ ok u ↦ (h', ok tt) | err e ↦ (h', err "error replacing route") ]

  -- `updateRouting`.
  unfoldable pub update_routing : NetlinkRouter → Ip → Io Host (Unit {0})
  unfolding replace_network routed_networks link_index client_index_from_bonding_shoot_client_ip
      bond_ip6_tunnel_link_name
  update_routing r new_ip h =
      elim (link_index nl (
        nl.link_by_name h
          (bond_ip6_tunnel_link_name (client_index_from_bonding_shoot_client_ip new_ip)))) [
            | err e ↦ (h, err e)
            | ok index ↦
                elim (shoot_networks_for_netmap parse_cidr ranges r.shoot_pod_networks
                  r.shoot_service_networks r.shoot_node_networks) [
                    | err e ↦ (h, err e)
                    | ok mappings ↦
                        for_each (routed_networks parse_cidr ranges r) (replace_network index) h
                  ]
          ]

-- `netRouter` as an interface: `updateRouting` over the state of a host.
module _ {H : Type 0} (update : Ip → Io H (Unit {0})) (parse_ip : String → Ip) where
  -- Behind `selectNewPrimaryShootClient`.
  unfoldable pub switch_primary :
      Result Ip → ClientRouter → H → H × ClientRouter × Result (Unit {0})
  switch_primary (err e) r h = (h, r, err "error selecting a new shoot client")
  switch_primary (ok new_ip) r h =
      let (h', u) = update new_ip h in
      elim u [ err e ↦ (h', r, err e) | ok done ↦ (h', record r { primary = new_ip }, ok tt) ]

  -- `determinePrimaryShootClient`.
  unfoldable pub determine_primary : ℕ → ClientRouter → H → H × ClientRouter × Result (Unit {0})
  determine_primary pick r h =
      if contains r.good_ips (ip_string r.primary)
      then (h, r, ok tt)
      else switch_primary (select_new_primary parse_ip pick r) r h

  -- A tick of `Run`: an error is logged, and the router goes on.
  unfoldable pub tick :
      List (Ip × Bool) → ℕ → ClientRouter → H → H × ClientRouter × Result (Unit {0})
  tick pings pick r h = determine_primary pick (pings_done r pings) h

-- The text of the pod's own address that `run` tells the shoot clients.
unfoldable pub own_pod_ip :
    (String → Option Ip)
    → (String → Result IpNet)
    → MappedRanges
    → PathController
    → String
    → Result String
own_pod_ip parse_ip parse_cidr ranges cfg pod_ip =
    if str_eq pod_ip ""
    then err "POD_IP environment variable not set"
    else (let overlap =
          overlap_any cfg.seed_pod_network
            (cfg.shoot_pod_networks ++ (cfg.shoot_service_networks ++ cfg.shoot_node_networks)) in
        let v4 : Bool = elim (parse_ip pod_ip) [
          | none ↦ false
          | some ip ↦ elim (to4 ip) [ some b ↦ true | none ↦ false ]
        ] in
        if v4 && overlap then netmap_ip parse_ip parse_cidr pod_ip ranges.seed_pod else ok pod_ip)

-- The checked networks of `run`: those of the nodes, or else of the services.
unfoldable pub check_networks : PathController → Result (List Cidr)
check_networks cfg =
    if not (length cfg.shoot_node_networks == 0)
    then ok cfg.shoot_node_networks
    else if not (length cfg.shoot_service_networks == 0)
    then ok cfg.shoot_service_networks
    else err "network to check is undefined"

-- What `run` starts the loop of the router with: the router, its networks, the text of the pod's
-- address, and the clients to ping.
pub record Started : Type 0 where
  pub router : ClientRouter
  pub networks : NetlinkRouter
  pub pod_ip : String
  pub clients : List Ip

unfoldable pub start :
    (String → Option Ip)
    → (String → Result IpNet)
    → MappedRanges
    → PathController
    → String
    → Result Started
unfolding check_networks own_pod_ip all_bonding_shoot_client_ips
start parse_ip parse_cidr ranges cfg pod_ip = elim (check_networks cfg) [
  | err e ↦ err e
  | ok checked ↦ elim (own_pod_ip parse_ip parse_cidr ranges cfg pod_ip) [
    | err e ↦ err e
    | ok own ↦ ok record {
      router = record { primary = []; good_ips = [] };
      networks = record {
        shoot_pod_networks = cfg.shoot_pod_networks;
        shoot_service_networks = cfg.shoot_service_networks;
        shoot_node_networks = cfg.shoot_node_networks;
        seed_pod_network = cfg.seed_pod_network;
      };
      pod_ip = own;
      clients = all_bonding_shoot_client_ips cfg.vpn_network cfg.ha_vpn_clients;
    }
  ]
]

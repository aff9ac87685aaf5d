-- ===== src/Client/Rules.antt =====
-- pkg/vpn_client/iptables.go: the packet rules of the clients of the shoot and of the seed.
use vpn.Prelude.{
  ℕ, String, Bool, not, List, [], ◌∷◌, ◌++◌ as append_list, Result, ok, err, if◌then◌else◌, str_eq,
  ◌&&◌, ◌||◌,
}
use vpn.Prelude.Io.{Io, ◌>>◌, return, for_each}
use vpn.Net.Mask.{IpNet}
use vpn.Network.Cidr.{Cidr, cidr_string, is_ipv4, overlap_any, ipv6_family}
use vpn.Network.Netmap.{MappedRanges, shoot_networks_for_netmap}
use vpn.Network.Iptables.{Iptables, Table, Protocol, protocol_ipv4, protocol_ipv6, new_iptables}
use vpn.Config.Client.{VpnClient}
use vpn.Server.Rules.{all_output_rules}

-- `forwardDevice`.
unfoldable pub forward_device : VpnClient → String
forward_device cfg = if str_eq cfg.vpn_server_index "" then "tun0" else "bond0+"

-- `overlap`: the network of the seed's pods and one of the shoot's networks overlap.
unfoldable pub networks_overlap : VpnClient → Bool
unfolding overlap_any
networks_overlap cfg = overlap_any cfg.seed_pod_network (
    append_list cfg.shoot_pod_networks
      (append_list cfg.shoot_service_networks cfg.shoot_node_networks))

unfoldable pub protocol_of : String → Protocol
protocol_of family = if str_eq family ipv6_family then protocol_ipv6 else protocol_ipv4

-- Addresses that come from the tunnel are mapped to those of the shoot, and back.
unfoldable pub incoming_spec : String → String → String → List String
incoming_spec device mapped real =
    "--in-interface" ∷ device ∷ "-d" ∷ mapped ∷ "-j" ∷ "NETMAP" ∷ "--to" ∷ real ∷ []

unfoldable pub outgoing_spec : String → String → String → List String
outgoing_spec device mapped real =
    "--out-interface" ∷ device ∷ "-s" ∷ real ∷ "-j" ∷ "NETMAP" ∷ "--to" ∷ mapped ∷ []

module _ (ipt : Iptables) (group : ℕ) (parse_cidr : String → Result IpNet)
    (ranges : MappedRanges) where
  open ipt use {Host, append_unique}

  unfoldable pub both_ways : Table → String → String → String → Io Host (Unit {0})
  unfolding incoming_spec outgoing_spec
  both_ways table device mapped real = do
    append_unique table "nat" "PREROUTING" (incoming_spec device mapped real)
    append_unique table "nat" "POSTROUTING" (outgoing_spec device mapped real)

  -- One of the loops of the shoot client; the order of a Go map is not specified.
  unfoldable pub shoot_rules : Table → String → List (Cidr × Cidr) → Io Host (Unit {0})
  unfolding both_ways cidr_string
  shoot_rules table device pairs =
      for_each pairs (λ pair. both_ways table device (cidr_string pair.1) (cidr_string pair.0))

  -- The double NAT of the shoot client.
  unfoldable pub shoot_double_nat : Table → VpnClient → Io Host (Unit {0})
  unfolding shoot_rules forward_device
  shoot_double_nat table cfg h =
      elim (shoot_networks_for_netmap parse_cidr ranges cfg.shoot_pod_networks
        cfg.shoot_service_networks cfg.shoot_node_networks) [
          | err e ↦ (h, err e)
          | ok mappings ↦
              ((do
                shoot_rules table (forward_device cfg) mappings.0
                shoot_rules table (forward_device cfg) mappings.1
                shoot_rules table (forward_device cfg) mappings.2)
                h)
        ]

  -- The branch of the shoot client.
  unfoldable pub shoot_branch : Table → Protocol → VpnClient → Io Host (Unit {0})
  unfolding shoot_double_nat forward_device networks_overlap
  shoot_branch table protocol cfg = do
    (elim protocol [
      | protocol_ipv6 ↦ return tt
      | protocol_ipv4 ↦ (do
        append_unique table "filter" "FORWARD"
            ("--in-interface" ∷ forward_device cfg ∷ "-j" ∷ "ACCEPT" ∷ [])
        (if not cfg.is_ha || (cfg.is_ha && networks_overlap cfg)
            then shoot_double_nat table cfg
            else return tt))
    ])
    append_unique table "mangle" "POSTROUTING" (
        "-p" ∷ "tcp" ∷ "--tcp-flags" ∷ "SYN,RST" ∷ "SYN" ∷ "-j" ∷ "TCPMSS" ∷ "--clamp-mss-to-pmtu"
        ∷ [])
    append_unique table "nat" "POSTROUTING" ("--out-interface" ∷ "eth0" ∷ "-j" ∷ "MASQUERADE" ∷ [])

  -- The mapping of the seed's pods, behind those of the shoot.
  unfoldable pub seed_pod_rules : Table → VpnClient → Io Host (Unit {0})
  unfolding both_ways forward_device is_ipv4 cidr_string
  seed_pod_rules table cfg =
      if is_ipv4 cfg.seed_pod_network
      then both_ways table (forward_device cfg) ranges.seed_pod (cidr_string cfg.seed_pod_network)
      else return tt

  -- The double NAT of the seed client, on a table of its own.
  unfoldable pub seed_double_nat : VpnClient → Io Host (Unit {0})
  unfolding seed_pod_rules all_output_rules
  seed_double_nat cfg h = elim (new_iptables ipt h protocol_ipv4) [
    | err e ↦ (h, err e)
    | ok table ↦
        elim (shoot_networks_for_netmap parse_cidr ranges cfg.shoot_pod_networks
          cfg.shoot_service_networks cfg.shoot_node_networks) [
            | err e ↦ (h, err e)
            | ok mappings ↦
                ((do all_output_rules ipt group table mappings; seed_pod_rules table cfg) h)
          ]
  ]

  -- The branch of the seed client.
  unfoldable pub seed_branch : Table → Protocol → VpnClient → Io Host (Unit {0})
  unfolding seed_double_nat forward_device networks_overlap
  seed_branch table protocol cfg = do
    (elim protocol [
      | protocol_ipv4 ↦ (if networks_overlap cfg then seed_double_nat cfg else return tt)
      | protocol_ipv6 ↦
          append_unique table "filter" "INPUT"
            ("-i" ∷ forward_device cfg ∷ "-p" ∷ "icmpv6" ∷ "-j" ∷ "ACCEPT" ∷ [])
    ])
    append_unique table "filter" "INPUT" (
        "-m"
        ∷ "state"
        ∷ "--state"
        ∷ "RELATED,ESTABLISHED"
        ∷ "-i"
        ∷ forward_device cfg
        ∷ "-j"
        ∷ "ACCEPT"
        ∷ [])
    append_unique table "filter" "INPUT" ("-i" ∷ forward_device cfg ∷ "-j" ∷ "DROP" ∷ [])

  -- The body of the loop over the families.
  unfoldable pub family_rules : VpnClient → String → Io Host (Unit {0})
  unfolding shoot_branch seed_branch protocol_of
  family_rules cfg family h = elim (new_iptables ipt h (protocol_of family)) [
    | err e ↦ (h, err e)
    | ok table ↦
        if cfg.is_shoot_client
        then shoot_branch table (protocol_of family) cfg h
        else seed_branch table (protocol_of family) cfg h
  ]

  -- `SetIPTableRules`.
  unfoldable pub set_client_rules : VpnClient → Io Host (Unit {0})
  unfolding family_rules
  set_client_rules cfg = for_each cfg.ip_families (family_rules cfg)

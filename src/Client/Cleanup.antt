-- ===== src/Client/Cleanup.antt =====
-- pkg/vpn_client/cleanup.go and cmd/vpn_client/app/app.go.
use Prim.Native.String.{◌++◌}
use vpn.Prelude.{
  ℕ, suc, ◌+◌, ◌-◌, ◌%◌, ◌^◌, String, Bool, true, false, not, List, [], ◌∷◌, Result, ok, err,
  if◌then◌else◌, str_eq, ◌&&◌, ◌==◌, length,
}
use vpn.Prelude.Int.{ℤ, pos, negsuc}
use vpn.Prelude.Io.{Io, continue, ◌>>◌, for_each, on_left, on_right}
use vpn.Net.Mask.{IpNet}
use vpn.Network.Cidr.{cidr_string, is_ipv4}
use vpn.Network.Netlink.{Netlink, LinkAnswer, found, not_found, failed, Addr}
use vpn.Network.Link.{detect_tunnel_mtu}
use vpn.Network.Netmap.{MappedRanges}
use vpn.Network.Iptables.{Iptables}
use vpn.Config.Client.{VpnClient, primary_ip_family}
use vpn.Client.Rules.{set_client_rules}

-- `ClientValues` of pkg/openvpn/config_client.go.
pub record ClientValues : Type 0 where
  pub ip_family : String
  pub reversed_vpn_header : String
  pub reversed_vpn_header_key : String
  pub endpoint : String
  pub openvpn_port : ℕ
  pub management_port : ℕ
  pub vpn_client_index : ℤ
  pub is_shoot_client : Bool
  pub is_ha : Bool
  pub device : String
  pub seed_pod_network : String
  pub is_dual_stack : Bool
  pub tun_mtu : ℕ

-- An `int` as a `uint` of 64 bits.
unfoldable pub to_uint : ℤ → ℕ
to_uint (pos n) = n % 2 ^ 64
to_uint (negsuc n) = 2 ^ 64 - suc (n % 2 ^ 64)

-- `strconv.Atoi` where the error is ignored.
unfoldable pub atoi_or_zero : Result ℤ → ℤ
atoi_or_zero (ok i) = i
atoi_or_zero (err e) = pos 0

-- `vpnConfig`.
unfoldable pub vpn_config : (String → Result ℤ) → MappedRanges → VpnClient → ℕ → ClientValues
unfolding to_uint atoi_or_zero primary_ip_family cidr_string is_ipv4
vpn_config atoi ranges cfg tun_mtu =
    let single = str_eq cfg.vpn_server_index "" in
    record {
      ip_family = primary_ip_family cfg;
      reversed_vpn_header = cfg.reversed_vpn_header;
      reversed_vpn_header_key = cfg.reversed_vpn_header_key;
      endpoint = cfg.endpoint;
      openvpn_port = cfg.openvpn_port;
      management_port =
          if single
          then 7505
          else (7505 + to_uint (atoi_or_zero (atoi cfg.vpn_server_index))) % 2 ^ 64;
      vpn_client_index = cfg.vpn_client_index;
      is_shoot_client = cfg.is_shoot_client;
      is_ha = cfg.is_ha;
      device = if single then "tun0" else "tap" ++ cfg.vpn_server_index;
      seed_pod_network =
          if not cfg.is_ha && is_ipv4 cfg.seed_pod_network
          then ranges.seed_pod
          else cidr_string cfg.seed_pod_network;
      is_dual_stack = length cfg.ip_families == 2;
      tun_mtu = tun_mtu;
    }

module _ (nl : Netlink) where
  open nl use {Host}

  -- Behind `AddrList`.
  unfoldable pub remove_addresses : ℕ → List Addr → Io Host (Unit {0})
  remove_addresses index [] h = (h, ok tt)
  remove_addresses index (a ∷ as') h =
      continue (nl.link_set_down index h) (λ u. for_each (a ∷ as') (nl.addr_del index))

  -- Behind `LinkByName`.
  unfoldable pub cleanup_link : LinkAnswer → Io Host (Unit {0})
  unfolding remove_addresses
  cleanup_link not_found h = (h, ok tt)
  cleanup_link (failed e) h = (h, err "failed to get link")
  cleanup_link (found index) h = elim (nl.addr_list_ipv6 h index) [
    | err e ↦ (h, err "failed to list addresses for link")
    | ok addrs ↦ remove_addresses index addrs h
  ]

  -- `Cleanup`.
  unfoldable pub cleanup : ClientValues → Io Host (Unit {0})
  unfolding cleanup_link
  cleanup values h = cleanup_link (nl.link_by_name h values.device) h

  -- The MTU where it is to be detected, and 0 where not.
  unfoldable pub tun_mtu_of : Bool → Host → Result ℕ
  tun_mtu_of false h = ok 0
  tun_mtu_of true h = detect_tunnel_mtu nl h 130

-- `run`, behind `GetVPNClientConfig`. The file of the configuration is written by a parameter.
module _ (ipt : Iptables) (nl : Netlink) (group : ℕ) (parse_cidr : String → Result IpNet)
    (ranges : MappedRanges) (atoi : String → Result ℤ)
    (write_client_config_file : ClientValues → Io nl.Host (Unit {0})) where
  unfoldable pub run_client : VpnClient → Io (ipt.Host × nl.Host) (Unit {0})
  unfolding tun_mtu_of vpn_config cleanup set_client_rules
  run_client cfg (h, k) = elim (tun_mtu_of nl cfg.auto_mtu k) [
    | err e ↦ ((h, k), err "failed to detect tunnel MTU")
    | ok mtu ↦
        ((do
          on_left (set_client_rules ipt group parse_cidr ranges cfg)
          on_right (cleanup nl (vpn_config atoi ranges cfg mtu))
          on_right (write_client_config_file (vpn_config atoi ranges cfg mtu)))
          (h, k))
  ]

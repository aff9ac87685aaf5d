-- ===== src/Config/Server.antt =====
-- pkg/config/vpn-server.go.
use vpn.Prelude.{String, Bool, not, List, Result, ok, guard, ◌>>◌, ◌>>=◌, if◌then◌else◌, str_eq}
use vpn.Prelude.Int.{ℤ, pos, ltb_ℤ}
use vpn.Network.Cidr.{Cidr}
use vpn.Config.{validate_vpn_network_cidr, with_default}

pub record VpnServer : Type 0 where
  pub shoot_service_networks : List Cidr
  pub shoot_pod_networks : List Cidr
  pub shoot_node_networks : List Cidr
  pub vpn_network : Cidr
  pub seed_pod_network : Cidr
  pub pod_name : String
  pub status_path : String
  pub is_ha : Bool
  pub ha_vpn_clients : ℤ
  pub local_node_ip : String
  pub auto_mtu : Bool

-- The checks in HA mode.
unfoldable pub check_server_ha : VpnServer → Result (Unit {0})
check_server_ha cfg = do
  guard (not (str_eq cfg.pod_name "")) "IS_HA is set to true but POD_NAME is not set"
  guard (ltb_ℤ (pos 0) cfg.ha_vpn_clients)
      "IS_HA is set to true but HA_VPN_CLIENTS is not set or invalid"

-- `GetVPNServerConfig`, on what `env.Parse` answers.
unfoldable pub get_vpn_server_config : Result Cidr → Result VpnServer → Result VpnServer
get_vpn_server_config vpn_network_default parsed = do
  cfg ← parsed
  nw ← with_default vpn_network_default cfg.vpn_network
  validate_vpn_network_cidr nw
  (if cfg.is_ha then check_server_ha cfg else ok tt)
  guard (not (str_eq cfg.status_path "")) "OPENVPN_STATUS_PATH is not set"
  ok (record cfg { vpn_network = nw })

-- ===== src/Config.antt =====
-- pkg/config: the settings of the programs and their validation. `env.Parse`, of another package, has
-- filled the records; `strconv.Atoi` of the Go library is a parameter. Durations are nanoseconds.
use vpn.Prelude.{
  ℕ, zero, suc, ◌≤◌, ◌≡◌, refl, String, Bool, true, false, not, Option, none, some, List, [], ◌∷◌,
  Result, ok, err, guard, ◌>>◌, ◌>>=◌, ltb, leb, ◌==◌, ◌&&◌, ◌||◌, if◌then◌else◌, length, get_or,
  str_eq, contains,
}
use vpn.Prelude.Int.{ℤ, pos, negsuc, ltb_ℤ, leb_ℤ}
use vpn.Net.Mask.{mask_size}
use vpn.Net.Text.{split}
use vpn.Network.Cidr.{Cidr, cidr_string, ipv4_family, ipv6_family}
mod Tests
pub mod Client
pub mod Server

-- `validateVPNNetworkCIDR`.
unfoldable pub validate_vpn_network_cidr : Cidr → Result (Unit {0})
unfolding mask_size
validate_vpn_network_cidr cidr =
    guard ((mask_size cidr.mask).0 == 96) "vpn network needs to have /96 subnet mask"

-- The default network where none is set.
unfoldable pub with_default : Result Cidr → Cidr → Result Cidr
unfolding cidr_string
with_default vpn_network_default cidr =
    if str_eq (cidr_string cidr) "" then vpn_network_default else ok cidr

-- `PathController`.
pub record PathController : Type 0 where
  pub ip_families : String
  pub vpn_network : Cidr
  pub ha_vpn_clients : ℕ
  pub shoot_service_networks : List Cidr
  pub shoot_pod_networks : List Cidr
  pub shoot_node_networks : List Cidr
  pub seed_pod_network : Cidr

-- `PathController.PrimaryIPFamily`.
unfoldable pub path_primary_ip_family : PathController → String
path_primary_ip_family v = get_or (split v.ip_families ",") 0 ""

-- `GetPathControllerConfig`, on what `env.Parse` answers.
unfoldable pub get_path_controller_config :
    Result Cidr → Result PathController → Result PathController
unfolding with_default validate_vpn_network_cidr
get_path_controller_config vpn_network_default parsed = do
  cfg ← parsed
  nw ← with_default vpn_network_default cfg.vpn_network
  validate_vpn_network_cidr nw
  ok (record cfg { vpn_network = nw })

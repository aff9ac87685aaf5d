-- ===== src/Config/Client.antt =====
-- pkg/config/vpn-client.go.
use Prim.Native.Nat.{Ordering}
use Prim.Native.String.{compare as compare_text}
use vpn.Prelude.{
  ℕ, zero, suc, ◌≤◌, ◌≡◌, ◌-◌, refl, String, Bool, true, false, not, Option, none, some, List, [],
  ◌∷◌, Result, ok, err, guard, ◌>>◌, ◌>>=◌, ltb, leb, ◌==◌, ◌&&◌, ◌||◌, if◌then◌else◌, length,
  get_or, str_eq, contains,
}
use vpn.Prelude.Int.{ℤ, pos, negsuc, ltb_ℤ, leb_ℤ}
use vpn.Net.Text.{split}
use vpn.Network.Cidr.{Cidr, ipv4_family, ipv6_family}
use vpn.Config.{validate_vpn_network_cidr, with_default}
pub mod Valid

pub record VpnClient : Type 0 where
  pub ip_families : List String
  pub endpoint : String
  pub openvpn_port : ℕ
  pub vpn_network : Cidr
  pub seed_pod_network : Cidr
  pub shoot_service_networks : List Cidr
  pub shoot_pod_networks : List Cidr
  pub shoot_node_networks : List Cidr
  pub is_shoot_client : Bool
  pub pod_name : String
  pub namespace : String
  pub vpn_server_index : String
  pub vpn_client_index : ℤ
  pub is_ha : Bool
  pub reversed_vpn_header : String
  pub reversed_vpn_header_key : String
  pub ha_vpn_clients : ℕ
  pub ha_vpn_servers : ℕ
  pub pod_label_selector : String
  pub wait_time : ℤ
  pub bonding_mode : String
  pub auto_mtu : Bool

-- `PrimaryIPFamily`.
unfoldable pub primary_ip_family : VpnClient → String
primary_ip_family v = get_or v.ip_families 0 ""

abbrev pub bonding_modes : List String
bonding_modes = "active-backup" ∷ "balance-rr" ∷ []

-- The checks in HA mode.
unfoldable pub check_ha : VpnClient → Result (Unit {0})
check_ha cfg = do
  guard (not (cfg.is_shoot_client && str_eq cfg.pod_name "")) "POD_NAME is not set"
  guard (not (ltb 0 cfg.ha_vpn_servers && cfg.ha_vpn_clients == 0)) "HA_VPN_CLIENTS is set to 0"
  guard (not (ltb 0 cfg.ha_vpn_clients && cfg.ha_vpn_servers == 0)) "HA_VPN_SERVERS is set to 0"
  guard (contains bonding_modes cfg.bonding_mode) "BONDING_MODE must be one of the supported ones"

-- The loop over the families.
unfoldable pub check_families : List String → Result (Unit {0})
check_families [] = ok tt
check_families (f ∷ fs) = do
  guard (str_eq f ipv4_family || str_eq f ipv6_family) "IP_FAMILIES can only contain IPv4 or IPv6"
  check_families fs

-- `slices.Sort` of texts, as an insertion sort.
unfoldable pub insert_text : String → List String → List String
insert_text a [] = a ∷ []
insert_text a (b ∷ bs) =
    let rest = insert_text a bs in
    elim (compare_text b a) [ Ordering.lt ↦ b ∷ rest | _ ↦ a ∷ (b ∷ bs) ]

unfoldable pub sort_texts : List String → List String
unfolding insert_text
sort_texts [] = []
sort_texts (a ∷ as') = insert_text a (sort_texts as')

-- `slices.Compact`, behind an element.
unfoldable pub compact_after : String → List String → List String
compact_after a [] = a ∷ []
compact_after a (b ∷ bs) = let rest = compact_after b bs in if str_eq a b then rest else a ∷ rest

unfoldable pub compact_texts : List String → List String
unfolding compact_after
compact_texts [] = []
compact_texts (a ∷ as') = compact_after a as'

-- The last part of the pod's name as a number, or -1.
unfoldable pub client_index_of : (String → Result ℤ) → String → ℤ
client_index_of atoi pod_name =
    if str_eq pod_name ""
    then negsuc 0
    else (let parts = split pod_name "-" in
        elim (atoi (get_or parts (length parts - 1) "")) [ ok i ↦ i | err e ↦ negsuc 0 ])

-- `GetVPNClientConfig`, on what `env.Parse` answers.
unfoldable pub get_vpn_client_config :
    (String → Result ℤ) → Result Cidr → Result VpnClient → Result VpnClient
get_vpn_client_config atoi vpn_network_default parsed = do
  cfg ← parsed
  nw ← with_default vpn_network_default cfg.vpn_network
  validate_vpn_network_cidr nw
  (if cfg.is_ha then check_ha cfg else ok tt)
  guard (leb 1 (length cfg.ip_families) && leb (length cfg.ip_families) 2)
      "IP_FAMILIES must contain at least one but no more than 2 elements"
  check_families cfg.ip_families
  guard (leb_ℤ (pos 0) cfg.wait_time) "WAIT_TIME must not be negative"
  ok (record cfg {
    vpn_network = nw;
    ip_families = compact_texts (sort_texts cfg.ip_families);
    vpn_client_index = client_index_of atoi cfg.pod_name;
  })

-- ===== src/Openvpn/Health.antt =====
-- pkg/openvpn/health: whether the OpenVPN server is alive and ready, from its status file.
use vpn.Prelude.{
  ℕ, zero, suc, ◌+◌, ◌-◌, ◌*◌, ◌≤◌, ◌≡◌, ◌↔◌, ◌⊎◌, inl, inr, refl, String, Bool, true, false, not,
  List, [], ◌∷◌, ◌++◌, Result, ok, err, leb, ltb, ◌==◌, if◌then◌else◌, length, is_nil, str_eq,
  starts_with, ◌||◌, ◌&&◌, Any, arith, eq_iff, Bool-cases, Option, none, some,
}
use vpn.Openvpn.Status.{OpenVpnStatus, ClientInfo, Parsers, parse_openvpn_status}
pub mod Readiness

abbrev pub shoot_client_prefix : String
shoot_client_prefix = "vpn-shoot-client"

abbrev pub seed_client_prefix : String
seed_client_prefix = "vpn-seed-client"

abbrev pub second : ℕ
second = 1000000000

-- `isUp` of a status that is not nil.
unfoldable pub is_up : ℕ → OpenVpnStatus → ℕ → Bool
is_up now status update_interval = leb (now - status.updated_at) ((update_interval + 2) * second)

unfoldable pub is_seed : ClientInfo → Bool
is_seed c = starts_with c.common_name seed_client_prefix

unfoldable pub is_shoot : ClientInfo → Bool
is_shoot c = starts_with c.common_name shoot_client_prefix

-- The loop of `isReady` in HA mode, with `foundSeedClient` and `foundShootClient`.
unfoldable pub find_clients : List ClientInfo → Bool → Bool → Bool × Bool
find_clients [] found_seed found_shoot = (found_seed, found_shoot)
find_clients (c ∷ cs) found_seed found_shoot =
    if is_seed c
    then find_clients cs true found_shoot
    else if is_shoot c
    then find_clients cs found_seed true
    else find_clients cs found_seed found_shoot

-- The loop of `isReady` in non-HA mode.
unfoldable pub any_shoot : List ClientInfo → Bool
any_shoot [] = false
any_shoot (c ∷ cs) = let rest = any_shoot cs in if is_shoot c then true else rest

-- `isReady` of a status that is not nil.
unfoldable pub is_ready : OpenVpnStatus → Bool → Bool
unfolding find_clients any_shoot
is_ready status is_ha =
    if is_ha
    then if ltb (length status.clients) 2
      then false
      else (let found : Bool × Bool = find_clients status.clients false false in found.0 && found.1)
    else if length status.clients == 0
    then true
    else any_shoot status.clients

-- `Config` of the liveness and readiness server.
pub record Config : Type 0 where
  pub openvpn_status_path : String
  pub openvpn_status_update_interval : ℕ
  pub is_ha : Bool

unfoldable pub new_default_config : Config
new_default_config = record {
  openvpn_status_path = "/srv/status/openvpn.status";
  openvpn_status_update_interval = 15;
  is_ha = false;
}

-- The lines of a file, or the error of opening or reading it, are a parameter.
module _ (parsers : Parsers) (read_lines : String → Result (List String)) where
  -- `ParseFile`.
  unfoldable pub parse_file : String → Result OpenVpnStatus
  parse_file path = elim (read_lines path) [
    | err e ↦ err e
    | ok ls ↦ parse_openvpn_status parsers ls
  ]

  unfoldable pub is_alive : ℕ → Config → Bool
  unfolding parse_file is_up
  is_alive now cfg = elim (parse_file cfg.openvpn_status_path) [
    | err e ↦ false
    | ok status ↦ if is_up now status cfg.openvpn_status_update_interval then true else false
  ]

  unfoldable pub is_server_ready : Config → Bool
  unfolding parse_file is_ready
  is_server_ready cfg = elim (parse_file cfg.openvpn_status_path) [
    | err e ↦ false
    | ok status ↦ if is_ready status cfg.is_ha then true else false
  ]

-- ===== src/Openvpn/Tests.antt =====
-- A status file, read and judged.
use vpn.Prelude.{starts_with, ◌≡◌, ◌↔◌, ◌⊎◌, refl, String, true, false, List, [], ◌∷◌, ok, Any}
use vpn.Net.Text.{split, join}
use vpn.Openvpn.Status.{
  OpenVpnStatus, ClientInfo, Parsers, parse_openvpn_status, parse_lines, parse_line, parse_parts,
  title_line, time_line, client_line, client_info, routing_line, stats_line,
}
use vpn.Openvpn.Status.Clients.{names, listed, parse_openvpn_status-names}
use vpn.Openvpn.Health.{is_ready}
use vpn.Openvpn.Health.Readiness.{IsSeed, IsShoot, is_ready-ha, is_ready-single}

abbrev parsers : Parsers
parsers = record {
  parse_time = λ t. ok 7;
  parse_ip = λ t. [];
  parse_uint = λ t. ok 5;
  parse_real_client_address = λ t. ok t;
}

abbrev client : String → ClientInfo
client name = record {
  common_name = name;
  real_address = "10.0.0.1:1234";
  virtual_address = "";
  virtual_ipv6_address = [];
  bytes_received = 5;
  bytes_sent = 5;
  connected_since = 7;
  username = "UNDEF";
  client_id = "0";
  peer_id = "0";
  data_channel_cipher = "AES-256-GCM";
}

abbrev status : OpenVpnStatus
status = record {
  version = "OpenVPN 2.6";
  updated_at = 7;
  clients = client "vpn-seed-client" ∷ client "vpn-shoot-client-1" ∷ [];
  routing_table = [];
  global_stats = [];
}

abbrev lines : List String
lines =
    "TITLE,OpenVPN 2.6" ∷ "TIME,2024-01-01 00:00:00,1"
    ∷ "CLIENT_LIST,vpn-seed-client,10.0.0.1:1234,,,5,5,2024-01-01 00:00:00,1,UNDEF,0,0,AES-256-GCM"
    ∷ "CLIENT_LIST,vpn-shoot-client-1,10.0.0.1:1234,,,5,5,2024-01-01 00:00:00,1,UNDEF,0,0,AES-256-GCM"
    ∷ "END" ∷ []

parsed : parse_openvpn_status parsers lines ≡ ok status
unfolding parse_openvpn_status parse_lines parse_line parse_parts title_line time_line client_line
    client_info routing_line stats_line split join
parsed = refl

parse_openvpn_status-names_example : names status.clients ≡ listed lines
parse_openvpn_status-names_example = parse_openvpn_status-names parsers lines status parsed

is_ready-ha_example :
    (is_ready status true ≡ true) ↔ (Any IsSeed status.clients × Any IsShoot status.clients)
is_ready-ha_example = is_ready-ha status

is_ready-single_example : (is_ready status false ≡ true) ↔ (
    (status.clients ≡ [])
    ⊎ Any (λ (c : ClientInfo). starts_with c.common_name "vpn-shoot-client" ≡ true) status.clients)
is_ready-single_example = is_ready-single status

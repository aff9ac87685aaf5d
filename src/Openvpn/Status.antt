-- ===== src/Openvpn/Status.antt =====
-- pkg/openvpn/health/status.go: the status file of OpenVPN. `time.Parse`, `net.ParseIP` and
-- `strconv.ParseUint` of the Go library are parameters of the parser, and so is the parser of client
-- addresses, which Address models over `netip`.
use vpn.Prelude.{
  ℕ, zero, suc, ◌≡◌, refl, String, Bool, true, false, List, [], ◌∷◌, ◌++◌, Result, ok, err, leb,
  ltb, if◌then◌else◌, length, get_or, drop, str_eq, starts_with, ◌||◌, ◌&&◌,
}
use vpn.Prelude.Dict.{insert}
pub mod Clients
pub mod Address
use vpn.Net.Text.{split, join}

-- Times are nanoseconds.
pub record ClientInfo : Type 0 where
  pub common_name : String
  pub real_address : String
  pub virtual_address : String
  pub virtual_ipv6_address : List ℕ
  pub bytes_received : ℕ
  pub bytes_sent : ℕ
  pub connected_since : ℕ
  pub username : String
  pub client_id : String
  pub peer_id : String
  pub data_channel_cipher : String

pub record RoutingEntry : Type 0 where
  pub virtual_address : String
  pub common_name : String
  pub real_address : String
  pub last_ref : ℕ

pub record OpenVpnStatus : Type 0 where
  pub version : String
  pub updated_at : ℕ
  pub clients : List ClientInfo
  pub routing_table : List RoutingEntry
  pub global_stats : List (String × String)

-- The parsers of fields.
pub record Parsers : Type 0 where
  pub parse_time : String → Result ℕ
  pub parse_ip : String → List ℕ
  pub parse_uint : String → Result ℕ
  pub parse_real_client_address : String → Result String

abbrev pub field : List String → ℕ → String
field parts i = get_or parts i ""

unfoldable pub title_line : OpenVpnStatus → List String → OpenVpnStatus
title_line s parts = record s { version = join (drop 1 parts) "," }

abbrev pub empty_status : OpenVpnStatus
empty_status = record {
  version = "";
  updated_at = 0;
  clients = [];
  routing_table = [];
  global_stats = [];
}

module _ (p : Parsers) where
  open p use {parse_time, parse_ip, parse_uint, parse_real_client_address}

  unfoldable pub time_line : OpenVpnStatus → List String → Result OpenVpnStatus
  time_line s parts =
      if leb 2 (length parts)
      then elim (parse_time (field parts 1)) [
        | err e ↦ err e
        | ok t ↦ ok (record s { updated_at = t })
      ]
      else err "invalid TIME line"

  -- The fields of a `CLIENT_LIST` line, in the order in which they are parsed.
  unfoldable pub client_info : List String → Result ClientInfo
  client_info parts = elim (parse_time (field parts 7)) [
    | err e ↦ err e
    | ok since ↦ elim (parse_real_client_address (field parts 2)) [
      | err e ↦ err "CLIENT_LIST: can't parse real client address"
      | ok address ↦ elim (parse_uint (field parts 5)) [
        | err e ↦ err e
        | ok received ↦ elim (parse_uint (field parts 6)) [
          | err e ↦ err e
          | ok sent ↦ ok record {
            common_name = field parts 1;
            real_address = address;
            virtual_address = field parts 3;
            virtual_ipv6_address = parse_ip (field parts 4);
            bytes_received = received;
            bytes_sent = sent;
            connected_since = since;
            username = field parts 9;
            client_id = field parts 10;
            peer_id = field parts 11;
            data_channel_cipher = field parts 12;
          }
        ]
      ]
    ]
  ]

  unfoldable pub client_line : OpenVpnStatus → List String → Result OpenVpnStatus
  unfolding client_info
  client_line s parts =
      if leb 13 (length parts)
      then elim (client_info parts) [
        | err e ↦ err e
        | ok c ↦ ok (record s { clients = s.clients ++ (c ∷ []) })
      ]
      else err "invalid CLIENT_LIST line"

  unfoldable pub routing_entry : List String → Result RoutingEntry
  routing_entry parts = elim (parse_time (field parts 4)) [
    | err e ↦ err e
    | ok last ↦ elim (parse_real_client_address (field parts 3)) [
      | err e ↦ err "ROUTING_TABLE: can't parse real client address"
      | ok address ↦ ok record {
        virtual_address = field parts 1;
        common_name = field parts 2;
        real_address = address;
        last_ref = last;
      }
    ]
  ]

  unfoldable pub routing_line : OpenVpnStatus → List String → Result OpenVpnStatus
  unfolding routing_entry
  routing_line s parts =
      if leb 5 (length parts)
      then elim (routing_entry parts) [
        | err e ↦ err e
        | ok r ↦ ok (record s { routing_table = s.routing_table ++ (r ∷ []) })
      ]
      else err "invalid ROUTING_TABLE line"

  unfoldable pub stats_line : OpenVpnStatus → List String → Result OpenVpnStatus
  stats_line s parts =
      if leb 2 (length parts)
      then ok (record s {
        global_stats = insert (field parts 1) (join (drop 2 parts) ",") s.global_stats;
      })
      else err "invalid GLOBAL_STATS line"

  -- The switch of the loop.
  unfoldable pub parse_parts : OpenVpnStatus → List String → Result OpenVpnStatus
  unfolding title_line time_line client_line routing_line stats_line
  parse_parts s parts =
      let kind = field parts 0 in
      if str_eq kind "TITLE"
      then ok (title_line s parts)
      else if str_eq kind "TIME"
      then time_line s parts
      else if str_eq kind "CLIENT_LIST"
      then client_line s parts
      else if str_eq kind "ROUTING_TABLE"
      then routing_line s parts
      else if str_eq kind "GLOBAL_STATS"
      then stats_line s parts
      else if str_eq kind "HEADER"
      then ok s
      else err "unknown line type"

  -- The body of the loop.
  unfoldable pub parse_line : OpenVpnStatus → String → Result OpenVpnStatus
  unfolding parse_parts
  parse_line s line =
      if str_eq line "" || str_eq line "END" then ok s else parse_parts s (split line ",")

  unfoldable pub parse_lines : OpenVpnStatus → List String → Result OpenVpnStatus
  unfolding parse_line
  parse_lines s [] = ok s
  parse_lines s (l ∷ ls) = elim (parse_line s l) [ err e ↦ err e | ok s' ↦ parse_lines s' ls ]

  -- `ParseOpenVPNStatus` of the lines of a file.
  unfoldable pub parse_openvpn_status : List String → Result OpenVpnStatus
  unfolding parse_lines
  parse_openvpn_status ls = parse_lines empty_status ls

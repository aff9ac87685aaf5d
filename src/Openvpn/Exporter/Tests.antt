-- ===== src/Openvpn/Exporter/Tests.antt =====
-- The collector, on files of /proc.
use vpn.Prelude.{
  ◌≡◌, refl, inl, String, ℕ, none, some, [], ◌∷◌, Result, ok, err, str_eq, if◌then◌else◌,
}
use vpn.Prelude.Dict.{lookup}
use vpn.Network.NetStat.{
  Stats, get_net_stats, Fields, Files, Opened, opened, not_exist, get_net_stats_file, net_stats_of,
  parse_net_stats, get_snmp6_stats_file, snmp6_stats_of,
}
use vpn.Network.NetStat.RoundTrip.{table_lines}
use vpn.Network.NetStat.Tests.{table, table-IsTable}
use vpn.Openvpn.Exporter.{collect}
use vpn.Openvpn.Exporter.Sent.{expected, fields_of, collect-counter, Sends, tcp_metric}

-- No file of IPv6, as where it is disabled, and an empty netstat.
abbrev open_in_proc : String → String → Opened
open_in_proc dir name =
    if str_eq name "net/snmp"
    then opened (record { lines = table_lines table; failure = none })
    else if str_eq name "net/netstat"
    then opened (record { lines = []; failure = none })
    else not_exist

abbrev files : Files
files = record {
  join_path = λ dir name. name;
  split_path = λ path. ("/proc/", path);
  open_in_root = open_in_proc;
}

abbrev parse_number : String → Result ℕ
parse_number t = if str_eq t "1207" then ok 1207 else err "invalid syntax"

abbrev tcp_fields : Fields
tcp_fields = ("MaxConn", "-1") ∷ ("OutSegs", "1207") ∷ ("RetransSegs", "n/a") ∷ []

netstat_read : get_net_stats_file files "net/netstat" ≡ some (ok [])
unfolding get_net_stats_file net_stats_of parse_net_stats
netstat_read = refl

snmp6_read : get_snmp6_stats_file files "net/snmp6" ≡ ok []
unfolding get_snmp6_stats_file snmp6_stats_of
snmp6_read = refl

out_segs : lookup "OutSegs" tcp_fields ≡ some "1207"
unfolding lookup
out_segs = refl

tcp : lookup "Tcp" table ≡ some tcp_fields
unfolding lookup
tcp = refl

collect-counter_example :
    (stats : Stats) × (get_net_stats files "/proc" ≡ some (ok stats))
    × (collect parse_number files ≡ some (expected parse_number (fields_of stats)))
    × Sends (tcp_metric "OutSegs" 1207) (expected parse_number (fields_of stats))
collect-counter_example =
    collect-counter parse_number files [] table [] tcp_fields "OutSegs" "1207" 1207 netstat_read
      refl table-IsTable snmp6_read tcp out_segs (inl refl) refl

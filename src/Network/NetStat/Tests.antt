-- ===== src/Network/NetStat/Tests.antt =====
-- Files of /proc/net, read.
use vpn.Prelude.{◌≡◌, refl, none, some, [], ◌∷◌, ok, err}
use vpn.Prelude.Dict.{lookup}
use vpn.Net.Text.{join, split}
use vpn.Network.NetStat.{Stats, parse_net_stats, parse_snmp6_stats}
use vpn.Network.NetStat.RoundTrip.{IsTable, table_lines, parse_net_stats-table_lines}

abbrev pub table : Stats
table =
    ("Ip", ("Forwarding", "1") ∷ ("DefaultTTL", "64") ∷ [])
    ∷ ("Tcp", ("MaxConn", "-1") ∷ ("OutSegs", "1207") ∷ ("RetransSegs", "n/a") ∷ [])
    ∷ []

abbrev pub table-IsTable : IsTable table
unfolding lookup
table-IsTable = (
  (refl, (refl, tt)),
  (
    (refl, (refl, (refl, tt)), (refl, (refl, tt)), (refl, (refl, tt))),
    (
      (refl, (refl, (refl, (refl, tt))), (refl, (refl, (refl, tt))), (refl, (refl, (refl, tt)))),
      tt,
    ),
  ),
)

table_lines_test :
    table_lines table
    ≡ "Ip: Forwarding DefaultTTL" ∷ "Ip: 1 64" ∷ "Tcp: MaxConn OutSegs RetransSegs"
      ∷ "Tcp: -1 1207 n/a" ∷ []
unfolding join
table_lines_test = refl

parse_net_stats-table_lines_example :
    parse_net_stats (record { lines = table_lines table; failure = none }) ≡ some (ok table)
parse_net_stats-table_lines_example = parse_net_stats-table_lines table table-IsTable

no_values :
    parse_net_stats (record { lines = "Tcp: OutSegs" ∷ []; failure = none })
    ≡ some (err "missing value line")
unfolding parse_net_stats
no_values = refl

-- Two empty lines panic.
empty_lines : parse_net_stats (record { lines = "" ∷ "" ∷ []; failure = none }) ≡ none
unfolding parse_net_stats split
empty_lines = refl

snmp6 :
    parse_snmp6_stats (record {
      lines = "Ip6InReceives  \t 12" ∷ "Icmp6InMsgs 3" ∷ "Ip6OutRequests 7" ∷ "none here" ∷ [];
      failure = none;
    })
    ≡ ok (
        ("Ip6", ("InReceives", "12") ∷ ("OutRequests", "7") ∷ [])
        ∷ ("Icmp6", ("InMsgs", "3") ∷ [])
        ∷ [])
unfolding parse_snmp6_stats
snmp6 = refl

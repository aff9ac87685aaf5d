-- ===== src/Openvpn/Exporter/Sent.antt =====
-- The metrics that the collector of pkg/openvpn/exporter sends, from the files of /proc.
use Prim.Native.String.{◌++◌ as append_text}
use mathlib.Core.Path.{subst}
use vpn.Prelude.{
  ◌++◌, map, err, ◌||◌, if◌then◌else◌, ◌≡◌, refl, sym, ap, ◌∙◌, ◌⊎◌, inl, inr, String, true, none,
  some, List, [], ◌∷◌, Result, ok, str_eq, eq_iff, arith, Bool-cases, Result-cases, Any,
  Any-append_left, Any-append_right,
}
use vpn.Prelude.Dict.{lookup}
use vpn.Network.NetStat.{
  Fields, Stats, Files, opened, open_path, get_net_stats_file, get_snmp6_stats_file, net_stats_of,
  get_net_stats,
}
use vpn.Network.NetStat.Merge.{get_net_stats-tcp, or_else}
use vpn.Network.NetStat.RoundTrip.{IsTable, table_lines, parse_net_stats-table_lines}
use vpn.Openvpn.Exporter.{Metric, net_stat_fields, collect_fields, collect_stats, collect}

-- One of the two counters that are exposed.
abbrev pub IsCounter : String → Type 0
IsCounter name = (name ≡ "OutSegs") ⊎ (name ≡ "RetransSegs")

-- The metric of a counter of Tcp.
abbrev pub tcp_metric : {V : Type 0} → String → V → Metric V
tcp_metric name x = record {
  key = append_text "Tcp" (append_text "_" name);
  statistic = append_text "Tcp" name;
  value = x;
}

-- A field of a protocol with its value.
pub record Field : Type 0 where
  pub protocol : String
  pub name : String
  pub value : String

-- The fields of the protocols, in their order.
abbrev pub fields_of : Stats → List Field
fields_of [] = []
fields_of ((p, fields) ∷ stats) =
    map (λ (f : String × String). record { protocol = p; name = f.0; value = f.1 }) fields
    ++ fields_of stats

-- The metrics that fields are to give: one for each field Tcp_OutSegs or Tcp_RetransSegs that is a
-- number, with this number, and none for another field.
abbrev pub expected : {V : Type 0} → (String → Result V) → List Field → List (Metric V)
expected parse_float [] = []
expected parse_float (f ∷ fs) =
    let key = append_text f.protocol (append_text "_" f.name) in
    let rest = expected parse_float fs in
    if str_eq key "Tcp_OutSegs" || str_eq key "Tcp_RetransSegs"
    then (elim (parse_float f.value) [
      | err e ↦ rest
      | ok x ↦ record { key = key; statistic = append_text f.protocol f.name; value = x } ∷ rest
    ])
    else rest

-- A metric is in a list.
abbrev pub Sends : {V : Type 0} → Metric V → List (Metric V) → Type 0
Sends m ms = Any (λ n. n ≡ m) ms

counter_matches :
    (name : String)
    → IsCounter name
    → net_stat_fields (append_text "Tcp" (append_text "_" name)) ≡ true
unfolding net_stat_fields
counter_matches name (inl e) = rw e refl
counter_matches name (inr e) = rw e refl

module _ {V : Type 0} (parse_float : String → Result V) where
  abbrev made : String → String → V → Metric V
  made protocol name x = record {
    key = append_text protocol (append_text "_" name);
    statistic = append_text protocol name;
    value = x;
  }

  -- A field adds its metric, if its value is a number and its key matches.
  collect_fields-cons :
      (protocol n w : String) (fields : Fields)
      → ((x : V) × (parse_float w ≡ ok x)
          × (net_stat_fields (append_text protocol (append_text "_" n)) ≡ true)
          × (collect_fields parse_float protocol ((n, w) ∷ fields)
              ≡ made protocol n x ∷ collect_fields parse_float protocol fields))
        ⊎ (collect_fields parse_float protocol ((n, w) ∷ fields)
            ≡ collect_fields parse_float protocol fields)
  unfolding collect_fields
  collect_fields-cons protocol n w fields = elim (Result-cases (parse_float w)) [
    | inr f ↦ inr (ground (arith, f.1))
    | inl o ↦ elim (Bool-cases (net_stat_fields (append_text protocol (append_text "_" n)))) [
      | inl t ↦ inl (o.0, o.1, t, ground (arith, o.1, t))
      | inr f ↦ inr (ground (arith, o.1, f))
    ]
  ]

  collect_fields-counter :
      (name v : String) (x : V) (fields : Fields)
      → IsCounter name
      → parse_float v ≡ ok x
      → lookup name fields ≡ some v
      → Sends (tcp_metric name x) (collect_fields parse_float "Tcp" fields)
  unfolding collect_fields lookup
  collect_fields-counter name v x [] c p h = absurd (ground (arith, h))
  collect_fields-counter name v x ((n, w) ∷ fields) c p h =
      let tail = collect_fields parse_float "Tcp" fields in
      elim (Bool-cases (str_eq n name)) [
        | inl t ↦
            (let e : n ≡ name = (eq_iff n name).0 t in
              let same : w ≡ v = ground (arith, h, t) in
              let head : collect_fields parse_float "Tcp" ((n, w) ∷ fields)
                  ≡ tcp_metric name x ∷ tail =
                rw (e, same) (ground (arith, p, counter_matches name c)) in
              subst (Sends (tcp_metric name x)) (sym head) (inl refl))
        | inr f ↦
            (let behind = collect_fields-counter name v x fields c p (ground (arith, h, f)) in
              elim (collect_fields-cons "Tcp" n w fields) [
                | inl (y, py, my, e) ↦ subst (Sends (tcp_metric name x)) (sym e) (inr behind)
                | inr e ↦ subst (Sends (tcp_metric name x)) (sym e) behind
              ])
      ]

  collect_stats-counter :
      (name v : String) (x : V) (fields : Fields) (stats : Stats)
      → IsCounter name
      → parse_float v ≡ ok x
      → lookup name fields ≡ some v
      → lookup "Tcp" stats ≡ some fields
      → Sends (tcp_metric name x) (collect_stats parse_float stats)
  unfolding collect_stats lookup
  collect_stats-counter name v x fields [] c p h t = absurd (ground (arith, t))
  collect_stats-counter name v x fields ((q, other) ∷ stats) c p h t =
      let sent = Any-append_left (λ n. n ≡ tcp_metric name x) in
      elim (Bool-cases (str_eq q "Tcp")) [
        | inl same ↦
            (let e : q ≡ "Tcp" = (eq_iff q "Tcp").0 same in
              let is : other ≡ fields = ground (arith, t, same) in
              let here : Sends (tcp_metric name x) (collect_fields parse_float q other) =
                rw (e, is) (collect_fields-counter name v x fields c p h) in
              sent (collect_fields parse_float q other) (collect_stats parse_float stats) here)
        | inr f ↦
            Any-append_right (λ n. n ≡ tcp_metric name x) (collect_fields parse_float q other)
              (collect_stats parse_float stats)
              (collect_stats-counter name v x fields stats c p h (ground (arith, t, f)))
      ]

  collect_fields-expected :
      (protocol : String) (fields : Fields) (fs : List Field)
      → collect_fields parse_float protocol fields ++ expected parse_float fs
        ≡ expected parse_float (
            map
              (λ (f : String × String). record { protocol = protocol; name = f.0; value = f.1 })
              fields
            ++ fs)
  unfolding collect_fields net_stat_fields
  collect_fields-expected protocol [] fs = refl
  collect_fields-expected protocol ((n, v) ∷ fields) fs =
      ground (arith, collect_fields-expected protocol fields fs)

  collect_stats-expected :
      (stats : Stats) → collect_stats parse_float stats ≡ expected parse_float (fields_of stats)
  unfolding collect_stats
  collect_stats-expected [] = refl
  collect_stats-expected ((p, fields) ∷ stats) =
      ap (λ l. collect_fields parse_float p fields ++ l) (collect_stats-expected stats)
      ∙ collect_fields-expected p fields (fields_of stats)

file_of_table :
    (fs : Files) (path : String) (table : Stats)
    → open_path fs path ≡ opened (record { lines = table_lines table; failure = none })
    → IsTable table
    → get_net_stats_file fs path ≡ some (ok table)
unfolding get_net_stats_file net_stats_of
file_of_table fs path table o wf = ap net_stats_of o ∙ parse_net_stats-table_lines table wf

module _ {V : Type 0} (parse_float : String → Result V) (fs : Files) (netstat table snmp6 : Stats)
    (fields : Fields) (name v : String) (x : V) where
  -- If the files netstat and snmp6 of /proc/net are read, and snmp holds a table with a counter
  -- OutSegs or RetransSegs of Tcp that is a number, the collector sends one metric for each field
  -- Tcp_OutSegs or Tcp_RetransSegs of the merged counters that is a number, with this number, in their
  -- order, and nothing else; the metric of that counter, with its value in snmp, is among them.
  pub collect-counter :
      get_net_stats_file fs (fs.join_path "/proc" "net/netstat") ≡ some (ok netstat)
      → open_path fs (fs.join_path "/proc" "net/snmp")
        ≡ opened (record { lines = table_lines table; failure = none })
      → IsTable table
      → get_snmp6_stats_file fs (fs.join_path "/proc" "net/snmp6") ≡ ok snmp6
      → lookup "Tcp" table ≡ some fields
      → lookup name fields ≡ some v
      → IsCounter name
      → parse_float v ≡ ok x
      → (stats : Stats) × (get_net_stats fs "/proc" ≡ some (ok stats))
        × (collect parse_float fs ≡ some (expected parse_float (fields_of stats)))
        × Sends (tcp_metric name x) (expected parse_float (fields_of stats))
  unfolding collect
  collect-counter a o wf c t h n p =
      let b : get_net_stats_file fs (fs.join_path "/proc" "net/snmp") ≡ some (ok table) =
        file_of_table fs (fs.join_path "/proc" "net/snmp") table o wf in
      let (stats, got, tcp) = get_net_stats-tcp fs "/proc" netstat table snmp6 a b c in
      let found : lookup "Tcp" stats ≡ some fields =
        tcp ∙ ap (λ r. or_else r (lookup "Tcp" netstat)) t in
      (
        stats,
        got,
        ground (arith, got, collect_stats-expected parse_float stats),
        subst (Sends (tcp_metric name x)) (collect_stats-expected parse_float stats)
            (collect_stats-counter parse_float name v x fields stats n p h found),
      )

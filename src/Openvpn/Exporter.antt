-- ===== src/Openvpn/Exporter.antt =====
-- pkg/openvpn/exporter: the metrics of the VPN server. The library of Prometheus, the exporter of
-- OpenVPN's status and the HTTP server are parameters; a number is of a type that `ParseFloat` reads.
use Prim.Native.String.{◌++◌ as append_text}
use vpn.Prelude.{
  String, Bool, true, false, Option, none, some, List, [], ◌∷◌, Result, ok, err, str_eq, ◌||◌, ◌&&◌,
  if◌then◌else◌, ◌++◌,
}
use vpn.Prelude.Io.{Io, ◌>>◌, ◌>>=◌, lift}
use vpn.Net.Text.{split}
use vpn.Network.NetStat.{Fields, Stats, Files, get_net_stats}
pub mod Sent
pub mod Tests

-- `Config`.
pub record Config : Type 0 where
  pub listen_address : String
  pub metrics_path : String
  pub openvpn_status_paths : String
  pub ignore_individuals : Bool

-- `NewDefaultConfig`.
unfoldable pub new_default_config : Config
new_default_config = record {
  listen_address = ":9176";
  metrics_path = "/metrics";
  openvpn_status_paths = "openvpn.status";
  ignore_individuals = false;
}

-- What `Collect` makes a metric of: the key behind the namespace openvpn_netstat, the statistic that
-- the description names, and the value.
pub record Metric (V : Type 0) : Type 0 where
  pub key : String
  pub statistic : String
  pub value : V

-- The pattern `^Tcp_(OutSegs|RetransSegs)$`.
unfoldable pub net_stat_fields : String → Bool
net_stat_fields key = str_eq key "Tcp_OutSegs" || str_eq key "Tcp_RetransSegs"

module _ {V : Type 0} (parse_float : String → Result V) where
  -- The loop of `Collect` over the fields of a protocol.
  unfoldable pub collect_fields : String → Fields → List (Metric V)
  collect_fields protocol [] = []
  collect_fields protocol ((name, value) ∷ fields) =
      let key = append_text protocol (append_text "_" name) in
      let rest = collect_fields protocol fields in
      elim (parse_float value) [
        | err e ↦ rest
        | ok v ↦
            if net_stat_fields key
            then record { key = key; statistic = append_text protocol name; value = v } ∷ rest
            else rest
      ]

  unfoldable pub collect_stats : Stats → List (Metric V)
  collect_stats [] = []
  collect_stats ((protocol, fields) ∷ stats) = collect_fields protocol fields ++ collect_stats stats

  -- `Collect`: the metrics that it sends, or `none` for a panic.
  unfoldable pub collect : Files → Option (List (Metric V))
  collect fs = elim (get_net_stats fs "/proc") [
    | none ↦ none
    | some (err e) ↦ some []
    | some (ok stats) ↦ some (collect_stats stats)
  ]

-- What `Start` registers.
pub data Collector (E : Type 0) : Type 0 where
  openvpn_exporter : E → Collector E
  net_stat_collector : Collector E

-- `Start`, with `NewOpenVPNExporter`, `Register` and the server of the metrics on a path of an
-- address, which does not return while it serves.
unfoldable pub start :
    {H E : Type 0}
    → (List String → Bool → Result E)
    → (Collector E → Io H (Unit {0}))
    → (String → String → Io H (Unit {0}))
    → Config
    → Io H (Unit {0})
start new_exporter register serve cfg =
    lift (new_exporter (split cfg.openvpn_status_paths ",") cfg.ignore_individuals) >>= (λ exporter.
      register (openvpn_exporter exporter)
      >> register net_stat_collector
      >> serve cfg.listen_address cfg.metrics_path)

-- ===== src/Server/Commands.antt =====
-- cmd/vpn_server/app: the subcommands liveness, readiness, exporter and setup, behind the settings of
-- the server, and the tunnel controller of cmd/vpn_client/app. An exit of the process is a value.
use Prim.Native.String.{◌++◌}
use vpn.Prelude.{ℕ, String, Bool, List, Result, ok, err, if◌then◌else◌}
use vpn.Prelude.Io.{Io}
use vpn.Net.Text.{decimal}
use vpn.Config.Server.{VpnServer}
use vpn.Openvpn.Status.{Parsers}
use vpn.Openvpn.Health.{Config, new_default_config, is_alive, is_server_ready}
use vpn.Openvpn.Exporter.{
  Config as ExporterConfig, Collector, start, new_default_config as exporter_defaults,
}
use vpn.Client.Sysctl.{Sysctl, enable_ipv6_networking}

-- How a command ends: `os.Exit(1)`, an error, or a return.
pub data Ending : Type 0 where
  exits : Ending
  fails : String → Ending
  returns : Ending

abbrev pub metrics_port : ℕ
metrics_port = 15000

-- The configuration of the health checks.
unfoldable pub health_config : VpnServer → Config
unfolding new_default_config
health_config cfg = record new_default_config {
  openvpn_status_path = cfg.status_path;
  is_ha = cfg.is_ha;
}

module _ (parsers : Parsers) (read_lines : String → Result (List String)) where
  -- `runLiveness` at the time `now`, on what `GetVPNServerConfig` answers.
  unfoldable pub run_liveness : ℕ → Result VpnServer → Ending
  unfolding health_config is_alive
  run_liveness now (err e) = fails "could not parse environment"
  run_liveness now (ok cfg) =
      if is_alive parsers read_lines now (health_config cfg) then returns else exits

  -- `runReadiness`.
  unfoldable pub run_readiness : Result VpnServer → Ending
  unfolding health_config is_server_ready
  run_readiness (err e) = fails "could not parse environment"
  run_readiness (ok cfg) =
      if is_server_ready parsers read_lines (health_config cfg) then returns else exits

-- The configuration of the exporter.
unfoldable pub exporter_config : VpnServer → ExporterConfig
unfolding exporter_defaults decimal
exporter_config cfg = record exporter_defaults {
  openvpn_status_paths = cfg.status_path;
  listen_address = ":" ++ decimal metrics_port;
}

-- The error of the exporter behind its text.
abbrev wrapped : {H : Type 0} → H × Result (Unit {0}) → H × Result (Unit {0})
wrapped (h, ok u) = (h, ok u)
wrapped (h, err e) = (h, err "starting metrics exporter failed")

-- `runExporter`.
unfoldable pub run_exporter :
    {H E : Type 0}
    → (List String → Bool → Result E)
    → (Collector E → Io H (Unit {0}))
    → (String → String → Io H (Unit {0}))
    → Result VpnServer
    → Io H (Unit {0})
unfolding exporter_config start
run_exporter new_exporter register serve (err e) h = (h, err "could not parse environment")
run_exporter new_exporter register serve (ok cfg) h =
    wrapped (start new_exporter register serve (exporter_config cfg) h)

-- `run` of setup.
unfoldable pub run_server_setup : (sys : Sysctl) → Io sys.Host (Unit {0})
run_server_setup sys = enable_ipv6_networking sys

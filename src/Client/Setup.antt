-- ===== src/Client/Setup.antt =====
-- cmd/vpn_client/app/setup/setup.go: kernel parameters, and the bond in the HA setup.
use vpn.Prelude.{String, Option, if◌then◌else◌}
use vpn.Prelude.Io.{Io, ◌>>◌, return, on_left, on_right}
use vpn.Net.Ip.{Ip}
use vpn.Network.Netlink.{Netlink}
use vpn.Config.Client.{VpnClient}
use vpn.Client.Sysctl.{Sysctl, kernel_settings}
use vpn.Client.Bonding.{configure_bonding}

-- `run`, behind `GetVPNClientConfig`.
unfoldable pub run_setup :
    (sys : Sysctl) (nl : Netlink)
    → Io nl.Host String
    → (String → Option Ip)
    → VpnClient
    → Io (sys.Host × nl.Host) (Unit {0})
run_setup sys nl acquire_ip parse_ip cfg = do
  on_left (kernel_settings sys cfg.is_shoot_client)
  (if cfg.is_ha then on_right (configure_bonding nl acquire_ip parse_ip cfg) else return tt)

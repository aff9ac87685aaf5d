-- ===== src/Server/Run.antt =====
-- cmd/vpn_server/app/app.go: the run of the VPN server.
use vpn.Prelude.{ℕ, String, Result, ok, err}
use vpn.Prelude.Io.{Io, ◌>>◌, on_left, on_right}
use vpn.Net.Mask.{IpNet}
use vpn.Network.Netlink.{Netlink}
use vpn.Network.Netmap.{MappedRanges}
use vpn.Network.Iptables.{Iptables}
use vpn.Config.Server.{VpnServer}
use vpn.Client.Cleanup.{tun_mtu_of}
use vpn.Server.Values.{SeedServerValues, build_values}
use vpn.Server.Rules.{set_server_rules}
use vpn.Server.Files.{Files, write_server_config_files}

-- The hosts: packet rules, files, and links, which are only read.
module _ (ipt : Iptables) (nl : Netlink) (fs : Files) (group : ℕ)
    (parse_cidr : String → Result IpNet) (ranges : MappedRanges) where
  -- Behind the rules: the MTU and the files.
  unfoldable pub write_files : VpnServer → SeedServerValues → nl.Host → Io fs.Host (Unit {0})
  write_files cfg v links files = elim (tun_mtu_of nl cfg.auto_mtu links) [
    | err e ↦ (files, err "failed to detect tunnel MTU")
    | ok mtu ↦ write_server_config_files fs (record v { tun_mtu = mtu }) files
  ]

  -- `run`, behind `GetVPNServerConfig`.
  unfoldable pub run_server : VpnServer → nl.Host → Io (ipt.Host × fs.Host) (Unit {0})
  run_server cfg links h = elim (build_values parse_cidr ranges cfg) [
    | err e ↦ (h, err e)
    | ok v ↦
        ((do
          on_left (set_server_rules ipt group parse_cidr ranges cfg)
          on_right (write_files cfg v links))
          h)
  ]

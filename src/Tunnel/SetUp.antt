-- ===== src/Tunnel/SetUp.antt =====
-- pkg/shoot_client/tunnel: the sockets of the controller and of its clients, the watchdog's action, and
-- `Run` of tunnel.go up to its loop. The package net is an interface over a state of its own; waits and
-- logs are left out, but not what a message is made of.
use Prim.Native.String.{◌++◌ as append_text}
use vpn.Prelude.{
  ℕ, zero, suc, ◌+◌, String, List, [], ◌∷◌, Result, ok, err, ◌==◌, if◌then◌else◌, length,
}
use vpn.Prelude.Int.{ℤ, pos, pos_part}
use vpn.Prelude.Io.{Io, ◌>>=◌, ◌>>◌, return, lift}
use vpn.Net.Ip.{Ip, ip_string}
use vpn.Net.Text.{decimal}
use vpn.Network.Netlink.{Netlink}
use vpn.Network.Link.{
  scope_universe, get_link_ip_addresses_by_name, get_link_ip_addr_for_ip, ip_addr_flags_to_string,
}
use vpn.Tunnel.Watchdog.{Watchdog, new_watchdog}

-- `net.Dial` of a network, `Write` and `Close` of a connection, and `net.ListenUDP` of udp6 on an address
-- and a port, with `Close`.
pub record Sockets : Type 1 where
  pub Net : Type 0
  pub dial : String → String → Io Net ℕ
  pub write : ℕ → String → Io Net (Unit {0})
  pub close : ℕ → Net → Net
  pub listen_udp : Ip → ℕ → Io Net ℕ
  pub close_udp : ℕ → Net → Net

abbrev pub tunnel_controller_port : ℕ
tunnel_controller_port = 5400

abbrev pub retries_to_listen : ℕ
retries_to_listen = 30

abbrev pub management_port : ℕ
management_port = 7505

abbrev pub bond_device : String
bond_device = "bond0"

-- `config.TunnelController`.
pub record TunnelController : Type 0 where
  pub ha_vpn_clients : ℤ
  pub watchdog_window_size : ℤ
  pub watchdog_threshold : ℤ
  pub watchdog_cooldown : ℤ

-- The parts of a formatted text.
abbrev texts : List String → String
texts [] = ""
texts (s ∷ ss) = append_text s (texts ss)

-- `DefaultTunnelControllerConfig`.
abbrev pub default_tunnel_controller_config : TunnelController
default_tunnel_controller_config = record {
  ha_vpn_clients = pos 2;
  watchdog_window_size = pos 20;
  watchdog_threshold = pos 10;
  watchdog_cooldown = pos 20;
}

-- `GetTunnelControllerConfig`, over `env.Parse`.
unfoldable pub get_tunnel_controller_config :
    (TunnelController → Result TunnelController) → Result TunnelController
get_tunnel_controller_config parse = parse default_tunnel_controller_config

-- The management interface of a client.
unfoldable pub management_endpoint : ℕ → String
unfolding decimal
management_endpoint index = append_text "127.0.0.1:" (decimal (management_port + index))

module _ (sk : Sockets) where
  open sk use {Net}

  -- The write and the close of a connection; an error of the close is dropped.
  unfoldable pub signal_and_close : ℕ → Io Net (Unit {0})
  signal_and_close conn n =
      let (n', written) = sk.write conn "signal SIGHUP\n" n in (sk.close conn n', written)

  -- The body of the watchdog's action for one client.
  unfoldable pub restart_client : ℕ → Io Net (Unit {0})
  unfolding signal_and_close management_endpoint
  restart_client index =
      sk.dial "tcp" (management_endpoint index) >>= (λ conn. signal_and_close conn)

  -- The loop of the watchdog's action, from an index on.
  unfoldable pub restart_from : ℕ → ℕ → Io Net (Unit {0})
  unfolding restart_client
  restart_from index zero = return tt
  restart_from index (suc count) = restart_client index >> restart_from (index + 1) count

  -- The watchdog's action.
  unfoldable pub restart_clients : TunnelController → Io Net (Unit {0})
  unfolding restart_from
  restart_clients cfg = restart_from 0 (pos_part cfg.ha_vpn_clients)

  -- The loop of the attempts to listen, behind an error of the last one.
  unfoldable pub listen_again : ℕ → Ip → String → Io Net ℕ
  listen_again zero ip e n = (n, err e)
  listen_again (suc attempts) ip e n =
      let (n', answer) = sk.listen_udp ip tunnel_controller_port n in
      elim answer [ ok conn ↦ (n', ok conn) | err e' ↦ listen_again attempts ip e' n' ]

-- `Send` of client.go: the text of an address, sent to a tunnel controller.
unfoldable pub send : (sk : Sockets) → Ip → String → Io sk.Net (Unit {0})
unfolding ip_string decimal
send sk controller_ip client_ip n =
    let server =
      texts ("[" ∷ ip_string controller_ip ∷ "]:" ∷ decimal tunnel_controller_port ∷ []) in
    let (n', dialed) = sk.dial "udp6" server n in
    elim dialed [
      | err e ↦ (n', err "error dialing UDP")
      | ok conn ↦
          let (n'', written) = sk.write conn client_ip n' in
          (sk.close conn n'', elim written [ ok u ↦ ok u | err e ↦ err "error sending data" ])
    ]

module _ (nl : Netlink) (sk : Sockets) (flag_types : List (ℕ × String)) where
  -- The text that `handleListenError` makes of the address.
  unfoldable pub ip_flags : nl.Host → Ip → String
  unfolding get_link_ip_addr_for_ip ip_addr_flags_to_string
  ip_flags h ip = elim (get_link_ip_addr_for_ip nl h bond_device ip) [
    | err e ↦ append_text "getting link IP address failed: " e
    | ok addr ↦ ip_addr_flags_to_string flag_types addr.flags
  ]

  unfoldable pub handle_listen_error : nl.Host → Ip → String → String
  unfolding ip_flags ip_string
  handle_listen_error h ip e =
      texts
        ("error listening on UDP: " ∷ e ∷ " (ip: " ∷ ip_string ip ∷ " " ∷ ip_flags h ip ∷ ")" ∷ [])

  -- The address of the bond device, with the checks of `Run`.
  unfoldable pub local_bond : Result (List Ip) → Result Ip
  local_bond (err e) = err e
  local_bond (ok []) = err "no IP addresses found for bond0"
  local_bond (ok (ip ∷ ips)) =
      if length ip == 16 then ok ip else err "expected ipv6 address for bond0"

  -- The attempts to listen; the error of the last one is the one that is returned.
  unfoldable pub listen : nl.Host → Ip → Io sk.Net ℕ
  unfolding listen_again handle_listen_error
  listen h ip n =
      let (n', answer) = listen_again sk retries_to_listen ip "" n in
      (n', elim answer [ ok conn ↦ ok conn | err e ↦ err (handle_listen_error h ip e) ])

  -- `Run` up to its loop: the address, the watchdog and the socket.
  unfoldable pub set_up : TunnelController → nl.Host → Io sk.Net (Ip × Watchdog × ℕ)
  unfolding get_link_ip_addresses_by_name local_bond new_watchdog listen
  set_up cfg h = do
    ip ← lift (local_bond (get_link_ip_addresses_by_name nl h bond_device scope_universe))
    wd ← lift (new_watchdog cfg.watchdog_window_size cfg.watchdog_threshold cfg.watchdog_cooldown)
    conn ← listen h ip
    return (ip, wd, conn)

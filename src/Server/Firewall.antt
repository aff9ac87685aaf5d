-- ===== src/Server/Firewall.antt =====
-- cmd/vpn_server/app/firewall.go: the rules and routes of the tunnel device, set up and taken down.
pub mod Actions
pub mod Plan
pub mod Rules
pub mod Tests
pub mod Undone
use vpn.Prelude.{ℕ, String, List, [], ◌∷◌, Result, ok, err, if◌then◌else◌, str_eq}
use vpn.Prelude.Io.{Io, ◌>>◌, return, for_each, on_left, on_right}
use vpn.Net.Mask.{IpNet}
use vpn.Network.Cidr.{Cidr, is_ipv4}
use vpn.Network.Netmap.{MappedRanges}
use vpn.Network.Iptables.{Iptables, Table, protocol_ipv4, protocol_ipv6, new_iptables}
use vpn.Network.Netlink.{Netlink}
use vpn.Network.Link.{link_index, replace_route}

-- The rules of the loop.
unfoldable pub input_specs : String → List (List String)
input_specs device =
    ("-m" ∷ "state" ∷ "--state" ∷ "RELATED,ESTABLISHED" ∷ "-i" ∷ device ∷ "-j" ∷ "ACCEPT" ∷ [])
    ∷ ("-i" ∷ device ∷ "-j" ∷ "DROP" ∷ [])
    ∷ []

-- `Append` or `DeleteIfExists`.
pub data Mode : Type 0 where
  up : Mode
  down : Mode

-- The switch over the mode.
unfoldable pub mode_of : String → Result Mode
mode_of mode =
    if str_eq mode "up"
    then ok up
    else if str_eq mode "down"
    then ok down
    else err "mode flag must be down or up"

module _ (ipt : Iptables) (nl : Netlink) where
  unfoldable pub op : Mode → Table → String → String → List String → Io ipt.Host (Unit {0})
  op up = ipt.append
  op down = ipt.delete_if_exists

  -- The loop over the rules of both protocols.
  unfoldable pub input_rules : Mode → Table → Table → List (List String) → Io ipt.Host (Unit {0})
  unfolding op
  input_rules mode table4 table6 specs =
      for_each specs
        (λ spec. (do op mode table4 "filter" "INPUT" spec; op mode table6 "filter" "INPUT" spec))

  -- The double NAT of the device of the non-HA setup.
  unfoldable pub nat_rules :
      Mode → Table → Result Cidr → String → String → String → Io ipt.Host (Unit {0})
  unfolding op is_ipv4
  nat_rules mode table4 (err e) device seed_pod_network mapped h = (h, ok tt)
  nat_rules mode table4 (ok cidr) device seed_pod_network mapped h =
      if is_ipv4 cidr
      then ((do
        op mode table4 "nat" "PREROUTING" (
            "--in-interface" ∷ device ∷ "-d" ∷ mapped ∷ "-j" ∷ "NETMAP" ∷ "--to" ∷ seed_pod_network
            ∷ [])
        op mode table4 "nat" "POSTROUTING" (
            "--out-interface" ∷ device ∷ "-s" ∷ seed_pod_network ∷ "-j" ∷ "NETMAP" ∷ "--to" ∷ mapped
            ∷ []))
          h)
      else (h, ok tt)

  -- A route of the last loop.
  unfoldable pub add_route : (String → Result IpNet) → ℕ → String → Io nl.Host (Unit {0})
  unfolding replace_route
  add_route parse_cidr index nw h = elim (parse_cidr nw) [
    | err e ↦ (h, err "parsing network failed")
    | ok net ↦ replace_route nl net index h
  ]

  -- The routes, in mode `up` only.
  unfoldable pub add_routes :
      (String → Result IpNet) → Mode → String → List String → Io nl.Host (Unit {0})
  unfolding add_route link_index
  add_routes parse_cidr down device networks h = (h, ok tt)
  add_routes parse_cidr up device networks h = elim (link_index nl (nl.link_by_name h device)) [
    | err e ↦ (h, err e)
    | ok index ↦ for_each networks (add_route parse_cidr index) h
  ]

  -- `runFirewallCommand`, without the environment variable that it sets.
  unfoldable pub run_firewall_command :
      (String → Result IpNet)
      → MappedRanges
      → String
      → String
      → List String
      → String
      → Io (ipt.Host × nl.Host) (Unit {0})
  unfolding input_rules nat_rules add_routes mode_of input_specs
  run_firewall_command parse_cidr ranges device mode networks seed_pod_network (h, k) =
      elim (new_iptables ipt h protocol_ipv4) [
        | err e ↦ ((h, k), err e)
        | ok table4 ↦ elim (new_iptables ipt h protocol_ipv6) [
          | err e ↦ ((h, k), err e)
          | ok table6 ↦ elim (mode_of mode) [
            | err e ↦ ((h, k), err e)
            | ok m ↦
                (do
                  on_left (input_rules m table4 table6 (input_specs device))
                  on_left (
                      if str_eq device "tun0"
                      then nat_rules m table4 (parse_cidr seed_pod_network) device seed_pod_network
                          ranges.seed_pod
                      else return tt)
                  on_right (add_routes parse_cidr m device networks))
                  (h, k)
          ]
        ]
      ]

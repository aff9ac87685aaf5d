-- ===== src/Server/Rules.antt =====
-- pkg/vpn_server/iptables.go: the rules that map the addresses of the shoot.
use vpn.Prelude.{ℕ, String, List, [], ◌∷◌, Result, ok, err, if◌then◌else◌}
use vpn.Prelude.Io.{Io, ◌>>◌, for_each}
use vpn.Net.Mask.{IpNet}
use vpn.Net.Text.{decimal}
use vpn.Network.Cidr.{Cidr, cidr_string}
use vpn.Network.Netmap.{MappedRanges, shoot_networks_for_netmap}
use vpn.Network.Iptables.{Iptables, Table, protocol_ipv4, new_iptables}
use vpn.Config.Server.{VpnServer}

-- The arguments of a rule that maps a source network for the processes of Envoy, whose group the
-- package github.com/gardener/gardener names.
unfoldable pub output_spec : ℕ → Cidr × Cidr → List String
unfolding cidr_string decimal
output_spec group (src, dst) =
    "-m"
    ∷ "owner"
    ∷ "--gid-owner"
    ∷ decimal group
    ∷ "-d"
    ∷ cidr_string src
    ∷ "-j"
    ∷ "NETMAP"
    ∷ "--to"
    ∷ cidr_string dst
    ∷ []

module _ (ipt : Iptables) (group : ℕ) where
  open ipt use {Host}

  -- One of the loops over the mappings; the order of a Go map is not specified.
  unfoldable pub output_rules : Table → List (Cidr × Cidr) → Io Host (Unit {0})
  unfolding output_spec
  output_rules table pairs =
      for_each pairs (λ pair. ipt.append_unique table "nat" "OUTPUT" (output_spec group pair))

  unfoldable pub all_output_rules :
      Table → List (Cidr × Cidr) × List (Cidr × Cidr) × List (Cidr × Cidr) → Io Host (Unit {0})
  unfolding output_rules
  all_output_rules table (pods, services, nodes) = do
    output_rules table pods
    output_rules table services
    output_rules table nodes

  -- `SetIPTableRules`.
  unfoldable pub set_server_rules :
      (String → Result IpNet) → MappedRanges → VpnServer → Io Host (Unit {0})
  unfolding all_output_rules
  set_server_rules parse_cidr ranges cfg h =
      if cfg.is_ha then (h, ok tt) else elim (new_iptables ipt h protocol_ipv4) [
        | err e ↦ (h, err e)
        | ok table ↦
            elim (shoot_networks_for_netmap parse_cidr ranges cfg.shoot_pod_networks
              cfg.shoot_service_networks cfg.shoot_node_networks) [
                | err e ↦ (h, err e)
                | ok mappings ↦ all_output_rules table mappings h
              ]
      ]

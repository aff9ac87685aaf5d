-- ===== src/Network/Bonding.antt =====
-- pkg/network/ip.go: the addresses of the bonding network and of the tunnels of the VPN servers.
use Prim.Native.String.{◌++◌}
use vpn.Prelude.{
  ℕ, zero, suc, ◌+◌, ◌-◌, ◌%◌, ◌<◌, ◌≤◌, ◌≡◌, ◌≢◌, refl, String, Bool, true, false, Option, none,
  some, List, [], ◌∷◌, length, get_or, set, arith, sym, ◌∙◌, ap, length-set, if◌then◌else◌, ◌==◌,
}
use vpn.Net.Ip.{Ip, to16, to4, all_zero}
use vpn.Net.Mask.{IpNet, cidr_mask}
use vpn.Net.Text.{decimal}
use vpn.Network.Cidr.{Cidr}
pub mod Apart

-- `IP.To16` of an address of 4 or 16 bytes; of another, nil.
unfoldable pub bytes16 : Ip → Ip
unfolding to16
bytes16 ip = elim (to16 ip) [ some b ↦ b | none ↦ [] ]

-- `BondingShootClientIP`. A write to a byte of nil, which panics in Go, changes nothing here.
unfoldable pub bonding_shoot_client_ip : IpNet → ℕ → Ip
unfolding bytes16
bonding_shoot_client_ip vpn_network index =
    set (set (set (bytes16 vpn_network.ip) 15 (index % 256)) 14 0) 13 0xb

-- `BondingAddressForClient`.
unfoldable pub bonding_address_for_client : Ip → IpNet
unfolding cidr_mask
bonding_address_for_client ip = record { ip = ip; mask = cidr_mask 104 128 }

-- `BondingShootClientAddress`.
unfoldable pub bonding_shoot_client_address : IpNet → ℕ → IpNet
unfolding bonding_shoot_client_ip bonding_address_for_client
bonding_shoot_client_address vpn_network index =
    bonding_address_for_client (bonding_shoot_client_ip vpn_network index)

-- The loop of `AllBondingShootClientIPs`, from an index on.
unfoldable pub shoot_client_ips_from : IpNet → ℕ → ℕ → List Ip
unfolding bonding_shoot_client_ip
shoot_client_ips_from vpn_network i zero = []
shoot_client_ips_from vpn_network i (suc n) =
    bonding_shoot_client_ip vpn_network i ∷ shoot_client_ips_from vpn_network (i + 1) n

unfoldable pub all_bonding_shoot_client_ips : IpNet → ℕ → List Ip
unfolding shoot_client_ips_from
all_bonding_shoot_client_ips vpn_network ha_vpn_clients =
    shoot_client_ips_from vpn_network 0 ha_vpn_clients

-- `BondingSeedClientRange`: the base, the first and the last index.
unfoldable pub bonding_seed_client_range : Ip → Ip × ℕ × ℕ
unfolding bytes16
bonding_seed_client_range vpn_network_ip =
    (set (set (set (bytes16 vpn_network_ip) 15 0) 14 0) 13 0xa, 1, 0xffff)

-- `ClientIndexFromBondingShootClientIP`.
unfoldable pub client_index_from_bonding_shoot_client_ip : Ip → ℕ
client_index_from_bonding_shoot_client_ip ip = get_or ip (length ip - 1) 0

-- `BondIP6TunnelLinkName`.
unfoldable pub bond_ip6_tunnel_link_name : ℕ → String
unfolding decimal
bond_ip6_tunnel_link_name index = "bond0-ip6tnl" ++ decimal index

-- `HAVPNTunnelNetwork`.
unfoldable pub ha_vpn_tunnel_network : Ip → ℕ → Cidr
unfolding bytes16 cidr_mask
ha_vpn_tunnel_network vpn_network_ip vpn_index = record {
  ip = set (set (set (set (bytes16 vpn_network_ip) 15 0) 14 0) 13 (vpn_index % 256)) 12 1;
  mask = cidr_mask 112 128;
}

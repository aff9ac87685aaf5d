-- ===== src/Client/Bonding.antt =====
-- pkg/vpn_client/bonding.go: the links of the HA setup.
use Prim.Native.String.{◌++◌}
use vpn.Prelude.{
  ℕ, zero, suc, ◌+◌, ◌-◌, ◌%◌, String, true, false, not, Option, none, some, Result, ok, err,
  if◌then◌else◌, str_eq, ltb,
}
use vpn.Prelude.Int.{ℤ, pos, negsuc}
use vpn.Prelude.Io.{Io, continue, ◌>>=◌, ◌>>◌, return}
use vpn.Net.Ip.{Ip}
use vpn.Net.Mask.{IpNet}
use vpn.Net.Text.{decimal}
use vpn.Network.Netlink.{Netlink, NewLink, active_backup, balance_rr}
use vpn.Network.Link.{delete_link_by_name, create_tunnel, link_index, scope_universe}
use vpn.Network.Bonding.{
  bonding_shoot_client_address, bonding_address_for_client, bonding_shoot_client_ip,
  bond_ip6_tunnel_link_name,
}
use vpn.Client.Cleanup.{tun_mtu_of}
use vpn.Config.Client.{VpnClient}

-- The index of a client as the byte of its address: `byte(index & 0xFF)` of -1 is 255.
unfoldable pub index_byte : ℤ → ℕ
index_byte (pos n) = n
index_byte (negsuc n) = 255 - n % 256

abbrev pub nodad : ℕ
nodad = 2

-- `AcquireIP` of the seed client's broker, and `net.ParseIP`, where `none` is nil, are parameters.
module _ (nl : Netlink) (acquire_ip : Io nl.Host String) (parse_ip : String → Option Ip) where
  open nl use {Host}

  -- The address of the bond device.
  unfoldable pub seed_address : String → Result IpNet
  unfolding bonding_address_for_client
  seed_address acquired = elim (parse_ip acquired) [
    | none ↦ err "acquired ip is not a valid ipv6 nor ipv4"
    | some ip ↦ ok (bonding_address_for_client ip)
  ]

  unfoldable pub bond_address : VpnClient → Io Host IpNet
  unfolding seed_address bonding_shoot_client_address index_byte
  bond_address cfg h =
      if cfg.is_shoot_client
      then (h, ok (bonding_shoot_client_address cfg.vpn_network (index_byte cfg.vpn_client_index)))
      else (let (h', r) = acquire_ip h in
          elim r [
            | err e ↦ (h', err "failed to acquire ip")
            | ok acquired ↦ (h', seed_address acquired)
          ])

  unfoldable pub set_mtu : String → ℕ → Io Host (Unit {0})
  set_mtu name mtu = if ltb 0 mtu then nl.link_set_mtu name mtu else return tt

  -- The body of the first loop.
  unfoldable pub create_tap : ℕ → ℕ → Io Host (Unit {0})
  unfolding set_mtu delete_link_by_name decimal
  create_tap mtu i = do
    delete_link_by_name nl ("tap" ++ decimal i)
    nl.link_add (NewLink.tap ("tap" ++ decimal i))
    set_mtu ("tap" ++ decimal i) mtu

  -- `for i := range n`, from an index on.
  unfoldable pub range : ℕ → ℕ → (ℕ → Io Host (Unit {0})) → Io Host (Unit {0})
  range i zero body h = (h, ok tt)
  range i (suc n) body h = continue (body i h) (λ u. range (i + 1) n body)

  -- The switch over the bonding mode.
  unfoldable pub new_bond : String → Host → Result NewLink
  unfolding link_index
  new_bond mode h =
      if str_eq mode "active-backup"
      then elim (link_index nl (nl.link_by_name h "tap0")) [
        | err e ↦ err "failed to get link tap0"
        | ok index ↦ ok (NewLink.bond "bond0" active_backup 100 (some index) (some 5) true true)
      ]
      else if str_eq mode "balance-rr"
      then ok (NewLink.bond "bond0" balance_rr 100 none none false false)
      else err "unsupported bonding mode"

  -- The body of the loop that makes the tap devices slaves.
  unfoldable pub enslave : ℕ → Io Host (Unit {0})
  unfolding link_index decimal
  enslave i h = elim (link_index nl (nl.link_by_name h ("tap" ++ decimal i))) [
    | err e ↦ (h, err "failed to get link")
    | ok index ↦ nl.link_set_master index "bond0" h
  ]

  -- The body of the last loop, of the seed client.
  unfoldable pub add_tunnel : VpnClient → IpNet → ℕ → Io Host (Unit {0})
  unfolding delete_link_by_name create_tunnel bonding_shoot_client_ip bond_ip6_tunnel_link_name
  add_tunnel cfg addr i = do
    delete_link_by_name nl (bond_ip6_tunnel_link_name i)
    create_tunnel nl (bond_ip6_tunnel_link_name i) addr.ip
        (bonding_shoot_client_ip cfg.vpn_network i)

  -- `ConfigureBonding`, behind the MTU and the address.
  unfoldable pub configure_links : VpnClient → ℕ → IpNet → Io Host (Unit {0})
  unfolding create_tap range enslave add_tunnel set_mtu delete_link_by_name new_bond
  configure_links cfg mtu addr = do
    range 0 cfg.ha_vpn_servers (create_tap mtu)
    delete_link_by_name nl "bond0"
    bond ← (λ h. (h, new_bond cfg.bonding_mode h))
    nl.link_add bond
    range 0 cfg.ha_vpn_servers enslave
    set_mtu "bond0" mtu
    nl.link_set_up "bond0"
    nl.addr_add "bond0" (record { net = addr; scope = scope_universe; flags = nodad })
    (if not cfg.is_shoot_client
        then range 0 cfg.ha_vpn_clients (add_tunnel cfg addr)
        else return tt)

  -- `ConfigureBonding`.
  unfoldable pub configure_bonding : VpnClient → Io Host (Unit {0})
  unfolding configure_links bond_address tun_mtu_of
  configure_bonding cfg = do
    mtu ← (λ h. (h, tun_mtu_of nl cfg.auto_mtu h))
    addr ← bond_address cfg
    configure_links cfg mtu addr

-- ===== src/Network/Netlink.antt =====
-- The part of the library github.com/vishvananda/netlink that the program calls, as an interface: the
-- links, addresses and routes of a host. Every call may fail.
use vpn.Prelude.{ℕ, String, List, Option, Bool, Result}
use vpn.Prelude.Io.{Io}
use vpn.Net.Ip.{Ip}
use vpn.Net.Mask.{IpNet}

-- The answer of `LinkByName`: the index of the link, `LinkNotFoundError`, or another error.
pub data LinkAnswer : Type 0 where
  found : ℕ → LinkAnswer
  not_found : LinkAnswer
  failed : String → LinkAnswer

pub data BondMode : Type 0 where
  active_backup : BondMode
  balance_rr : BondMode

-- The links that the program adds, with the attributes that it sets.
pub data NewLink : Type 0 where
  tap : String → NewLink
  ip6tnl :
      (name : String) (local : Ip) (remote : Ip) (encap_limit : ℕ) (ignore_encap_limit : Bool)
      → NewLink
  bond :
      (name : String) (mode : BondMode) (miimon : ℕ) (primary : Option ℕ)
      (num_peer_notif : Option ℕ) (fail_over_mac_active : Bool) (use_carrier : Bool)
      → NewLink

pub record Route : Type 0 where
  pub dst : Option IpNet
  pub link_index : ℕ

-- An address of a link.
pub record Addr : Type 0 where
  pub net : IpNet
  pub scope : ℕ
  pub flags : ℕ

pub record Netlink : Type 1 where
  pub Host : Type 0
  pub link_by_name : Host → String → LinkAnswer
  pub link_del : ℕ → Io Host (Unit {0})
  pub link_add : NewLink → Io Host (Unit {0})
  pub link_set_up : String → Io Host (Unit {0})
  pub link_set_down : ℕ → Io Host (Unit {0})
  pub link_set_mtu : String → ℕ → Io Host (Unit {0})
  pub link_set_master : ℕ → String → Io Host (Unit {0})
  pub addr_list : Host → ℕ → Result (List Addr)
  -- The addresses of family IPv6.
  pub addr_list_ipv6 : Host → ℕ → Result (List Addr)
  pub addr_add : String → Addr → Io Host (Unit {0})
  pub addr_del : ℕ → Addr → Io Host (Unit {0})
  pub route_list : Host → Result (List Route)
  pub route_replace : Route → Io Host (Unit {0})
  pub link_mtu : Host → ℕ → Result ℕ

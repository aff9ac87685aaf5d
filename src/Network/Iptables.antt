-- ===== src/Network/Iptables.antt =====
-- pkg/network/iptables.go, and the part of the package github.com/coreos/go-iptables that the program
-- calls, as an interface. `Host` is the state that the commands change.
use Prim.Native.String.{◌++◌}
use vpn.Prelude.{◌≡◌, refl, String, Bool, List, [], ◌∷◌, Result, err, ◌&&◌, if◌then◌else◌}
use vpn.Prelude.Io.{Io}
use vpn.Net.Text.{split, join}

pub data Protocol : Type 0 where
  protocol_ipv4 : Protocol
  protocol_ipv6 : Protocol

-- The tables that `iptables.New` opens.
pub record Table : Type 0 where
  pub protocol : Protocol
  pub path : String

pub record Iptables : Type 1 where
  pub Host : Type 0
  -- The command `path -L` succeeds.
  pub lists : Host → String → Bool
  pub new : Host → Protocol → String → Result Table
  pub append : Table → String → String → List String → Io Host (Unit {0})
  pub append_unique : Table → String → String → List String → Io Host (Unit {0})
  pub delete_if_exists : Table → String → String → List String → Io Host (Unit {0})

-- `adjustPath`; `strings.ReplaceAll` is a split and a join.
unfoldable pub adjust_path : String → Protocol → String
unfolding split join
adjust_path path protocol_ipv4 = path
adjust_path path protocol_ipv6 = join (split path "iptables-") "ip6tables-"

module _ (ipt : Iptables) where
  open ipt use {Host}

  -- `iptablesWorks`.
  unfoldable pub iptables_works : Host → String → Bool
  unfolding adjust_path
  iptables_works h path = ipt.lists h path && ipt.lists h (adjust_path path protocol_ipv6)

  -- The loop of `NewIPTables`.
  unfoldable pub first_backend : Host → Protocol → List String → Result Table
  unfolding iptables_works adjust_path
  first_backend h proto [] = err "could not find iptables backend"
  first_backend h proto (suffix ∷ suffixes) =
      let path = "/usr/sbin/iptables-" ++ suffix in
      let rest = first_backend h proto suffixes in
      if iptables_works h path then ipt.new h proto (adjust_path path proto) else rest

  -- `NewIPTables`.
  unfoldable pub new_iptables : Host → Protocol → Result Table
  unfolding first_backend
  new_iptables h proto = first_backend h proto ("legacy" ∷ "nft" ∷ [])

adjust_path_test : adjust_path "/usr/sbin/iptables-nft" protocol_ipv6 ≡ "/usr/sbin/ip6tables-nft"
unfolding adjust_path
adjust_path_test = refl

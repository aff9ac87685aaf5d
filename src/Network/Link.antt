-- ===== src/Network/Link.antt =====
-- pkg/network/link.go, route.go and mtu.go: links and routes, over the netlink interface.
use Prim.Native.Nat.{bit_and}
use Prim.Native.String.{◌++◌}
use vpn.Prelude.{
  ℕ, ◌-◌, ◌≡◌, refl, length, not, String, Bool, true, false, Option, none, some, List, [], ◌∷◌,
  Result, ok, err, ltb, ◌==◌, if◌then◌else◌, str_eq, ◌||◌, ◌&&◌,
}
use vpn.Prelude.Io.{Io, ◌>>◌, return, throw}
use vpn.Net.Ip.{Ip, ip_string, to16}
use vpn.Net.Text.Space.{trim_space}
use vpn.Net.Mask.{IpNet, mask_length, network_number_and_mask}
use vpn.Network.Netlink.{Netlink, LinkAnswer, found, not_found, failed, NewLink, Route, Addr}

abbrev pub scope_universe : ℕ
scope_universe = 0

abbrev pub scope_link : ℕ
scope_link = 253

-- `IP.Equal`: the same address, also in its two forms.
unfoldable pub same_bytes : Ip → Ip → Bool
same_bytes [] [] = true
same_bytes (a ∷ as') (b ∷ bs) = a == b && same_bytes as' bs
same_bytes _ _ = false

unfoldable pub ip_equal : Ip → Ip → Bool
unfolding same_bytes to16
ip_equal a b = elim (to16 a) [
  | none ↦ same_bytes a b
  | some x ↦ elim (to16 b) [ none ↦ false | some y ↦ same_bytes x y ]
]

-- The loop of `IPAddrFlagsToString` over the flags of the package unix and their names, in the order
-- of the iteration.
unfoldable pub flag_names : List (ℕ × String) → ℕ → String
flag_names [] flags = ""
flag_names ((flag, name) ∷ types) flags =
    let rest = flag_names types flags in
    if bit_and flags flag == 0 then rest else name ++ (" " ++ rest)

-- `IPAddrFlagsToString`.
unfoldable pub ip_addr_flags_to_string : List (ℕ × String) → ℕ → String
unfolding flag_names trim_space
ip_addr_flags_to_string types flags = trim_space (flag_names types flags)

flags_test :
    ip_addr_flags_to_string ((1, "Secondary") ∷ (8, "Dadfailed") ∷ (64, "Tentative") ∷ []) 72
    ≡ "Dadfailed Tentative"
unfolding ip_addr_flags_to_string
flags_test = refl

module _ (nl : Netlink) where
  open nl use {Host}

  -- Behind `LinkByName` in `DeleteLinkByName`.
  unfoldable pub delete_link : LinkAnswer → Io Host (Unit {0})
  delete_link (found index) = nl.link_del index
  delete_link not_found = return tt
  delete_link (failed e) = throw "failed to get link for deletion"

  -- `DeleteLinkByName`.
  unfoldable pub delete_link_by_name : String → Io Host (Unit {0})
  delete_link_by_name name h = delete_link (nl.link_by_name h name) h

  -- `CreateTunnel`.
  unfoldable pub create_tunnel : String → Ip → Ip → Io Host (Unit {0})
  create_tunnel name local remote = do
    nl.link_add (NewLink.ip6tnl name local remote 0 true)
    nl.link_set_up name

  -- `LinkByName` where a missing link is an error.
  unfoldable pub link_index : LinkAnswer → Result ℕ
  link_index (found index) = ok index
  link_index not_found = err "link not found"
  link_index (failed e) = err e

  -- `routeForNetwork` and `ReplaceRoute`.
  unfoldable pub route_for_network : IpNet → ℕ → Route
  route_for_network net index = record { dst = some net; link_index = index }

  unfoldable pub replace_route : IpNet → ℕ → Io Host (Unit {0})
  unfolding route_for_network
  replace_route net index = nl.route_replace (route_for_network net index)

  -- The loop of `getLinkIPAddresses`.
  unfoldable pub addresses_in_scope : List Addr → ℕ → List Ip
  addresses_in_scope [] scope = []
  addresses_in_scope (a ∷ as') scope =
      let rest = addresses_in_scope as' scope in if a.scope == scope then a.net.ip ∷ rest else rest

  -- `GetLinkIPAddressesByName`.
  unfoldable pub get_link_ip_addresses_by_name : Host → String → ℕ → Result (List Ip)
  unfolding link_index addresses_in_scope
  get_link_ip_addresses_by_name h name scope = elim (link_index (nl.link_by_name h name)) [
    | err e ↦ err "failed to get link"
    | ok index ↦ elim (nl.addr_list h index) [
      | err e ↦ err "failed to list addresses of link"
      | ok addrs ↦ ok (addresses_in_scope addrs scope)
    ]
  ]

  -- The loop of `GetLinkIPAddrForIP`.
  unfoldable pub find_address : List Addr → Ip → Option Addr
  unfolding ip_equal
  find_address [] ip = none
  find_address (a ∷ as') ip = if ip_equal a.net.ip ip then some a else find_address as' ip

  -- `GetLinkIPAddrForIP`.
  unfoldable pub get_link_ip_addr_for_ip : Host → String → Ip → Result Addr
  unfolding link_index find_address
  get_link_ip_addr_for_ip h name ip = elim (link_index (nl.link_by_name h name)) [
    | err e ↦ err "failed to get link"
    | ok index ↦ elim (nl.addr_list h index) [
      | err e ↦ err "failed to list addresses of link"
      | ok addrs ↦ elim (find_address addrs ip) [
        | none ↦ err "no address found on link"
        | some addr ↦ ok addr
      ]
    ]
  ]

  -- The text of the destination is 0.0.0.0/0 or ::/0.
  unfoldable pub is_default : Route → Bool
  unfolding ip_string mask_length network_number_and_mask
  is_default route = elim route.dst [
    | none ↦ false
    | some n ↦
        let (nn, m) = network_number_and_mask n in
        elim (mask_length m) [
          | none ↦ false
          | some ones ↦
              not (length nn == 0)
              && (ones == 0 && (str_eq (ip_string nn) "0.0.0.0" || str_eq (ip_string nn) "::"))
        ]
  ]

  -- The loop of `getDefaultRoute`.
  unfoldable pub first_default : List Route → Option Route
  first_default [] = none
  first_default (r ∷ rs) = if is_default r then some r else first_default rs

  unfoldable pub get_default_route : Host → Result Route
  unfolding first_default
  get_default_route h = elim (nl.route_list h) [
    | err e ↦ err "failed to list network routes"
    | ok routes ↦ elim (first_default routes) [
      | none ↦ err "failed to find default route"
      | some r ↦ ok r
    ]
  ]

  unfoldable pub get_default_mtu : Host → Result ℕ
  unfolding get_default_route
  get_default_mtu h = elim (get_default_route h) [
    | err e ↦ err e
    | ok r ↦ nl.link_mtu h r.link_index
  ]

  abbrev pub minimum_mtu : ℕ
  minimum_mtu = 1280

  -- The two steps behind `GetDefaultMTU` in `DetectTunnelMTU`. Go's difference may be negative, which
  -- is below the minimum like the 0 that stands for it here.
  unfoldable pub tunnel_mtu : ℕ → ℕ → ℕ
  tunnel_mtu default_mtu overhead =
      let mtu = default_mtu - overhead in if ltb mtu minimum_mtu then minimum_mtu else mtu

  unfoldable pub detect_tunnel_mtu : Host → ℕ → Result ℕ
  unfolding tunnel_mtu
  detect_tunnel_mtu h overhead = elim (get_default_mtu h) [
    | err e ↦ err "failed to detect tunnel MTU"
    | ok mtu ↦ ok (tunnel_mtu mtu overhead)
  ]

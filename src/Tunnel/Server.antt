-- ===== src/Tunnel/Server.antt =====
-- pkg/shoot_client/tunnel/tunnel.go: `kubeApiserverData`, the tunnel to one kube-apiserver. Times are
-- numbers of nanoseconds; locks and logs are left out.
pub mod Retry
use Prim.Native.String.{◌++◌}
use vpn.Prelude.{
  ℕ, zero, suc, ◌+◌, ◌-◌, ◌*◌, ◌^◌, ◌≡◌, refl, String, Bool, true, false, Option, none, some, List,
  [], ◌∷◌, Result, ok, err, ltb, ◌==◌, if◌then◌else◌, str_eq, length, get_or, not,
}
use vpn.Prelude.Io.{Io, continue, ◌>>=◌, ◌>>◌, return, throw, lift}
use vpn.Net.Ip.{Ip, to4, hex_byte}
use vpn.Net.Mask.{IpNet, cidr_mask}
use vpn.Network.Netlink.{Netlink}
use vpn.Network.Link.{delete_link_by_name, create_tunnel, link_index, replace_route}

abbrev pub second : ℕ
second = 1_000_000_000

abbrev pub clean_up_period : ℕ
clean_up_period = 15 * 60 * second

abbrev pub creation_failure_backoff : ℕ
creation_failure_backoff = 30 * second

abbrev pub expiration_duration : ℕ
expiration_duration = 10 * 60 * second

-- `kubeApiserverData`.
pub record ServerData : Type 0 where
  pub pod_ip : String
  pub local_addr : Ip
  pub remote_addr : Ip
  pub last_seen : ℕ
  pub creation_complete : Bool
  pub last_creation_failed : Option ℕ
  pub creation_failed_count : ℕ
  pub last_error : Option String

-- `time.Since(t) > d` at the time `now`.
abbrev pub since_exceeds : ℕ → ℕ → ℕ → Bool
since_exceeds now t d = ltb (t + d) now

unfoldable pub set_last_seen : ℕ → ServerData → ServerData
set_last_seen now d = record d { last_seen = now }

unfoldable pub needs_update : ℕ → String → ServerData → Bool
needs_update now pod_ip d =
    if not (str_eq d.pod_ip pod_ip)
    then true
    else if d.creation_complete
    then false
    else elim d.last_creation_failed [
      | some t ↦ since_exceeds now t creation_failure_backoff
      | none ↦ true
    ]

-- `linkName`: the last two bytes of the remote address in hexadecimal.
unfoldable pub link_name : ServerData → String
unfolding hex_byte
link_name d =
    "bond0ip6tnl"
    ++ (hex_byte (get_or d.remote_addr (length d.remote_addr - 2) 0)
        ++ hex_byte (get_or d.remote_addr (length d.remote_addr - 1) 0))

-- `_setFailed`.
unfoldable pub set_failed : ℕ → String → ServerData → ServerData
set_failed now e d = record d {
  last_creation_failed = some now;
  creation_failed_count = d.creation_failed_count + 1;
  last_error = some e;
}

unfoldable pub set_created : ServerData → ServerData
set_created d = record d {
  creation_complete = true;
  last_error = none;
  last_creation_failed = none;
  creation_failed_count = 0;
}

-- The network of one address: `net.CIDRMask(len(ip)*8, len(ip)*8)`.
unfoldable pub host_net : Ip → IpNet
unfolding cidr_mask
host_net ip = record { ip = ip; mask = cidr_mask (length ip * 8) (length ip * 8) }

-- The shorter form of an address that `net.ParseIP` gives; `none` is nil.
unfoldable pub parsed_ip : Option Ip → Result Ip
parsed_ip none = err "failed to parse pod IP"
parsed_ip (some ip) = elim (to4 ip) [ some v4 ↦ ok v4 | none ↦ ok ip ]

-- The isOutdated test of `clean`.
unfoldable pub is_outdated : ℕ → ServerData → Bool
is_outdated now d = since_exceeds now d.last_seen expiration_duration

module _ (nl : Netlink) (parse_ip : String → Option Ip) where
  open nl use {Host}

  -- The calls of `update` on the host, in their order; an error ends it.
  unfoldable pub update_host : ServerData → Io Host (Unit {0})
  update_host d = do
    delete_link_by_name nl (link_name d)
    create_tunnel nl (link_name d) d.local_addr d.remote_addr
    index ← λ h. (h, link_index nl (nl.link_by_name h (link_name d)))
    ip ← lift (parsed_ip (parse_ip d.pod_ip))
    replace_route nl (host_net ip) index

  -- The outcome of `update` for the data.
  unfoldable pub updated : ℕ → ServerData → Host × Result (Unit {0}) → Host × ServerData
  updated now d (h, ok _) = (h, set_created d)
  updated now d (h, err e) = (h, set_failed now e d)

  -- `update`; `now` is the time of the failure, if there is one.
  unfoldable pub update : ℕ → String → ServerData → Host → Host × ServerData
  unfolding updated
  update now pod_ip d h = let d' = record d { pod_ip = pod_ip } in updated now d' (update_host d' h)

-- `delete`: an error is only logged.
unfoldable pub delete : (nl : Netlink) → ServerData → nl.Host → nl.Host
delete nl d h = (delete_link_by_name nl (link_name d) h).0

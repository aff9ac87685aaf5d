-- ===== src/Client/Sysctl.antt =====
-- pkg/vpn_client/sysctl.go: the kernel parameters. A host is a function from the names of parameters
-- to their values; `sysctl.Get` and `sysctl.Set`, of another package, are parameters.
pub mod Applied
use vpn.Prelude.{
  ◌≡◌, refl, String, Bool, true, false, not, List, [], ◌∷◌, Result, ok, err, if◌then◌else◌, All,
  arith, eq_iff, str_eq,
}
use vpn.Prelude.Io.{Io, continue, ◌>>=◌, ◌>>◌, return, throw, for_each}

-- The parameters with their texts, and `strconv.ParseInt(..., 10, 64)` as a test for the value 1.
pub record Sysctl : Type 1 where
  pub Host : Type 0
  pub get : Host → String → Result String
  pub set : String → String → Io Host (Unit {0})
  pub parse_is_one : String → Result Bool

module _ (sys : Sysctl) where
  open sys use {Host, set}

  -- Behind the two reads of `EnableIPv6Networking`.
  unfoldable pub enable_if : Bool → Io Host (Unit {0})
  enable_if false h = (h, ok tt)
  enable_if true h =
      let (h', r) = set "net.ipv6.conf.all.disable_ipv6" "0" h in
      elim r [ ok u ↦ (h', ok tt) | err e ↦ (h', err "failed to enable IPv6 networking") ]

  -- `EnableIPv6Networking`.
  unfoldable pub enable_ipv6_networking : Io Host (Unit {0})
  unfolding enable_if
  enable_ipv6_networking h = elim (sys.get h "net.ipv6.conf.all.disable_ipv6") [
    | err e ↦ (h, err "failed to read net.ipv6.conf.all.disable_ipv6")
    | ok text ↦ elim (sys.parse_is_one text) [
      | err e ↦ (h, err "failed to parse net.ipv6.conf.all.disable_ipv6 value")
      | ok one ↦ enable_if one h
    ]
  ]

  -- `DisableMartianLogging`.
  unfoldable pub disable_martian_logging : Io Host (Unit {0})
  disable_martian_logging = do
    set "net.ipv4.conf.all.log_martians" "0"
    set "net.ipv4.conf.default.log_martians" "0"

  -- `DisableRpFilter`.
  unfoldable pub disable_rp_filter : Io Host (Unit {0})
  disable_rp_filter = do
    set "net.ipv4.conf.all.rp_filter" "0"
    set "net.ipv4.conf.default.rp_filter" "0"

  -- `EnableIPForwarding`.
  unfoldable pub enable_ip_forwarding : Io Host (Unit {0})
  enable_ip_forwarding = do set "net.ipv4.ip_forward" "1"; set "net.ipv6.conf.all.forwarding" "1"

  -- `ConntrackSettings`.
  unfoldable pub conntrack_settings : Io Host (Unit {0})
  conntrack_settings = do
    set "net.ipv4.ip_local_port_range" "1024 65535"
    set "net.ipv4.tcp_tw_reuse" "1"
    set "net.ipv4.tcp_fin_timeout" "30"
    set "net.netfilter.nf_conntrack_tcp_timeout_established" "600"
    set "net.netfilter.nf_conntrack_tcp_timeout_syn_sent" "30"
    set "net.netfilter.nf_conntrack_tcp_timeout_syn_recv" "30"
    set "net.netfilter.nf_conntrack_tcp_timeout_fin_wait" "30"
    set "net.netfilter.nf_conntrack_tcp_timeout_time_wait" "30"
    set "net.netfilter.nf_conntrack_tcp_timeout_close_wait" "30"
    set "net.netfilter.nf_conntrack_tcp_timeout_unacknowledged" "60"
    set "net.netfilter.nf_conntrack_tcp_timeout_max_retrans" "120"

  -- `BufferSettings`.
  unfoldable pub buffer_settings : Io Host (Unit {0})
  buffer_settings = do
    set "net.ipv4.tcp_wmem" "65536\t12582912\t16777216"
    set "net.ipv4.tcp_rmem" "65536\t12582912\t16777216"

  -- The end of `KernelSettings`, after the settings of both sides.
  unfoldable pub side_settings : Bool → Io Host (Unit {0})
  unfolding enable_ipv6_networking conntrack_settings enable_ip_forwarding
  side_settings false = enable_ipv6_networking
  side_settings true = do conntrack_settings; enable_ip_forwarding

  -- `KernelSettings`.
  unfoldable pub kernel_settings : Bool → Io Host (Unit {0})
  unfolding side_settings disable_martian_logging disable_rp_filter buffer_settings
  kernel_settings is_shoot_client = do
    disable_martian_logging
    disable_rp_filter
    buffer_settings
    side_settings is_shoot_client

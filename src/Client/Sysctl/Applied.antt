-- ===== src/Client/Sysctl/Applied.antt =====
-- Which kernel parameters are set when pkg/vpn_client/sysctl.go runs.
use vpn.Prelude.{◌⊎◌, ◌≡◌, String, List, [], ◌∷◌, Result, ok, err, ◌++◌}
use vpn.Prelude.Io.{Io, for_each}
use vpn.Client.Sysctl.{Sysctl}

abbrev martian_settings : List (String × String)
martian_settings =
    ("net.ipv4.conf.all.log_martians", "0") ∷ ("net.ipv4.conf.default.log_martians", "0") ∷ []

abbrev rp_filter_settings : List (String × String)
rp_filter_settings =
    ("net.ipv4.conf.all.rp_filter", "0") ∷ ("net.ipv4.conf.default.rp_filter", "0") ∷ []

abbrev buffer_list : List (String × String)
buffer_list =
    ("net.ipv4.tcp_wmem", "65536\t12582912\t16777216")
    ∷ ("net.ipv4.tcp_rmem", "65536\t12582912\t16777216")
    ∷ []

abbrev conntrack_list : List (String × String)
conntrack_list =
    ("net.ipv4.ip_local_port_range", "1024 65535")
    ∷ ("net.ipv4.tcp_tw_reuse", "1")
    ∷ ("net.ipv4.tcp_fin_timeout", "30")
    ∷ ("net.netfilter.nf_conntrack_tcp_timeout_established", "600")
    ∷ ("net.netfilter.nf_conntrack_tcp_timeout_syn_sent", "30")
    ∷ ("net.netfilter.nf_conntrack_tcp_timeout_syn_recv", "30")
    ∷ ("net.netfilter.nf_conntrack_tcp_timeout_fin_wait", "30")
    ∷ ("net.netfilter.nf_conntrack_tcp_timeout_time_wait", "30")
    ∷ ("net.netfilter.nf_conntrack_tcp_timeout_close_wait", "30")
    ∷ ("net.netfilter.nf_conntrack_tcp_timeout_unacknowledged", "60")
    ∷ ("net.netfilter.nf_conntrack_tcp_timeout_max_retrans", "120")
    ∷ []

abbrev forwarding_list : List (String × String)
forwarding_list = ("net.ipv4.ip_forward", "1") ∷ ("net.ipv6.conf.all.forwarding", "1") ∷ []

-- The settings of a shoot client, in their order.
abbrev pub shoot_settings : List (String × String)
shoot_settings =
    martian_settings ++ (rp_filter_settings ++ (buffer_list ++ (conntrack_list ++ forwarding_list)))

module _ (sys : Sysctl) where
  open sys use {Host, set}

  apply : (String × String) → Io Host (Unit {0})
  apply (k, v) = set k v

  abbrev run : List (String × String) → Io Host (Unit {0})
  run s = for_each s apply

module _ (sys : Sysctl) where
  open sys use {Host}

  -- The settings behind a call of `Set`, which count where it succeeds.
  abbrev noted :
      (String × String)
      → List (String × String)
      → Host × Result (Unit {0})
      → (Host × List (String × String)) × Result (Unit {0})
  noted p l (h, ok u) = ((h, l ++ p ∷ []), ok u)
  noted p l (h, err e) = ((h, l), err e)

  -- The same parameters, where the settings that succeed are kept in their order.
  abbrev pub recorded : Sysctl
  recorded = record {
    Host = Host × List (String × String);
    get = λ h k. sys.get h.0 k;
    set = λ k v h. noted (k, v) h.1 (sys.set k v h.0);
    parse_is_one = sys.parse_is_one;
  }

  -- All settings of a list were made, or those before one that failed.
  abbrev pub Made :
      List (String × String)
      → List (String × String)
      → (Host × List (String × String)) × Result (Unit {0})
      → Type 0
  Made before s r =
      ((r.1 ≡ ok tt) × (r.0.1 ≡ before ++ s))
      ⊎ ((e : String) × (p : String × String) × (done : List (String × String)) × (rest : List
            (String × String))
          × (r.1 ≡ err e)
          × (r.0.1 ≡ before ++ done)
          × (s ≡ done ++ p ∷ rest))

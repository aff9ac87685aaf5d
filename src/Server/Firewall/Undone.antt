-- ===== src/Server/Firewall/Undone.antt =====
-- The firewall command of cmd/vpn_server/app/firewall.go in mode down takes away what it set up in
-- mode up.
use mathlib.Core.Path.{subst}
use vpn.Prelude.{
  ◌≡◌, refl, sym, ap, ◌∙◌, inl, inr, String, List, ◌++◌, Result, ok, err, str_eq, if◌then◌else◌,
  arith, Result-cases,
}
use vpn.Prelude.Io.{Io, continue, ◌>>◌, return, on_left, on_right}
use vpn.Net.Mask.{IpNet}
use vpn.Network.Cidr.{Cidr}
use vpn.Network.Netlink.{Netlink}
use vpn.Network.Netmap.{MappedRanges}
use vpn.Network.Iptables.{Iptables, protocol_ipv4, protocol_ipv6, Table, new_iptables}
use vpn.Server.Firewall.{
  Mode, up, down, mode_of, input_specs, input_rules, nat_rules, add_routes, run_firewall_command,
}
use vpn.Server.Firewall.Rules.{Spec, Chain, append_ops, delete_ops, delete_ops-append_ops}
use vpn.Server.Firewall.Actions.{Alike, IsIptables, new_iptables-Alike, ops_of}
use vpn.Server.Firewall.Plan.{
  LacksAll, nat_specs, command_ops, command_ops-LacksAll, command_rules, command_rules-Does,
}

ok-inj : {A : Type 0} {a b : A} → ok a ≡ ok b → a ≡ b
ok-inj {a = a} e = ap (λ r. elim r [ ok x ↦ x | err f ↦ a ]) e

module _ (ipt : Iptables) (nl : Netlink) (rules : ipt.Host → Chain → List Spec)
    (laws : IsIptables ipt rules) where
  module _ {K : Type 0} (c : Io K (Unit {0})) where
    second :
        (r : ipt.Host × Result (Unit {0})) (k : K)
        → (continue ((r.0, k), r.1) (λ _. on_right c)).1 ≡ ok tt
        → (r.1 ≡ ok tt) × ((continue ((r.0, k), r.1) (λ _. on_right c)).0.0 ≡ r.0)
    second (h, ok u) k e = (refl, refl)
    second (h, err f) k e = absurd (ground (arith, e))

    -- The rules come before the routes.
    first :
        (b : Io ipt.Host (Unit {0})) (r : ipt.Host × Result (Unit {0})) (k : K)
        → (continue ((r.0, k), r.1) (λ _. on_left b >> on_right c)).1 ≡ ok tt
        → ((continue r (λ _. b)).1 ≡ ok tt)
          × ((continue ((r.0, k), r.1) (λ _. on_left b >> on_right c)).0.0
              ≡ (continue r (λ _. b)).0)
    first b (h, ok u) k e = second (b h) k e
    first b (h, err f) k e = absurd (ground (arith, e))

  -- What a run of the command that succeeds has done.
  record Ran (m : Mode) (cidr : Result Cidr) (device nw mapped : String) (h h' : ipt.Host)
      : Type 0 where
    table4 : Table
    table6 : Table
    opened4 : new_iptables ipt h protocol_ipv4 ≡ ok table4
    opened6 : new_iptables ipt h protocol_ipv6 ≡ ok table6
    effect :
        (c : Chain)
        → rules h' c ≡ ops_of m c (command_ops table4 table6 cidr device nw mapped) (rules h c)
    alike : Alike ipt h h'

  Ran-at :
      (m : Mode) (table4 table6 : Table) (cidr : Result Cidr) (device nw mapped : String)
      → (h h' : ipt.Host) → new_iptables ipt h protocol_ipv4 ≡ ok table4
      → new_iptables ipt h protocol_ipv6 ≡ ok table6
      → (command_rules ipt nl m table4 table6 cidr device nw mapped h).1 ≡ ok tt
      → h' ≡ (command_rules ipt nl m table4 table6 cidr device nw mapped h).0
      → Ran m cidr device nw mapped h h'
  Ran-at m table4 table6 cidr device nw mapped h h' good4 good6 done same =
      let does = command_rules-Does ipt nl rules laws m table4 table6 cidr device nw mapped in
      record {
        table4 = table4;
        table6 = table6;
        opened4 = good4;
        opened6 = good6;
        effect = λ c. ap (λ x. rules x c) same ∙ does.effect h c done;
        alike = rw same (does.alike h done);
      }

  module _ (parse_cidr : String → Result IpNet) (ranges : MappedRanges) (device : String)
      (networks : List String) (nw : String) where
    run-Ran :
        (m : Mode) (mode : String)
        → mode_of mode ≡ ok m
        → (h : ipt.Host) (k : nl.Host)
        → (run_firewall_command ipt nl parse_cidr ranges device mode networks nw (h, k)).1 ≡ ok tt
        → Ran m
            (parse_cidr nw)
            device
            nw
            ranges.seed_pod
            h
            (run_firewall_command ipt nl parse_cidr ranges device mode networks nw (h, k)).0.0
    unfolding run_firewall_command command_rules
    run-Ran m mode is_mode h k e = elim (Result-cases (new_iptables ipt h protocol_ipv4)) [
      | inr (f, bad) ↦ absurd (ground (arith, rw (run_firewall_command, bad) at e))
      | inl (table4, good4) ↦ elim (Result-cases (new_iptables ipt h protocol_ipv6)) [
        | inr (f, bad) ↦ absurd (ground (arith, rw (run_firewall_command, good4, bad) at e))
        | inl (table6, good6) ↦
            let (done, same) =
              first (add_routes ipt nl parse_cidr m device networks)
                (if str_eq device "tun0"
                  then nat_rules ipt nl m table4 (parse_cidr nw) device nw ranges.seed_pod
                  else return tt)
                (input_rules ipt nl m table4 table6 (input_specs device) h) k
                (rw (run_firewall_command, good4, good6, is_mode) at e) in
            rw (run_firewall_command, good4, good6, is_mode)
              (Ran-at m table4 table6 (parse_cidr nw) device nw ranges.seed_pod h _ good4 good6 done
                same)
      ]
    ]

  -- Two runs whose first was in mode up and whose second was in mode down.
  undone :
      (cidr : Result Cidr) (device nw mapped : String) (h h' h'' : ipt.Host) (c : Chain)
      → LacksAll (input_specs device ++ nat_specs device nw mapped) (rules h c)
      → Ran up cidr device nw mapped h h'
      → Ran down cidr device nw mapped h' h''
      → rules h'' c ≡ rules h c
  undone cidr device nw mapped h h' h'' c lacks u d =
      let same4 : u.table4 ≡ d.table4 =
        ok-inj
          (sym u.opened4 ∙ sym (new_iptables-Alike ipt h h' protocol_ipv4 u.alike) ∙ d.opened4) in
      let same6 : u.table6 ≡ d.table6 =
        ok-inj
          (sym u.opened6 ∙ sym (new_iptables-Alike ipt h h' protocol_ipv6 u.alike) ∙ d.opened6) in
      d.effect c
      ∙ ap (delete_ops c (command_ops d.table4 d.table6 cidr device nw mapped)) (u.effect c)
      ∙ ap
          (λ t.
            delete_ops c (command_ops t d.table6 cidr device nw mapped)
              (append_ops c (command_ops u.table4 u.table6 cidr device nw mapped) (rules h c)))
          (sym same4)
      ∙ ap
          (λ t.
            delete_ops c (command_ops u.table4 t cidr device nw mapped)
              (append_ops c (command_ops u.table4 u.table6 cidr device nw mapped) (rules h c)))
          (sym same6)
      ∙ delete_ops-append_ops c (command_ops u.table4 u.table6 cidr device nw mapped) (rules h c)
          (command_ops-LacksAll u.table4 u.table6 cidr device nw mapped (rules h c) lacks)

  -- The firewall command in mode `up` and then in mode `down`, with the same arguments, leaves a chain as
  -- it was: if both runs return no error, and none of the rules of the command stood in the chain before,
  -- then the chain has the same rules in the same order. The commands of iptables append a rule, or delete
  -- its first occurrence, where they succeed, and do not change which backends work; the links and routes
  -- may change between the runs.
  pub run_firewall_command-undone :
      (parse_cidr : String → Result IpNet) (ranges : MappedRanges) (device : String)
      (networks : List String) (seed_pod_network : String)
      → (h h' h'' : ipt.Host) (k k' l l' : nl.Host) (c : Chain)
      → LacksAll
          (input_specs device ++ nat_specs device seed_pod_network ranges.seed_pod)
          (rules h c)
      → run_firewall_command ipt nl parse_cidr ranges device "up" networks seed_pod_network (h, k)
        ≡ ((h', k'), ok tt)
      → run_firewall_command ipt nl parse_cidr ranges device "down" networks seed_pod_network
          (h', l)
        ≡ ((h'', l'), ok tt)
      → rules h'' c ≡ rules h c
  unfolding mode_of
  run_firewall_command-undone parse_cidr ranges device networks nw h h' h'' k k' l l' c lacks e e' =
      let u = run-Ran parse_cidr ranges device networks nw up "up" refl h k (ap (λ r. r.1) e) in
      let d =
        run-Ran parse_cidr ranges device networks nw down "down" refl h' l (ap (λ r. r.1) e') in
      let set = subst (Ran up (parse_cidr nw) device nw ranges.seed_pod h) (ap (λ r. r.0.0) e) u in
      let unset =
        subst (Ran down (parse_cidr nw) device nw ranges.seed_pod h') (ap (λ r. r.0.0) e') d in
      undone (parse_cidr nw) device nw ranges.seed_pod h h' h'' c lacks set unset

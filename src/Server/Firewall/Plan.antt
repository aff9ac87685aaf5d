-- ===== src/Server/Firewall/Plan.antt =====
-- The rules that the firewall command of cmd/vpn_server/app/firewall.go adds or deletes, as a list.
use vpn.Prelude.{
  String, Bool, true, false, List, [], ◌∷◌, ◌++◌, Result, ok, err, All, str_eq, if◌then◌else◌,
  All-append,
}
use vpn.Prelude.Io.{Io, ◌>>◌, return, for_each}
use vpn.Network.Cidr.{Cidr, is_ipv4}
use vpn.Network.Netlink.{Netlink}
use vpn.Network.Iptables.{Iptables, Table}
use vpn.Server.Firewall.{Mode, op, input_specs, input_rules, nat_rules}
use vpn.Server.Firewall.Rules.{Spec, Lacks, Chain, Op}
use vpn.Server.Firewall.Actions.{IsIptables, Does, Does-seq, Does-return, Does-op}

unfoldable input_ops : Table → Table → List Spec → List Op
input_ops table4 table6 [] = []
input_ops table4 table6 (s ∷ specs) =
    record { opened = table4; table = "filter"; chain = "INPUT"; spec = s }
    ∷ record { opened = table6; table = "filter"; chain = "INPUT"; spec = s }
    ∷ input_ops table4 table6 specs

-- The rules of the double NAT.
unfoldable pub nat_specs : String → String → String → List Spec
nat_specs device seed_pod_network mapped =
    ("--in-interface" ∷ device ∷ "-d" ∷ mapped ∷ "-j" ∷ "NETMAP" ∷ "--to" ∷ seed_pod_network ∷ [])
    ∷ ("--out-interface" ∷ device ∷ "-s" ∷ seed_pod_network ∷ "-j" ∷ "NETMAP" ∷ "--to" ∷ mapped
        ∷ [])
    ∷ []

unfoldable nat_ops : Table → String → String → String → List Op
nat_ops table4 device seed_pod_network mapped =
    record {
      opened = table4;
      table = "nat";
      chain = "PREROUTING";
      spec =
          "--in-interface" ∷ device ∷ "-d" ∷ mapped ∷ "-j" ∷ "NETMAP" ∷ "--to" ∷ seed_pod_network
          ∷ [];
    }
    ∷ record {
      opened = table4;
      table = "nat";
      chain = "POSTROUTING";
      spec =
          "--out-interface" ∷ device ∷ "-s" ∷ seed_pod_network ∷ "-j" ∷ "NETMAP" ∷ "--to" ∷ mapped
          ∷ [];
    }
    ∷ []

-- The rules of the command stand in no chain.
abbrev pub LacksAll : List Spec → List Spec → Type 0
LacksAll specs rules = All (λ s. Lacks s rules) specs

input_ops-LacksAll :
    (table4 table6 : Table) (specs : List Spec) (l : List Spec)
    → LacksAll specs l
    → All (λ (o : Op). Lacks o.spec l) (input_ops table4 table6 specs)
unfolding input_ops
input_ops-LacksAll table4 table6 [] l h = tt
input_ops-LacksAll table4 table6 (s ∷ specs) l h =
    (h.0, (h.0, input_ops-LacksAll table4 table6 specs l h.1))

nat_ops-LacksAll :
    (table4 : Table) (device nw mapped : String) (l : List Spec)
    → LacksAll (nat_specs device nw mapped) l
    → All (λ (o : Op). Lacks o.spec l) (nat_ops table4 device nw mapped)
unfolding nat_ops nat_specs
nat_ops-LacksAll table4 device nw mapped l h = h

unfoldable nat_plan : Table → Result Cidr → String → String → String → List Op
nat_plan table4 (err e) device nw mapped = []
nat_plan table4 (ok cidr) device nw mapped =
    if is_ipv4 cidr then nat_ops table4 device nw mapped else []

unfoldable pub command_ops : Table → Table → Result Cidr → String → String → String → List Op
unfolding input_ops nat_plan nat_ops
command_ops table4 table6 cidr device nw mapped =
    input_ops table4 table6 (input_specs device)
    ++ (if str_eq device "tun0" then nat_plan table4 cidr device nw mapped else [])

All-if : (b : Bool) (P : Op → Type 0) (os : List Op) → All P os → All P (if b then os else [])
All-if true P os h = h
All-if false P os h = tt

nat_plan-LacksAll :
    (table4 : Table) (cidr : Result Cidr) (device nw mapped : String) (l : List Spec)
    → LacksAll (nat_specs device nw mapped) l
    → All (λ (o : Op). Lacks o.spec l) (nat_plan table4 cidr device nw mapped)
unfolding nat_plan
nat_plan-LacksAll table4 (err e) device nw mapped l h = tt
nat_plan-LacksAll table4 (ok cidr) device nw mapped l h =
    All-if (is_ipv4 cidr) (λ (o : Op). Lacks o.spec l) (nat_ops table4 device nw mapped)
      (nat_ops-LacksAll table4 device nw mapped l h)

pub command_ops-LacksAll :
    (table4 table6 : Table) (cidr : Result Cidr) (device nw mapped : String) (l : List Spec)
    → LacksAll (input_specs device ++ nat_specs device nw mapped) l
    → All (λ (o : Op). Lacks o.spec l) (command_ops table4 table6 cidr device nw mapped)
unfolding command_ops nat_plan input_specs
command_ops-LacksAll table4 table6 cidr device nw mapped l h =
    All-append (λ (o : Op). Lacks o.spec l) (input_ops table4 table6 (input_specs device)) _
      (input_ops-LacksAll table4 table6 (input_specs device) l (h.0, (h.1.0, tt)))
      (All-if (str_eq device "tun0") (λ (o : Op). Lacks o.spec l)
        (nat_plan table4 cidr device nw mapped)
        (nat_plan-LacksAll table4 cidr device nw mapped l h.1.1))

module _ (ipt : Iptables) (nl : Netlink) where
  -- The rules of the command.
  unfoldable pub command_rules :
      Mode → Table → Table → Result Cidr → String → String → String → Io ipt.Host (Unit {0})
  unfolding input_rules nat_rules input_specs
  command_rules m table4 table6 cidr device nw mapped = do
    input_rules ipt nl m table4 table6 (input_specs device)
    if str_eq device "tun0" then nat_rules ipt nl m table4 cidr device nw mapped else return tt

module _ (ipt : Iptables) (nl : Netlink) (rules : ipt.Host → Chain → List Spec)
    (laws : IsIptables ipt rules) where
  input_rules-Does :
      (m : Mode) (table4 table6 : Table) (specs : List Spec)
      → Does ipt nl rules m
          (input_ops table4 table6 specs)
          (input_rules ipt nl m table4 table6 specs)
  unfolding input_ops input_rules for_each
  input_rules-Does m table4 table6 [] = Does-return ipt nl rules m
  input_rules-Does m table4 table6 (s ∷ specs) =
      Does-seq ipt nl rules m (input_ops table4 table6 (s ∷ [])) (input_ops table4 table6 specs)
        (λ h. (do op ipt nl m table4 "filter" "INPUT" s; op ipt nl m table6 "filter" "INPUT" s) h)
        (input_rules ipt nl m table4 table6 specs)
        (Does-seq ipt nl rules m (_ ∷ []) (_ ∷ []) (op ipt nl m table4 "filter" "INPUT" s)
          (op ipt nl m table6 "filter" "INPUT" s)
          (Does-op ipt nl rules laws m
            (record { opened = table4; table = "filter"; chain = "INPUT"; spec = s }))
          (Does-op ipt nl rules laws m
            (record { opened = table6; table = "filter"; chain = "INPUT"; spec = s })))
        (input_rules-Does m table4 table6 specs)

  Does-if :
      (m : Mode) (b : Bool) (os : List Op) (act : Io ipt.Host (Unit {0}))
      → Does ipt nl rules m os act
      → Does ipt nl rules m (if b then os else []) (λ h. if b then act h else (h, ok tt))
  Does-if m true os act f = f
  Does-if m false os act f = Does-return ipt nl rules m

  nat_rules-Does :
      (m : Mode) (table4 : Table) (cidr : Result Cidr) (device nw mapped : String)
      → Does ipt nl rules m
          (nat_plan table4 cidr device nw mapped)
          (nat_rules ipt nl m table4 cidr device nw mapped)
  unfolding nat_plan nat_rules nat_ops
  nat_rules-Does m table4 (err e) device nw mapped = Does-return ipt nl rules m
  nat_rules-Does m table4 (ok cidr) device nw mapped =
      Does-if m (is_ipv4 cidr) (nat_ops table4 device nw mapped) _ (
        Does-seq ipt nl rules m (_ ∷ []) (_ ∷ []) _ _
          (Does-op ipt nl rules laws m
            (record { opened = table4; table = "nat"; chain = "PREROUTING"; spec = _ }))
          (Does-op ipt nl rules laws m
            (record { opened = table4; table = "nat"; chain = "POSTROUTING"; spec = _ })))

  Does-when :
      (m : Mode) (b : Bool) (os : List Op) (act : Io ipt.Host (Unit {0}))
      → Does ipt nl rules m os act
      → Does ipt nl rules m (if b then os else []) (if b then act else return tt)
  Does-when m true os act f = f
  Does-when m false os act f = Does-return ipt nl rules m

  pub command_rules-Does :
      (m : Mode) (table4 table6 : Table) (cidr : Result Cidr) (device nw mapped : String)
      → Does ipt nl rules m
          (command_ops table4 table6 cidr device nw mapped)
          (command_rules ipt nl m table4 table6 cidr device nw mapped)
  unfolding command_ops command_rules
  command_rules-Does m table4 table6 cidr device nw mapped =
      Does-seq ipt nl rules m (input_ops table4 table6 (input_specs device)) _ _ _
        (input_rules-Does m table4 table6 (input_specs device))
        (Does-when m (str_eq device "tun0") (nat_plan table4 cidr device nw mapped) _
          (nat_rules-Does m table4 cidr device nw mapped))

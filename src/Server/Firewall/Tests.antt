-- ===== src/Server/Firewall/Tests.antt =====
-- Runs of the firewall command.
use vpn.Prelude.{◌≡◌, refl, String, true, List, [], ◌∷◌, ◌++◌, Result, ok}
use vpn.Prelude.Io.{Io, for_each}
use vpn.Net.Mask.{IpNet}
use vpn.Network.Netmap.{MappedRanges}
use vpn.Network.Netmap.Sorting.{insertion_sort}
use vpn.Network.Iptables.{Iptables, protocol_ipv4, new_iptables}
use vpn.Network.Tests.{quiet_netlink}
use vpn.Server.Firewall.{run_firewall_command, input_specs}
use vpn.Server.Firewall.Rules.{Spec, Chain, same_spec, is_at, append_op, delete_op}
use vpn.Server.Firewall.Actions.{IsIptables}
use vpn.Server.Firewall.Plan.{LacksAll, nat_specs}
use vpn.Server.Firewall.Undone.{run_firewall_command-undone}

-- A host with the rules of each chain.
abbrev chains : Iptables
chains = record {
  Host = Chain → List Spec;
  lists = λ h path. true;
  new = λ h p path. ok (record { protocol = p; path = path });
  append = λ t table chain spec h. (
    (λ c. append_op c (record { opened = t; table = table; chain = chain; spec = spec }) (h c)),
    ok tt,
  );
  append_unique = λ t table chain spec h. (
    (λ c. append_op c (record { opened = t; table = table; chain = chain; spec = spec }) (h c)),
    ok tt,
  );
  delete_if_exists = λ t table chain spec h. (
    (λ c. delete_op c (record { opened = t; table = table; chain = chain; spec = spec }) (h c)),
    ok tt,
  );
}

chains-IsIptables : IsIptables chains (λ h c. h c)
chains-IsIptables = record {
  appended = λ o h c e. refl;
  deleted = λ o h c e. refl;
  append_keeps = λ o h. record { lists = λ path. refl; new = λ p path. refl };
  delete_keeps = λ o h. record { lists = λ path. refl; new = λ p path. refl };
}

abbrev ranges : MappedRanges
ranges = record {
  sort = insertion_sort;
  shoot_pod = "244.0.0.0/8";
  shoot_service = "243.0.0.0/8";
  shoot_node = "242.0.0.0/8";
  seed_pod = "241.0.0.0/8";
}

-- Every chain has one rule.
abbrev accepting : Chain → List Spec
accepting c = ("-j" ∷ "ACCEPT" ∷ []) ∷ []

abbrev input4 : Chain
input4 = record {
  proto = protocol_ipv4;
  path = "/usr/sbin/iptables-legacy";
  table = "filter";
  chain = "INPUT";
}

specs_lacked :
    LacksAll (input_specs "tun0" ++ nat_specs "tun0" "10.1.0.0/16" "241.0.0.0/8") (accepting input4)
unfolding same_spec input_specs nat_specs
specs_lacked = ((refl, tt), ((refl, tt), ((refl, tt), ((refl, tt), tt))))

abbrev parse_cidr : String → Result IpNet
parse_cidr text = ok (record { ip = 10 ∷ 1 ∷ 0 ∷ 0 ∷ []; mask = 255 ∷ 255 ∷ 0 ∷ 0 ∷ [] })

abbrev networks : List String
networks = "10.0.0.0/16" ∷ []

unfoldable firewall : String → Io (chains.Host × quiet_netlink.Host) (Unit {0})
unfolding run_firewall_command
firewall mode =
    run_firewall_command chains quiet_netlink parse_cidr ranges "tun0" mode networks "10.1.0.0/16"

abbrev set_up : Chain → List Spec
set_up = (firewall "up" (accepting, tt)).0.0

abbrev taken_down : Chain → List Spec
taken_down = (firewall "down" (set_up, tt)).0.0

up_done : firewall "up" (accepting, tt) ≡ ((set_up, tt), ok tt)
unfolding firewall run_firewall_command new_iptables for_each
up_done = refl

down_done : firewall "down" (set_up, tt) ≡ ((taken_down, tt), ok tt)
unfolding firewall run_firewall_command new_iptables for_each
down_done = refl

set_up_test :
    set_up input4
    ≡ ("-j" ∷ "ACCEPT" ∷ [])
      ∷ ("-m" ∷ "state" ∷ "--state" ∷ "RELATED,ESTABLISHED" ∷ "-i" ∷ "tun0" ∷ "-j" ∷ "ACCEPT" ∷ [])
      ∷ ("-i" ∷ "tun0" ∷ "-j" ∷ "DROP" ∷ [])
      ∷ []
unfolding firewall run_firewall_command new_iptables for_each append_op is_at
set_up_test = refl

run_firewall_command-undone_example : taken_down input4 ≡ accepting input4
unfolding firewall
run_firewall_command-undone_example =
    run_firewall_command-undone chains quiet_netlink (λ h c. h c) chains-IsIptables parse_cidr
      ranges "tun0" networks "10.1.0.0/16" accepting set_up taken_down tt tt tt tt input4
      specs_lacked up_done down_done

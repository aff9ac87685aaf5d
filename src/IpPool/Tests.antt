-- ===== src/IpPool/Tests.antt =====
-- Runs of the address pool of pkg/ippool, and the theorems at concrete inputs.
use vpn.Prelude.{
  ℕ, zero, suc, ◌<◌, ◌≡◌, ◌≢◌, ◌↔◌, inl, inr, refl, String, true, false, List, [], ◌∷◌, Result, ok,
  Any, contains, arith, eq_iff, replicate, sym,
}
use native.Mathlib.Decide.{ℕ_discrete}
use vpn.Prelude.Dict.{lookup as find_key, insert, value_of}
use vpn.Net.Ip.{ip_string, all_zero, decimal_byte, hex_group, to4}
use vpn.IpPool.Manager.{
  Pod, IsPodApi, plain_api, UsageLookupResult, usage_lookup, collect, record_pod, pod_ip,
  annotation_used_ip, set_ip_address, annotate, annotate_pod, annotation_key,
}
use vpn.IpPool.Manager.Lookup.{Holds, OwnPod, usage_lookup_exact, usage_lookup_own}
use vpn.IpPool.Broker.{
  Broker, start, returned, address_of_index, draw_index, find_free, announced_ip, acquire_step,
  find_free_ip_address, looked_up, rechecked, announced, settled, announce_ip_address, recorded,
  has_conflict, after_loop, next_round,
}
use vpn.IpPool.Broker.Free.{IsFree, IsTaken, drawn, announced_ip-IsFree, find_free_gives_up}
use vpn.IpPool.Broker.Ends.{acquire_ip, acquire_ip_returns}
use vpn.IpPool.Broker.World.{Agent, World, agent_step, run, Reach, here, next, IsStart}
use vpn.IpPool.Broker.Exclusion.{acquired_ips_differ}

-- Pod `a` has reserved nothing, pod `b` uses an address.
abbrev two_pods : List Pod
two_pods =
    record { name = "a"; annotations = [] }
    ∷ record { name = "b"; annotations = (annotation_used_ip, "fd8f:6d53:b97a:1::a:5") ∷ [] }
    ∷ []

abbrev seen_by_a : UsageLookupResult
seen_by_a = record {
  own_name = "a";
  own_ip = "";
  own_used = false;
  foreign_used = "fd8f:6d53:b97a:1::a:5" ∷ [];
  foreign_reserved = [];
}

a_sees_b : usage_lookup "a" (ok two_pods) ≡ ok seen_by_a
unfolding usage_lookup collect record_pod pod_ip value_of find_key
a_sees_b = refl

usage_lookup_exact_example :
    ((contains seen_by_a.foreign_used "fd8f:6d53:b97a:1::a:5" ≡ true)
      ↔ Any (λ pod. (pod.name ≢ "a") × Holds true "fd8f:6d53:b97a:1::a:5" pod) two_pods)
    × ((contains seen_by_a.foreign_reserved "fd8f:6d53:b97a:1::a:5" ≡ true)
        ↔ Any (λ pod. (pod.name ≢ "a") × Holds false "fd8f:6d53:b97a:1::a:5" pod) two_pods)
usage_lookup_exact_example =
    usage_lookup_exact "a" two_pods {r = seen_by_a} a_sees_b "fd8f:6d53:b97a:1::a:5"

abbrev pod_b : Pod
pod_b = record { name = "b"; annotations = (annotation_used_ip, "fd8f:6d53:b97a:1::a:5") ∷ [] }

abbrev seen_by_b : UsageLookupResult
seen_by_b = record {
  own_name = "b";
  own_ip = "fd8f:6d53:b97a:1::a:5";
  own_used = true;
  foreign_used = [];
  foreign_reserved = [];
}

b_sees_itself : usage_lookup "b" (ok two_pods) ≡ ok seen_by_b
unfolding usage_lookup collect record_pod pod_ip value_of find_key
b_sees_itself = refl

a_ne_b : ◌≢◌ {A = String} "a" "b"
a_ne_b h = cc ((eq_iff "a" "b").1 h)

b_is_unique : OwnPod "b" pod_b two_pods
b_is_unique = record { unique = (λ h. absurd (a_ne_b h), (λ _. refl, tt)); exists = inr (inl refl) }

usage_lookup_own_example :
    (value_of pod_b.annotations "ipv4.bonding.vpn.gardener.cloud/used" ≢ ""
      → (seen_by_b.own_ip ≡ value_of pod_b.annotations "ipv4.bonding.vpn.gardener.cloud/used")
        × (seen_by_b.own_used ≡ true))
    × (value_of pod_b.annotations "ipv4.bonding.vpn.gardener.cloud/used" ≡ ""
        → (seen_by_b.own_ip ≡ value_of pod_b.annotations "ipv4.bonding.vpn.gardener.cloud/reserved")
          × (seen_by_b.own_used ≡ false))
usage_lookup_own_example =
    usage_lookup_own "b" pod_b two_pods {r = seen_by_b} b_sees_itself b_is_unique

abbrev broker_of : String → Broker
broker_of name = record {
  base = 0xfd ∷ 0x8f ∷ 0x6d ∷ 0x53 ∷ 0xb9 ∷ 0x7a ∷ 0 ∷ 1 ∷ 0 ∷ 0 ∷ 0 ∷ 0 ∷ 0 ∷ 0xa ∷ 0 ∷ 0 ∷ [];
  start_index = 1;
  end_index = 0xffff;
  own_name = name;
  own_ip = "";
  own_used = false;
}

-- The address after that of pod `b`.
free_ip : announced_ip false (λ n. 5) (broker_of "a") seen_by_a ≡ ok "fd8f:6d53:b97a:1::a:6"
unfolding announced_ip find_free_ip_address find_free address_of_index draw_index ip_string
free_ip = refl

announced_ip-IsFree_example :
    IsFree (broker_of "a") seen_by_a "fd8f:6d53:b97a:1::a:6"
    × ◌≢◌ {A = String} "fd8f:6d53:b97a:1::a:6" ""
announced_ip-IsFree_example =
    announced_ip-IsFree (λ n. 5) (broker_of "a") seen_by_a {ip = "fd8f:6d53:b97a:1::a:6"}
      (omega arith) free_ip

-- Every attempt draws the address of pod `b`.
all_taken : find_free 3 (λ n. 4) (broker_of "a") seen_by_a ≡ ""
unfolding find_free address_of_index draw_index ip_string
all_taken = refl

drawn_is_set : (i : ℕ) → drawn (λ n. 4) (broker_of "a") i ≢ ""
unfolding address_of_index draw_index ip_string
drawn_is_set i h = cc ((eq_iff (drawn (λ n. 4) (broker_of "a") i) "").1 h)

find_free_gives_up_example : IsTaken seen_by_a (drawn (λ n. 4) (broker_of "a") 2)
find_free_gives_up_example =
    find_free_gives_up 3 (λ n. 4) (broker_of "a") seen_by_a drawn_is_set all_taken 2 (omega arith)

acquire_ip_returns_example :
    (x : Result String) × ((acquire_ip plain_api
        (replicate 91 ((λ c. c), λ n. 4))
        start
        (broker_of "a")
        two_pods).0
      ≡ returned x)
acquire_ip_returns_example =
    acquire_ip_returns plain_api (replicate 91 ((λ c. c), λ n. 4)) (broker_of "a") two_pods
      (omega arith)

plain_api-laws : IsPodApi plain_api
plain_api-laws = record {
  list_pods = λ c l h. ground (arith, h);
  patch_ok = λ c name key value h. refl;
  patch_any = λ c name key value. inr refl;
}

-- Two clients that both start with nothing.
abbrev fresh_pods : List Pod
fresh_pods = record { name = "a"; annotations = [] } ∷ record { name = "b"; annotations = [] } ∷ []

abbrev client : String → Agent
client name = record { pc = start; broker = broker_of name }

abbrev name_of : ℕ → String
name_of zero = "a"
name_of (suc n) = "b"

abbrev begin : World plain_api
begin = record { cluster = fresh_pods; agents = λ i. client (name_of i) }

b_ne_a : ◌≢◌ {A = String} "b" "a"
b_ne_a h = a_ne_b (sym h)

names_differ : (i j : ℕ) → i < 2 → j < 2 → name_of i ≡ name_of j → i ≡ j
names_differ zero zero lt1 lt2 e = refl
names_differ zero (suc j) lt1 lt2 e = absurd (a_ne_b e)
names_differ (suc i) zero lt1 lt2 e = absurd (b_ne_a e)
names_differ (suc i) (suc j) lt1 lt2 e = omega arith

own_pod : (i : ℕ) → i < 2 → (x : Pod) × OwnPod (name_of i) x fresh_pods × (pod_ip x).1 ≡ false
unfolding pod_ip value_of find_key
own_pod zero lt = (
  record { name = "a"; annotations = [] },
  record { unique = (λ _. refl, (λ h. absurd (b_ne_a h), tt)); exists = inl refl },
  refl,
)
own_pod (suc i) lt = (
  record { name = "b"; annotations = [] },
  record { unique = (λ h. absurd (a_ne_b h), (λ _. refl, tt)); exists = inr (inl refl) },
  refl,
)

begin-IsStart : IsStart plain_api 2 begin
begin-IsStart = record { names = names_differ; at_start = λ i lt. refl; own = own_pod }

-- Client 0 runs alone to its end.
abbrev go : World plain_api → World plain_api
go w = agent_step plain_api w 0 (λ n. 4)

abbrev acquired : World plain_api
acquired = go (go (go (go begin)))

acquired_reached : Reach plain_api 2 begin acquired
acquired_reached =
    next
      (next (next (next here (run 0 (λ n. 4) (omega arith))) (run 0 (λ n. 4) (omega arith)))
        (run 0 (λ n. 4) (omega arith)))
      (run 0 (λ n. 4) (omega arith))

acquired_ip : (acquired.agents 0).pc ≡ returned (ok "fd8f:6d53:b97a:1::a:5")
unfolding agent_step acquire_step ℕ_discrete looked_up rechecked settled announced
    announce_ip_address usage_lookup collect record_pod announced_ip find_free_ip_address find_free
    ip_string address_of_index draw_index recorded set_ip_address has_conflict annotate insert
    pod_ip value_of find_key after_loop next_round annotate_pod annotation_key all_zero decimal_byte
    hex_group to4
acquired_ip = refl

acquired_ips_differ_example : ◌≡◌ {A = ℕ} 0 0
acquired_ips_differ_example =
    acquired_ips_differ plain_api plain_api-laws 2 begin-IsStart acquired_reached 0 0
      "fd8f:6d53:b97a:1::a:5" (omega arith) (omega arith) acquired_ip acquired_ip

-- ===== src/IpPool/Manager/Lookup.antt =====
-- What `UsageLookup` of pkg/ippool/manager.go finds: the addresses of the other pods and the own one.
use mathlib.Core.Path.{subst}
use vpn.Prelude.{
  String, Bool, true, false, List, [], ◌∷◌, ◌≡◌, ◌≢◌, ◌↔◌, ◌⊎◌, inl, inr, refl, ok, is_nil, All,
  Any, Any-map, Bool-cases, str_eq, ap, contains, eq_iff, arith,
}
use vpn.Prelude.Dict.{value_of, lookup}
use vpn.IpPool.Manager.{
  Pod, UsageLookupResult, pod_ip, record_pod, collect, usage_lookup, empty_result,
  annotation_used_ip, annotation_reserved_ip,
}

-- Another pod that holds the address `ip`, as used or as reserved.
pub record IsForeign (own : String) (used : Bool) (ip : String) (pod : Pod) : Type 0 where
  pub other : pod.name ≢ own
  pub holds : pod_ip pod ≡ (ip, used)
  pub set : ip ≢ ""

value_of_nil : (l : List (String × String)) (k : String) → is_nil l ≡ true → value_of l k ≡ ""
unfolding value_of lookup
value_of_nil [] k h = refl
value_of_nil (x ∷ l) k h = cc

pod_ip_of_nil : (pod : Pod) → is_nil pod.annotations ≡ true → pod_ip pod ≡ ("", false)
unfolding pod_ip
pod_ip_of_nil pod h =
    rw (value_of_nil pod.annotations annotation_used_ip h)
      (rw (value_of_nil pod.annotations annotation_reserved_ip h))

record_pod-foreign_used :
    (own ip : String) (pod : Pod) (r : UsageLookupResult)
    → (contains (record_pod own pod r).foreign_used ip ≡ true)
      ↔ ((contains r.foreign_used ip ≡ true) ⊎ IsForeign own true ip pod)
unfolding record_pod
record_pod-foreign_used own ip pod r = (
  λ h. ground (arith, eq_iff pod.name own, eq_iff (pod_ip pod).0 ip, eq_iff (pod_ip pod).0 ""),
  λ h. ground (
    arith,
    eq_iff pod.name own,
    eq_iff (pod_ip pod).0 ip,
    eq_iff (pod_ip pod).0 "",
    pod_ip_of_nil pod,
  ),
)

record_pod-foreign_reserved :
    (own ip : String) (pod : Pod) (r : UsageLookupResult)
    → (contains (record_pod own pod r).foreign_reserved ip ≡ true)
      ↔ ((contains r.foreign_reserved ip ≡ true) ⊎ IsForeign own false ip pod)
unfolding record_pod
record_pod-foreign_reserved own ip pod r = (
  λ h. ground (arith, eq_iff pod.name own, eq_iff (pod_ip pod).0 ip, eq_iff (pod_ip pod).0 ""),
  λ h. ground (
    arith,
    eq_iff pod.name own,
    eq_iff (pod_ip pod).0 ip,
    eq_iff (pod_ip pod).0 "",
    pod_ip_of_nil pod,
  ),
)

collect-foreign_used :
    (own ip : String) (pods : List Pod) (r : UsageLookupResult)
    → (contains (collect own pods r).foreign_used ip ≡ true)
      ↔ ((contains r.foreign_used ip ≡ true) ⊎ Any (IsForeign own true ip) pods)
unfolding collect
collect-foreign_used own ip [] r = (inl, λ h. ground arith)
collect-foreign_used own ip (pod ∷ pods) r =
    let ih = collect-foreign_used own ip pods (record_pod own pod r) in
    let st = record_pod-foreign_used own ip pod r in
    (λ h. ground (arith, ih.0 h, st.0), λ h. ground (arith, ih.1, st.1))

collect-foreign_reserved :
    (own ip : String) (pods : List Pod) (r : UsageLookupResult)
    → (contains (collect own pods r).foreign_reserved ip ≡ true)
      ↔ ((contains r.foreign_reserved ip ≡ true) ⊎ Any (IsForeign own false ip) pods)
unfolding collect
collect-foreign_reserved own ip [] r = (inl, λ h. ground arith)
collect-foreign_reserved own ip (pod ∷ pods) r =
    let ih = collect-foreign_reserved own ip pods (record_pod own pod r) in
    let st = record_pod-foreign_reserved own ip pod r in
    (λ h. ground (arith, ih.0 h, st.0), λ h. ground (arith, ih.1, st.1))

-- The pods named `own` are the pod `p`: names are unique in a namespace, and the pod exists.
pub record OwnPod (own : String) (p : Pod) (pods : List Pod) : Type 0 where
  pub unique : All (λ pod. pod.name ≡ own → pod ≡ p) pods
  pub exists : Any (λ pod. pod.name ≡ own) pods

-- The own entry of a lookup result.
abbrev HasEntry : UsageLookupResult → String × Bool → Type 0
HasEntry r e = (r.own_ip ≡ e.0) × (r.own_used ≡ e.1)

module _ (own : String) (p : Pod) where
  record_pod-keeps :
      (pod : Pod) (r : UsageLookupResult)
      → (pod.name ≡ own → pod ≡ p)
      → HasEntry r (pod_ip p)
      → HasEntry (record_pod own pod r) (pod_ip p)
  unfolding record_pod
  record_pod-keeps pod r h e =
      ground (arith, eq_iff pod.name own, eq_iff (pod_ip pod).0 "", pod_ip_of_nil pod)

  pod_ip-used : (pod : Pod) → (pod_ip pod).0 ≡ "" → (pod_ip pod).1 ≡ false
  unfolding pod_ip
  pod_ip-used pod h = ground (arith, eq_iff (value_of pod.annotations annotation_used_ip) "")

  record_pod-finds :
      (pod : Pod) (r : UsageLookupResult)
      → (pod.name ≡ own → pod ≡ p)
      → HasEntry r ("", false)
      → HasEntry (record_pod own pod r) (pod_ip p)
        ⊎ (HasEntry (record_pod own pod r) ("", false) × (pod.name ≢ own))
  unfolding record_pod
  record_pod-finds pod r h e =
      ground
        (arith, eq_iff pod.name own, eq_iff (pod_ip pod).0 "", pod_ip_of_nil pod, pod_ip-used pod)

  collect-keeps :
      (pods : List Pod) (r : UsageLookupResult)
      → All (λ pod. pod.name ≡ own → pod ≡ p) pods
      → HasEntry r (pod_ip p)
      → HasEntry (collect own pods r) (pod_ip p)
  unfolding collect
  collect-keeps [] r u e = e
  collect-keeps (pod ∷ pods) r u e =
      collect-keeps pods (record_pod own pod r) u.1 (record_pod-keeps pod r u.0 e)

  collect-finds :
      (pods : List Pod) (r : UsageLookupResult)
      → All (λ pod. pod.name ≡ own → pod ≡ p) pods
      → Any (λ pod. pod.name ≡ own) pods
      → HasEntry r ("", false)
      → HasEntry (collect own pods r) (pod_ip p)
  unfolding collect
  collect-finds [] r u a e = absurd a
  collect-finds (pod ∷ pods) r u a e = elim (record_pod-finds pod r u.0 e) [
    | inl found ↦ collect-keeps pods (record_pod own pod r) u.1 found
    | inr (still, ne) ↦ elim a [
      | inl here ↦ absurd (ne here)
      | inr later ↦ collect-finds pods (record_pod own pod r) u.1 later still
    ]
  ]

-- A pod holds an address as used, or as reserved: an address in the annotation for used ones counts,
-- and only without it the annotation for reserved ones.
abbrev pub Holds : Bool → String → Pod → Type 0
Holds true ip pod =
    (value_of pod.annotations "ipv4.bonding.vpn.gardener.cloud/used" ≡ ip) × (ip ≢ "")
Holds false ip pod =
    (value_of pod.annotations "ipv4.bonding.vpn.gardener.cloud/used" ≡ "")
    × (value_of pod.annotations "ipv4.bonding.vpn.gardener.cloud/reserved" ≡ ip)
    × (ip ≢ "")

pod_ip-Holds :
    (pod : Pod) (ip : String) (used : Bool) → pod_ip pod ≡ (ip, used) → ip ≢ "" → Holds used ip pod
unfolding pod_ip
pod_ip-Holds pod ip used h set =
    let u = ap (λ (x : String × Bool). x.1) h in
    let i = ap (λ (x : String × Bool). x.0) h in
    elim (Bool-cases (str_eq (value_of pod.annotations annotation_used_ip) "")) [
      | inl t ↦
          let is : false ≡ used = rw t at u in
          subst (λ b. Holds b ip pod) is
            ((eq_iff (value_of pod.annotations annotation_used_ip) "").0 t, rw t at i, set)
      | inr f ↦ let is : true ≡ used = rw f at u in subst (λ b. Holds b ip pod) is (rw f at i, set)
    ]

Holds-pod_ip :
    (pod : Pod) (ip : String) (used : Bool)
    → Holds used ip pod
    → (pod_ip pod ≡ (ip, used)) × (ip ≢ "")
unfolding pod_ip
Holds-pod_ip pod ip true h =
    let f : str_eq (value_of pod.annotations annotation_used_ip) "" ≡ false =
      ground (arith, eq_iff (value_of pod.annotations annotation_used_ip) "", h.0, h.1) in
    (rw f (ap (λ x. (x, true)) h.0), h.1)
Holds-pod_ip pod ip false h =
    let t : str_eq (value_of pod.annotations annotation_used_ip) "" ≡ true =
      (eq_iff (value_of pod.annotations annotation_used_ip) "").1 h.0 in
    (rw t (ap (λ x. (x, false)) h.1), h.2)

IsForeign-Holds :
    (own ip : String) (used : Bool) (pod : Pod)
    → IsForeign own used ip pod ↔ ((pod.name ≢ own) × Holds used ip pod)
IsForeign-Holds own ip used pod = (
  λ h. (h.other, pod_ip-Holds pod ip used h.holds h.set),
  λ h.
      let (holds, set) = Holds-pod_ip pod ip used h.1 in
      record { other = h.0; holds = holds; set = set },
)

pub usage_lookup-IsForeign :
    (own : String) (pods : List Pod) {r : UsageLookupResult}
    → usage_lookup own (ok pods) ≡ ok r
    → (ip : String)
    → ((contains r.foreign_used ip ≡ true) ↔ Any (IsForeign own true ip) pods)
      × ((contains r.foreign_reserved ip ≡ true) ↔ Any (IsForeign own false ip) pods)
unfolding usage_lookup
usage_lookup-IsForeign own pods h ip =
    let u = collect-foreign_used own ip pods (empty_result own) in
    let v = collect-foreign_reserved own ip pods (empty_result own) in
    (
      (λ c. ground (arith, u.0), λ a. ground (arith, u.1 (inr a))),
      (λ c. ground (arith, v.0), λ a. ground (arith, v.1 (inr a))),
    )

-- The lookup finds exactly the addresses of the other pods: an address is in the set of used ones
-- if and only if the annotation for used addresses of another pod holds it, and in the set of
-- reserved ones if and only if another pod has none there and holds it in the annotation for reserved
-- addresses.
pub usage_lookup_exact :
    (own : String) (pods : List Pod) {r : UsageLookupResult}
    → usage_lookup own (ok pods) ≡ ok r
    → (ip : String)
    → ((contains r.foreign_used ip ≡ true) ↔ Any (λ pod. (pod.name ≢ own) × Holds true ip pod) pods)
      × ((contains r.foreign_reserved ip ≡ true)
          ↔ Any (λ pod. (pod.name ≢ own) × Holds false ip pod) pods)
usage_lookup_exact own pods h ip =
    let (u, v) = usage_lookup-IsForeign own pods h ip in
    let forth = λ (used : Bool).
      Any-map (IsForeign own used ip) (λ pod. (pod.name ≢ own) × Holds used ip pod) pods
        (λ pod. (IsForeign-Holds own ip used pod).0) in
    let back = λ (used : Bool).
      Any-map (λ pod. (pod.name ≢ own) × Holds used ip pod) (IsForeign own used ip) pods
        (λ pod. (IsForeign-Holds own ip used pod).1) in
    (
      (λ c. forth true (u.0 c), λ a. u.1 (back true a)),
      (λ c. forth false (v.0 c), λ a. v.1 (back false a)),
    )

pub usage_lookup-pod_ip :
    (own : String) (p : Pod) (pods : List Pod) {r : UsageLookupResult}
    → usage_lookup own (ok pods) ≡ ok r
    → OwnPod own p pods
    → (r.own_ip ≡ (pod_ip p).0) × (r.own_used ≡ (pod_ip p).1)
unfolding usage_lookup
usage_lookup-pod_ip own p pods h o =
    ground (arith, collect-finds own p pods (empty_result own) o.unique o.exists (refl, refl))

-- The own entry of the lookup is the address in the annotation for used addresses of the own pod,
-- marked as used, or without that the one in the annotation for reserved addresses, not marked.
pub usage_lookup_own :
    (own : String) (p : Pod) (pods : List Pod) {r : UsageLookupResult}
    → usage_lookup own (ok pods) ≡ ok r
    → OwnPod own p pods
    → (value_of p.annotations "ipv4.bonding.vpn.gardener.cloud/used" ≢ ""
        → (r.own_ip ≡ value_of p.annotations "ipv4.bonding.vpn.gardener.cloud/used")
          × (r.own_used ≡ true))
      × (value_of p.annotations "ipv4.bonding.vpn.gardener.cloud/used" ≡ ""
          → (r.own_ip ≡ value_of p.annotations "ipv4.bonding.vpn.gardener.cloud/reserved")
            × (r.own_used ≡ false))
unfolding pod_ip
usage_lookup_own own p pods {r} h o =
    let e = usage_lookup-pod_ip own p pods {r = r} h o in
    let t = eq_iff (value_of p.annotations annotation_used_ip) "" in
    (λ n. ground (arith, e, t, n), λ n. ground (arith, e, t, n))

-- ===== src/IpPool/Manager.antt =====
-- pkg/ippool/manager.go: the pool kept in the annotations of the pods. The Kubernetes client is the
-- parameter `PodApi`: what `List`, `Get` and `Patch` answer, on a cluster that other clients change.

pub mod Lookup
use vpn.Prelude.{
  String, Bool, true, false, List, [], ◌∷◌, ◌≡◌, ◌⊎◌, Result, ok, err, ◌>>=◌, ◌>>◌, str_eq, map,
  if◌then◌else◌, not, is_nil, Option, none, some,
}
use vpn.Prelude.Dict.{value_of, insert}

abbrev pub annotation_reserved_ip : String
annotation_reserved_ip = "ipv4.bonding.vpn.gardener.cloud/reserved"

abbrev pub annotation_used_ip : String
annotation_used_ip = "ipv4.bonding.vpn.gardener.cloud/used"

-- The part of a pod that the pool reads. A nil map of annotations is the empty one.
pub record Pod : Type 0 where
  pub name : String
  pub annotations : List (String × String)

-- `IPPoolUsageLookupResult`; a set of texts is the list of its keys.
pub record UsageLookupResult : Type 0 where
  pub own_name : String
  pub own_ip : String
  pub own_used : Bool
  pub foreign_used : List String
  pub foreign_reserved : List String

-- The address of a pod and whether it is marked as used: the inner part of the loop of `UsageLookup`.
unfoldable pub pod_ip : Pod → String × Bool
pod_ip pod =
    let used = value_of pod.annotations annotation_used_ip in
    if str_eq used ""
    then (value_of pod.annotations annotation_reserved_ip, false)
    else (used, true)

-- The body of the loop of `UsageLookup`.
unfoldable pub record_pod : String → Pod → UsageLookupResult → UsageLookupResult
record_pod pod_name pod r =
    let (ip, used) = pod_ip pod in
    if is_nil pod.annotations
    then r
    else if str_eq ip ""
    then r
    else if str_eq pod.name pod_name
    then record r { own_ip = ip; own_used = used }
    else if used
    then record r { foreign_used = ip ∷ r.foreign_used }
    else record r { foreign_reserved = ip ∷ r.foreign_reserved }

unfoldable pub collect : String → List Pod → UsageLookupResult → UsageLookupResult
collect pod_name [] r = r
collect pod_name (pod ∷ pods) r = collect pod_name pods (record_pod pod_name pod r)

abbrev pub empty_result : String → UsageLookupResult
empty_result pod_name = record {
  own_name = pod_name;
  own_ip = "";
  own_used = false;
  foreign_used = [];
  foreign_reserved = [];
}

-- `UsageLookup` on the answer of `List`.
unfoldable pub usage_lookup : String → Result (List Pod) → Result UsageLookupResult
usage_lookup pod_name answer = do pods ← answer; ok (collect pod_name pods (empty_result pod_name))

-- The Kubernetes API for the pods that the label selector finds. A call may fail; a failed `patch`
-- may have been applied or not.
pub record PodApi : Type 1 where
  pub Cluster : Type 0
  pub pods : Cluster → List Pod
  pub list : Cluster → Result (List Pod)
  pub get : Cluster → String → Result Pod
  pub patch : Cluster → String → String → String → Cluster × Result (Unit {0})

-- The key that `SetIPAddress` writes.
unfoldable pub annotation_key : Bool → String
annotation_key used = if used then annotation_used_ip else annotation_reserved_ip

-- `SetIPAddress`. Marshalling the patch, a map of texts, does not fail.
unfoldable pub set_ip_address :
    (api : PodApi) → String → String → Bool → api.Cluster → api.Cluster × Result (Unit {0})
unfolding annotation_key
set_ip_address api pod_name ip used c = elim (api.get c pod_name) [
  | err e ↦ (c, err e)
  | ok pod ↦ api.patch c pod_name (annotation_key used) ip
]

-- What a strategic merge patch of one annotation does to the pods.
unfoldable pub annotate_pod : String → String → String → Pod → Pod
annotate_pod name key value pod =
    if str_eq pod.name name
    then record pod { annotations = insert key value pod.annotations }
    else pod

unfoldable pub annotate : String → String → String → List Pod → List Pod
unfolding annotate_pod
annotate name key value [] = []
annotate name key value (pod ∷ pods) =
    annotate_pod name key value pod ∷ annotate name key value pods

-- The documented behaviour of the API: `list` answers with the pods there are, and `patch` writes
-- the annotation, which holds if it answers without an error.
pub record IsPodApi (api : PodApi) : Type 0 where
  pub list_pods : (c : api.Cluster) (l : List Pod) → api.list c ≡ ok l → l ≡ api.pods c
  pub patch_ok :
      (c : api.Cluster) (name key value : String)
      → (api.patch c name key value).1 ≡ ok tt
      → api.pods (api.patch c name key value).0 ≡ annotate name key value (api.pods c)
  pub patch_any :
      (c : api.Cluster) (name key value : String)
      → (api.pods (api.patch c name key value).0 ≡ api.pods c)
        ⊎ (api.pods (api.patch c name key value).0 ≡ annotate name key value (api.pods c))

-- An API server that never fails, on which the examples run.
abbrev pub plain_api : PodApi
plain_api = record {
  Cluster = List Pod;
  pods = λ c. c;
  list = λ c. ok c;
  get = λ c name. ok (record { name = name; annotations = [] });
  patch = λ c name key value. (annotate name key value c, ok tt);
}

-- ===== src/IpPool/Broker/World/Pods.antt =====
-- What the annotation that `SetIPAddress` of pkg/ippool/manager.go patches changes in the pods.
use vpn.Prelude.{
  ◌≡◌, ◌≢◌, refl, sym, ◌∙◌, ap, String, Bool, true, false, List, [], ◌∷◌, ◌⊎◌, inl, inr, All, Any,
  ok, str_eq, eq_iff, arith,
}
use vpn.Prelude.Dict.{value_of-insert}
use vpn.IpPool.Manager.{
  Pod, PodApi, IsPodApi, pod_ip, annotate, annotate_pod, annotation_key, annotation_used_ip,
  annotation_reserved_ip, set_ip_address,
}
use vpn.IpPool.Manager.Lookup.{OwnPod, IsForeign}

module _ {own : String} {p : Pod} where
  pub OwnPod_eq : {q : Pod} (pods : List Pod) → OwnPod own p pods → OwnPod own q pods → p ≡ q
  OwnPod_eq pods h k = go pods h.unique k.unique h.exists
    where
      go :
          {q : Pod} (l : List Pod)
          → All (λ pod. pod.name ≡ own → pod ≡ p) l
          → All (λ pod. pod.name ≡ own → pod ≡ q) l
          → Any (λ pod. pod.name ≡ own) l
          → p ≡ q
      go [] u v a = absurd a
      go (x ∷ l) u v (inl e) = sym (u.0 e) ∙ v.0 e
      go (x ∷ l) u v (inr a) = go l u.1 v.1 a

annotate_pod-name :
    (own key ip : String) (pod : Pod) → (annotate_pod own key ip pod).name ≡ pod.name
unfolding annotate_pod
annotate_pod-name own key ip pod = ground arith

annotate_pod-other :
    (own key ip : String) (pod : Pod) → pod.name ≢ own → annotate_pod own key ip pod ≡ pod
unfolding annotate_pod
annotate_pod-other own key ip pod h = ground (arith, eq_iff pod.name own)

pub annotate-own :
    (own key ip : String) (p : Pod) (pods : List Pod)
    → OwnPod own p pods
    → OwnPod own (annotate_pod own key ip p) (annotate own key ip pods)
unfolding annotate
annotate-own own key ip p pods h = record { unique = all pods h.unique; exists = any pods h.exists }
  where
    all :
        (l : List Pod)
        → All (λ pod. pod.name ≡ own → pod ≡ p) l
        → All (λ pod. pod.name ≡ own → pod ≡ annotate_pod own key ip p) (annotate own key ip l)
    all [] u = tt
    all (x ∷ l) u = (
      λ e. ap (annotate_pod own key ip) (u.0 (sym (annotate_pod-name own key ip x) ∙ e)),
      all l u.1,
    )

    any :
        (l : List Pod)
        → Any (λ pod. pod.name ≡ own) l
        → Any (λ pod. pod.name ≡ own) (annotate own key ip l)
    any [] a = a
    any (x ∷ l) (inl e) = inl (annotate_pod-name own key ip x ∙ e)
    any (x ∷ l) (inr a) = inr (any l a)

pub annotate-other :
    (own key ip : String) (m : String) (q : Pod) (pods : List Pod)
    → m ≢ own
    → OwnPod m q pods
    → OwnPod m q (annotate own key ip pods)
unfolding annotate
annotate-other own key ip m q pods ne h = record {
  unique = all pods h.unique;
  exists = any pods h.exists;
}
  where
    all :
        (l : List Pod)
        → All (λ pod. pod.name ≡ m → pod ≡ q) l
        → All (λ pod. pod.name ≡ m → pod ≡ q) (annotate own key ip l)
    all [] u = tt
    all (x ∷ l) u = (
      (λ e.
          let same = sym (annotate_pod-name own key ip x) ∙ e in
          annotate_pod-other own key ip x (λ o. ne (sym same ∙ o)) ∙ u.0 same),
      all l u.1,
    )

    any :
        (l : List Pod)
        → Any (λ pod. pod.name ≡ m) l
        → Any (λ pod. pod.name ≡ m) (annotate own key ip l)
    any [] a = a
    any (x ∷ l) (inl e) = inl (annotate_pod-name own key ip x ∙ e)
    any (x ∷ l) (inr a) = inr (any l a)

pub OwnPod-name : (own : String) (p : Pod) (pods : List Pod) → OwnPod own p pods → p.name ≡ own
OwnPod-name own p pods h = go pods h.unique h.exists
  where
    go :
        (l : List Pod)
        → All (λ pod. pod.name ≡ own → pod ≡ p) l
        → Any (λ pod. pod.name ≡ own) l
        → p.name ≡ own
    go [] u a = absurd a
    go (x ∷ l) u (inl e) = sym (ap (λ (y : Pod). y.name) (u.0 e)) ∙ e
    go (x ∷ l) u (inr a) = go l u.1 a

keys_differ : str_eq annotation_used_ip annotation_reserved_ip ≡ false
keys_differ = refl

-- Reserving an address, for a pod that uses none.
pub pod_ip-reserve :
    (own ip : String) (p : Pod)
    → p.name ≡ own
    → (pod_ip p).1 ≡ false
    → pod_ip (annotate_pod own (annotation_key false) ip p) ≡ (ip, false)
unfolding pod_ip annotate_pod annotation_key
pod_ip-reserve own ip p e u = ground (
  arith,
  eq_iff p.name own,
  value_of-insert annotation_reserved_ip annotation_used_ip ip p.annotations,
  value_of-insert annotation_reserved_ip annotation_reserved_ip ip p.annotations,
  eq_iff annotation_reserved_ip annotation_reserved_ip,
)

-- Marking an address as used.
pub pod_ip-use :
    (own ip : String) (p : Pod)
    → p.name ≡ own
    → ip ≢ ""
    → pod_ip (annotate_pod own (annotation_key true) ip p) ≡ (ip, true)
unfolding pod_ip annotate_pod annotation_key
pod_ip-use own ip p e ne = ground (
  arith,
  eq_iff p.name own,
  value_of-insert annotation_used_ip annotation_used_ip ip p.annotations,
  eq_iff ip "",
  eq_iff annotation_used_ip annotation_used_ip,
)

-- The pods after a call of `SetIPAddress`.
module _ (api : PodApi) (laws : IsPodApi api) (own ip : String) (used : Bool)
    (c : api.Cluster) where
  pub set_ip_address-pods :
      let (c', answer) = set_ip_address api own ip used c in
      (api.pods c' ≡ api.pods c)
      ⊎ (api.pods c' ≡ annotate own (annotation_key used) ip (api.pods c))
  unfolding set_ip_address
  set_ip_address-pods = ground (arith, laws.patch_any c own (annotation_key used) ip)

  pub set_ip_address_ok :
      (set_ip_address api own ip used c).1 ≡ ok tt
      → api.pods (set_ip_address api own ip used c).0
        ≡ annotate own (annotation_key used) ip (api.pods c)
  unfolding set_ip_address
  set_ip_address_ok h = ground (arith, laws.patch_ok c own (annotation_key used) ip)

-- Another pod that holds an address is seen as a foreign one.
pub OwnPod-IsForeign :
    (own m ip : String) (q : Pod) (pods : List Pod)
    → m ≢ own
    → OwnPod m q pods
    → (pod_ip q).0 ≡ ip
    → ip ≢ ""
    → Any (IsForeign own (pod_ip q).1 ip) pods
OwnPod-IsForeign own m ip q pods ne h e set = go pods h.unique h.exists
  where
    go :
        (l : List Pod)
        → All (λ pod. pod.name ≡ m → pod ≡ q) l
        → Any (λ pod. pod.name ≡ m) l
        → Any (IsForeign own (pod_ip q).1 ip) l
    go [] u a = a
    go (x ∷ l) u (inl at) =
        inl (record { other = λ o. ne (sym at ∙ o); holds = ground (arith, u.0 at); set = set })
    go (x ∷ l) u (inr a) = inr (go l u.1 a)

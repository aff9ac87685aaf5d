-- ===== src/IpPool/Broker/World/Announce.antt =====
-- What `announceIPAddress` of pkg/ippool/broker.go does to the pods, in both of its uses.
use vpn.Prelude.{
  ℕ, ◌≡◌, ◌≢◌, refl, sym, ◌∙◌, String, Bool, true, false, ◌⊎◌, inl, inr, Result, ok, err, eq_iff,
  arith,
}
use vpn.IpPool.Manager.{
  Pod, PodApi, IsPodApi, UsageLookupResult, pod_ip, annotate, annotate_pod, annotation_key,
  set_ip_address,
}
use vpn.IpPool.Manager.Lookup.{OwnPod}
use vpn.IpPool.Broker.{
  Broker, Pc, lookup, announce, recheck, settle, returned, announced, settled, acquire_step,
  announce_ip_address, recorded, announced_ip,
}
use vpn.IpPool.Broker.Free.{announced_ip-found}
use vpn.IpPool.Broker.World.Pods.{
  annotate-own, annotate-other, OwnPod-name, pod_ip-reserve, pod_ip-use, set_ip_address-pods,
  set_ip_address_ok,
}
use vpn.IpPool.Broker.World.Moves.{Stage, Claims, Move, stay, looked_up-Move, rechecked-Move}

announced_ip-own :
    (draws : ℕ → ℕ) (b : Broker) (r : UsageLookupResult)
    → r.own_ip ≢ ""
    → announced_ip true draws b r ≡ ok r.own_ip
unfolding announced_ip
announced_ip-own draws b r ne = ground (arith, eq_iff r.own_ip "")

module _ (api : PodApi) (laws : IsPodApi api) (b : Broker) (p : Pod) (c : api.Cluster)
    (o : OwnPod b.own_name p (api.pods c)) where
  -- The pods may have been patched, and the own pod keeps its address in use.
  written :
      (used : Bool) (ip : String) (pc pc' : Pc) (b' : Broker) (c' : api.Cluster) (q : Pod)
      → b'.own_name ≡ b.own_name
      → ((api.pods c' ≡ api.pods c) × (q ≡ p))
        ⊎ ((api.pods c' ≡ annotate b.own_name (annotation_key used) ip (api.pods c))
            × (q ≡ annotate_pod b.own_name (annotation_key used) ip p))
      → Stage pc' b' q
      → ((x : String) → Claims pc' q x → Claims pc p x)
      → Move api laws b p c o pc (pc', b', c')
  written used ip pc pc' b' c' q name (inl (e, eq)) s k = record {
    same_name = name;
    pod = q;
    is_own = rw (e, eq) o;
    stage = s;
    rest = λ m q' ne h. rw e h;
    claims = λ x h. inl (k x h);
  }
  written used ip pc pc' b' c' q name (inr (e, eq)) s k = record {
    same_name = name;
    pod = q;
    is_own = rw (e, eq) (annotate-own b.own_name (annotation_key used) ip p (api.pods c) o);
    stage = s;
    rest = λ m q' ne h.
        rw e (annotate-other b.own_name (annotation_key used) ip m q' (api.pods c) ne h);
    claims = λ x h. inl (k x h);
  }

  own : p.name ≡ b.own_name
  own = OwnPod-name b.own_name p (api.pods c) o

  reserved-Move :
      (n : ℕ) (r : UsageLookupResult) (ip : String) (t : api.Cluster × Result (Unit {0}))
      → t ≡ set_ip_address api b.own_name ip false c
      → ip ≢ ""
      → (pod_ip p).1 ≡ false
      → Move api laws b p c o (announce n r) (announced api n (recorded api false ip b t))
  unfolding announced recorded
  reserved-Move n r ip (c', err e) h ne unused =
      elim (rw (← h) at (set_ip_address-pods api laws b.own_name ip false c)) [
        | inl kept ↦
            written false ip (announce n r) (returned (err e)) b c' p refl (inl (kept, refl)) tt
              (λ x k. k)
        | inr patched ↦
            written false ip (announce n r) (returned (err e)) b c' _ refl (inr (patched, refl)) tt
              (λ x k. ground (arith, pod_ip-reserve b.own_name ip p own unused))
      ]
  reserved-Move n r ip (c', ok u) h ne unused =
      let patched = rw (← h) at (set_ip_address_ok api laws b.own_name ip false c) in
      written false ip (announce n r) (recheck n) (record b { own_ip = ip; own_used = false }) c' _
        refl (inr (patched refl, refl)) (pod_ip-reserve b.own_name ip p own unused, ne)
        (λ x k. ground (arith, pod_ip-reserve b.own_name ip p own unused))

  used-Move :
      (r : UsageLookupResult) (t : api.Cluster × Result (Unit {0}))
      → t ≡ set_ip_address api b.own_name r.own_ip true c
      → Stage (settle r) b p
      → Move api laws b p c o (settle r) (settled api (recorded api true r.own_ip b t))
  unfolding settled recorded
  used-Move r (c', err e) h s =
      elim (rw (← h) at (set_ip_address-pods api laws b.own_name r.own_ip true c)) [
        | inl kept ↦
            written true r.own_ip (settle r) (returned (err e)) b c' p refl (inl (kept, refl)) tt
              (λ x k. (k.0, refl))
        | inr patched ↦
            written true r.own_ip (settle r) (returned (err e)) b c' _ refl (inr (patched, refl)) tt
              (λ x k. ground (arith, pod_ip-use b.own_name r.own_ip p own))
      ]
  used-Move r (c', ok u) h s =
      let patched = rw (← h) at (set_ip_address_ok api laws b.own_name r.own_ip true c) in
      written true r.own_ip (settle r) (returned (ok r.own_ip))
        (record b { own_ip = r.own_ip; own_used = true }) c' _ refl (inr (patched refl, refl))
        (ground (arith, pod_ip-use b.own_name r.own_ip p own))
        (λ x k. ground (arith, pod_ip-use b.own_name r.own_ip p own))

  announce_ip_address-err :
      (used : Bool) (draws : ℕ → ℕ) (r : UsageLookupResult) {e : String}
      → r.own_used ≡ false
      → announced_ip used draws b r ≡ err e
      → announce_ip_address api used draws r b c ≡ (b, c, err e)
  unfolding announce_ip_address
  announce_ip_address-err used draws r u h = simp (u, h)

  announce_ip_address-ok :
      (used : Bool) (draws : ℕ → ℕ) (r : UsageLookupResult) {ip : String}
      → r.own_used ≡ false
      → announced_ip used draws b r ≡ ok ip
      → announce_ip_address api used draws r b c
        ≡ recorded api used ip b (set_ip_address api b.own_name ip used c)
  unfolding announce_ip_address
  announce_ip_address-ok used draws r u h = simp (u, h)

  announce-result :
      (n : ℕ) (r : UsageLookupResult) (draws : ℕ → ℕ) (a : Result String)
      → announced_ip false draws b r ≡ a
      → Stage (announce n r) b p
      → Move api laws b p c o
          (announce n r)
          (announced api n (announce_ip_address api false draws r b c))
  unfolding announced
  announce-result n r draws (err e) h s =
      rw (announce_ip_address-err false draws r s.1 h)
        (stay api laws b p c o (announce n r) (returned (err e)) tt refl)
  announce-result n r draws (ok ip) h s = rw (announce_ip_address-ok false draws r s.1 h) (
      reserved-Move n r ip (set_ip_address api b.own_name ip false c) refl
        (announced_ip-found draws b r h).1 s.0)

  pub announce-Move :
      (n : ℕ) (r : UsageLookupResult) (draws : ℕ → ℕ)
      → Stage (announce n r) b p
      → Move api laws b p c o
          (announce n r)
          (announced api n (announce_ip_address api false draws r b c))
  announce-Move n r draws s = announce-result n r draws (announced_ip false draws b r) refl s

  pub settle-Move :
      (r : UsageLookupResult) (draws : ℕ → ℕ)
      → Stage (settle r) b p
      → Move api laws b p c o (settle r) (settled api (announce_ip_address api true draws r b c))
  settle-Move r draws s =
      rw
        (announce_ip_address-ok true draws r s.3
          (announced_ip-own draws b r (λ e. s.1 (sym s.2 ∙ e))))
        (used-Move r (set_ip_address api b.own_name r.own_ip true c) refl s)

  -- Every step of `AcquireIP` keeps what the program counter says of the own pod, leaves the other
  -- pods alone, and claims only an address that no other pod holds.
  pub acquire_step-Moved :
      (draws : ℕ → ℕ) (pc : Pc)
      → Stage pc b p
      → Move api laws b p c o pc (acquire_step api draws pc b c)
  unfolding acquire_step
  acquire_step-Moved draws (lookup n) s = looked_up-Move api laws b p c o n
  acquire_step-Moved draws (announce n r) s = announce-Move n r draws s
  acquire_step-Moved draws (recheck n) s = rechecked-Move api laws b p c o n s
  acquire_step-Moved draws (settle r) s = settle-Move r draws s
  acquire_step-Moved draws (returned x) s = stay api laws b p c o (returned x) (returned x) s refl

-- ===== src/IpPool/Broker/World/Moves.antt =====
-- What one step of `AcquireIP` of pkg/ippool/broker.go does to the pods, and what it leaves alone.
use vpn.Prelude.{
  ℕ, zero, suc, ◌≡◌, ◌≢◌, refl, String, Bool, true, false, List, ◌⊎◌, inl, inr, Result, ok, err,
  arith, Bool-cases, ◌||◌,
}
use vpn.IpPool.Manager.{Pod, PodApi, IsPodApi, UsageLookupResult, pod_ip, usage_lookup}
use vpn.IpPool.Manager.Lookup.{OwnPod, usage_lookup-pod_ip, usage_lookup-IsForeign}
use vpn.IpPool.Broker.{
  Broker, Pc, lookup, announce, recheck, settle, returned, next_round, looked_up, rechecked,
  has_conflict,
}
use vpn.IpPool.Broker.World.Pods.{OwnPod-IsForeign}

-- What the program counter says of the own pod.
abbrev pub Stage : Pc → Broker → Pod → Type 0
Stage (lookup n) b p = Unit
Stage (announce n r) b p = ((pod_ip p).1 ≡ false) × (r.own_used ≡ false)
Stage (recheck n) b p = (pod_ip p ≡ (b.own_ip, false)) × (b.own_ip ≢ "")
Stage (settle r) b p =
    (pod_ip p ≡ (b.own_ip, false)) × (b.own_ip ≢ "") × (r.own_ip ≡ b.own_ip) × (r.own_used ≡ false)
Stage (returned (ok ip)) b p = pod_ip p ≡ (ip, true)
Stage (returned (err e)) b p = Unit

abbrev pub is_settle : Pc → Bool
is_settle (settle r) = true
is_settle _ = false

-- The client has the address `x`: it is marked as used, or was found to have no conflict.
abbrev pub Claims : Pc → Pod → String → Type 0
Claims pc p x = ((pod_ip p).0 ≡ x) × ((is_settle pc || (pod_ip p).1) ≡ true)

-- Where a step ends that says nothing of the own pod.
abbrev is_idle : Pc → Bool
is_idle (lookup n) = true
is_idle (returned (err e)) = true
is_idle _ = false

idle-Stage : (pc : Pc) (b : Broker) (p : Pod) → is_idle pc ≡ true → Stage pc b p
idle-Stage (lookup n) b p h = tt
idle-Stage (announce n r) b p h = cc
idle-Stage (recheck n) b p h = cc
idle-Stage (settle r) b p h = cc
idle-Stage (returned (ok ip)) b p h = cc
idle-Stage (returned (err e)) b p h = tt

idle-settle : (pc : Pc) → is_idle pc ≡ true → is_settle pc ≡ false
idle-settle (settle r) h = cc
idle-settle _ h = refl

usage_lookup-list :
    (own : String) (answer : Result (List Pod)) {r : UsageLookupResult}
    → usage_lookup own answer ≡ ok r
    → (l : List Pod) × (answer ≡ ok l)
unfolding usage_lookup
usage_lookup-list own (ok l) h = (l, refl)
usage_lookup-list own (err e) h = cc

looked_up-settle : (n : ℕ) (x : Result UsageLookupResult) → is_settle (looked_up n x) ≡ false
unfolding looked_up
looked_up-settle n (err e) = refl
looked_up-settle n (ok r) = ground arith

-- The end of a round: no conflict, or nothing to say of the own pod.
rechecked-cases :
    (n : ℕ) (b : Broker) (r : UsageLookupResult)
    → (is_idle (rechecked n b (ok r)) ≡ true)
      ⊎ ((rechecked n b (ok r) ≡ settle r) × (has_conflict b r ≡ false))
unfolding rechecked next_round
rechecked-cases zero b r = ground arith
rechecked-cases (suc n) b r = ground arith

module _ (api : PodApi) (laws : IsPodApi api) where
  open api use {Cluster, pods, list}

  usage_lookup-pods :
      (own : String) (c : Cluster) {r : UsageLookupResult}
      → usage_lookup own (list c) ≡ ok r
      → usage_lookup own (ok (pods c)) ≡ ok r
  usage_lookup-pods own c h =
      let (l, e) = usage_lookup-list own (list c) h in rw (← laws.list_pods c l e, ← e) h

  -- A step of a client with the pod `p` from `pc` and `c`.
  pub record Moved (own : String) (pc : Pc) (p : Pod) (c : Cluster) (pc' : Pc) (b' : Broker)
      (c' : Cluster) : Type 0 where
    pub same_name : b'.own_name ≡ own
    pub pod : Pod
    pub is_own : OwnPod own pod (pods c')
    pub stage : Stage pc' b' pod
    pub rest : (m : String) (q : Pod) → m ≢ own → OwnPod m q (pods c) → OwnPod m q (pods c')
    pub claims :
        (x : String)
        → Claims pc' pod x
        → Claims pc p x
          ⊎ ((m : String) (q : Pod) → m ≢ own → OwnPod m q (pods c) → (pod_ip q).0 ≢ x)

  module _ (b : Broker) (p : Pod) (c : Cluster) (o : OwnPod b.own_name p (pods c)) where
    abbrev pub Move : Pc → Pc × Broker × Cluster → Type 0
    Move pc t = Moved b.own_name pc p c t.0 t.1 t.2

    -- The cluster stays, and no claim is added.
    pub stay : (pc pc' : Pc) → Stage pc' b p → is_settle pc' ≡ false → Move pc (pc', b, c)
    stay pc pc' s n = record {
      same_name = refl;
      pod = p;
      is_own = o;
      stage = s;
      rest = λ m q ne h. h;
      claims = λ x k. inl (k.0, ground arith);
    }

    pub usage_lookup-entry :
        {r : UsageLookupResult}
        → usage_lookup b.own_name (list c) ≡ ok r
        → (r.own_ip ≡ (pod_ip p).0) × (r.own_used ≡ (pod_ip p).1)
    usage_lookup-entry h =
        usage_lookup-pod_ip b.own_name p (pods c) (usage_lookup-pods b.own_name c h) o

    looked_up-Stage :
        (n : ℕ) (x : Result UsageLookupResult)
        → usage_lookup b.own_name (list c) ≡ x
        → Stage (looked_up n x) b p
    unfolding looked_up
    looked_up-Stage n (err e) h = tt
    looked_up-Stage n (ok r) h = elim (Bool-cases r.own_used) [
      | inl u ↦ rw u (ground (arith, usage_lookup-entry h))
      | inr u ↦ rw u (ground (arith, usage_lookup-entry h))
    ]

    pub looked_up-Move :
        (n : ℕ) → Move (lookup n) (looked_up n (usage_lookup b.own_name (list c)), b, c)
    looked_up-Move n =
        stay (lookup n) (looked_up n (usage_lookup b.own_name (list c)))
          (looked_up-Stage n (usage_lookup b.own_name (list c)) refl) (looked_up-settle n _)

    -- Without a conflict no other pod has the own address.
    no_conflict :
        {r : UsageLookupResult}
        → usage_lookup b.own_name (list c) ≡ ok r
        → has_conflict b r ≡ false
        → b.own_ip ≢ ""
        → (m : String) (q : Pod) → m ≢ b.own_name
        → OwnPod m q (pods c)
        → (pod_ip q).0 ≢ b.own_ip
    unfolding has_conflict
    no_conflict h clear ne m q other k e =
        let (u, v) =
          usage_lookup-IsForeign b.own_name (pods c) (usage_lookup-pods b.own_name c h) b.own_ip in
        let seen = OwnPod-IsForeign b.own_name m b.own_ip q (pods c) other k e ne in
        elim (Bool-cases (pod_ip q).1) [
          | inl used ↦ ground (arith, u.1 (rw used at seen))
          | inr free ↦ ground (arith, v.1 (rw free at seen))
        ]

    settle-Move :
        (n : ℕ) {r : UsageLookupResult}
        → usage_lookup b.own_name (list c) ≡ ok r
        → has_conflict b r ≡ false
        → Stage (recheck n) b p
        → Move (recheck n) (settle r, b, c)
    settle-Move n h clear s = record {
      same_name = refl;
      pod = p;
      is_own = o;
      stage = ground (arith, usage_lookup-entry h);
      rest = λ m q ne k. k;
      claims = λ x k. inr (λ m q ne own e. no_conflict h clear s.1 m q ne own (ground arith));
    }

    rechecked-result :
        (n : ℕ) (x : Result UsageLookupResult)
        → usage_lookup b.own_name (list c) ≡ x
        → Stage (recheck n) b p
        → Move (recheck n) (rechecked n b x, b, c)
    rechecked-result n (err e) h s = unfold rechecked in stay (recheck n) (returned (err e)) tt refl
    rechecked-result n (ok r) h s = elim (rechecked-cases n b r) [
      | inl i ↦
          stay (recheck n) (rechecked n b (ok r)) (idle-Stage (rechecked n b (ok r)) b p i)
            (idle-settle (rechecked n b (ok r)) i)
      | inr (e, clear) ↦ rw e (settle-Move n h clear s)
    ]

    pub rechecked-Move :
        (n : ℕ)
        → Stage (recheck n) b p
        → Move (recheck n) (rechecked n b (usage_lookup b.own_name (list c)), b, c)
    rechecked-Move n s = rechecked-result n (usage_lookup b.own_name (list c)) refl s

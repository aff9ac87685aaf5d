-- ===== src/IpPool/Broker/Ends.antt =====
-- `AcquireIP` of pkg/ippool/broker.go returns, whatever the other clients do between its calls.
use vpn.Prelude.{
  ℕ, zero, suc, ◌+◌, ◌*◌, ◌≤◌, ◌≡◌, refl, String, true, false, List, [], ◌∷◌, Result, ok, err,
  arith, length,
}
use vpn.IpPool.Manager.{UsageLookupResult, PodApi, usage_lookup}
use vpn.IpPool.Broker.{
  Broker, Pc, lookup, announce, recheck, settle, returned, start, next_round, looked_up, rechecked,
  announced, settled, acquire_step, announce_ip_address,
}

-- The steps that are left at most.
abbrev pub steps_left : Pc → ℕ
steps_left (lookup n) = 3 * n + 4
steps_left (announce n r) = 3 * n + 3
steps_left (recheck n) = 3 * n + 2
steps_left (settle r) = 1
steps_left (returned x) = 0

looked_up-steps : (n : ℕ) (x : Result UsageLookupResult) → steps_left (looked_up n x) ≤ 3 * n + 3
unfolding looked_up
looked_up-steps n (err e) = omega arith
looked_up-steps n (ok r) = ground arith

rechecked-steps :
    (n : ℕ) (b : Broker) (x : Result UsageLookupResult) → steps_left (rechecked n b x) ≤ 3 * n + 1
unfolding rechecked next_round
rechecked-steps n b (err e) = omega arith
rechecked-steps zero b (ok r) = ground arith
rechecked-steps (suc n) b (ok r) = ground arith

module _ (api : PodApi) where
  open api use {Cluster}

  announced-steps :
      (n : ℕ) (x : Broker × Cluster × Result (Unit {0}))
      → steps_left (announced api n x).0 ≤ 3 * n + 2
  unfolding announced
  announced-steps n (b, c, err e) = omega arith
  announced-steps n (b, c, ok _) = omega arith

  settled-steps : (x : Broker × Cluster × Result (Unit {0})) → steps_left (settled api x).0 ≡ 0
  unfolding settled
  settled-steps (b, c, err e) = refl
  settled-steps (b, c, ok _) = refl

  acquire_step-decreases :
      (draws : ℕ → ℕ) (pc : Pc) (b : Broker) (c : Cluster) (k : ℕ)
      → steps_left pc ≤ suc k
      → steps_left (acquire_step api draws pc b c).0 ≤ k
  unfolding acquire_step
  acquire_step-decreases draws (lookup n) b c k h =
      omega (arith, looked_up-steps n (usage_lookup b.own_name (api.list c)))
  acquire_step-decreases draws (announce n r) b c k h =
      omega (arith, announced-steps n (announce_ip_address api false draws r b c))
  acquire_step-decreases draws (recheck n) b c k h =
      omega (arith, rechecked-steps n b (usage_lookup b.own_name (api.list c)))
  acquire_step-decreases draws (settle r) b c k h =
      omega (arith, settled-steps (announce_ip_address api true draws r b c))
  acquire_step-decreases draws (returned x) b c k h = omega arith

  -- `AcquireIP` from `pc` on: a turn is what the other clients do to the cluster, and then the
  -- numbers drawn in the next step.
  unfoldable pub acquire_ip :
      List ((Cluster → Cluster) × (ℕ → ℕ)) → Pc → Broker → Cluster → Pc × Broker × Cluster
  acquire_ip [] pc b c = (pc, b, c)
  acquire_ip ((others, draws) ∷ turns) pc b c =
      let (pc', b', c') = acquire_step api draws pc b (others c) in acquire_ip turns pc' b' c'

  returned-steps : (pc : Pc) → steps_left pc ≡ 0 → (x : Result String) × (pc ≡ returned x)
  returned-steps (lookup n) h = absurd (omega arith)
  returned-steps (announce n r) h = absurd (omega arith)
  returned-steps (recheck n) h = absurd (omega arith)
  returned-steps (settle r) h = absurd (omega arith)
  returned-steps (returned x) h = (x, refl)

  acquire_ip-steps :
      (turns : List ((Cluster → Cluster) × (ℕ → ℕ))) (pc : Pc) (b : Broker) (c : Cluster)
      → steps_left pc ≤ length turns
      → steps_left (acquire_ip turns pc b c).0 ≡ 0
  unfolding acquire_ip
  acquire_ip-steps [] pc b c h = omega arith
  acquire_ip-steps ((others, draws) ∷ turns) pc b c h =
      let (pc', b', c') = acquire_step api draws pc b (others c) in
      acquire_ip-steps turns pc' b' c'
        (acquire_step-decreases draws pc b (others c) (length turns) h)

  -- After 91 steps of its own `AcquireIP` has returned an address or an error, whatever the other
  -- clients do to the cluster before each step and whatever numbers are drawn.
  pub acquire_ip_returns :
      (turns : List ((Cluster → Cluster) × (ℕ → ℕ))) (b : Broker) (c : Cluster)
      → 91 ≤ length turns
      → (x : Result String) × ((acquire_ip turns start b c).0 ≡ returned x)
  acquire_ip_returns turns b c h = returned-steps _ (acquire_ip-steps turns start b c h)

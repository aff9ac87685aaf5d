-- ===== src/IpPool/Broker/Exclusion.antt =====
-- Two seed clients never get the same address from the pool of pkg/ippool.
use mathlib.Core.Path.{subst}
use vpn.Prelude.{ℕ, ◌<◌, ◌≡◌, refl, String, inl, ok, arith}
use vpn.IpPool.Manager.{Pod, PodApi, IsPodApi}
use vpn.IpPool.Manager.Lookup.{OwnPod}
use vpn.IpPool.Broker.{returned}
use vpn.IpPool.Broker.World.{
  Agent, restarted, World, agent_step, Step, run, restart, others, Reach, here, next, IsStart,
}
use vpn.IpPool.Broker.World.Pods.{OwnPod_eq}
use vpn.IpPool.Broker.World.Moves.{Claims, Moved}
use vpn.IpPool.Broker.World.Announce.{acquire_step-Moved}
use vpn.IpPool.Broker.World.Client.{name, Inv, after-Inv}

module _ (api : PodApi) (laws : IsPodApi api) where
  open api use {Cluster, pods}

  -- A client that starts again keeps its pod.
  restart-Moved :
      (a : Agent) (p : Pod) (c : Cluster)
      → OwnPod a.broker.own_name p (pods c)
      → Moved api laws a.broker.own_name a.pc p c (restarted a).pc (restarted a).broker c
  restart-Moved a p c o = record {
    same_name = refl;
    pod = p;
    is_own = o;
    stage = tt;
    rest = λ m q ne h. h;
    claims = λ x k. inl (k.0, ground arith);
  }

  others-Inv :
      (n : ℕ) (w : World api) (c : Cluster)
      → ((i : ℕ) (p : Pod)
          → i < n
          → OwnPod (name api w i) p (pods w.cluster)
          → OwnPod (name api w i) p (pods c))
      → Inv api laws n w
      → Inv api laws n (record w { cluster = c })
  others-Inv n w c keeps inv = record {
    names = inv.names;
    own = λ i lt. let (p, o, s) = inv.own i lt in (p, keeps i p lt o, s);
    unique = λ i j p q x lti ltj op oq cp cq.
        let (p0, op0, _) = inv.own i lti in
        let (q0, oq0, _) = inv.own j ltj in
        inv.unique i j p0 q0 x lti ltj op0 oq0
          (subst (λ r. Claims (w.agents i).pc r x) (OwnPod_eq (pods c) op (keeps i p0 lti op0)) cp)
          (subst (λ r. Claims (w.agents j).pc r x) (OwnPod_eq (pods c) oq (keeps j q0 ltj oq0)) cq);
  }

  -- Every step of the clients and of the rest of the cluster keeps the invariant.
  pub Step-Inv : (n : ℕ) {w v : World api} → Step api n w v → Inv api laws n w → Inv api laws n v
  unfolding agent_step
  Step-Inv n {w} (run i draws lt) inv =
      let (p, o, s) = inv.own i lt in
      after-Inv api laws n w inv i lt _ _
        (acquire_step-Moved api laws (w.agents i).broker p w.cluster o draws (w.agents i).pc s)
  Step-Inv n {w} (restart i lt) inv =
      after-Inv api laws n w inv i lt _ _
        (restart-Moved (w.agents i) (inv.own i lt).0 w.cluster (inv.own i lt).1)
  Step-Inv n {w} (others c keeps) inv = others-Inv n w c keeps inv

  IsStart-Inv : (n : ℕ) (w : World api) → IsStart api n w → Inv api laws n w
  IsStart-Inv n w s = record {
    names = s.names;
    own = λ i lt. let (p, o, _) = s.own i lt in (p, o, rw (s.at_start i lt) tt);
    unique = λ i j p q x lti ltj op oq cp cq.
        let (p0, op0, free) = s.own i lti in
        absurd (ground (arith, s.at_start i lti, cp.1, free, OwnPod_eq (pods w.cluster) op op0));
  }

  Reach-Inv : (n : ℕ) {v w : World api} → Inv api laws n v → Reach api n v w → Inv api laws n w
  Reach-Inv n inv here = inv
  Reach-Inv n inv (next r st) = Step-Inv n st (Reach-Inv n inv r)

  -- In every interleaving of any number of seed clients, with restarts, failing calls of the API and
  -- changes of other pods at any time: two clients whose `AcquireIP` returned the same address are
  -- one client.
  pub acquired_ips_differ :
      (n : ℕ) {v w : World api}
      → IsStart api n v
      → Reach api n v w
      → (i j : ℕ) (ip : String) → i < n
      → j < n
      → (w.agents i).pc ≡ returned (ok ip)
      → (w.agents j).pc ≡ returned (ok ip)
      → i ≡ j
  acquired_ips_differ n {v} {w} s r i j ip lti ltj hi hj =
      let inv = Reach-Inv n (IsStart-Inv n v s) r in
      let (p, op, sp) = inv.own i lti in
      let (q, oq, sq) = inv.own j ltj in
      let ep = rw hi at sp in
      let eq = rw hj at sq in
      inv.unique i j p q ip lti ltj op oq (ground (arith, ep, hi)) (ground (arith, eq, hj))

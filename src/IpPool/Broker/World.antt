-- ===== src/IpPool/Broker/World.antt =====
-- Seed clients that run `AcquireIP` of pkg/ippool/broker.go over one cluster, in any interleaving.
pub mod Pods
pub mod Moves
pub mod Announce
pub mod Client
use mathlib.Core.Logic.{ite}
use native.Mathlib.Decide.{ℕ_discrete}
use vpn.Prelude.{ℕ, ◌<◌, ◌≡◌, String, true, false, List}
use vpn.IpPool.Manager.{Pod, PodApi, pod_ip}
use vpn.IpPool.Manager.Lookup.{OwnPod}
use vpn.IpPool.Broker.{Broker, Pc, start, acquire_step}

-- A seed client: its broker, and where its call of `AcquireIP` stands.
pub record Agent : Type 0 where
  pub pc : Pc
  pub broker : Broker

abbrev pub update : (ℕ → Agent) → ℕ → Agent → ℕ → Agent
update f i a j = ite (ℕ_discrete i j) a (f j)

-- A process that starts again: `AcquireIP` is called anew on a new broker.
abbrev pub restarted : Agent → Agent
restarted a = record { pc = start; broker = record (a.broker) { own_ip = ""; own_used = false } }

module _ (api : PodApi) where
  open api use {Cluster, pods}

  pub record World : Type 0 where
    pub cluster : Cluster
    pub agents : ℕ → Agent

  unfoldable pub agent_step : World → ℕ → (ℕ → ℕ) → World
  agent_step w i draws =
      let a = w.agents i in
      let (pc', b', c') = acquire_step api draws a.pc a.broker w.cluster in
      record { cluster = c'; agents = update w.agents i (record { pc = pc'; broker = b' }) }

  -- Client `i` goes on to its next call or starts again; or the rest of the cluster changes, where
  -- only the brokers write to their own pods.
  pub data Step (n : ℕ) (w : World) : World → Type 0 where
    run : (i : ℕ) (draws : ℕ → ℕ) → i < n → Step n w (agent_step w i draws)
    restart :
        (i : ℕ)
        → i < n
        → Step n w (record w { agents = update w.agents i (restarted (w.agents i)) })
    others :
        (c : Cluster)
        → ((i : ℕ) (p : Pod)
            → i < n
            → OwnPod (w.agents i).broker.own_name p (pods w.cluster)
            → OwnPod (w.agents i).broker.own_name p (pods c))
        → Step n w (record w { cluster = c })

  pub data Reach (n : ℕ) (v : World) : World → Type 0 where
    here : Reach n v v
    next : {w u : World} → Reach n v w → Step n w u → Reach n v u

  -- At the start the names differ, and each client has a pod with no address in use.
  pub record IsStart (n : ℕ) (w : World) : Type 0 where
    pub names :
        (i j : ℕ)
        → i < n
        → j < n
        → (w.agents i).broker.own_name ≡ (w.agents j).broker.own_name
        → i ≡ j
    pub at_start : (i : ℕ) → i < n → (w.agents i).pc ≡ start
    pub own :
        (i : ℕ)
        → i < n
        → (p : Pod) × OwnPod (w.agents i).broker.own_name p (pods w.cluster)
          × ((pod_ip p).1 ≡ false)

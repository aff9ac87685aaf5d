-- ===== src/Tunnel/Run/Restart.antt =====
-- A network that stays silent makes `Run` of pkg/shoot_client/tunnel/tunnel.go restart the clients.
use mathlib.Core.Path.{subst}
use vpn.Prelude.{ℕ, zero, suc, ◌≡◌, refl, sym, ap, ◌∙◌, String, true, Option}
use vpn.Net.Ip.{Ip}
use vpn.Network.Netlink.{Netlink}
use vpn.Tunnel.Watchdog.{Watchdog, fail}
use vpn.Tunnel.Watchdog.Window.{Inv}
use vpn.Tunnel.Watchdog.Action.Once.{fails, fails-once}
use vpn.Tunnel.SetUp.{Sockets, TunnelController, restart_clients}
use vpn.Tunnel.Run.{
  World, free, testing, reading, read_failed, test_running, read, tests, reads, Reach, here, next,
}

module _ (nl : Netlink) (sk : Sockets) (cfg : TunnelController) (bond : Ip) (conn : ℕ)
    (parse_ip : String → Option Ip) where
  abbrev State : Type 0
  State = World sk.Net nl.Host

  -- Rounds of the loop in which the read fails.
  pub silent_rounds : ℕ → State → State
  silent_rounds zero w = w
  silent_rounds (suc k) w =
      silent_rounds k (read nl sk cfg bond conn read_failed (test_running nl sk cfg bond conn w))

  abbrev round : State → State
  round w = read nl sk cfg bond conn read_failed (test_running nl sk cfg bond conn w)

  -- The loop goes on with its next round, for which no cleaning holds the lock.
  pub record Loops (w : State) : Type 0 where
    pub on : w.controller.running ≡ true
    pub at_test : w.phase ≡ testing
    pub unlocked : w.lock ≡ free

  abbrev after : ℕ → State → Watchdog × sk.Net
  after k w = fails (restart_clients sk cfg) k w.watchdog w.net

  test_running-on :
      (w : State) → Loops w → test_running nl sk cfg bond conn w ≡ record w { phase = reading }
  unfolding test_running
  test_running-on w l = rw l.on refl

  abbrev failed : State → State
  failed w = record w {
    watchdog = (fail (restart_clients sk cfg) w.watchdog w.net).0;
    net = (fail (restart_clients sk cfg) w.watchdog w.net).1;
    phase = testing;
  }

  round_lem : (w : State) → Loops w → round w ≡ failed w
  unfolding read fail
  round_lem w l = ap (read nl sk cfg bond conn read_failed) (test_running-on w l)

  failed-Loops : (w : State) → Loops w → Loops (failed w)
  failed-Loops w l = record { on = l.on; at_test = refl; unlocked = l.unlocked }

  silent_rounds-fails :
      (k : ℕ) (w : State)
      → Loops w
      → silent_rounds k w
        ≡ record w { watchdog = (after k w).0; net = (after k w).1; phase = testing }
  unfolding silent_rounds fails
  silent_rounds-fails zero w l = λ i. record w { phase = l.at_test i }
  silent_rounds-fails (suc k) w l =
      ap (silent_rounds k) (round_lem w l) ∙ silent_rounds-fails k (failed w) (failed-Loops w l)

  silent_rounds-Reach :
      (v : State) (k : ℕ) (w : State)
      → Loops w
      → Reach nl sk cfg bond conn parse_ip v w
      → Reach nl sk cfg bond conn parse_ip v (silent_rounds k w)
  unfolding silent_rounds
  silent_rounds-Reach v zero w l r = r
  silent_rounds-Reach v (suc k) w l r =
      let again : Loops (round w) = subst Loops (sym (round_lem w l)) (failed-Loops w l) in
      silent_rounds-Reach v k (round w) again (
        next (next r (tests l.unlocked l.at_test))
          (reads read_failed (ap (λ x. x.phase) (test_running-on w l))))

  -- While the loop goes on, no cleaning holds the lock, and the watchdog is out of its cooldown, as
  -- many failed reads in a row as its threshold call the restart of the clients once: the network is as
  -- that call leaves it, the map of the kube-apiservers and the tasks stay, and the loop goes on.
  pub silence-restarts :
      (w : State)
      → Loops w
      → Inv w.watchdog
      → w.watchdog.cooldown_count ≡ 0
      → let u = silent_rounds w.watchdog.threshold w in
        Reach nl sk cfg bond conn parse_ip w u
        × (u.net ≡ (restart_clients sk cfg w.net).0)
        × (u.controller ≡ w.controller)
        × (u.tasks ≡ w.tasks)
        × (u.phase ≡ testing)
  silence-restarts w l inv ready =
      let k = w.watchdog.threshold in
      let e = silent_rounds-fails k w l in
      (
        silent_rounds-Reach w k w l here,
        ap (λ x. x.net) e ∙ fails-once (restart_clients sk cfg) w.watchdog w.net inv ready,
        ap (λ x. x.controller) e,
        ap (λ x. x.tasks) e,
        ap (λ x. x.phase) e,
      )

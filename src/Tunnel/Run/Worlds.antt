-- ===== src/Tunnel/Run/Worlds.antt =====
-- The worlds that `Run` of pkg/shoot_client/tunnel/tunnel.go reaches, with packets, cleanings,
-- updates and `Stop` in any order.
use mathlib.Core.List.{append-nil}
use mathlib.Core.Path.{subst}
use vpn.Prelude.{ℕ, ◌≡◌, sym, String, Option, List, [], ◌∷◌, ◌++◌, Any, Bool-cases, inl, inr}
use vpn.Net.Ip.{Ip}
use vpn.Network.Netlink.{Netlink}
use vpn.Tunnel.Server.{ServerData, is_outdated}
use vpn.Tunnel.Controller.{
  Controller, Task, update_task, clean_task, check, schedule_clean, new_controller, set_running,
}
use vpn.Tunnel.Controller.Tracked.{Inv, Updates, Any-remove_before}
use vpn.Tunnel.Controller.Tracked.Packets.{
  Inv-more, find_or_create-Inv, see-Inv, check-Inv, schedule_clean-Inv,
}
use vpn.Tunnel.Controller.Tracked.Tasks.{update-Inv, delete_key-Inv}
use vpn.Tunnel.Watchdog.{Watchdog}
use vpn.Tunnel.SetUp.{Sockets, TunnelController}
use vpn.Tunnel.Run.{
  World, Phase, testing, reading, finding, seeing, checking, scheduling, Read, read_failed,
  read_packet, enter, test_running, read, find, see_data, check_data, schedule, stop, run_update,
  start_clean, visit, delete_data, unlock, Step, tests, reads, finds, sees, checks, schedules,
  stops, updates, cleans, visits, deletes, unlocks, Reach, here, next,
}

module _ (nl : Netlink) (sk : Sockets) (cfg : TunnelController) (bond : Ip) (conn : ℕ)
    (parse_ip : String → Option Ip) where
  abbrev State : Type 0
  State = World sk.Net nl.Host

  -- The test of the data that the loop holds is to come, as an update is that waits.
  abbrev pub held : Phase → List Task
  held (seeing place pod_ip) = update_task place pod_ip ∷ []
  held (checking place pod_ip) = update_task place pod_ip ∷ []
  held _ = []

  abbrev Kept : Controller → List Task → Phase → Type 0
  Kept c tasks phase = Inv bond c.kube_apiservers c.store c.fresh (tasks ++ held phase)

  abbrev Good : State → Type 0
  Good w = Kept w.controller w.tasks w.phase

  -- A phase in which the loop holds nothing.
  idle :
      (c : Controller) (tasks : List Task)
      → Inv bond c.kube_apiservers c.store c.fresh tasks
      → Kept c tasks testing
  idle c tasks inv =
      subst (λ t. Inv bond c.kube_apiservers c.store c.fresh t) (sym (append-nil tasks)) inv

  busy :
      (c : Controller) (tasks : List Task)
      → Kept c tasks testing
      → Inv bond c.kube_apiservers c.store c.fresh tasks
  busy c tasks inv =
      subst (λ t. Inv bond c.kube_apiservers c.store c.fresh t) (append-nil tasks) inv

  at_phase : (w : State) {p : Phase} → w.phase ≡ p → Good w → Kept w.controller w.tasks p
  at_phase w e g = subst (Kept w.controller w.tasks) e g

  test_running-Good :
      (w : State) → w.phase ≡ testing → Good w → Good (test_running nl sk cfg bond conn w)
  unfolding test_running
  test_running-Good w p g = elim (Bool-cases w.controller.running) [
    | inl t ↦ rw t (at_phase w p g)
    | inr f ↦ rw f (at_phase w p g)
  ]

  read-Good :
      (r : Read) (w : State) → w.phase ≡ reading → Good w → Good (read nl sk cfg bond conn r w)
  unfolding read
  read-Good read_failed w p g = at_phase w p g
  read-Good (read_packet client pod_ip) w p g = at_phase w p g

  find-Good :
      (client : Ip) (pod_ip : String) (w : State)
      → w.phase ≡ finding client pod_ip
      → Good w
      → Good (find nl sk cfg bond conn client pod_ip w)
  unfolding find
  find-Good client pod_ip w p g =
      find_or_create-Inv bond client pod_ip w.controller w.tasks
        (busy w.controller w.tasks (at_phase w p g))

  see_data-Good :
      (now place : ℕ) (pod_ip : String) (w : State)
      → w.phase ≡ seeing place pod_ip
      → Good w
      → Good (see_data nl sk cfg bond conn now place pod_ip w)
  unfolding see_data
  see_data-Good now place pod_ip w p g =
      see-Inv bond now place w.controller (w.tasks ++ update_task place pod_ip ∷ [])
        (at_phase w p g)

  check_data-Good :
      (now place : ℕ) (pod_ip : String) (w : State)
      → w.phase ≡ checking place pod_ip
      → Good w
      → Good (check_data nl sk cfg bond conn now place pod_ip w)
  unfolding check_data
  check_data-Good now place pod_ip w p g =
      idle w.controller (w.tasks ++ check now place pod_ip w.controller)
        (check-Inv bond now place pod_ip w.controller w.tasks (at_phase w p g))

  schedule-Good :
      (now : ℕ) (w : State)
      → w.phase ≡ scheduling
      → Good w
      → Good (schedule nl sk cfg bond conn now w)
  unfolding schedule
  schedule-Good now w p g =
      idle (schedule_clean now w.controller).0 (w.tasks ++ (schedule_clean now w.controller).1) (
        schedule_clean-Inv bond now w.controller w.tasks
          (busy w.controller w.tasks (at_phase w p g)))

  run_update-Good :
      (now place : ℕ) (pod_ip : String) (before behind : List Task) (w : State)
      → w.tasks ≡ before ++ update_task place pod_ip ∷ behind
      → Good w
      → Good (run_update nl sk cfg bond conn parse_ip now place pod_ip (before ++ behind) w)
  unfolding run_update
  run_update-Good now place pod_ip before behind w e g =
      update-Inv nl parse_ip bond now place pod_ip (w.tasks ++ held w.phase)
        ((before ++ behind) ++ held w.phase) w.controller w.host
        (λ q other a.
          Any-remove_before (Updates q) (update_task place pod_ip) before behind (held w.phase)
            other (subst (λ t. Any (Updates q) (t ++ held w.phase)) e a))
        g

  start_clean-Good :
      (before behind : List Task) (w : State)
      → w.tasks ≡ before ++ clean_task ∷ behind
      → Good w
      → Good (start_clean nl sk cfg bond conn (before ++ behind) w)
  unfolding start_clean
  start_clean-Good before behind w e g =
      Inv-more bond w.controller.kube_apiservers w.controller.store w.controller.fresh
        (w.tasks ++ held w.phase) ((before ++ behind) ++ held w.phase)
        (λ p a.
          Any-remove_before (Updates p) clean_task before behind (held w.phase) (λ x. x)
            (subst (λ t. Any (Updates p) (t ++ held w.phase)) e a))
        g

  visit-Good :
      (now : ℕ) (e : String × ℕ) (left : List (String × ℕ)) (w : State)
      → Good w
      → Good (visit nl sk cfg bond conn now e left w)
  unfolding visit
  visit-Good now e left w g = elim (Bool-cases (is_outdated now (w.controller.store e.1))) [
    | inl t ↦ rw t (
        delete_key-Inv e.0 bond w.controller.kube_apiservers w.controller.store w.controller.fresh
          (w.tasks ++ held w.phase) g)
    | inr f ↦ rw f g
  ]

  step-Good : (w u : State) → Step nl sk cfg bond conn parse_ip w u → Good w → Good u
  step-Good w u (tests l p) g = test_running-Good w p g
  step-Good w u (reads r p) g = read-Good r w p g
  step-Good w u (finds client pod_ip l p) g = find-Good client pod_ip w p g
  step-Good w u (sees now place pod_ip p) g = see_data-Good now place pod_ip w p g
  step-Good w u (checks now place pod_ip p) g = check_data-Good now place pod_ip w p g
  step-Good w u (schedules now p) g = schedule-Good now w p g
  step-Good w u (stops l) g = unfold stop set_running in g
  step-Good w u (updates now place pod_ip before behind e) g =
      run_update-Good now place pod_ip before behind w e g
  step-Good w u (cleans before behind l e) g = start_clean-Good before behind w e g
  step-Good w u (visits now e before behind l) g = visit-Good now e (before ++ behind) w g
  step-Good w u (deletes place left l) g = unfold delete_data in g
  step-Good w u (unlocks l) g = unfold unlock in g

  -- Whatever happens after the start, with the parts of a round, of the cleanings, the updates and
  -- `Stop` in any order that the locks allow, each entry of the map has data of its own, with the
  -- address that its key names and the local address of the bond, no key stands twice, and an update
  -- of each entry ended, well or not, or waits to run, or the loop holds the entry and is about to
  -- test it.
  pub Reach-Inv :
      (now : ℕ) (unset : ServerData) (wd : Watchdog) (n : sk.Net) (h : nl.Host) (w : State)
      → Reach nl sk cfg bond conn parse_ip
          (enter nl sk cfg bond conn (new_controller now unset) wd n h)
          w
      → Inv bond w.controller.kube_apiservers w.controller.store w.controller.fresh
          (w.tasks ++ held w.phase)
  Reach-Inv now unset wd n h w here =
      unfold enter new_controller set_running in record { entries = tt; apart = tt; keys = tt }
  Reach-Inv now unset wd n h w (next {w = v} r s) = step-Good v w s (Reach-Inv now unset wd n h v r)

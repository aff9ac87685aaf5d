-- ===== src/Tunnel/Run/Lapsed.antt =====
-- When the loop of pkg/shoot_client/tunnel/tunnel.go starts a cleaning.
use mathlib.Core.List.{append-nil}
use mathlib.Core.Path.{subst}
use vpn.Prelude.{
  ℕ, ◌+◌, ◌≤◌, ◌≡◌, refl, sym, ap, ◌∙◌, String, Option, List, [], ◌∷◌, ◌++◌, Bool-cases, inl, inr,
  arith, ltb, false,
}
use vpn.Net.Ip.{Ip}
use vpn.Network.Netlink.{Netlink}
use vpn.Tunnel.Server.{is_outdated, needs_update}
use vpn.Tunnel.Controller.{
  Controller, Task, update_task, clean_task, find_or_create, see, check, schedule_clean,
  set_running,
}
use vpn.Tunnel.SetUp.{Sockets, TunnelController}
use vpn.Tunnel.Run.{
  World, Read, read_failed, read_packet, test_running, read, find, see_data, check_data, schedule,
  stop, run_update, start_clean, visit, delete_data, unlock, Step, tests, reads, finds, sees,
  checks, schedules, stops, updates, cleans, visits, deletes, unlocks,
}

-- The cleanings among tasks.
abbrev pub cleanings : List Task → ℕ
cleanings [] = 0
cleanings (clean_task ∷ ts) = 1 + cleanings ts
cleanings (update_task place pod_ip ∷ ts) = cleanings ts

cleanings-append : (ts us : List Task) → cleanings (ts ++ us) ≡ cleanings ts + cleanings us
cleanings-append [] us = omega arith
cleanings-append (clean_task ∷ ts) us = omega (arith, cleanings-append ts us)
cleanings-append (update_task place pod_ip ∷ ts) us = cleanings-append ts us

check-cleanings :
    (now place : ℕ) (pod_ip : String) (c : Controller) → cleanings (check now place pod_ip c) ≡ 0
unfolding check
check-cleanings now place pod_ip c = elim (Bool-cases (needs_update now pod_ip (c.store place))) [
  | inl t ↦ rw t refl
  | inr f ↦ rw f refl
]

module _ (nl : Netlink) (sk : Sockets) (cfg : TunnelController) (bond : Ip) (conn : ℕ)
    (parse_ip : String → Option Ip) where
  abbrev State : Type 0
  State = World sk.Net nl.Host

  -- The loop tests for the next cleaning at a time `due` or later; other steps are free.
  abbrev pub IsLate : ℕ → {w u : State} → Step nl sk cfg bond conn parse_ip w u → Type 0
  IsLate due (schedules now p) = due ≤ now
  IsLate due _ = Unit

  -- Steps whose tests for the next cleaning all come at a time `due` or later.
  pub data LateReach (due : ℕ) (v : State) : State → Type 0 where
    stays : LateReach due v v
    goes_on :
        {w u : State}
        → LateReach due v w
        → (s : Step nl sk cfg bond conn parse_ip w u) → IsLate due s
        → LateReach due v u

  -- The time of the next cleaning stays, and no cleaning is added.
  record Same (v w : State) : Type 0 where
    time : w.controller.next_clean ≡ v.controller.next_clean
    count : cleanings w.tasks ≤ cleanings v.tasks

  unchanged :
      (w u : State)
      → u.controller.next_clean ≡ w.controller.next_clean
      → u.tasks ≡ w.tasks
      → Same w u
  unchanged w u e t = record { time = e; count = omega (arith, ap cleanings t) }

  removed :
      (t : Task) (before behind : List Task)
      → cleanings (before ++ behind) ≤ cleanings (before ++ t ∷ behind)
  removed clean_task before behind =
      omega (arith, cleanings-append before behind, cleanings-append before (clean_task ∷ behind))
  removed (update_task p q) before behind =
      omega
        (arith, cleanings-append before behind, cleanings-append before (update_task p q ∷ behind))

  test_running-Same : (w : State) → Same w (test_running nl sk cfg bond conn w)
  unfolding test_running
  test_running-Same w =
      unchanged w (test_running nl sk cfg bond conn w) (ground arith) (ground arith)

  read-Same : (r : Read) (w : State) → Same w (read nl sk cfg bond conn r w)
  unfolding read
  read-Same read_failed w = unchanged w _ refl refl
  read-Same (read_packet client pod_ip) w = unchanged w _ refl refl

  find_or_create-next_clean :
      (client : Ip) (pod_ip : String) (c : Controller)
      → (find_or_create bond client pod_ip c).0.next_clean ≡ c.next_clean
  unfolding find_or_create
  find_or_create-next_clean client pod_ip c = ground arith

  visit-Same :
      (now : ℕ) (e : String × ℕ) (left : List (String × ℕ)) (w : State)
      → Same w (visit nl sk cfg bond conn now e left w)
  unfolding visit
  visit-Same now e left w = elim (Bool-cases (is_outdated now (w.controller.store e.1))) [
    | inl t ↦ rw t (unchanged w _ refl refl)
    | inr f ↦ rw f (unchanged w _ refl refl)
  ]

  schedule-Same :
      (now : ℕ) (w : State)
      → w.controller.next_clean ≤ now
      → Same w (schedule nl sk cfg bond conn now w)
  unfolding schedule schedule_clean
  schedule-Same now w late =
      let f : ltb now w.controller.next_clean ≡ false = ground (arith, late) in
      rw f (unchanged w _ refl (append-nil w.tasks))

  step-Same :
      (w u : State) (s : Step nl sk cfg bond conn parse_ip w u)
      → IsLate w.controller.next_clean s
      → Same w u
  step-Same w u (tests l p) h = test_running-Same w
  step-Same w u (reads r p) h = read-Same r w
  step-Same w u (finds client pod_ip l p) h =
      unfold find in unchanged w _ (find_or_create-next_clean client pod_ip w.controller) refl
  step-Same w u (sees now place pod_ip p) h = unfold see_data see in unchanged w _ refl refl
  step-Same w u (checks now place pod_ip p) h =
      unfold check_data in
      record {
        time = refl;
        count = omega (
          arith,
          cleanings-append w.tasks (check now place pod_ip w.controller),
          check-cleanings now place pod_ip w.controller,
        );
      }
  step-Same w u (schedules now p) h = schedule-Same now w h
  step-Same w u (stops l) h = unfold stop set_running in unchanged w _ refl refl
  step-Same w u (updates now place pod_ip before behind e) h =
      unfold run_update in
      record {
        time = refl;
        count = omega (arith, removed (update_task place pod_ip) before behind, ap cleanings e);
      }
  step-Same w u (cleans before behind l e) h =
      unfold start_clean in
      record {
        time = refl;
        count = omega (arith, removed clean_task before behind, ap cleanings e);
      }
  step-Same w u (visits now e before behind l) h = visit-Same now e (before ++ behind) w
  step-Same w u (deletes place left l) h = unfold delete_data in unchanged w _ refl refl
  step-Same w u (unlocks l) h = unfold unlock in unchanged w _ refl refl

  lapsed-Same : (v w : State) → LateReach v.controller.next_clean v w → Same v w
  lapsed-Same v w stays = unchanged v v refl refl
  lapsed-Same v w (goes_on {w = x} r s late) =
      let before = lapsed-Same v x r in
      let one = step-Same x w s (subst (λ t. IsLate t s) (sym before.time) late) in
      record { time = one.time ∙ before.time; count = omega (arith, before.count, one.count) }

  -- Once the time of the next cleaning has passed at each packet that the loop serves, no cleaning is
  -- started any more, in whatever order the parts of the rounds and the tasks run, and the time of the
  -- next cleaning stays.
  pub lapsed-never_cleans :
      (v w : State)
      → LateReach v.controller.next_clean v w
      → (cleanings w.tasks ≤ cleanings v.tasks)
        × (w.controller.next_clean ≡ v.controller.next_clean)
  lapsed-never_cleans v w r = let s = lapsed-Same v w r in (s.count, s.time)

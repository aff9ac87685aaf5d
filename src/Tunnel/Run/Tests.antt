-- ===== src/Tunnel/Run/Tests.antt =====
-- Runs of the loop of pkg/shoot_client/tunnel/tunnel.go, with sockets that keep what is written.
use native.Mathlib.Decide.{ℕ_discrete}
use vpn.Prelude.{
  ◌≤◌, ◌≡◌, refl, String, true, false, Option, none, some, List, [], ◌∷◌, ◌++◌, ok, arith,
}
use vpn.Prelude.Dict.{lookup}
use vpn.Net.Ip.{Ip}
use vpn.Network.Tests.{quiet_netlink}
use vpn.Tunnel.Server.{ServerData, needs_update, set_last_seen}
use vpn.Tunnel.Watchdog.{Watchdog}
use vpn.Tunnel.Watchdog.Window.{Inv}
use vpn.Tunnel.Controller.{
  new_controller, update_task, clean_task, set_running, see, check, find_or_create, schedule_clean,
  new_server,
}
use vpn.Tunnel.Controller.Tracked.{Inv as MapInv}
use vpn.Tunnel.SetUp.{
  Sockets, TunnelController, restart_clients, default_tunnel_controller_config, send,
}
use vpn.Tunnel.Run.{
  World, Read, read_packet, enter, test_running, read, find, see_data, check_data, schedule,
  run_update, free, testing, reading, finding, seeing, checking, scheduling, tests, reads, finds,
  sees, checks, schedules, updates, Reach, here, next,
}
use vpn.Tunnel.Run.Worlds.{Reach-Inv, held}
use vpn.Tunnel.Run.Lapsed.{cleanings, lapsed-never_cleans, stays, goes_on}
use vpn.Tunnel.Run.Restart.{silence-restarts, silent_rounds, Loops}

-- Each call succeeds and is kept.
abbrev log : Sockets
log = record {
  Net = List String;
  dial = λ network address n. (n ++ address ∷ [], ok 1);
  write = λ conn text n. (n ++ text ∷ [], ok tt);
  close = λ conn n. n;
  listen_udp = λ ip port n. (n, ok 7);
  close_udp = λ conn n. n;
}

abbrev cfg : TunnelController
cfg = default_tunnel_controller_config

abbrev bond : Ip
bond = 0xfd ∷ 0x8f ∷ 0 ∷ 0 ∷ 0 ∷ 0 ∷ 0 ∷ 0 ∷ 0 ∷ 0 ∷ 0 ∷ 0 ∷ 0 ∷ 0xb ∷ 0 ∷ 0 ∷ []

abbrev remote : Ip
remote = 0xfd ∷ 0x8f ∷ 0 ∷ 0 ∷ 0 ∷ 0 ∷ 0 ∷ 0 ∷ 0 ∷ 0 ∷ 0 ∷ 0 ∷ 0 ∷ 0xa ∷ 0 ∷ 5 ∷ []

abbrev parse_ip : String → Option Ip
parse_ip text = some (10 ∷ 1 ∷ 2 ∷ 3 ∷ [])

abbrev unset : ServerData
unset = record {
  pod_ip = "";
  local_addr = [];
  remote_addr = [];
  last_seen = 0;
  creation_complete = false;
  last_creation_failed = none;
  creation_failed_count = 0;
  last_error = none;
}

abbrev watchdog : Watchdog
watchdog = record {
  window = false ∷ true ∷ false ∷ false ∷ [];
  window_pos = 2;
  threshold = 2;
  cooldown = 3;
  cooldown_count = 0;
}

watchdog-Inv : Inv watchdog
watchdog-Inv = record {
  pos_in_window = omega arith;
  threshold_pos = omega arith;
  threshold_fits = omega arith;
  cooldown_pos = omega arith;
  count_bounded = omega arith;
}

signals :
    (restart_clients log cfg []).0
    ≡ "127.0.0.1:7505" ∷ "signal SIGHUP\n" ∷ "127.0.0.1:7506" ∷ "signal SIGHUP\n" ∷ []
unfolding restart_clients
signals = refl

sent : (send log bond "10.1.2.3" []).0 ≡ "[fd8f::b:0]:5400" ∷ "10.1.2.3" ∷ []
unfolding send
sent = refl

abbrev started : World (List String) (Unit {0})
started = enter quiet_netlink log cfg bond 7 (new_controller 5 unset) watchdog [] tt

abbrev at_read : World (List String) (Unit {0})
at_read = test_running quiet_netlink log cfg bond 7 started

abbrev packet : Read
packet = read_packet remote "10.1.2.3"

abbrev received : World (List String) (Unit {0})
received = read quiet_netlink log cfg bond 7 packet at_read

abbrev found : World (List String) (Unit {0})
found = find quiet_netlink log cfg bond 7 remote "10.1.2.3" received

-- A cleaning that was due may run here, before the time of the packet is written.
abbrev seen : World (List String) (Unit {0})
seen = see_data quiet_netlink log cfg bond 7 9 0 "10.1.2.3" found

abbrev checked : World (List String) (Unit {0})
checked = check_data quiet_netlink log cfg bond 7 9 0 "10.1.2.3" seen

abbrev served : World (List String) (Unit {0})
served = schedule quiet_netlink log cfg bond 7 9 checked

at_test : started.phase ≡ testing
unfolding enter
at_test = refl

in_read : at_read.phase ≡ reading
unfolding test_running enter set_running
in_read = refl

no_lock : started.lock ≡ free
unfolding enter
no_lock = refl

read_done : received.phase ≡ finding remote "10.1.2.3"
unfolding read
read_done = refl

no_clean : received.lock ≡ free
unfolding read test_running enter set_running
no_clean = refl

in_place : found.phase ≡ seeing 0 "10.1.2.3"
unfolding find read test_running enter set_running new_controller find_or_create lookup
in_place = refl

to_check : seen.phase ≡ checking 0 "10.1.2.3"
unfolding see_data
to_check = refl

to_schedule : checked.phase ≡ scheduling
unfolding check_data
to_schedule = refl

-- A new client: an update, and the cleaning that is started too early.
two_tasks : served.tasks ≡ update_task 0 "10.1.2.3" ∷ clean_task ∷ []
unfolding schedule check_data see_data find read test_running enter set_running new_controller see
    check find_or_create schedule_clean needs_update set_last_seen new_server lookup ℕ_discrete
two_tasks = refl

abbrev updated : World (List String) (Unit {0})
updated =
    run_update quiet_netlink log cfg bond 7 parse_ip 11 0 "10.1.2.3" ([] ++ clean_task ∷ []) served

reached_found : Reach quiet_netlink log cfg bond 7 parse_ip started found
reached_found =
    next (next (next here (tests no_lock at_test)) (reads packet in_read))
      (finds remote "10.1.2.3" no_clean read_done)

reached : Reach quiet_netlink log cfg bond 7 parse_ip started updated
reached =
    next
      (next
        (next (next reached_found (sees 9 0 "10.1.2.3" in_place)) (checks 9 0 "10.1.2.3" to_check))
        (schedules 9 to_schedule))
      (updates 11 0 "10.1.2.3" [] (clean_task ∷ []) two_tasks)

Reach-Inv_example :
    MapInv bond updated.controller.kube_apiservers updated.controller.store updated.controller.fresh
      (updated.tasks ++ held quiet_netlink log cfg bond 7 parse_ip updated.phase)
Reach-Inv_example =
    Reach-Inv quiet_netlink log cfg bond 7 parse_ip 5 unset watchdog [] tt updated reached

-- A round whose test for the next cleaning comes after its time.
abbrev late : World (List String) (Unit {0})
late = schedule quiet_netlink log cfg bond 7 99_000_000_000_000 checked

after_due : checked.controller.next_clean ≤ 99_000_000_000_000
unfolding check_data see_data find read test_running enter set_running new_controller see
    find_or_create lookup
after_due = omega arith

lapsed-never_cleans_example :
    (cleanings late.tasks ≤ cleanings checked.tasks)
    × (late.controller.next_clean ≡ checked.controller.next_clean)
lapsed-never_cleans_example =
    lapsed-never_cleans quiet_netlink log cfg bond 7 parse_ip checked late
      (goes_on stays (schedules 99_000_000_000_000 to_schedule) after_due)

started-Loops : Loops quiet_netlink log cfg bond 7 parse_ip started
unfolding enter set_running
started-Loops = record { on = refl; at_test = refl; unlocked = refl }

started-Inv : Inv started.watchdog
unfolding enter
started-Inv = watchdog-Inv

calm : started.watchdog.cooldown_count ≡ 0
unfolding enter
calm = refl

silence-restarts_example :
    let u =
      silent_rounds quiet_netlink log cfg bond 7 parse_ip started.watchdog.threshold started in
    Reach quiet_netlink log cfg bond 7 parse_ip started u
    × (u.net ≡ (restart_clients log cfg started.net).0)
    × (u.controller ≡ started.controller)
    × (u.tasks ≡ started.tasks)
    × (u.phase ≡ testing)
silence-restarts_example =
    silence-restarts quiet_netlink log cfg bond 7 parse_ip started started-Loops started-Inv calm

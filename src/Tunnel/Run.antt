-- ===== src/Tunnel/Run.antt =====
-- pkg/shoot_client/tunnel/tunnel.go: the loop of `Run`, which reads packets until it is stopped, with
-- the tasks that it starts.
pub mod Worlds
pub mod Restart
pub mod Lapsed
mod Tests
use Prim.Native.String.{◌++◌ as append_text}
use vpn.Prelude.{
  ℕ, zero, suc, ◌+◌, ◌≡◌, refl, String, Bool, true, false, Option, none, some, List, [], ◌∷◌, ◌++◌,
  Result, ok, err, ◌==◌, if◌then◌else◌, length, not,
}
use vpn.Prelude.Int.{ℤ, pos, pos_part}
use vpn.Prelude.Io.{Io, continue, ◌>>=◌, ◌>>◌, return, throw, lift, on_left, on_right}
use vpn.Net.Ip.{Ip, ip_string}
use vpn.Net.Text.{decimal}
use vpn.Network.Netlink.{Netlink}
use vpn.Network.Link.{
  scope_universe, get_link_ip_addresses_by_name, get_link_ip_addr_for_ip, ip_addr_flags_to_string,
}
use vpn.Tunnel.Server.{update, is_outdated, delete}
use vpn.Tunnel.Controller.{
  Controller, Task, update_task, clean_task, write, set_running, find_or_create, see, check,
  schedule_clean, delete_key, is_ready,
}
use vpn.Tunnel.Watchdog.{Watchdog, new_watchdog, fail, succeed}
use vpn.Tunnel.SetUp.{Sockets, TunnelController, restart_clients}

-- The answer of the readiness server: the status and the body.
unfoldable pub readyz : Controller → ℕ × String
unfolding is_ready
readyz c = let (ready, message) = is_ready c in (if ready then 200 else 503, message)

-- What `ReadFromUDP` gives: an error, as at the deadline, or a packet.
pub data Read : Type 0 where
  read_failed : Read
  read_packet : (client : Ip) (pod_ip : String) → Read

-- Where the loop of `Run` is: before the test of `isRunning`, in `ReadFromUDP`, behind a packet before
-- each of the four parts of the round, or behind the return.
pub data Phase : Type 0 where
  testing : Phase
  reading : Phase
  finding : (client : Ip) (pod_ip : String) → Phase
  seeing : (place : ℕ) (pod_ip : String) → Phase
  checking : (place : ℕ) (pod_ip : String) → Phase
  scheduling : Phase
  returned : Phase

-- The lock of the controller, where a `clean` holds it: with the entries that its loop still visits, or
-- before the call of `data.delete()` for a place. Nothing else holds the lock across two steps.
pub data Lock : Type 0 where
  free : Lock
  visiting : (left : List (String × ℕ)) → Lock
  deleting : (place : ℕ) (left : List (String × ℕ)) → Lock

pub record World (Net Host : Type 0) : Type 0 where
  pub controller : Controller
  pub watchdog : Watchdog
  pub net : Net
  pub host : Host
  pub tasks : List Task
  pub phase : Phase
  pub lock : Lock

module _ (nl : Netlink) (sk : Sockets) (cfg : TunnelController) (bond : Ip) (conn : ℕ) where
  abbrev State : Type 0
  State = World sk.Net nl.Host

  -- The loop is entered.
  unfoldable pub enter : Controller → Watchdog → sk.Net → nl.Host → State
  unfolding set_running
  enter c wd n h = record {
    controller = set_running true c;
    watchdog = wd;
    net = n;
    host = h;
    tasks = [];
    phase = testing;
    lock = free;
  }

  -- The test of `isRunning`; the return closes the socket.
  unfoldable pub test_running : State → State
  test_running w =
      if w.controller.running
      then record w { phase = reading }
      else record w { net = sk.close_udp conn w.net; phase = returned }

  -- The read, and the watchdog behind it, whose error is only logged.
  unfoldable pub read : Read → State → State
  unfolding fail succeed
  read read_failed w =
      let (wd, n, answer) = fail (restart_clients sk cfg) w.watchdog w.net in
      record w { watchdog = wd; net = n; phase = testing }
  read (read_packet client pod_ip) w =
      let (wd, n, answer) = succeed (restart_clients sk cfg) w.watchdog w.net in
      record w { watchdog = wd; net = n; phase = finding client pod_ip }

  -- The part of the round under the lock of the controller.
  unfoldable pub find : Ip → String → State → State
  unfolding find_or_create
  find client pod_ip w =
      let (c, place) = find_or_create bond client pod_ip w.controller in
      record w { controller = c; phase = seeing place pod_ip }

  -- `setLastSeen`, under the lock of the data.
  unfoldable pub see_data : ℕ → ℕ → String → State → State
  unfolding see
  see_data now place pod_ip w = record w {
    controller = see now place w.controller;
    phase = checking place pod_ip;
  }

  -- `needsUpdate`, under the lock of the data, and the goroutine that it starts.
  unfoldable pub check_data : ℕ → ℕ → String → State → State
  unfolding check
  check_data now place pod_ip w = record w {
    tasks = w.tasks ++ check now place pod_ip w.controller;
    phase = scheduling;
  }

  -- The test of the next cleaning, which only the loop reads and writes.
  unfoldable pub schedule : ℕ → State → State
  unfolding schedule_clean
  schedule now w =
      let (c, started) = schedule_clean now w.controller in
      record w { controller = c; tasks = w.tasks ++ started; phase = testing }

  -- `Stop`.
  unfoldable pub stop : State → State
  unfolding set_running
  stop w = record w { controller = set_running false w.controller }

  -- An update, under the lock of its data.
  unfoldable pub run_update : (String → Option Ip) → ℕ → ℕ → String → List Task → State → State
  unfolding update
  run_update parse_ip now place pod_ip left w =
      let (h, d) = update nl parse_ip now pod_ip (w.controller.store place) w.host in
      record w {
        controller = record w.controller { store = write w.controller.store place d };
        host = h;
        tasks = left;
      }

  -- `clean` takes the lock.
  unfoldable pub start_clean : List Task → State → State
  start_clean left w = record w { tasks = left; lock = visiting w.controller.kube_apiservers }

  -- The loop of `clean` tests an entry, and takes its key away where it is outdated.
  unfoldable pub visit : ℕ → String × ℕ → List (String × ℕ) → State → State
  unfolding is_outdated delete_key
  visit now e left w =
      if is_outdated now (w.controller.store e.1)
      then record w {
        controller = record w.controller {
          kube_apiservers = delete_key e.0 w.controller.kube_apiservers;
        };
        lock = deleting e.1 left;
      }
      else record w { lock = visiting left }

  -- `data.delete()`.
  unfoldable pub delete_data : ℕ → List (String × ℕ) → State → State
  delete_data place left w = record w {
    host = delete nl (w.controller.store place) w.host;
    lock = visiting left;
  }

  unfoldable pub unlock : State → State
  unlock w = record w { lock = free }

  -- What may happen next: the loop goes on by one part of its round, `Stop` is called, or one of the
  -- tasks runs: an update at once, since it holds the lock of its data, and a cleaning by one test or
  -- one deletion, in any order of the entries. What needs the lock of the controller waits for it.
  pub data Step (parse_ip : String → Option Ip) (w : State) : State → Type 0 where
    tests : w.lock ≡ free → w.phase ≡ testing → Step parse_ip w (test_running w)
    reads : (r : Read) → w.phase ≡ reading → Step parse_ip w (read r w)
    finds :
        (client : Ip) (pod_ip : String)
        → w.lock ≡ free
        → w.phase ≡ finding client pod_ip
        → Step parse_ip w (find client pod_ip w)
    sees :
        (now place : ℕ) (pod_ip : String)
        → w.phase ≡ seeing place pod_ip
        → Step parse_ip w (see_data now place pod_ip w)
    checks :
        (now place : ℕ) (pod_ip : String)
        → w.phase ≡ checking place pod_ip
        → Step parse_ip w (check_data now place pod_ip w)
    schedules : (now : ℕ) → w.phase ≡ scheduling → Step parse_ip w (schedule now w)
    stops : w.lock ≡ free → Step parse_ip w (stop w)
    updates :
        (now place : ℕ) (pod_ip : String) (before behind : List Task)
        → w.tasks ≡ before ++ update_task place pod_ip ∷ behind
        → Step parse_ip w (run_update parse_ip now place pod_ip (before ++ behind) w)
    cleans :
        (before behind : List Task)
        → w.lock ≡ free
        → w.tasks ≡ before ++ clean_task ∷ behind
        → Step parse_ip w (start_clean (before ++ behind) w)
    visits :
        (now : ℕ) (e : String × ℕ) (before behind : List (String × ℕ))
        → w.lock ≡ visiting (before ++ e ∷ behind)
        → Step parse_ip w (visit now e (before ++ behind) w)
    deletes :
        (place : ℕ) (left : List (String × ℕ))
        → w.lock ≡ deleting place left
        → Step parse_ip w (delete_data place left w)
    unlocks : w.lock ≡ visiting [] → Step parse_ip w (unlock w)

  pub data Reach (parse_ip : String → Option Ip) (v : State) : State → Type 0 where
    here : Reach parse_ip v v
    next : {w u : State} → Reach parse_ip v w → Step parse_ip w u → Reach parse_ip v u

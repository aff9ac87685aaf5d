-- ===== src/Tunnel/Tests.antt =====
-- Runs of pkg/shoot_client/tunnel, and the theorems at concrete inputs.
use vpn.Prelude.{
  ◌≤◌, ℕ, ◌+◌, ◌<◌, ◌≡◌, ◌≢◌, ◌↔◌, refl, String, true, false, Option, none, some, [], ◌∷◌, ok, err,
  All, arith,
}
use vpn.Prelude.Int.{pos}
use vpn.Prelude.Dict.{lookup as find_key}
use vpn.Net.Ip.{Ip, to4}
use vpn.Network.Tests.{quiet_netlink, broken_netlink}
use vpn.Network.Link.{
  delete_link_by_name, delete_link, create_tunnel, link_index, replace_route, route_for_network,
}
use vpn.Tunnel.Watchdog.{Watchdog, new_watchdog, record_event, push_event, failures}
use vpn.Tunnel.Watchdog.Window.{Inv, IsSetting, new_watchdog_lem}
use vpn.Tunnel.Watchdog.Firing.{view, slide, record_event-slide, record_event-Inv}
use vpn.Tunnel.Watchdog.Action.{fires_in, failures-fire, fired-quiet}
use vpn.Tunnel.Server.{ServerData, needs_update, update, update_host, parsed_ip}
use vpn.Tunnel.Server.Retry.{update_done, update_failed-retried, update_failed-stuck}
use vpn.Tunnel.Controller.{Controller, clean, is_ready}
use vpn.Tunnel.Controller.Cleaning.{clean_lem}
use vpn.Tunnel.Controller.Readiness.{HasRoute, is_ready_iff}

-- Two of the last four events, one of them a failure already.
abbrev watching : Watchdog
watching = record {
  window = false ∷ true ∷ false ∷ false ∷ [];
  window_pos = 2;
  threshold = 2;
  cooldown = 3;
  cooldown_count = 0;
}

watching-Inv : Inv watching
watching-Inv = record {
  pos_in_window = omega arith;
  threshold_pos = omega arith;
  threshold_fits = omega arith;
  cooldown_pos = omega arith;
  count_bounded = omega arith;
}

new_watchdog_lem_example :
    (((wd : Watchdog) × (new_watchdog (pos 4) (pos 2) (pos 3) ≡ ok wd))
      ↔ IsSetting (pos 4) (pos 2) (pos 3))
    × ((wd : Watchdog) → new_watchdog (pos 4) (pos 2) (pos 3) ≡ ok wd → Inv wd)
new_watchdog_lem_example = new_watchdog_lem (pos 4) (pos 2) (pos 3)

record_event-slide_example :
    (view (record_event watching true).0, (record_event watching true).1)
    ≡ slide 2 3 (view watching) true
record_event-slide_example = record_event-slide watching true watching-Inv

record_event-Inv_example : Inv (record_event watching true).0
record_event-Inv_example = record_event-Inv watching true watching-Inv

failures-fire_example : fires_in watching (true ∷ true ∷ []) ≡ true
failures-fire_example = failures-fire watching watching-Inv refl

fired : (record_event watching true).1 ≡ true
unfolding record_event push_event failures
fired = refl

fired-quiet_example : fires_in (record_event watching true).0 (true ∷ true ∷ true ∷ []) ≡ false
fired-quiet_example = fired-quiet watching true (true ∷ true ∷ true ∷ []) fired (omega arith)

abbrev parse_ip : String → Option Ip
parse_ip text = some (10 ∷ 1 ∷ 2 ∷ 3 ∷ [])

abbrev bond : Ip
bond = 0xfd ∷ 0x8f ∷ 0 ∷ 0 ∷ 0 ∷ 0 ∷ 0 ∷ 0 ∷ 0 ∷ 0 ∷ 0 ∷ 0 ∷ 0 ∷ 0xb ∷ 0 ∷ 0 ∷ []

abbrev remote : Ip
remote = 0xfd ∷ 0x8f ∷ 0 ∷ 0 ∷ 0 ∷ 0 ∷ 0 ∷ 0 ∷ 0 ∷ 0 ∷ 0 ∷ 0 ∷ 0 ∷ 0xa ∷ 0 ∷ 5 ∷ []

abbrev server : ServerData
server = record {
  pod_ip = "10.1.2.3";
  local_addr = bond;
  remote_addr = remote;
  last_seen = 0;
  creation_complete = false;
  last_creation_failed = none;
  creation_failed_count = 0;
  last_error = none;
}

abbrev moved : ServerData
moved = record server { creation_complete = true }

succeeds : (update_host quiet_netlink parse_ip server tt).1 ≡ ok tt
unfolding update_host delete_link_by_name delete_link create_tunnel link_index replace_route
    route_for_network parsed_ip to4
succeeds = refl

fails : (update_host broken_netlink parse_ip server tt).1 ≡ err "no link"
unfolding update_host delete_link_by_name delete_link create_tunnel link_index replace_route
    route_for_network parsed_ip to4
fails = refl

fails_moved :
    (update_host broken_netlink parse_ip (record moved { pod_ip = "10.1.2.4" }) tt).1
    ≡ err "no link"
unfolding update_host delete_link_by_name delete_link create_tunnel link_index replace_route
    route_for_network parsed_ip to4
fails_moved = refl

update_done_example :
    let (h', d') = update quiet_netlink parse_ip 5 "10.1.2.3" server tt in
    (needs_update 9 "10.1.2.3" d' ≡ false)
    × (d'.creation_complete ≡ true)
    × (d'.last_error ≡ none)
    × ((other : String) → ◌≢◌ {A = String} other "10.1.2.3" → needs_update 9 other d' ≡ true)
update_done_example = update_done quiet_netlink parse_ip 5 9 "10.1.2.3" server tt succeeds

update_failed-retried_example :
    let (h', d') = update broken_netlink parse_ip 5 "10.1.2.3" server tt in
    ((needs_update 9 "10.1.2.3" d' ≡ true) ↔ (5 + 30_000_000_000 < 9))
    × (d'.creation_failed_count ≡ 0 + 1)
    × (d'.last_error ≡ some "no link")
    × (d'.creation_complete ≡ false)
update_failed-retried_example =
    update_failed-retried broken_netlink parse_ip 5 9 "10.1.2.3" "no link" server tt refl fails

update_failed-stuck_example :
    let (h', d') = update broken_netlink parse_ip 5 "10.1.2.4" moved tt in
    (needs_update 99_000_000_000_000 "10.1.2.4" d' ≡ false) × (d'.last_error ≡ some "no link")
update_failed-stuck_example =
    update_failed-stuck broken_netlink parse_ip 5 99_000_000_000_000 "10.1.2.4" "no link" moved tt
      refl fails_moved

-- A controller that knows one server.
abbrev controller : Controller
controller = record {
  kube_apiservers = ("fd8f::a:5", 0) ∷ [];
  store = λ place. moved;
  fresh = 1;
  next_clean = 900;
  running = true;
}

is_ready_iff_example : ((is_ready controller).0 ≡ true) ↔ (
    (controller.kube_apiservers ≢ [])
    × All (λ (e : String × ℕ). HasRoute (controller.store e.1)) controller.kube_apiservers)
is_ready_iff_example = is_ready_iff controller

clean_lem_example :
    let c' = (clean quiet_netlink 7 controller tt).0 in
    All
      (λ (e : String × ℕ). 7 ≤ (controller.store e.1).last_seen + 600_000_000_000)
      c'.kube_apiservers
    × ((key : String) (place : ℕ)
        → find_key key controller.kube_apiservers ≡ some place
        → 7 ≤ (controller.store place).last_seen + 600_000_000_000
        → find_key key c'.kube_apiservers ≡ some place)
clean_lem_example = clean_lem quiet_netlink 7 controller tt

-- ===== src/Tunnel/Controller.antt =====
-- pkg/shoot_client/tunnel/tunnel.go and readiness.go: the controller. The map from addresses to
-- `*kubeApiserverData` is a map to the places of a store, since an update that runs in a goroutine
-- holds on to its data also when `clean` has taken the key away. The functions are the parts of the loop
-- of `Run` between which other goroutines may run; the goroutines that it starts are tasks.
pub mod Cleaning
pub mod Readiness
pub mod Tracked
use mathlib.Core.Logic.{ite}
use native.Mathlib.Decide.{ℕ_discrete}
use Prim.Native.String.{◌++◌}
use vpn.Prelude.{
  ℕ, zero, suc, ◌+◌, ◌≡◌, refl, String, Bool, true, false, Option, none, some, List, [], ◌∷◌,
  Result, ok, err, ltb, ◌==◌, if◌then◌else◌, str_eq, not, ◌&&◌,
}
use vpn.Prelude.Dict.{lookup, insert}
use vpn.Net.Ip.{Ip, ip_string}
use vpn.Network.Netlink.{Netlink}
use vpn.Tunnel.Server.{
  ServerData, clean_up_period, set_last_seen, needs_update, is_outdated, update, delete,
}

pub record Controller : Type 0 where
  pub kube_apiservers : List (String × ℕ)
  pub store : ℕ → ServerData
  pub fresh : ℕ
  pub next_clean : ℕ
  pub running : Bool

pub data Task : Type 0 where
  update_task : (place : ℕ) (pod_ip : String) → Task
  clean_task : Task

abbrev pub write : (ℕ → ServerData) → ℕ → ServerData → ℕ → ServerData
write s i d j = ite (ℕ_discrete i j) d (s j)

-- `NewController`, at the time `now`; no place of the store is in use.
unfoldable pub new_controller : ℕ → ServerData → Controller
new_controller now unset = record {
  kube_apiservers = [];
  store = λ _. unset;
  fresh = 0;
  next_clean = now + clean_up_period;
  running = false;
}

unfoldable pub set_running : Bool → Controller → Controller
set_running running c = record c { running = running }

unfoldable pub new_server : Ip → Ip → String → ServerData
new_server local_bond client pod_ip = record {
  pod_ip = pod_ip;
  local_addr = local_bond;
  remote_addr = client;
  last_seen = 0;
  creation_complete = false;
  last_creation_failed = none;
  creation_failed_count = 0;
  last_error = none;
}

-- The data of a client, made where there is none.
unfoldable pub find_or_create : Ip → Ip → String → Controller → Controller × ℕ
find_or_create local_bond client pod_ip c = elim (lookup (ip_string client) c.kube_apiservers) [
  | some place ↦ (c, place)
  | none ↦ (
    record c {
      kube_apiservers = insert (ip_string client) c.fresh c.kube_apiservers;
      store = write c.store c.fresh (new_server local_bond client pod_ip);
      fresh = c.fresh + 1;
    },
    c.fresh,
  )
]

-- The test of the next cleaning, as it is written: `c.nextClean.After(time.Now())`.
unfoldable pub schedule_clean : ℕ → Controller → Controller × List Task
schedule_clean now c =
    if ltb now c.next_clean
    then (record c { next_clean = now + clean_up_period }, clean_task ∷ [])
    else (c, [])

-- `data.setLastSeen()` on the data of a place.
unfoldable pub see : ℕ → ℕ → Controller → Controller
see now place c = record c { store = write c.store place (set_last_seen now (c.store place)) }

-- `if data.needsUpdate(podIP)`: the task that is started.
unfoldable pub check : ℕ → ℕ → String → Controller → List Task
check now place pod_ip c =
    if needs_update now pod_ip (c.store place) then update_task place pod_ip ∷ [] else []

-- `delete(c.kubeApiservers, key)`.
unfoldable pub delete_key : String → List (String × ℕ) → List (String × ℕ)
delete_key key [] = []
delete_key key ((k, place) ∷ m) =
    let rest = delete_key key m in if str_eq k key then rest else (k, place) ∷ rest

module _ (nl : Netlink) where
  open nl use {Host}

  -- The loop of `clean`, where nothing else touches the data meanwhile: the entries that stay, and the
  -- host. The parts of the loop, with what may happen between them, are steps of Run.
  unfoldable pub clean_entries :
      ℕ → (ℕ → ServerData) → List (String × ℕ) → Host → List (String × ℕ) × Host
  clean_entries now store [] h = ([], h)
  clean_entries now store ((key, place) ∷ m) h =
      let outdated = is_outdated now (store place) in
      let h1 = if outdated then delete nl (store place) h else h in
      let (rest, h2) = clean_entries now store m h1 in
      (if outdated then rest else (key, place) ∷ rest, h2)

  unfoldable pub clean : ℕ → Controller → Host → Controller × Host
  clean now c h =
      let (entries, h') = clean_entries now c.store c.kube_apiservers h in
      (record c { kube_apiservers = entries }, h')

-- The message of `IsReady` for data that is not ready.
abbrev error_text : Option String → String
error_text none = "no error"
error_text (some e) = e

unfoldable pub data_ready : ServerData → Bool
data_ready d = d.creation_complete && elim d.last_error [ none ↦ true | some e ↦ false ]

unfoldable pub check_ready : (ℕ → ServerData) → List (String × ℕ) → Bool × String
check_ready store [] = (true, "ok")
check_ready store ((key, place) ∷ m) =
    let d = store place in
    let rest = check_ready store m in
    if not (data_ready d)
    then (
      false,
      "no route to kube apiserver with pod IP "
          ++ (d.pod_ip ++ (" (" ++ (error_text d.last_error ++ ")"))),
    )
    else rest

-- The body of `IsReady`, on the map.
unfoldable pub ready_entries : (ℕ → ServerData) → List (String × ℕ) → Bool × String
ready_entries store [] = (false, "no kube apiservers configured")
ready_entries store (e ∷ m) = check_ready store (e ∷ m)

-- `IsReady`.
unfoldable pub is_ready : Controller → Bool × String
unfolding ready_entries
is_ready c = ready_entries c.store c.kube_apiservers

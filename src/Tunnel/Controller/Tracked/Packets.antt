-- ===== src/Tunnel/Controller/Tracked/Packets.antt =====
-- The parts of a round keep what holds of the map of the controller of pkg/shoot_client/tunnel/tunnel.go.
use mathlib.Core.Logic.{if_pos, if_neg}
use mathlib.Core.Path.{subst}
use native.Mathlib.Decide.{ℕ_discrete}
use native.Mathlib.Nat.{le_refl}
use vpn.Prelude.{
  Bool-cases, false, ltb, none, ℕ, ◌+◌, ◌<◌, ◌≡◌, ◌≢◌, refl, sym, ap, inl, inr, String, some, List,
  [], ◌∷◌, ◌++◌, All, Any, arith, Option-cases, Any-append_left, Any-append_right, All-map,
  All-append,
}
use vpn.Prelude.Dict.{lookup, insert}
use vpn.Prelude.Dict.Fresh.{Distinct, insert-Fresh, insert-Distinct}
use vpn.Net.Ip.{Ip, ip_string}
use vpn.Tunnel.Server.{ServerData, set_last_seen, needs_update}
use vpn.Tunnel.Controller.Tracked.{
  Settled, Any-remove, Updates, Apart, Entry, Inv, Entry-keep, Entry-write,
}
use vpn.Tunnel.Controller.{
  Controller, Task, write, new_server, find_or_create, schedule_clean, see, check, update_task,
  clean_task,
}

Apart-snoc :
    (m : List (String × ℕ)) (key : String) (place : ℕ)
    → Apart m
    → All (λ (e : String × ℕ). e.1 < place) m
    → Apart (m ++ (key, place) ∷ [])
Apart-snoc [] key place a b = (tt, tt)
Apart-snoc (e ∷ m) key place a b = (
  All-append (λ (f : String × ℕ). f.1 ≢ e.1) m ((key, place) ∷ []) a.0
      ((λ same. omega (arith, b.0, same)), tt),
  Apart-snoc m key place a.1 b.1,
)

write_self : (s : ℕ → ServerData) (i : ℕ) (d : ServerData) → write s i d i ≡ d
write_self s i d = if_pos (ℕ_discrete i i) refl d (s i)

write_other : (s : ℕ → ServerData) (d : ServerData) (j i : ℕ) → j < i → write s i d j ≡ s j
write_other s d j i lt = if_neg (ℕ_discrete i j) (λ e. omega (arith, lt, e)) d (s j)

-- Data that needs no update had one that ended.
settled :
    (now : ℕ) (pod_ip : String) (d : ServerData) → needs_update now pod_ip d ≡ false → Settled d
unfolding needs_update
settled now pod_ip d h = elim (Bool-cases d.creation_complete) [
  | inl t ↦ inl t
  | inr f ↦ elim (Option-cases d.last_creation_failed) [
    | inl n ↦ absurd (ground (arith, h, f, n))
    | inr s ↦ inr s
  ]
]

module _ (bond : Ip) where
  -- More tasks track no less.
  pub Inv-more :
      (m : List (String × ℕ)) (store : ℕ → ServerData) (fresh : ℕ) (tasks left : List Task)
      → ((p : ℕ) → Any (Updates p) tasks → Any (Updates p) left)
      → Inv bond m store fresh tasks
      → Inv bond m store fresh left
  Inv-more m store fresh tasks left more inv = record {
    entries =
        All-map (Entry bond store fresh tasks) (Entry bond store fresh left) m
          (λ e.
            Entry-keep bond store store fresh fresh tasks left e refl (le_refl fresh) (more e.1))
          inv.entries;
    apart = inv.apart;
    keys = inv.keys;
  }

  abbrev Holds : Controller → List Task → Type 0
  Holds c tasks = Inv bond c.kube_apiservers c.store c.fresh tasks

  module _ (client : Ip) (pod_ip : String) (c : Controller) (tasks : List Task) where
    abbrev entered : Controller × ℕ
    entered = find_or_create bond client pod_ip c

    -- The loop holds the place, and will test it.
    abbrev held : ℕ → List Task
    held place = tasks ++ update_task place pod_ip ∷ []

    found :
        (place : ℕ)
        → lookup (ip_string client) c.kube_apiservers ≡ some place
        → entered ≡ (c, place)
    unfolding find_or_create
    found place known = ground (arith, known)

    abbrev grown : Controller
    grown = record c {
      kube_apiservers = insert (ip_string client) c.fresh c.kube_apiservers;
      store = write c.store c.fresh (new_server bond client pod_ip);
      fresh = c.fresh + 1;
    }

    created : lookup (ip_string client) c.kube_apiservers ≡ none → entered ≡ (grown, c.fresh)
    unfolding find_or_create
    created new = ground (arith, new)

    grown-Inv :
        lookup (ip_string client) c.kube_apiservers ≡ none
        → Holds c tasks
        → Holds grown (held c.fresh)
    unfolding new_server
    grown-Inv new inv =
        let d = new_server bond client pod_ip in
        let store' = write c.store c.fresh d in
        let left = held c.fresh in
        let key = ip_string client in
        let more = λ (p : ℕ). Any-append_left (Updates p) tasks (update_task c.fresh pod_ip ∷ []) in
        let old =
          All-map (Entry bond c.store c.fresh tasks) (Entry bond store' (c.fresh + 1) left)
            c.kube_apiservers
            (λ f h.
              Entry-keep bond c.store store' c.fresh (c.fresh + 1) tasks left f
                (write_other c.store d f.1 c.fresh h.in_store) (omega arith) (more f.1) h)
            inv.entries in
        let at : store' c.fresh ≡ d = write_self c.store c.fresh d in
        let fresh_one : Entry bond store' (c.fresh + 1) left (key, c.fresh) = record {
          in_store = omega arith;
          keyed = ap (λ x. ip_string x.remote_addr) at;
          local = ap (λ x. x.local_addr) at;
          tracked = inr (
              Any-append_right (Updates c.fresh) tasks (update_task c.fresh pod_ip ∷ [])
                (inl refl));
        } in
        subst (λ m. Inv bond m store' (c.fresh + 1) left)
          (sym (insert-Fresh key c.fresh c.kube_apiservers new))
          (record {
            entries =
                All-append (Entry bond store' (c.fresh + 1) left) c.kube_apiservers
                  ((key, c.fresh) ∷ []) old (fresh_one, tt);
            apart = Apart-snoc c.kube_apiservers key c.fresh inv.apart (
                All-map (Entry bond c.store c.fresh tasks) (λ f. f.1 < c.fresh) c.kube_apiservers
                  (λ f h. h.in_store) inv.entries);
            keys =
                subst Distinct (insert-Fresh key c.fresh c.kube_apiservers new)
                  (insert-Distinct key c.fresh c.kube_apiservers inv.keys);
          })

    -- The part of a round that finds or makes the data of a client.
    pub find_or_create-Inv : Holds c tasks → Holds entered.0 (held entered.1)
    find_or_create-Inv inv = elim (Option-cases (lookup (ip_string client) c.kube_apiservers)) [
      | inr (place, known) ↦
          subst (λ x. Holds x.0 (held x.1)) (sym (found place known))
            (Inv-more c.kube_apiservers c.store c.fresh tasks (held place)
              (λ p. Any-append_left (Updates p) tasks (update_task place pod_ip ∷ [])) inv)
      | inl new ↦ subst (λ x. Holds x.0 (held x.1)) (sym (created new)) (grown-Inv new inv)
    ]

  -- The time of the packet is written.
  pub see-Inv :
      (now place : ℕ) (c : Controller) (tasks : List Task)
      → Holds c tasks
      → Holds (see now place c) tasks
  unfolding see set_last_seen
  see-Inv now place c tasks inv =
      let d = set_last_seen now (c.store place) in
      record {
        entries =
            All-map (Entry bond c.store c.fresh tasks)
              (Entry bond (write c.store place d) c.fresh tasks) c.kube_apiservers
              (Entry-write bond c.store c.fresh place d tasks tasks refl refl (λ t. t)
                (λ q other u. u))
              inv.entries;
        apart = inv.apart;
        keys = inv.keys;
      }

  -- The test of the data: an update is started, or one ended before.
  pub check-Inv :
      (now place : ℕ) (pod_ip : String) (c : Controller) (tasks : List Task)
      → Holds c (tasks ++ update_task place pod_ip ∷ [])
      → Holds c (tasks ++ check now place pod_ip c)
  unfolding check
  check-Inv now place pod_ip c tasks inv =
      elim (Bool-cases (needs_update now pod_ip (c.store place))) [
        | inl t ↦ rw t inv
        | inr f ↦ rw f (record {
          entries =
              All-map (Entry bond c.store c.fresh (tasks ++ update_task place pod_ip ∷ []))
                (Entry bond c.store c.fresh (tasks ++ [])) c.kube_apiservers
                (λ e h. tested e h (settled now pod_ip (c.store place) f)) inv.entries;
          apart = inv.apart;
          keys = inv.keys;
        })
      ]
    where
      tested :
          (e : String × ℕ)
          → Entry bond c.store c.fresh (tasks ++ update_task place pod_ip ∷ []) e
          → Settled (c.store place)
          → Entry bond c.store c.fresh (tasks ++ []) e
      tested e h s = record {
        in_store = h.in_store;
        keyed = h.keyed;
        local = h.local;
        tracked = elim (ℕ_discrete place e.1) [
          | yes same ↦ inl (subst (λ p. Settled (c.store p)) same s)
          | no other ↦ elim h.tracked [
            | inl done ↦ inl done
            | inr u ↦ inr (Any-remove (Updates e.1) (update_task place pod_ip) tasks [] other u)
          ]
        ];
      }

  -- The next cleaning touches neither the map nor the store.
  pub schedule_clean-Inv :
      (now : ℕ) (c : Controller) (tasks : List Task)
      → Holds c tasks
      → Holds (schedule_clean now c).0 (tasks ++ (schedule_clean now c).1)
  unfolding schedule_clean
  schedule_clean-Inv now c tasks inv = elim (Bool-cases (ltb now c.next_clean)) [
    | inl t ↦ rw t (
        Inv-more c.kube_apiservers c.store c.fresh tasks (tasks ++ clean_task ∷ [])
          (λ p. Any-append_left (Updates p) tasks (clean_task ∷ [])) inv)
    | inr f ↦ rw f (
        Inv-more c.kube_apiservers c.store c.fresh tasks (tasks ++ [])
          (λ p. Any-append_left (Updates p) tasks []) inv)
  ]

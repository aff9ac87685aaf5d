-- ===== src/Tunnel/Controller/Tracked/Tasks.antt =====
-- A task keeps what holds of the map of the controller of pkg/shoot_client/tunnel/tunnel.go.
use mathlib.Core.Path.{subst}
use vpn.Prelude.{
  str_eq, ℕ, ◌≡◌, ◌≢◌, refl, sym, ap, ◌∙◌, ◌⊎◌, inl, inr, String, Option, none, List, [], ◌∷◌, All,
  Any, Bool-cases, Result-cases, All-map,
}
use vpn.Prelude.Dict.{lookup}
use vpn.Prelude.Dict.Fresh.{Distinct, lookup-none, lookup-cons_other}
use vpn.Net.Ip.{Ip}
use vpn.Network.Netlink.{Netlink}
use vpn.Tunnel.Server.{ServerData, update, update_host, set_created, set_failed}
use vpn.Tunnel.Server.Retry.{update_eq_created, update_eq_failed}
use vpn.Tunnel.Controller.Tracked.{Settled, Updates, Apart, Entry, Inv, Entry-write}
use vpn.Tunnel.Controller.{Controller, Task, write, delete_key}

module _ (nl : Netlink) (parse_ip : String → Option Ip) where
  open nl use {Host}

  -- An update keeps the addresses, and settles the data.
  update-Settled :
      (now : ℕ) (pod_ip : String) (d : ServerData) (h : Host)
      → let d' = (update nl parse_ip now pod_ip d h).1 in
        (d'.remote_addr ≡ d.remote_addr) × (d'.local_addr ≡ d.local_addr) × Settled d'
  unfolding set_created set_failed
  update-Settled now pod_ip d h =
      elim (Result-cases (update_host nl parse_ip (record d { pod_ip = pod_ip }) h).1) [
        | inl o ↦ rw (update_eq_created nl parse_ip now pod_ip d h o.1) (refl, refl, inl refl)
        | inr f ↦
            rw (update_eq_failed nl parse_ip now pod_ip f.0 d h f.1) (refl, refl, inr (now, refl))
      ]

  -- An update that ends keeps what holds of the map, without the task.
  pub update-Inv :
      (bond : Ip) (now p : ℕ) (pod_ip : String) (tasks left : List Task) (c : Controller) (h : Host)
      → ((q : ℕ) → p ≢ q → Any (Updates q) tasks → Any (Updates q) left)
      → Inv bond c.kube_apiservers c.store c.fresh tasks
      → Inv bond c.kube_apiservers
          (write c.store p (update nl parse_ip now pod_ip (c.store p) h).1)
          c.fresh
          left
  update-Inv bond now p pod_ip tasks left c h others inv =
      let u = update-Settled now pod_ip (c.store p) h in
      let d = (update nl parse_ip now pod_ip (c.store p) h).1 in
      record {
        entries =
            All-map (Entry bond c.store c.fresh tasks) (Entry bond (write c.store p d) c.fresh left)
              c.kube_apiservers
              (Entry-write bond c.store c.fresh p d tasks left u.0 u.1 (λ t. inl u.2) others)
              inv.entries;
        apart = inv.apart;
        keys = inv.keys;
      }

module _ (key : String) where
  delete_key-cons :
      (e : String × ℕ) (m : List (String × ℕ))
      → (delete_key key (e ∷ m) ≡ delete_key key m)
        ⊎ (delete_key key (e ∷ m) ≡ e ∷ delete_key key m)
  unfolding delete_key
  delete_key-cons e m = elim (Bool-cases (str_eq e.0 key)) [
    | inl t ↦ inl (rw t refl)
    | inr f ↦ inr (rw f refl)
  ]

  delete_key-All :
      (P : String × ℕ → Type 0) (m : List (String × ℕ)) → All P m → All P (delete_key key m)
  delete_key-All P [] a = unfold delete_key in tt
  delete_key-All P (e ∷ m) a = elim (delete_key-cons e m) [
    | inl same ↦ subst (All P) (sym same) (delete_key-All P m a.1)
    | inr kept ↦ subst (All P) (sym kept) (a.0, delete_key-All P m a.1)
  ]

  delete_key-Apart : (m : List (String × ℕ)) → Apart m → Apart (delete_key key m)
  delete_key-Apart [] a = unfold delete_key in tt
  delete_key-Apart (e ∷ m) a = elim (delete_key-cons e m) [
    | inl same ↦ subst Apart (sym same) (delete_key-Apart m a.1)
    | inr kept ↦
        subst Apart (sym kept) (delete_key-All (λ f. f.1 ≢ e.1) m a.0, delete_key-Apart m a.1)
  ]

  delete_key-lookup :
      (k : String) (m : List (String × ℕ)) → lookup k m ≡ none → lookup k (delete_key key m) ≡ none
  delete_key-lookup k [] n = unfold delete_key in n
  delete_key-lookup k (e ∷ m) n =
      let l = lookup-none k e.0 e.1 m n in
      elim (delete_key-cons e m) [
        | inl same ↦ ap (lookup k) same ∙ delete_key-lookup k m l.1
        | inr kept ↦
            ap (lookup k) kept
            ∙ lookup-cons_other k e.0 e.1 (delete_key key m) l.0
            ∙ delete_key-lookup k m l.1
      ]

  delete_key-Distinct : (m : List (String × ℕ)) → Distinct m → Distinct (delete_key key m)
  delete_key-Distinct [] d = unfold delete_key in tt
  delete_key-Distinct (e ∷ m) d = elim (delete_key-cons e m) [
    | inl same ↦ subst Distinct (sym same) (delete_key-Distinct m d.1)
    | inr kept ↦ subst Distinct (sym kept) (delete_key-lookup e.0 m d.0, delete_key-Distinct m d.1)
  ]

  -- A key that a cleaning takes away.
  pub delete_key-Inv :
      (bond : Ip) (m : List (String × ℕ)) (store : ℕ → ServerData) (fresh : ℕ) (tasks : List Task)
      → Inv bond m store fresh tasks
      → Inv bond (delete_key key m) store fresh tasks
  delete_key-Inv bond m store fresh tasks inv = record {
    entries = delete_key-All (Entry bond store fresh tasks) m inv.entries;
    apart = delete_key-Apart m inv.apart;
    keys = delete_key-Distinct m inv.keys;
  }

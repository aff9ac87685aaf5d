-- ===== src/Tunnel/Controller/Cleaning.antt =====
-- What a cleaning of pkg/shoot_client/tunnel/tunnel.go takes away.
use vpn.Prelude.{
  ◌↔◌, All-map, ℕ, ◌+◌, ◌≤◌, ◌≡◌, String, false, some, List, [], ◌∷◌, inl, inr, All, eq_iff, arith,
  Bool-cases, if◌then◌else◌,
}
use vpn.Prelude.Dict.{lookup}
use vpn.Network.Netlink.{Netlink}
use vpn.Tunnel.Server.{delete, ServerData, is_outdated}
use vpn.Tunnel.Controller.{Controller, clean, clean_entries}

module _ (nl : Netlink) where
  open nl use {Host}

  clean_entries-fresh :
      (now : ℕ) (store : ℕ → ServerData) (m : List (String × ℕ)) (h : Host)
      → All
          (λ (e : String × ℕ). is_outdated now (store e.1) ≡ false)
          (clean_entries nl now store m h).0
  unfolding clean_entries
  clean_entries-fresh now store [] h = tt
  clean_entries-fresh now store ((key, place) ∷ m) h =
      elim (Bool-cases (is_outdated now (store place))) [
        | inl old ↦ rw old (clean_entries-fresh now store m _)
        | inr new ↦ rw new (new, clean_entries-fresh now store m h)
      ]

  clean_entries-keeps :
      (now : ℕ) (store : ℕ → ServerData) (m : List (String × ℕ)) (h : Host) (key : String)
      (place : ℕ)
      → lookup key m ≡ some place
      → is_outdated now (store place) ≡ false
      → lookup key (clean_entries nl now store m h).0 ≡ some place
  unfolding clean_entries lookup
  clean_entries-keeps now store [] h key place l f = l
  clean_entries-keeps now store ((k, p) ∷ m) h key place l f =
      let old = is_outdated now (store p) in
      ground (
        arith,
        clean_entries-keeps now store m (if old then delete nl (store p) h else h) key place,
        eq_iff k key,
      )

  is_outdated_iff :
      (now : ℕ) (d : ServerData)
      → (is_outdated now d ≡ false) ↔ (now ≤ d.last_seen + 600_000_000_000)
  unfolding is_outdated
  is_outdated_iff now d = ground arith

  -- Cleaning takes away every client whose last packet is more than ten minutes old, that is 600 times
  -- 10^9 nanoseconds, and no other.
  pub clean_lem :
      (now : ℕ) (c : Controller) (h : Host)
      → let c' = (clean nl now c h).0 in
        All (λ (e : String × ℕ). now ≤ (c.store e.1).last_seen + 600_000_000_000) c'.kube_apiservers
        × ((key : String) (place : ℕ)
            → lookup key c.kube_apiservers ≡ some place
            → now ≤ (c.store place).last_seen + 600_000_000_000
            → lookup key c'.kube_apiservers ≡ some place)
  unfolding clean
  clean_lem now c h = (
    All-map (λ e. is_outdated now (c.store e.1) ≡ false)
        (λ e. now ≤ (c.store e.1).last_seen + 600_000_000_000)
        (clean_entries nl now c.store c.kube_apiservers h).0
        (λ e. (is_outdated_iff now (c.store e.1)).0)
        (clean_entries-fresh now c.store c.kube_apiservers h),
    λ key place l f.
        clean_entries-keeps now c.store c.kube_apiservers h key place l
          ((is_outdated_iff now (c.store place)).1 f),
  )

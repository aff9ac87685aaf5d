-- ===== src/Tunnel/Controller/Readiness.antt =====
-- pkg/shoot_client/tunnel/readiness.go: when the controller reports that it is ready.
use vpn.Prelude.{
  ℕ, ◌≡◌, ◌≢◌, ◌↔◌, refl, String, true, none, List, [], ◌∷◌, All, arith, Bool-cases, inl, inr,
}
use vpn.Tunnel.Server.{ServerData}
use vpn.Tunnel.Controller.{Controller, data_ready, check_ready, ready_entries, is_ready}

-- The tunnel to a kube-apiserver is there, and its last update did not fail.
pub record HasRoute (d : ServerData) : Type 0 where
  pub complete : d.creation_complete ≡ true
  pub no_error : d.last_error ≡ none

data_ready_iff : (d : ServerData) → (data_ready d ≡ true) ↔ HasRoute d
unfolding data_ready
data_ready_iff d = (λ h. ground arith, λ r. ground arith)

check_ready_iff :
    (store : ℕ → ServerData) (m : List (String × ℕ))
    → ((check_ready store m).0 ≡ true) ↔ All (λ (e : String × ℕ). HasRoute (store e.1)) m
unfolding check_ready
check_ready_iff store [] = (λ _. tt, λ _. refl)
check_ready_iff store ((key, place) ∷ m) =
    let ih = check_ready_iff store m in
    let here = data_ready_iff (store place) in
    elim (Bool-cases (data_ready (store place))) [
      | inl r ↦ rw r (λ h. (here.0 r, ih.0 h), λ a. ih.1 a.1)
      | inr n ↦ rw n (λ h. absurd (cc), λ a. absurd (ground (arith, here.1 a.0, n)))
    ]

ready_entries_iff :
    (store : ℕ → ServerData) (m : List (String × ℕ))
    → ((ready_entries store m).0 ≡ true)
      ↔ ((m ≢ []) × All (λ (e : String × ℕ). HasRoute (store e.1)) m)
unfolding ready_entries
ready_entries_iff store [] = (λ h. absurd (cc), λ a. absurd (a.0 refl))
ready_entries_iff store (e ∷ m) =
    let r = check_ready_iff store (e ∷ m) in (λ h. (λ n. cc, r.0 h), λ a. r.1 a.1)

-- The controller is ready if and only if it knows a kube-apiserver, and the tunnel to every one is
-- complete with no failed update since.
pub is_ready_iff :
    (c : Controller)
    → ((is_ready c).0 ≡ true) ↔ (
        (c.kube_apiservers ≢ [])
        × All (λ (e : String × ℕ). HasRoute (c.store e.1)) c.kube_apiservers)
unfolding is_ready
is_ready_iff c = ready_entries_iff c.store c.kube_apiservers

-- ===== src/Tunnel/Controller/Tracked.antt =====
-- The map of the controller of pkg/shoot_client/tunnel/tunnel.go and its store: each key has data of
-- its own, and no client that is known is forgotten by the updates.
pub mod Packets
pub mod Tasks
use mathlib.Core.Logic.{if_pos, if_neg}
use mathlib.Core.List.{append_assoc}
use mathlib.Core.Path.{subst}
use native.Mathlib.Decide.{ℕ_discrete}
use native.Mathlib.Nat.{le_refl}
use vpn.Prelude.{
  ℕ, suc, ◌+◌, ◌≤◌, ◌<◌, ◌≡◌, ◌≢◌, refl, sym, ap, ◌∙◌, ◌⊎◌, inl, inr, String, Bool, true, false,
  Option, none, some, List, [], ◌∷◌, ◌++◌, All, Any, arith, str_eq, eq_iff, if◌then◌else◌,
  Bool-cases, Option-cases, Result-cases, Any-append_left, Any-append_right, All-map, All-append,
}
use vpn.Prelude.Dict.{lookup, insert}
use vpn.Prelude.Dict.Fresh.{Distinct, insert-Fresh}
use vpn.Net.Ip.{Ip, ip_string}
use vpn.Network.Netlink.{Netlink}
use vpn.Tunnel.Server.{ServerData, set_last_seen, needs_update, is_outdated, update, update_host}
use vpn.Tunnel.Server.Retry.{update_eq_created, update_eq_failed}
use vpn.Tunnel.Controller.{
  Controller, Task, update_task, clean_task, write, new_server, find_or_create, schedule_clean, see,
  check, delete_key,
}

-- The data had an update that ended, well or not.
abbrev pub Settled : ServerData → Type 0
Settled d = (d.creation_complete ≡ true) ⊎ ((t : ℕ) × (d.last_creation_failed ≡ some t))

abbrev pub Updates : ℕ → Task → Type 0
Updates place (update_task p pod_ip) = p ≡ place
Updates place clean_task = ⊥

-- An update of a place ended, or is to come.
abbrev pub Tracked : (ℕ → ServerData) → List Task → ℕ → Type 0
Tracked store tasks p = Settled (store p) ⊎ Any (Updates p) tasks

-- No two entries share their data.
abbrev pub Apart : List (String × ℕ) → Type 0
Apart [] = Unit
Apart (e ∷ m) = All (λ (f : String × ℕ). f.1 ≢ e.1) m × Apart m

pub write-cases :
    (s : ℕ → ServerData) (i j : ℕ) (d : ServerData)
    → ((i ≡ j) × (write s i d j ≡ d)) ⊎ ((i ≢ j) × (write s i d j ≡ s j))
write-cases s i j d = elim (ℕ_discrete i j) [
  | yes e ↦ inl (e, if_pos (ℕ_discrete i j) e d (s j))
  | no n ↦ inr (n, if_neg (ℕ_discrete i j) n d (s j))
]

module _ (bond : Ip) where
  -- An entry of the map: its data has the address that the key names, and an update of it ended or
  -- is to come.
  pub record Entry (store : ℕ → ServerData) (fresh : ℕ) (tasks : List Task) (e : String × ℕ)
      : Type 0 where
    pub in_store : e.1 < fresh
    pub keyed : ip_string (store e.1).remote_addr ≡ e.0
    pub local : (store e.1).local_addr ≡ bond
    pub tracked : Tracked store tasks e.1

  pub record Inv (m : List (String × ℕ)) (store : ℕ → ServerData) (fresh : ℕ) (tasks : List Task)
      : Type 0 where
    pub entries : All (Entry store fresh tasks) m
    pub apart : Apart m
    pub keys : Distinct m

  pub Entry-keep :
      (store store' : ℕ → ServerData) (fresh fresh' : ℕ) (tasks left : List Task) (e : String × ℕ)
      → store' e.1 ≡ store e.1
      → fresh ≤ fresh'
      → (Any (Updates e.1) tasks → Any (Updates e.1) left)
      → Entry store fresh tasks e
      → Entry store' fresh' left e
  Entry-keep store store' fresh fresh' tasks left e same le more h = record {
    in_store = omega (arith, le, h.in_store);
    keyed = ap (λ d. ip_string d.remote_addr) same ∙ h.keyed;
    local = ap (λ d. d.local_addr) same ∙ h.local;
    tracked = elim h.tracked [ inl s ↦ inl (subst Settled (sym same) s) | inr u ↦ inr (more u) ];
  }

  -- A write to the store that keeps the addresses, with tasks that still track every entry.
  pub Entry-write :
      (store : ℕ → ServerData) (fresh p : ℕ) (d : ServerData) (tasks left : List Task)
      → d.remote_addr ≡ (store p).remote_addr
      → d.local_addr ≡ (store p).local_addr
      → (Tracked store tasks p → Settled d ⊎ Any (Updates p) left)
      → ((q : ℕ) → p ≢ q → Any (Updates q) tasks → Any (Updates q) left)
      → (e : String × ℕ) → Entry store fresh tasks e
      → Entry (write store p d) fresh left e
  Entry-write store fresh p d tasks left remote local here there e h =
      elim (write-cases store p e.1 d) [
        | inr (other, is) ↦
            Entry-keep store (write store p d) fresh fresh tasks left e is (le_refl fresh)
              (there e.1 other) h
        | inl (same, is) ↦ record {
          in_store = h.in_store;
          keyed =
              ap (λ x. ip_string x.remote_addr) is
              ∙ ap ip_string remote
              ∙ ap (λ q. ip_string (store q).remote_addr) same
              ∙ h.keyed;
          local = ap (λ x. x.local_addr) is ∙ local ∙ ap (λ q. (store q).local_addr) same ∙ h.local;
          tracked =
              subst (λ x. Settled x ⊎ Any (Updates e.1) left) (sym is)
                (subst (λ q. Settled d ⊎ Any (Updates q) left) same
                  (here (subst (Tracked store tasks) (sym same) h.tracked)));
        }
      ]

-- A task that is no update of the place goes.
pub Any-remove :
    (P : Task → Type 0) (t : Task) (before behind : List Task)
    → (P t → ⊥)
    → Any P (before ++ t ∷ behind)
    → Any P (before ++ behind)
Any-remove P t [] behind never (inl h) = absurd (never h)
Any-remove P t [] behind never (inr h) = h
Any-remove P t (b ∷ before) behind never (inl h) = inl h
Any-remove P t (b ∷ before) behind never (inr h) = inr (Any-remove P t before behind never h)

pub Any-remove_before :
    (P : Task → Type 0) (t : Task) (before behind held : List Task)
    → (P t → ⊥)
    → Any P ((before ++ t ∷ behind) ++ held)
    → Any P ((before ++ behind) ++ held)
Any-remove_before P t before behind held never a =
    subst (Any P) (sym (append_assoc before behind held)) (
      Any-remove P t before (behind ++ held) never
        (subst (Any P) (append_assoc before (t ∷ behind) held) a))

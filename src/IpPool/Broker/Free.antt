-- ===== src/IpPool/Broker/Free.antt =====
-- The address that `findFreeIPAddress` of pkg/ippool/broker.go draws.
use vpn.Prelude.{
  ℕ, zero, suc, ◌≤◌, ◌<◌, ◌≡◌, ◌≢◌, refl, sym, ◌∙◌, String, true, false, inl, inr, ◌⊎◌, ok,
  contains, arith, Bool-cases, eq_iff,
}
use mathlib.Core.Path.{subst}
use native.Mathlib.Decide.{ℕ_discrete}
use vpn.Net.Ip.{ip_string}
use vpn.IpPool.Manager.{UsageLookupResult}
use vpn.IpPool.Broker.{
  Broker, address_of_index, draw_index, find_free, find_free_ip_address, announced_ip,
}

-- The range of a broker, as `checkRange` admits it.
pub record IsRange (b : Broker) : Type 0 where
  pub ordered : b.start_index < b.end_index
  pub fits : b.end_index ≤ 0xffff

draw_index_bounds :
    (b : Broker) (n : ℕ)
    → b.start_index ≤ b.end_index
    → (b.start_index ≤ draw_index b n) × (draw_index b n ≤ b.end_index)
unfolding draw_index
draw_index_bounds b n h = omega arith

-- A free address: its index lies in the range, and no other pod has it.
pub record IsFree (b : Broker) (r : UsageLookupResult) (s : String) : Type 0 where
  pub index : ℕ
  pub above : b.start_index ≤ index
  pub below : index ≤ b.end_index
  pub text : s ≡ ip_string (address_of_index b index)
  pub unused : contains r.foreign_used s ≡ false
  pub unreserved : contains r.foreign_reserved s ≡ false

find_free-IsFree :
    (attempts : ℕ) (draws : ℕ → ℕ) (b : Broker) (r : UsageLookupResult)
    → b.start_index ≤ b.end_index
    → (find_free attempts draws b r ≡ "") ⊎ IsFree b r (find_free attempts draws b r)
unfolding find_free
find_free-IsFree zero draws b r h = inl refl
find_free-IsFree (suc n) draws b r h =
    let s = ip_string (address_of_index b (draw_index b (draws n))) in
    elim (Bool-cases (contains r.foreign_used s)) [
      | inl u ↦ rw u (find_free-IsFree n draws b r h)
      | inr u ↦ elim (Bool-cases (contains r.foreign_reserved s)) [
        | inl v ↦ rw (u, v) (find_free-IsFree n draws b r h)
        | inr v ↦
            rw (u, v)
              (inr (record {
                index = draw_index b (draws n);
                above = (draw_index_bounds b (draws n) h).0;
                below = (draw_index_bounds b (draws n) h).1;
                text = refl;
                unused = u;
                unreserved = v;
              }))
      ]
    ]

pub announced_ip-found :
    (draws : ℕ → ℕ) (b : Broker) (r : UsageLookupResult) {ip : String}
    → announced_ip false draws b r ≡ ok ip
    → (find_free_ip_address draws b r ≡ ip) × (ip ≢ "")
unfolding announced_ip
announced_ip-found draws b r e = ground (arith, eq_iff (find_free_ip_address draws b r) "")

-- An address that is announced as reserved is free: its index lies in the broker's range, and the
-- lookup found no other pod that uses or reserves it.
pub announced_ip-IsFree :
    (draws : ℕ → ℕ) (b : Broker) (r : UsageLookupResult) {ip : String}
    → b.start_index ≤ b.end_index
    → announced_ip false draws b r ≡ ok ip
    → IsFree b r ip × (ip ≢ "")
unfolding find_free_ip_address
announced_ip-IsFree draws b r {ip} h e =
    let (found, ne) = announced_ip-found draws b r e in
    elim (find_free-IsFree 1000 draws b r h) [
      | inl z ↦ absurd (ne (sym found ∙ z))
      | inr f ↦ (subst (IsFree b r) found f, ne)
    ]

-- An address that another pod uses or reserves.
abbrev pub IsTaken : UsageLookupResult → String → Type 0
IsTaken r s = (contains r.foreign_used s ≡ true) ⊎ (contains r.foreign_reserved s ≡ true)

abbrev pub drawn : (ℕ → ℕ) → Broker → ℕ → String
drawn draws b i = ip_string (address_of_index b (draw_index b (draws i)))

find_free-suc :
    (n : ℕ) (draws : ℕ → ℕ) (b : Broker) (r : UsageLookupResult)
    → drawn draws b n ≢ ""
    → find_free (suc n) draws b r ≡ ""
    → IsTaken r (drawn draws b n) × (find_free n draws b r ≡ "")
unfolding find_free
find_free-suc n draws b r ne h = ground arith

-- If the search gives up, each of its attempts drew an address that another pod uses or reserves.
pub find_free_gives_up :
    (attempts : ℕ) (draws : ℕ → ℕ) (b : Broker) (r : UsageLookupResult)
    → ((i : ℕ) → drawn draws b i ≢ "")
    → find_free attempts draws b r ≡ ""
    → (i : ℕ) → i < attempts
    → IsTaken r (drawn draws b i)
find_free_gives_up zero draws b r ne h i lt = elim lt [ ]
find_free_gives_up (suc n) draws b r ne h i lt =
    let (taken, rest) = find_free-suc n draws b r (ne n) h in
    elim (ℕ_discrete i n) [
      | yes e ↦ subst (λ k. IsTaken r (drawn draws b k)) (sym e) taken
      | no d ↦ find_free_gives_up n draws b r ne rest i (omega arith)
    ]

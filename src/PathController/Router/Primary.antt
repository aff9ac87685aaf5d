-- ===== src/PathController/Router/Primary.antt =====
-- The primary client of the path controller, and the clients that answer.
use native.Mathlib.Nat.{mod-lt}
use vpn.Prelude.{
  ℕ, zero, suc, ◌%◌, ◌<◌, ◌≡◌, inl, inr, refl, ap, ◌∙◌, String, Bool, true, false, List, [], ◌∷◌,
  Result, ok, err, if◌then◌else◌, length, get_or, ◌==◌, str_eq, contains, arith, eq_iff, Bool-cases,
  Result-cases, All,
}
use vpn.Prelude.Io.{Io}
use vpn.Net.Ip.{Ip, ip_string}
use vpn.PathController.Router.{
  ClientRouter, remove, ping_done, pings_done, select_new_primary, determine_primary,
  switch_primary, tick,
}

contains-remove :
    (ip g : String) (gs : List String)
    → contains (remove ip gs) g ≡ (if str_eq ip g then false else contains gs g)
unfolding remove
contains-remove ip g [] = ground arith
contains-remove ip g (x ∷ gs) =
    ground (arith, contains-remove ip g gs, eq_iff ip g, eq_iff x g, eq_iff x ip)

-- A ping decides about its own client and no other.
ping_done-contains :
    (r : ClientRouter) (client : Ip) (answer : Bool) (g : String)
    → contains (ping_done r client answer).good_ips g
      ≡ (if str_eq (ip_string client) g then answer else contains r.good_ips g)
unfolding ping_done
ping_done-contains r client true g = ground (arith, eq_iff (ip_string client) g)
ping_done-contains r client false g = contains-remove (ip_string client) g r.good_ips

-- The last answer of a client, and what was known before where it was not pinged.
unfoldable pub last_answer : String → Bool → List (Ip × Bool) → Bool
last_answer g known [] = known
last_answer g known ((client, answer) ∷ rest) =
    last_answer g (if str_eq (ip_string client) g then answer else known) rest

-- After the pings of a tick, in any order, a client is good if and only if its last ping
-- succeeded; a client that was not pinged stays what it was.
pub pings_done-good :
    (r : ClientRouter) (pings : List (Ip × Bool)) (g : String)
    → contains (pings_done r pings).good_ips g ≡ last_answer g (contains r.good_ips g) pings
unfolding pings_done last_answer
pings_done-good r [] g = refl
pings_done-good r ((client, answer) ∷ rest) g =
    pings_done-good (ping_done r client answer) rest g
    ∙ ap (λ k. last_answer g k rest) (ping_done-contains r client answer g)

contains_get : (gs : List String) (i : ℕ) → i < length gs → contains gs (get_or gs i "") ≡ true
contains_get [] i lt = absurd (omega arith)
contains_get (g ∷ gs) zero lt = ground (arith, eq_iff g g)
contains_get (g ∷ gs) (suc i) lt = ground (arith, contains_get gs i (omega arith))

mod_lt : (m n : ℕ) → 0 < n → m % n < n
mod_lt m n lt = mod-lt m lt

-- Parsing the text of an address gives an address of that text, for the texts in a list.
abbrev pub Parses : (String → Ip) → List String → Type 0
Parses parse_ip gs = All (λ g. ip_string (parse_ip g) ≡ g) gs

Parses-get :
    (parse_ip : String → Ip) (gs : List String) (i : ℕ)
    → i < length gs
    → Parses parse_ip gs
    → ip_string (parse_ip (get_or gs i "")) ≡ get_or gs i ""
Parses-get parse_ip [] i lt p = absurd (omega arith)
Parses-get parse_ip (g ∷ gs) zero lt p = p.0
Parses-get parse_ip (g ∷ gs) (suc i) lt p = Parses-get parse_ip gs i (omega arith) p.1

pings_done-primary :
    (r : ClientRouter) (pings : List (Ip × Bool)) → (pings_done r pings).primary ≡ r.primary
unfolding pings_done ping_done
pings_done-primary r [] = refl
pings_done-primary r ((client, true) ∷ rest) = pings_done-primary (ping_done r client true) rest
pings_done-primary r ((client, false) ∷ rest) = pings_done-primary (ping_done r client false) rest

module _ {H : Type 0} (update : Ip → Io H (Unit {0})) (parse_ip : String → Ip) where
  picked :
      (pick : ℕ) (r : ClientRouter) (ip : Ip)
      → (length r.good_ips == 0) ≡ false
      → select_new_primary parse_ip pick r ≡ ok ip
      → parse_ip (get_or r.good_ips (pick % length r.good_ips) "") ≡ ip
  unfolding select_new_primary
  picked pick r ip b e = ground (arith, b, e)

  select-good :
      (pick : ℕ) (r : ClientRouter) (ip : Ip)
      → Parses parse_ip r.good_ips
      → select_new_primary parse_ip pick r ≡ ok ip
      → contains r.good_ips (ip_string ip) ≡ true
  unfolding select_new_primary
  select-good pick r ip p e = elim (Bool-cases (length r.good_ips == 0)) [
    | inl b ↦ absurd (ground (arith, b, e))
    | inr b ↦
        (let i = pick % length r.good_ips in
          let lt : i < length r.good_ips = mod_lt pick (length r.good_ips) (ground (arith, b)) in
          ground (
            arith,
            b,
            e,
            ap ip_string (picked pick r ip b e),
            Parses-get parse_ip r.good_ips i lt p,
            contains_get r.good_ips i lt,
          ))
  ]

  switch-good :
      (c : Result Ip) (r : ClientRouter) (h : H)
      → ((ip : Ip) → c ≡ ok ip → contains r.good_ips (ip_string ip) ≡ true)
      → (switch_primary update parse_ip c r h).2 ≡ ok tt
      → contains
          (switch_primary update parse_ip c r h).1.good_ips
          (ip_string (switch_primary update parse_ip c r h).1.primary)
        ≡ true
  unfolding switch_primary
  switch-good (err x) r h good e = absurd (ground (arith, e))
  switch-good (ok ip) r h good e = elim (Result-cases (update ip h).1) [
    | inl u ↦ ground (arith, u.1, good ip refl)
    | inr u ↦ absurd (ground (arith, u.1, e))
  ]

  determine-good :
      (pick : ℕ) (r : ClientRouter) (h : H)
      → Parses parse_ip r.good_ips
      → (determine_primary update parse_ip pick r h).2 ≡ ok tt
      → contains
          (determine_primary update parse_ip pick r h).1.good_ips
          (ip_string (determine_primary update parse_ip pick r h).1.primary)
        ≡ true
  unfolding determine_primary
  determine-good pick r h p e = elim (Bool-cases (contains r.good_ips (ip_string r.primary))) [
    | inl k ↦ ground (arith, k)
    | inr k ↦
        (let s =
            switch-good (select_new_primary parse_ip pick r) r h
              (λ ip c. select-good pick r ip p c) in
          ground (arith, k, e, s))
  ]

  -- When a tick of the path controller ends without an error, its primary shoot client is among
  -- the good ones: the pings of the tick count. It holds for any result of the route update and
  -- any choice among the good clients, where the text of a good address is parsed to an address of
  -- that text.
  pub tick-primary_good :
      (pings : List (Ip × Bool)) (pick : ℕ) (r : ClientRouter) (h : H)
      → Parses parse_ip (pings_done r pings).good_ips
      → (tick update parse_ip pings pick r h).2 ≡ ok tt
      → contains
          (tick update parse_ip pings pick r h).1.good_ips
          (ip_string (tick update parse_ip pings pick r h).1.primary)
        ≡ true
  unfolding tick
  tick-primary_good pings pick r h p e = determine-good pick (pings_done r pings) h p e

  -- A primary client that still answers is kept, and no route changes.
  pub tick-sticky :
      (pings : List (Ip × Bool)) (pick : ℕ) (r : ClientRouter) (h : H)
      → last_answer (ip_string r.primary) (contains r.good_ips (ip_string r.primary)) pings ≡ true
      → tick update parse_ip pings pick r h ≡ (h, pings_done r pings, ok tt)
  unfolding tick determine_primary
  tick-sticky pings pick r h e =
      ground (arith, pings_done-primary r pings, pings_done-good r pings (ip_string r.primary), e)

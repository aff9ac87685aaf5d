-- ===== src/IpPool/Broker.antt =====
-- pkg/ippool/broker.go: the broker by which a seed client gets an address from the pool.
-- `AcquireIP` is cut at its calls of the manager, between which other clients act: a program
-- counter with the local variables that are live there, and a step for each part of the method.
-- Sleeping and logging are left out. `rand.N(n)` is an arbitrary number modulo n.
pub mod Free
pub mod Ends
pub mod World
pub mod Exclusion
use vpn.Prelude.{
  ℕ, zero, suc, ◌+◌, ◌-◌, ◌*◌, ◌/◌, ◌%◌, ◌≡◌, refl, String, Bool, true, false, Option, none, some,
  List, [], ◌∷◌, ltb, leb, ◌==◌, ◌&&◌, ◌||◌, if◌then◌else◌, length, set, Result, ok, err, ◌>>=◌,
  ◌>>◌, guard, not, contains, str_eq,
}
use vpn.Prelude.Int.{ℤ, pos, negsuc, pos_part, leb_ℤ, ltb_ℤ}
use vpn.Net.Ip.{Ip, ip_string, to16}
use vpn.IpPool.Manager.{UsageLookupResult, usage_lookup, set_ip_address, PodApi, Pod}

-- `ipAddressBroker`, without the manager.
pub record Broker : Type 0 where
  pub base : Ip
  pub start_index : ℕ
  pub end_index : ℕ
  pub own_name : String
  pub own_ip : String
  pub own_used : Bool

unfoldable pub check_range : ℤ → ℤ → Result (Unit {0})
check_range start_index end_index =
    if ltb_ℤ start_index (pos 0) || (leb_ℤ end_index start_index || ltb_ℤ (pos 0xffff) end_index)
    then err "invalid index range"
    else ok tt

unfoldable pub set_start_and_end_index : Broker → ℤ → ℤ → Result Broker
unfolding check_range
set_start_and_end_index b start_index end_index = do
  check_range start_index end_index
  ok (record b { start_index = pos_part start_index; end_index = pos_part end_index })

-- `NewIPAddressBroker`, on the range that `BondingSeedClientRange` gives.
unfoldable pub new_broker : Ip × ℤ × ℤ → String → Result Broker
unfolding check_range
new_broker (base, start_index, end_index) pod_name = do
  check_range start_index end_index
  ok (record {
    base = base;
    start_index = pos_part start_index;
    end_index = pos_part end_index;
    own_name = pod_name;
    own_ip = "";
    own_used = false;
  })

-- The address of an index: the base with its last byte, or its last two, replaced.
unfoldable pub address_of_index : Broker → ℕ → Ip
address_of_index b index =
    let ip = set b.base (length b.base - 1) (index % 256) in
    if ltb 0xff b.end_index then set ip (length ip - 2) (index / 256 % 256) else ip

unfoldable pub draw_index : Broker → ℕ → ℕ
draw_index b n = n % (b.end_index - b.start_index + 1) + b.start_index

-- The loop of `findFreeIPAddress`, with the attempts left and the numbers that are drawn.
unfoldable pub find_free : ℕ → (ℕ → ℕ) → Broker → UsageLookupResult → String
find_free zero draws b r = ""
find_free (suc attempts) draws b r =
    let s = ip_string (address_of_index b (draw_index b (draws attempts))) in
    let retry = find_free attempts draws b r in
    if contains r.foreign_used s then retry else if contains r.foreign_reserved s then retry else s

unfoldable pub find_free_ip_address : (ℕ → ℕ) → Broker → UsageLookupResult → String
find_free_ip_address draws b r = find_free 1000 draws b r

unfoldable pub has_conflict : Broker → UsageLookupResult → Bool
has_conflict b r = contains r.foreign_used b.own_ip || contains r.foreign_reserved b.own_ip

-- The part of `announceIPAddress` before the manager is called: the address to announce.
unfoldable pub announced_ip : Bool → (ℕ → ℕ) → Broker → UsageLookupResult → Result String
announced_ip used draws b r =
    let ip = if used then r.own_ip else find_free_ip_address draws b r in
    if str_eq ip ""
    then err (if used then "internal error: own ip undefined" else "no free IP address found")
    else ok ip

pub data Pc : Type 0 where
  -- At the head of the loop of `AcquireIP`, with the rounds that may follow this one.
  lookup : (rounds : ℕ) → Pc
  -- Before the reservation.
  announce : (rounds : ℕ) (result : UsageLookupResult) → Pc
  -- Before the second lookup, after the wait.
  recheck : (rounds : ℕ) → Pc
  -- Behind the loop, before the address is marked as used.
  settle : (result : UsageLookupResult) → Pc
  returned : Result String → Pc

abbrev pub start : Pc
start = lookup 29

-- Behind the loop of `AcquireIP`.
unfoldable pub after_loop : Broker → UsageLookupResult → Pc
after_loop b r =
    if has_conflict b r then returned (err "cannot find any free IP address") else settle r

-- The end of a round with a conflict.
unfoldable pub next_round : ℕ → Broker → UsageLookupResult → Pc
unfolding after_loop
next_round zero b r = after_loop b r
next_round (suc rounds) b r = lookup rounds

-- Behind the first lookup of a round.
unfoldable pub looked_up : ℕ → Result UsageLookupResult → Pc
looked_up rounds (err e) = returned (err e)
looked_up rounds (ok r) = if r.own_used then returned (ok r.own_ip) else announce rounds r

-- Behind the second lookup of a round.
unfoldable pub rechecked : ℕ → Broker → Result UsageLookupResult → Pc
rechecked rounds b (err e) = returned (err e)
rechecked rounds b (ok r) = if has_conflict b r then next_round rounds b r else after_loop b r

module _ (api : PodApi) where
  open api use {Cluster, list}

  -- Behind the call of `SetIPAddress` in `announceIPAddress`.
  unfoldable pub recorded :
      Bool → String → Broker → Cluster × Result (Unit {0}) → Broker × Cluster × Result (Unit {0})
  recorded used ip b (c, err e) = (b, c, err e)
  recorded used ip b (c, ok _) = (record b { own_ip = ip; own_used = used }, c, ok tt)

  -- `announceIPAddress`: the broker, the cluster and the error.
  unfoldable pub announce_ip_address :
      Bool → (ℕ → ℕ) → UsageLookupResult → Broker → Cluster → Broker × Cluster × Result (Unit {0})
  announce_ip_address used draws r b c =
      if r.own_used then (b, c, ok tt) else elim (announced_ip used draws b r) [
        | err e ↦ (b, c, err e)
        | ok ip ↦ recorded used ip b (set_ip_address api b.own_name ip used c)
      ]

  unfoldable pub announced : ℕ → Broker × Cluster × Result (Unit {0}) → Pc × Broker × Cluster
  announced rounds (b, c, err e) = (returned (err e), b, c)
  announced rounds (b, c, ok _) = (recheck rounds, b, c)

  unfoldable pub settled : Broker × Cluster × Result (Unit {0}) → Pc × Broker × Cluster
  settled (b, c, err e) = (returned (err e), b, c)
  settled (b, c, ok _) = (returned (ok b.own_ip), b, c)

  -- `AcquireIP` from one call of the manager to the next.
  unfoldable pub acquire_step : (ℕ → ℕ) → Pc → Broker → Cluster → Pc × Broker × Cluster
  acquire_step draws (lookup rounds) b c =
      (looked_up rounds (usage_lookup b.own_name (list c)), b, c)
  acquire_step draws (announce rounds r) b c =
      announced rounds (announce_ip_address false draws r b c)
  acquire_step draws (recheck rounds) b c =
      (rechecked rounds b (usage_lookup b.own_name (list c)), b, c)
  acquire_step draws (settle r) b c = settled (announce_ip_address true draws r b c)
  acquire_step draws (returned x) b c = (returned x, b, c)

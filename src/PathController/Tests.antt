-- ===== src/PathController/Tests.antt =====
-- Runs of the path controller.
use vpn.Prelude.{
  ℕ, suc, ◌+◌, ◌≡◌, ◌↔◌, refl, String, Bool, true, false, none, List, [], ◌∷◌, Result, ok, contains,
}
use vpn.Net.Ip.{Ip, ip_string}
use vpn.PathController.Ping.{Attempt, ping_client}
use vpn.PathController.Ping.Success.{SomeSucceeds, ping_client_iff}
use vpn.PathController.Router.{
  ClientRouter, tick, pings_done, ping_done, remove, determine_primary, switch_primary,
  select_new_primary,
}
use vpn.PathController.Router.Primary.{
  Parses, last_answer, tick-primary_good, tick-sticky, pings_done-good,
}

abbrev first : Ip
first = 10 ∷ 0 ∷ 0 ∷ 1 ∷ []

abbrev other : Ip
other = 10 ∷ 0 ∷ 0 ∷ 2 ∷ []

abbrev parse_ip : String → Ip
parse_ip text = other

abbrev router : ClientRouter
router = record { primary = first; good_ips = "10.0.0.1" ∷ [] }

-- The primary client fails, and another one answers.
abbrev switch : List (Ip × Bool)
switch = (first, false) ∷ (other, true) ∷ []

abbrev stay : List (Ip × Bool)
stay = (other, true) ∷ (first, true) ∷ []

abbrev update : Ip → ℕ → ℕ × Result (Unit {0})
update ip n = (n + 1, ok tt)

parses : Parses parse_ip (pings_done router switch).good_ips
unfolding pings_done ping_done remove ip_string
parses = (refl, tt)

switched : (tick update parse_ip switch 0 router 5).2 ≡ ok tt
unfolding tick determine_primary switch_primary select_new_primary pings_done ping_done remove
    ip_string
switched = refl

tick-primary_good_example :
    contains
      (tick update parse_ip switch 0 router 5).1.good_ips
      (ip_string (tick update parse_ip switch 0 router 5).1.primary)
    ≡ true
tick-primary_good_example = tick-primary_good update parse_ip switch 0 router 5 parses switched

answers : last_answer (ip_string first) (contains router.good_ips (ip_string first)) stay ≡ true
unfolding last_answer ip_string
answers = refl

tick-sticky_example : tick update parse_ip stay 0 router 5 ≡ (5, pings_done router stay, ok tt)
tick-sticky_example = tick-sticky update parse_ip stay 0 router 5 answers

pings_done-good_example :
    contains (pings_done router switch).good_ips "10.0.0.2"
    ≡ last_answer "10.0.0.2" (contains router.good_ips "10.0.0.2") switch
pings_done-good_example = pings_done-good router switch "10.0.0.2"

-- The reply of another type, as an unreachable destination is.
abbrev unreachable : Attempt
unreachable = record {
  counter = 7;
  listen = ok tt;
  set_deadline = ok tt;
  marshal = ok tt;
  write_to = ok tt;
  read_from = ok tt;
  parse_message = ok (record { kind = 1; body = none });
}

ping_client_iff_example :
    (ping_client 9 (λ i. unreachable) ≡ ok tt) ↔ SomeSucceeds (suc 9) (λ i. unreachable) 1
ping_client_iff_example = ping_client_iff 9 (λ i. unreachable)

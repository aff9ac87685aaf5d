-- ===== src/Openvpn/Health/Readiness.antt =====
-- What pkg/openvpn/health decides.
use vpn.Prelude.{
  ◌≤◌, ◌≡◌, ◌↔◌, ◌⊎◌, refl, ap, Bool, true, false, List, [], ◌∷◌, length, Any, arith, starts_with,
}
use vpn.Openvpn.Status.{OpenVpnStatus, ClientInfo}
use vpn.Openvpn.Health.{is_seed, is_shoot, find_clients, any_shoot, is_ready}

-- A client of the seed, by the common name of its certificate.
abbrev pub IsSeed : ClientInfo → Type 0
IsSeed c = starts_with c.common_name "vpn-seed-client" ≡ true

-- A client of the shoot, by the common name of its certificate, and of no seed.
abbrev pub IsShoot : ClientInfo → Type 0
IsShoot c =
    (starts_with c.common_name "vpn-seed-client" ≡ false)
    × (starts_with c.common_name "vpn-shoot-client" ≡ true)

find_clients-IsSeed :
    (cs : List ClientInfo) (a b : Bool)
    → ((find_clients cs a b).0 ≡ true) ↔ ((a ≡ true) ⊎ Any IsSeed cs)
unfolding find_clients is_seed is_shoot
find_clients-IsSeed [] a b = ground arith
find_clients-IsSeed (c ∷ cs) a b = ground (
  arith,
  find_clients-IsSeed cs true b,
  find_clients-IsSeed cs a true,
  find_clients-IsSeed cs a b,
)

find_clients-IsShoot :
    (cs : List ClientInfo) (a b : Bool)
    → ((find_clients cs a b).1 ≡ true) ↔ ((b ≡ true) ⊎ Any IsShoot cs)
unfolding find_clients is_seed is_shoot
find_clients-IsShoot [] a b = ground arith
find_clients-IsShoot (c ∷ cs) a b = ground (
  arith,
  find_clients-IsShoot cs true b,
  find_clients-IsShoot cs a true,
  find_clients-IsShoot cs a b,
)

two_clients : (cs : List ClientInfo) → Any IsSeed cs → Any IsShoot cs → 2 ≤ length cs
two_clients [] p q = absurd p
two_clients (c ∷ []) p q = ground arith
two_clients (c ∷ d ∷ cs) p q = omega arith

-- In HA mode the server is ready if and only if a client whose common name starts with
-- vpn-seed-client is connected, and one whose common name starts with vpn-shoot-client; the count of
-- two clients follows from that.
pub is_ready-ha :
    (s : OpenVpnStatus) → (is_ready s true ≡ true) ↔ (Any IsSeed s.clients × Any IsShoot s.clients)
unfolding is_ready
is_ready-ha s = ground (
  arith,
  find_clients-IsSeed s.clients false false,
  find_clients-IsShoot s.clients false false,
  two_clients s.clients,
)

any_shoot_lem :
    (cs : List ClientInfo)
    → (any_shoot cs ≡ true)
      ↔ Any (λ (c : ClientInfo). starts_with c.common_name "vpn-shoot-client" ≡ true) cs
unfolding any_shoot is_shoot
any_shoot_lem [] = ground arith
any_shoot_lem (c ∷ cs) = ground (arith, any_shoot_lem cs)

empty : (cs : List ClientInfo) → length cs ≡ 0 → cs ≡ []
empty [] e = refl
empty (c ∷ cs) e = ground (arith, e)

-- Without HA the server is ready if and only if no client is connected, or one whose common name
-- starts with vpn-shoot-client.
pub is_ready-single :
    (s : OpenVpnStatus)
    → (is_ready s false ≡ true) ↔ (
        (s.clients ≡ [])
        ⊎ Any (λ (c : ClientInfo). starts_with c.common_name "vpn-shoot-client" ≡ true) s.clients)
unfolding is_ready
is_ready-single s =
    ground (arith, any_shoot_lem s.clients, empty s.clients, (λ (e : s.clients ≡ []). ap length e))

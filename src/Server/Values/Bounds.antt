-- ===== src/Server/Values/Bounds.antt =====
-- What pkg/vpn_server/values.go guarantees of the settings that it builds.
use mathlib.Core.Path.{subst}
use Prim.Native.String.{len, slice}
use vpn.Prelude.{
  ◌≢◌, ◌-◌, ◌⊎◌, inl, inr, str_eq, eq_iff, Bool-cases, ℕ, ◌+◌, ◌^◌, ◌≤◌, ◌≡◌, ap, sym, ◌∙◌, refl,
  String, Bool, true, false, List, [], ◌∷◌, ◌++◌, Result, ok, length, arith,
}
use vpn.Network.Cidr.{Cidr, is_ipv4}
use vpn.Network.Netmap.{MappedRanges}
use vpn.Net.Mask.{mask_size}
use vpn.Config.Server.{VpnServer}
use vpn.Server.Values.{
  SeedServerValues, max_routes, min, max, build_values, values, get_ha_info, pod_suffix, same,
  total_hosts, of_family,
}

max_routes_bounds : (total : ℕ) → (256 ≤ max_routes total) × (max_routes total ≤ 2 ^ 20)
unfolding max_routes min max
max_routes_bounds total = ground arith

-- The number of routes is the sum itself where that is between the bounds.
max_routes_exact : (total : ℕ) → 256 ≤ total → total ≤ 2 ^ 20 → max_routes total ≡ total
unfolding max_routes min max
max_routes_exact total lo hi = ground arith

same_iff : (a b : Bool) → same a b ≡ true → a ≡ b
unfolding same
same_iff a b h = ground arith

-- The last two characters of a text.
abbrev pub ending : String → String
ending name = slice name (len name - 2) (len name)

-- What the name of a pod says: one of three endings in the HA setup, none of them else.
abbrev pub NameSays : String → Bool → ℕ → Type 0
NameSays name true index =
    ((ending name ≡ "-0") × (index ≡ 0))
    ⊎ (((ending name ≡ "-1") × (index ≡ 1)) ⊎ ((ending name ≡ "-2") × (index ≡ 2)))
NameSays name false index =
    (index ≡ 0) × (ending name ≢ "-0") × (ending name ≢ "-1") × (ending name ≢ "-2")

get_ha_info-NameSays : (name : String) → NameSays name (get_ha_info name).0 (get_ha_info name).1
unfolding get_ha_info pod_suffix
get_ha_info-NameSays name = elim (Bool-cases (str_eq name "")) [
  | inl t ↦
      let e : name ≡ "" = (eq_iff name "").0 t in
      rw e (
        refl,
        (λ h. ground (arith, eq_iff "" "-0", h)),
        (λ h. ground (arith, eq_iff "" "-1", h)),
        (λ h. ground (arith, eq_iff "" "-2", h)),
      )
  | inr f ↦ rw f (elim (Bool-cases (str_eq (ending name) "-0")) [
    | inl t ↦ rw t (inl ((eq_iff (ending name) "-0").0 t, refl))
    | inr a ↦ rw a (elim (Bool-cases (str_eq (ending name) "-1")) [
      | inl t ↦ rw t (inr (inl ((eq_iff (ending name) "-1").0 t, refl)))
      | inr b ↦ rw b (elim (Bool-cases (str_eq (ending name) "-2")) [
        | inl t ↦ rw t (inr (inr ((eq_iff (ending name) "-2").0 t, refl)))
        | inr c ↦ rw c (
          refl,
          (λ h. ground (arith, eq_iff (ending name) "-0")),
          (λ h. ground (arith, eq_iff (ending name) "-1")),
          (λ h. ground (arith, eq_iff (ending name) "-2")),
        )
      ])
    ])
  ])
]

built :
    (parse_cidr : String → Result Cidr) (ranges : MappedRanges) (cfg : VpnServer)
    (v : SeedServerValues)
    → build_values parse_cidr ranges cfg ≡ ok v
    → (values parse_cidr ranges cfg ≡ v)
      × (same (get_ha_info cfg.pod_name).0 cfg.is_ha ≡ true)
      × ((mask_size cfg.vpn_network.mask).0 ≡ 96)
      × (is_ipv4 cfg.vpn_network ≡ false)
      × (length cfg.vpn_network.ip ≢ 0)
unfolding build_values
built parse_cidr ranges cfg v e = ground arith

-- Settings of the OpenVPN server are built only for a network that is set, with an address that is no
-- IPv4 address and a prefix length of 96, and for a name of the pod that agrees with the HA flag: in
-- the HA setup it ends in -0, -1 or -2, which is the index of the server, and else in none of these;
-- the routes per client are between 256 and 2^20.
pub build_values-checks :
    (parse_cidr : String → Result Cidr) (ranges : MappedRanges) (cfg : VpnServer)
    (v : SeedServerValues)
    → build_values parse_cidr ranges cfg ≡ ok v
    → (v.is_ha ≡ cfg.is_ha)
      × NameSays cfg.pod_name cfg.is_ha v.vpn_index
      × (256 ≤ v.max_routes_per_client)
      × (v.max_routes_per_client ≤ 2 ^ 20)
      × ((mask_size cfg.vpn_network.mask).0 ≡ 96)
      × (is_ipv4 cfg.vpn_network ≡ false)
      × (length cfg.vpn_network.ip ≢ 0)
unfolding values
build_values-checks parse_cidr ranges cfg v e =
    let b = built parse_cidr ranges cfg v e in
    let total =
      total_hosts
        (cfg.shoot_pod_networks ++ (cfg.shoot_service_networks ++ cfg.shoot_node_networks)) in
    let m = max_routes_bounds total in
    let routes : max_routes total ≡ v.max_routes_per_client =
      ap (λ (w : SeedServerValues). w.max_routes_per_client) b.0 in
    let index : (get_ha_info cfg.pod_name).1 ≡ v.vpn_index =
      ap (λ (w : SeedServerValues). w.vpn_index) b.0 in
    let ha : (get_ha_info cfg.pod_name).0 ≡ v.is_ha = ap (λ (w : SeedServerValues). w.is_ha) b.0 in
    (
      sym ha ∙ same_iff (get_ha_info cfg.pod_name).0 cfg.is_ha b.1,
      subst (λ b. NameSays cfg.pod_name b v.vpn_index)
          (same_iff (get_ha_info cfg.pod_name).0 cfg.is_ha b.1)
          (subst (NameSays cfg.pod_name (get_ha_info cfg.pod_name).0) index
            (get_ha_info-NameSays cfg.pod_name)),
      ground (arith, m, routes),
      ground (arith, m, routes),
      b.2,
      b.3,
      b.4,
    )

-- Each network of a list is in one of the two families.
of_family-length :
    (nws : List Cidr) → length (of_family true nws) + length (of_family false nws) ≡ length nws
unfolding of_family
of_family-length [] = refl
of_family-length (nw ∷ nws) = ground (arith, of_family-length nws)

-- ===== src/Config/Client/Valid.antt =====
-- What pkg/config/vpn-client.go guarantees of the settings that it returns.
use Prim.Native.Nat.{Ordering}
use Prim.Native.String.{compare as compare_text}
use mathlib.Core.Path.{subst}
use vpn.Prelude.{
  ◌<◌, ◌≡◌, ◌↔◌, ◌⊎◌, inl, inr, sym, ◌∙◌, String, true, List, [], ◌∷◌, Result, ok, str_eq, contains,
  All, arith, eq_iff, Bool-cases, Result-cases,
}
use vpn.Prelude.Int.{ℤ, pos, leb_ℤ, ◌≤ℤ◌}
use vpn.Net.Mask.{mask_size}
use vpn.Network.Cidr.{Cidr}
use vpn.Config.{validate_vpn_network_cidr, with_default}
use vpn.Config.Client.{
  VpnClient, check_ha, check_families, insert_text, sort_texts, compact_after, compact_texts,
  get_vpn_client_config, bonding_modes,
}

abbrev pub IsFamily : String → Type 0
IsFamily f = (f ≡ "IPv4") ⊎ (f ≡ "IPv6")

check_families-All : (fs : List String) → check_families fs ≡ ok tt → All IsFamily fs
unfolding check_families
check_families-All [] h = tt
check_families-All (f ∷ fs) h =
    (ground (arith, h, eq_iff f "IPv4", eq_iff f "IPv6"), check_families-All fs (ground (arith, h)))

-- Either branch of a comparison.
compared :
    (o : Ordering) (x y : List String)
    → All IsFamily x
    → All IsFamily y
    → All IsFamily (elim o [ Ordering.lt ↦ x | _ ↦ y ])
compared Ordering.lt x y hx hy = hx
compared Ordering.eq x y hx hy = hy
compared Ordering.gt x y hx hy = hy

insert_text-All :
    (a : String) (bs : List String) → IsFamily a → All IsFamily bs → All IsFamily (insert_text a bs)
unfolding insert_text
insert_text-All a [] ha hb = (ha, tt)
insert_text-All a (b ∷ bs) ha hb =
    compared (compare_text b a) (b ∷ insert_text a bs) (a ∷ (b ∷ bs))
      (hb.0, insert_text-All a bs ha hb.1) (ha, hb)

sort_texts-All : (bs : List String) → All IsFamily bs → All IsFamily (sort_texts bs)
unfolding sort_texts
sort_texts-All [] h = tt
sort_texts-All (b ∷ bs) h = insert_text-All b (sort_texts bs) h.0 (sort_texts-All bs h.1)

compact_after-All :
    (a : String) (bs : List String)
    → IsFamily a
    → All IsFamily bs
    → All IsFamily (compact_after a bs)
unfolding compact_after
compact_after-All a [] ha hb = (ha, tt)
compact_after-All a (b ∷ bs) ha hb = elim (Bool-cases (str_eq a b)) [
  | inl e ↦ rw e (compact_after-All b bs hb.0 hb.1)
  | inr e ↦ rw e (ha, compact_after-All b bs hb.0 hb.1)
]

compact_texts-All : (bs : List String) → All IsFamily bs → All IsFamily (compact_texts bs)
unfolding compact_texts
compact_texts-All [] h = tt
compact_texts-All (b ∷ bs) h = compact_after-All b bs h.0 h.1

-- Both counts are zero or neither, and the mode is supported.
pub record IsHa (cfg : VpnClient) : Type 0 where
  pub counts : (0 < cfg.ha_vpn_servers) ↔ (0 < cfg.ha_vpn_clients)
  pub mode : contains bonding_modes cfg.bonding_mode ≡ true

check_ha-IsHa : (cfg : VpnClient) → check_ha cfg ≡ ok tt → IsHa cfg
unfolding check_ha
check_ha-IsHa cfg h = record { counts = ground (arith, h); mode = ground (arith, h) }

-- What the settings that are returned have.
pub record IsValid (cfg : VpnClient) : Type 0 where
  pub network : (mask_size cfg.vpn_network.mask).0 ≡ 96
  pub families : All IsFamily cfg.ip_families
  pub wait : pos 0 ≤ℤ cfg.wait_time
  pub ha : cfg.is_ha ≡ true → IsHa cfg

module _ (atoi : String → Result ℤ) (vpn_network_default : Result Cidr) (parsed : VpnClient) where
  checked :
      (cfg : VpnClient) (nw : Cidr)
      → with_default vpn_network_default parsed.vpn_network ≡ ok nw
      → get_vpn_client_config atoi vpn_network_default (ok parsed) ≡ ok cfg
      → (cfg.vpn_network ≡ nw)
        × (validate_vpn_network_cidr nw ≡ ok tt)
        × (check_families parsed.ip_families ≡ ok tt)
        × (cfg.ip_families ≡ compact_texts (sort_texts parsed.ip_families))
        × (leb_ℤ (pos 0) cfg.wait_time ≡ true)
        × (cfg.is_ha ≡ parsed.is_ha)
        × (cfg.ha_vpn_servers ≡ parsed.ha_vpn_servers)
        × (cfg.ha_vpn_clients ≡ parsed.ha_vpn_clients)
        × (cfg.bonding_mode ≡ parsed.bonding_mode)
        × (parsed.is_ha ≡ true → check_ha parsed ≡ ok tt)
  unfolding get_vpn_client_config
  checked cfg nw e h = ground arith

  default_ok :
      (cfg : VpnClient)
      → get_vpn_client_config atoi vpn_network_default (ok parsed) ≡ ok cfg
      → (nw : Cidr) × (with_default vpn_network_default parsed.vpn_network ≡ ok nw)
  unfolding get_vpn_client_config
  default_ok cfg h = elim (Result-cases (with_default vpn_network_default parsed.vpn_network)) [
    | inl n ↦ n
    | inr f ↦ absurd (ground (arith, f.1, h))
  ]

  -- Settings of a client that are accepted have a network of prefix length 96, only the families
  -- IPv4 and IPv6, a wait time that is not negative, and in HA mode a supported bonding mode and
  -- servers exactly where there are clients.
  pub get_vpn_client_config-IsValid :
      (cfg : VpnClient)
      → get_vpn_client_config atoi vpn_network_default (ok parsed) ≡ ok cfg
      → IsValid cfg
  unfolding validate_vpn_network_cidr
  get_vpn_client_config-IsValid cfg h =
      let n = default_ok cfg h in
      let c = checked cfg n.0 n.1 h in
      record {
        network = ground (arith, c.0, c.1);
        families = subst (All IsFamily) (sym c.3) (
            compact_texts-All (sort_texts parsed.ip_families)
              (sort_texts-All parsed.ip_families (check_families-All parsed.ip_families c.2)));
        wait = ground (arith, c.4);
        ha = λ is_ha.
            let i = check_ha-IsHa parsed (c.9 (sym c.5 ∙ is_ha)) in
            record {
              counts = ground (arith, c.6, c.7, i.counts);
              mode = ground (arith, c.8, i.mode);
            };
      }

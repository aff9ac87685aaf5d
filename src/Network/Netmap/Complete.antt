-- ===== src/Network/Netmap/Complete.antt =====
-- pkg/network/netmap.go maps every source that it is given.
use mathlib.Core.Path.{subst}
use vpn.Prelude.{
  ◌≡◌, sym, ◌∙◌, inl, inr, String, some, List, [], ◌∷◌, Result, ok, Result-cases, ltb, str_eq, All,
  arith, eq_iff, Bool-cases,
}
use vpn.Prelude.Dict.{lookup, insert, lookup-insert}
use vpn.Net.Mask.{IpNet, mask_size}
use vpn.Network.Cidr.{cidr_string}
use vpn.Network.Netmap.Sorting.{IsSort}
use vpn.Network.Netmap.{
  SrcInfo, split_all, map_first, map_subnets_rec, src_infos, sort_infos, Sort, netmap_subnets,
}

-- A text has a mapping.
abbrev pub IsMapped : List (String × String) → String → Type 0
IsMapped r src = (dst : String) × (lookup src r ≡ some dst)

insert_keeps :
    (r : List (String × String)) (k v src : String) → IsMapped r src → IsMapped (insert k v r) src
insert_keeps r k v src (d, e) = elim (Bool-cases (str_eq k src)) [
  | inl t ↦ (v, ground (arith, lookup-insert k src v r))
  | inr f ↦ (d, ground (arith, lookup-insert k src v r))
]

insert_maps : (r : List (String × String)) (k v : String) → IsMapped (insert k v r) k
insert_maps r k v = (v, ground (arith, lookup-insert k k v r, eq_iff k k))

abbrev pub Mapped : List (String × String) → List SrcInfo → Type 0
Mapped r infos = All (λ s. IsMapped r s.raw) infos

-- One step of the recursion that succeeds.
step :
    (src : SrcInfo) (srcs : List SrcInfo) (dsts : List IpNet) (result r : List (String × String))
    → map_subnets_rec (src ∷ srcs) dsts result ≡ ok r
    → (mapped : IpNet) × (rest : List IpNet) × (map_subnets_rec srcs rest
          (insert src.raw (cidr_string mapped) result)
        ≡ ok r)
unfolding map_subnets_rec
step src srcs dsts result r e = elim (Result-cases (split_all dsts src.prefix)) [
  | inr f ↦ absurd (ground (arith, f.1))
  | inl c ↦ elim (Result-cases (map_first src c.0)) [
    | inr f ↦ absurd (ground (arith, f.1, c.1))
    | inl m ↦
        (let next : map_subnets_rec (src ∷ srcs) dsts result
              ≡ map_subnets_rec srcs m.0.1 (insert src.raw (cidr_string m.0.0) result) =
            ground (arith, c.1, m.1) in
          (m.0.0, m.0.1, sym next ∙ e))
  ]
]

-- What is mapped stays mapped.
rec_keeps :
    (srcs : List SrcInfo) (dsts : List IpNet) (result r : List (String × String)) (src : String)
    → map_subnets_rec srcs dsts result ≡ ok r
    → IsMapped result src
    → IsMapped r src
unfolding map_subnets_rec
rec_keeps [] dsts result r src e m = subst (λ x. IsMapped x src) (ground (arith, e)) m
rec_keeps (s ∷ srcs) dsts result r src e m =
    let st = step s srcs dsts result r e in
    rec_keeps srcs st.1 (insert s.raw (cidr_string st.0) result) r src st.2
      (insert_keeps result s.raw (cidr_string st.0) src m)

pub rec_maps :
    (srcs : List SrcInfo) (dsts : List IpNet) (result r : List (String × String))
    → map_subnets_rec srcs dsts result ≡ ok r
    → Mapped r srcs
rec_maps [] dsts result r e = tt
rec_maps (s ∷ srcs) dsts result r e =
    let st = step s srcs dsts result r e in
    let next = insert s.raw (cidr_string st.0) result in
    (
      rec_keeps srcs st.1 next r s.raw st.2 (insert_maps result s.raw (cidr_string st.0)),
      rec_maps srcs st.1 next r st.2,
    )

src_infos-raw :
    (parse_cidr : String → Result IpNet) (r : List (String × String)) (srcs : List String)
    (infos : List SrcInfo)
    → src_infos parse_cidr srcs ≡ ok infos
    → Mapped r infos
    → All (IsMapped r) srcs
unfolding src_infos
src_infos-raw parse_cidr r [] infos e m = tt
src_infos-raw parse_cidr r (src ∷ srcs) infos e m = elim (Result-cases (parse_cidr src)) [
  | inr f ↦ absurd (ground (arith, f.1))
  | inl n ↦ elim (Result-cases (src_infos parse_cidr srcs)) [
    | inr f ↦ absurd (ground (arith, f.1, n.1))
    | inl t ↦
        (let info : SrcInfo = record { raw = src; net = n.0; prefix = (mask_size n.0.mask).0 } in
          let eq : infos ≡ info ∷ t.0 = ground (arith, n.1, t.1, e) in
          let g : Mapped r (info ∷ t.0) = subst (Mapped r) eq m in
          (g.0, src_infos-raw parse_cidr r srcs t.0 t.1 g.1))
  ]
]

-- If the mapping of networks succeeds, every source network that was given has a mapping, in
-- whatever order they are sorted; sorting keeps the elements.
pub netmap_subnets-maps :
    (sort : Sort) (parse_cidr : String → Result IpNet) (srcs : List String) (dst : String)
    (r : List (String × String))
    → IsSort sort
    → netmap_subnets sort parse_cidr srcs dst ≡ ok r
    → All (IsMapped r) srcs
unfolding netmap_subnets sort_infos
netmap_subnets-maps sort parse_cidr srcs dst r laws e = elim (Result-cases (parse_cidr dst)) [
  | inr f ↦ absurd (ground (arith, f.1))
  | inl n ↦ elim (Result-cases (src_infos parse_cidr srcs)) [
    | inr f ↦ absurd (ground (arith, f.1, n.1))
    | inl t ↦ src_infos-raw parse_cidr r srcs t.0 t.1 (
        laws.keeps (λ s u. ltb s.prefix u.prefix) (λ s. IsMapped r s.raw) t.0
          (rec_maps (sort_infos sort t.0) (n.0 ∷ []) [] r (ground (arith, t.1, n.1))))
  ]
]

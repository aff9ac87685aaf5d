-- ===== src/Server/Firewall/Rules.antt =====
-- Rules of iptables as lists, on which the firewall command of cmd/vpn_server/app/firewall.go adds and
-- deletes.
use mathlib.Core.List.{append-nil, append_assoc}
use vpn.Prelude.{
  ◌≡◌, refl, sym, ap, ◌∙◌, inl, inr, String, Bool, true, false, List, [], ◌∷◌, ◌++◌, All, str_eq,
  eq_iff, ◌&&◌, if◌then◌else◌, arith, Bool-cases,
}
use vpn.Network.Iptables.{Protocol, protocol_ipv4, protocol_ipv6, Table}

abbrev pub Spec : Type 0
Spec = List String

unfoldable pub same_spec : Spec → Spec → Bool
same_spec [] [] = true
same_spec (s ∷ ss) (t ∷ ts) = str_eq s t && same_spec ss ts
same_spec _ _ = false

pub same_spec_self : (s : Spec) → same_spec s s ≡ true
unfolding same_spec
same_spec_self [] = refl
same_spec_self (s ∷ ss) = ground (arith, eq_iff s s, same_spec_self ss)

-- A rule is deleted where it stands first.
unfoldable pub delete_first : Spec → List Spec → List Spec
delete_first s [] = []
delete_first s (t ∷ rules) =
    let rest = delete_first s rules in if same_spec t s then rules else t ∷ rest

-- No rule of a chain has these arguments.
abbrev pub Lacks : Spec → List Spec → Type 0
Lacks s rules = All (λ t. same_spec t s ≡ false) rules

delete_first-append :
    (s : Spec) (rules more : List Spec)
    → Lacks s rules
    → delete_first s (rules ++ s ∷ more) ≡ rules ++ more
unfolding delete_first
delete_first-append s [] more h = rw (same_spec_self s) refl
delete_first-append s (t ∷ rules) more h =
    rw (h.0) (ap (λ l. t ∷ l) (delete_first-append s rules more h.1))

-- A chain of a table.
pub record Chain : Type 0 where
  pub proto : Protocol
  pub path : String
  pub table : String
  pub chain : String

-- A rule that is added to a chain, or deleted from it.
pub record Op : Type 0 where
  pub opened : Table
  pub table : String
  pub chain : String
  pub spec : Spec

abbrev same_protocol : Protocol → Protocol → Bool
same_protocol protocol_ipv4 protocol_ipv4 = true
same_protocol protocol_ipv6 protocol_ipv6 = true
same_protocol _ _ = false

-- The rule is one of the chain.
unfoldable pub is_at : Op → Chain → Bool
is_at o c =
    same_protocol o.opened.protocol c.proto
    && (str_eq o.opened.path c.path && (str_eq o.table c.table && str_eq o.chain c.chain))

module _ (c : Chain) where
  unfoldable pub append_op : Op → List Spec → List Spec
  append_op o rules = if is_at o c then rules ++ o.spec ∷ [] else rules

  unfoldable pub delete_op : Op → List Spec → List Spec
  delete_op o rules = if is_at o c then delete_first o.spec rules else rules

  unfoldable pub append_ops : List Op → List Spec → List Spec
  append_ops [] rules = rules
  append_ops (o ∷ os) rules = append_ops os (append_op o rules)

  unfoldable pub delete_ops : List Op → List Spec → List Spec
  delete_ops [] rules = rules
  delete_ops (o ∷ os) rules = delete_ops os (delete_op o rules)

  pub append_ops-append :
      (os ps : List Op) (rules : List Spec)
      → append_ops (os ++ ps) rules ≡ append_ops ps (append_ops os rules)
  unfolding append_ops
  append_ops-append [] ps rules = refl
  append_ops-append (o ∷ os) ps rules = append_ops-append os ps (append_op o rules)

  pub delete_ops-append :
      (os ps : List Op) (rules : List Spec)
      → delete_ops (os ++ ps) rules ≡ delete_ops ps (delete_ops os rules)
  unfolding delete_ops
  delete_ops-append [] ps rules = refl
  delete_ops-append (o ∷ os) ps rules = delete_ops-append os ps (delete_op o rules)

  -- What is appended comes behind what is there.
  append_ops-behind :
      (os : List Op) (rules more : List Spec)
      → append_ops os (rules ++ more) ≡ rules ++ append_ops os more
  unfolding append_ops append_op
  append_ops-behind [] rules more = refl
  append_ops-behind (o ∷ os) rules more = elim (Bool-cases (is_at o c)) [
    | inl t ↦ rw t (
        ap (append_ops os) (append_assoc rules more (o.spec ∷ []))
        ∙ append_ops-behind os rules (more ++ o.spec ∷ []))
    | inr f ↦ rw f (append_ops-behind os rules more)
  ]

  none_behind : (os : List Op) (rules : List Spec) → append_ops os rules ≡ rules ++ append_ops os []
  none_behind os rules = ap (append_ops os) (sym (append-nil rules)) ∙ append_ops-behind os rules []

  one_behind :
      (os : List Op) (rules : List Spec) (s : Spec)
      → append_ops os (rules ++ s ∷ []) ≡ rules ++ s ∷ append_ops os []
  one_behind os rules s =
      append_ops-behind os rules (s ∷ []) ∙ ap (λ l. rules ++ l) (append_ops-behind os (s ∷ []) [])

  append_op_at :
      (o : Op) (rules : List Spec) → is_at o c ≡ true → append_op o rules ≡ rules ++ o.spec ∷ []
  unfolding append_op
  append_op_at o rules h = rw h refl

  append_op_other : (o : Op) (rules : List Spec) → is_at o c ≡ false → append_op o rules ≡ rules
  unfolding append_op
  append_op_other o rules h = rw h refl

  delete_op_at :
      (o : Op) (rules : List Spec)
      → is_at o c ≡ true
      → delete_op o rules ≡ delete_first o.spec rules
  unfolding delete_op
  delete_op_at o rules h = rw h refl

  delete_op_other : (o : Op) (rules : List Spec) → is_at o c ≡ false → delete_op o rules ≡ rules
  unfolding delete_op
  delete_op_other o rules h = rw h refl

  -- Rules that were not there and that are appended are deleted again in the same order.
  pub delete_ops-append_ops :
      (os : List Op) (rules : List Spec)
      → All (λ (o : Op). Lacks o.spec rules) os
      → delete_ops os (append_ops os rules) ≡ rules
  unfolding append_ops delete_ops
  delete_ops-append_ops [] rules h = refl
  delete_ops-append_ops (o ∷ os) rules h = elim (Bool-cases (is_at o c)) [
    | inr f ↦
        ap (delete_ops os) (delete_op_other o (append_ops os (append_op o rules)) f)
        ∙ ap (λ l. delete_ops os (append_ops os l)) (append_op_other o rules f)
        ∙ delete_ops-append_ops os rules h.1
    | inl t ↦
        ap (delete_ops os) (
          ap (λ l. delete_op o (append_ops os l)) (append_op_at o rules t)
          ∙ ap (delete_op o) (one_behind os rules o.spec)
          ∙ delete_op_at o (rules ++ o.spec ∷ append_ops os []) t
          ∙ delete_first-append o.spec rules (append_ops os []) h.0
          ∙ sym (none_behind os rules))
        ∙ delete_ops-append_ops os rules h.1
  ]

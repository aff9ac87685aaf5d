-- ===== src/Server/Firewall/Actions.antt =====
-- The firewall command of cmd/vpn_server/app/firewall.go as a list of operations on the rules.
use Prim.Native.String.{◌++◌ as ◌+++◌}
use vpn.Prelude.{◌≡◌, refl, sym, ap, ◌∙◌, String, List, [], ◌∷◌, ◌++◌, Result, ok, err, arith}
use vpn.Prelude.Io.{Io, continue, ◌>>◌}
use vpn.Network.Netlink.{Netlink}
use vpn.Network.Iptables.{
  Iptables, Protocol, protocol_ipv6, new_iptables, first_backend, iptables_works, adjust_path,
}
use vpn.Server.Firewall.{Mode, up, down, op}
use vpn.Server.Firewall.Rules.{
  Spec, Chain, Op, append_op, delete_op, append_ops, delete_ops, append_ops-append,
  delete_ops-append,
}

-- The backends of two hosts are the same.
pub record Alike (ipt : Iptables) (h h' : ipt.Host) : Type 0 where
  pub lists : (path : String) → ipt.lists h' path ≡ ipt.lists h path
  pub new : (p : Protocol) (path : String) → ipt.new h' p path ≡ ipt.new h p path

-- The commands of iptables, where they succeed: a rule is added at the end of its chain, or its first
-- occurrence is deleted, and the backends stay what they are.
pub record IsIptables (ipt : Iptables) (rules : ipt.Host → Chain → List Spec) : Type 0 where
  pub appended :
      (o : Op) (h : ipt.Host) (c : Chain)
      → (ipt.append o.opened o.table o.chain o.spec h).1 ≡ ok tt
      → rules (ipt.append o.opened o.table o.chain o.spec h).0 c ≡ append_op c o (rules h c)
  pub deleted :
      (o : Op) (h : ipt.Host) (c : Chain)
      → (ipt.delete_if_exists o.opened o.table o.chain o.spec h).1 ≡ ok tt
      → rules (ipt.delete_if_exists o.opened o.table o.chain o.spec h).0 c
        ≡ delete_op c o (rules h c)
  pub append_keeps :
      (o : Op) (h : ipt.Host) → Alike ipt h (ipt.append o.opened o.table o.chain o.spec h).0
  pub delete_keeps :
      (o : Op) (h : ipt.Host)
      → Alike ipt h (ipt.delete_if_exists o.opened o.table o.chain o.spec h).0

module _ (ipt : Iptables) where
  Alike-trans : {h h' h'' : ipt.Host} → Alike ipt h h' → Alike ipt h' h'' → Alike ipt h h''
  Alike-trans a b = record {
    lists = λ path. b.lists path ∙ a.lists path;
    new = λ p path. b.new p path ∙ a.new p path;
  }

  first_backend-Alike :
      (h h' : ipt.Host) (p : Protocol) (suffixes : List String)
      → Alike ipt h h'
      → first_backend ipt h' p suffixes ≡ first_backend ipt h p suffixes
  unfolding first_backend iptables_works
  first_backend-Alike h h' p [] a = refl
  first_backend-Alike h h' p (s ∷ suffixes) a =
      let path = "/usr/sbin/iptables-" +++ s in
      rw
        (
          a.lists path,
          a.lists (adjust_path path protocol_ipv6),
          a.new p (adjust_path path p),
          first_backend-Alike h h' p suffixes a,
        )
        refl

  pub new_iptables-Alike :
      (h h' : ipt.Host) (p : Protocol)
      → Alike ipt h h'
      → new_iptables ipt h' p ≡ new_iptables ipt h p
  unfolding new_iptables
  new_iptables-Alike h h' p a = first_backend-Alike h h' p ("legacy" ∷ "nft" ∷ []) a

abbrev pub ops_of : Mode → Chain → List Op → List Spec → List Spec
ops_of up c os = append_ops c os
ops_of down c os = delete_ops c os

ops_of-append :
    (mode : Mode) (c : Chain) (os ps : List Op) (l : List Spec)
    → ops_of mode c (os ++ ps) l ≡ ops_of mode c ps (ops_of mode c os l)
ops_of-append up c os ps l = append_ops-append c os ps l
ops_of-append down c os ps l = delete_ops-append c os ps l

-- What follows a call runs where the call succeeds.
pub continue-ok :
    {H : Type 0} (r : H × Result (Unit {0})) (k : Io H (Unit {0}))
    → (continue r (λ _. k)).1 ≡ ok tt
    → (r.1 ≡ ok tt) × (continue r (λ _. k) ≡ k r.0)
continue-ok (h, ok u) k e = (refl, refl)
continue-ok (h, err f) k e = absurd (ground (arith, e))

module _ (ipt : Iptables) (nl : Netlink) (rules : ipt.Host → Chain → List Spec) where
  -- An action that, where it succeeds, does what these operations do, and keeps the backends.
  pub record Does (mode : Mode) (os : List Op) (act : Io ipt.Host (Unit {0})) : Type 0 where
    pub effect :
        (h : ipt.Host) (c : Chain)
        → (act h).1 ≡ ok tt
        → rules (act h).0 c ≡ ops_of mode c os (rules h c)
    pub alike : (h : ipt.Host) → (act h).1 ≡ ok tt → Alike ipt h (act h).0

  pub Does-seq :
      (mode : Mode) (os ps : List Op) (m k : Io ipt.Host (Unit {0}))
      → Does mode os m
      → Does mode ps k
      → Does mode (os ++ ps) (m >> k)
  Does-seq mode os ps m k f g = record {
    effect = λ h c e.
        let (first, next) = continue-ok (m h) k e in
        ap (λ r. rules r.0 c) next
        ∙ g.effect (m h).0 c (sym (ap (λ r. r.1) next) ∙ e)
        ∙ ap (ops_of mode c ps) (f.effect h c first)
        ∙ sym (ops_of-append mode c os ps (rules h c));
    alike = λ h e.
        let (first, next) = continue-ok (m h) k e in
        rw next
          (Alike-trans ipt (f.alike h first) (g.alike (m h).0 (sym (ap (λ r. r.1) next) ∙ e)));
  }

  pub Does-return : (mode : Mode) → Does mode [] (λ h. (h, ok tt))
  unfolding append_ops delete_ops
  Does-return up = record {
    effect = λ h c e. refl;
    alike = λ h e. record { lists = λ p. refl; new = λ p q. refl };
  }
  Does-return down = record {
    effect = λ h c e. refl;
    alike = λ h e. record { lists = λ p. refl; new = λ p q. refl };
  }

  pub Does-op :
      IsIptables ipt rules
      → (mode : Mode) (o : Op) → Does mode (o ∷ []) (op ipt nl mode o.opened o.table o.chain o.spec)
  unfolding append_ops delete_ops op
  Does-op laws up o = record {
    effect = λ h c. laws.appended o h c;
    alike = λ h e. laws.append_keeps o h;
  }
  Does-op laws down o = record {
    effect = λ h c. laws.deleted o h c;
    alike = λ h e. laws.delete_keeps o h;
  }

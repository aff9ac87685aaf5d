-- ===== src/Network/NetStat/Merge.antt =====
-- The maps that `GetNetStats` of pkg/network/netstat.go merges. The protocols of /proc/net/snmp6 end
-- with a 6, so they are never one of the others.
use Prim.Native.String.{◌++◌ as append_text, len, slice, find}
use text.Mathlib.TextFind.{find_cases}
use text.Mathlib.TextLemmas.{append_assoc}
use text.Mathlib.TextPositions.{len-append, slice-append_left, slice-append_right}
use vpn.Prelude.{
  ◌+◌, ◌≡◌, ◌≢◌, refl, sym, ap, ◌∙◌, inl, inr, String, Bool, true, false, Option, none, some, List,
  [], ◌∷◌, Result, ok, leb, str_eq, eq_iff, arith, Bool-cases,
}
use vpn.Prelude.Dict.{lookup, insert, lookup-insert}
use vpn.Net.Text.Space.{text_fields}
use vpn.Network.NetStat.{
  Fields, Stats, Reader, Files, finish, store_stat, parse_snmp6_line, parse_snmp6_lines,
  parse_snmp6_stats, copy, get_net_stats_file, get_snmp6_stats_file, get_net_stats, Opened, opened,
  not_exist, failed, snmp6_stats_of, open_path,
}

abbrev pub or_else : Option Fields → Option Fields → Option Fields
or_else none other = other
or_else (some f) other = some f

pub lookup-copy :
    (p : String) (dst src : Stats) → lookup p (copy dst src) ≡ or_else (lookup p src) (lookup p dst)
unfolding copy lookup
lookup-copy p dst [] = refl
lookup-copy p dst ((q, fields) ∷ src) =
    ground (arith, lookup-copy p dst src, lookup-insert q p fields (copy dst src), eq_iff q p)

-- What stands up to the first 6 of a text ends with a 6.
ends_with_six :
    (key : String)
    → leb (find key "6") (len key) ≡ true
    → (u : String) × (slice key 0 (find key "6" + 1) ≡ append_text u "6")
ends_with_six key h = elim (find_cases key "6") [
  | inr miss ↦ absurd (ground (arith, h, miss))
  | inl (u, v, split_at, at) ↦
      (let cut : slice key 0 (find key "6" + 1)
            ≡ slice (append_text (append_text u "6") v) 0 (len (append_text u "6")) =
          rw (at, split_at, append_assoc u "6" v, len-append u "6") refl in
        (u, cut ∙ slice-append_left (append_text u "6") v))
]

-- A protocol of three letters that ends with a 6 is not Tcp.
six_not_tcp : (u : String) → append_text u "6" ≢ "Tcp"
six_not_tcp u e =
    let two : len u ≡ 2 = omega (arith, len-append u "6", ap len e) in
    let last : slice "Tcp" 2 3 ≡ "6" =
      sym (ap (λ t. slice t 2 3) e)
      ∙ sym (ap (λ n. slice (append_text u "6") n (n + 1)) two)
      ∙ slice-append_right u "6" in
    different (sym (ap (λ t. str_eq t "6") last))
  where
    different : ◌≡◌ {A = Bool} true false → ⊥
    different h = ground (arith, h)

not_tcp : (p u : String) → p ≡ append_text u "6" → str_eq p "Tcp" ≡ false
not_tcp p u e = elim (Bool-cases (str_eq p "Tcp")) [
  | inl t ↦ absurd (six_not_tcp u (sym e ∙ (eq_iff p "Tcp").0 t))
  | inr f ↦ f
]

lookup-store_stat :
    (p name value : String) (stats : Stats)
    → str_eq p "Tcp" ≡ false
    → lookup "Tcp" (store_stat p name value stats) ≡ lookup "Tcp" stats
unfolding store_stat
lookup-store_stat p name value stats h = ground (
  arith,
  h,
  lookup-insert p "Tcp"
      (insert name value (elim (lookup p stats) [ none ↦ [] | some fields ↦ fields ])) stats,
)

lookup-parse_snmp6_line :
    (fs : List String) (stats : Stats)
    → lookup "Tcp" (parse_snmp6_line fs stats) ≡ lookup "Tcp" stats
unfolding parse_snmp6_line
lookup-parse_snmp6_line [] stats = refl
lookup-parse_snmp6_line (k ∷ []) stats = refl
lookup-parse_snmp6_line (k ∷ v ∷ w ∷ fs) stats = refl
lookup-parse_snmp6_line (k ∷ v ∷ []) stats = elim (Bool-cases (leb (find k "6") (len k))) [
  | inr f ↦ rw (f) refl
  | inl t ↦
      (let six = ends_with_six k t in
        let p = slice k 0 (find k "6" + 1) in
        rw t
          (lookup-store_stat p (slice k (find k "6" + 1) (len k)) v stats (not_tcp p six.0 six.1)))
]

lookup-parse_snmp6_lines :
    (lines : List String) (stats : Stats)
    → lookup "Tcp" (parse_snmp6_lines lines stats) ≡ lookup "Tcp" stats
unfolding parse_snmp6_lines
lookup-parse_snmp6_lines [] stats = refl
lookup-parse_snmp6_lines (line ∷ lines) stats =
    lookup-parse_snmp6_lines lines (parse_snmp6_line (text_fields line) stats)
    ∙ lookup-parse_snmp6_line (text_fields line) stats

finish-ok : (failure : Option String) (s c : Stats) → finish failure s ≡ ok c → s ≡ c
unfolding finish
finish-ok none s c e = ground (arith, e)
finish-ok (some f) s c e = absurd (ground (arith, e))

parse_snmp6_stats-tcp :
    (r : Reader) (c : Stats) → parse_snmp6_stats r ≡ ok c → lookup "Tcp" c ≡ none
unfolding parse_snmp6_stats
parse_snmp6_stats-tcp r c e =
    ap (lookup "Tcp") (sym (finish-ok r.failure (parse_snmp6_lines r.lines []) c e))
    ∙ lookup-parse_snmp6_lines r.lines []
    ∙ (unfold lookup in refl)

snmp6_stats_of-tcp : (o : Opened) (c : Stats) → snmp6_stats_of o ≡ ok c → lookup "Tcp" c ≡ none
unfolding snmp6_stats_of
snmp6_stats_of-tcp (opened r) c e = parse_snmp6_stats-tcp r c e
snmp6_stats_of-tcp not_exist c e = ap (lookup "Tcp") (same_ok (sym e)) ∙ (unfold lookup in refl)
  where
    same_ok : {x y : Stats} → ◌≡◌ {A = Result Stats} (ok x) (ok y) → x ≡ y
    same_ok h = ground (arith, h)
snmp6_stats_of-tcp (failed f) c e = absurd (ground (arith, e))

module _ (fs : Files) (proc : String) where
  file-tcp :
      (path : String) (c : Stats) → get_snmp6_stats_file fs path ≡ ok c → lookup "Tcp" c ≡ none
  unfolding get_snmp6_stats_file
  file-tcp path c e = snmp6_stats_of-tcp (open_path fs path) c e

  -- When the three files are read, the counters of Tcp are those of snmp, or else those of netstat.
  pub get_net_stats-tcp :
      (netstat snmp snmp6 : Stats)
      → get_net_stats_file fs (fs.join_path proc "net/netstat") ≡ some (ok netstat)
      → get_net_stats_file fs (fs.join_path proc "net/snmp") ≡ some (ok snmp)
      → get_snmp6_stats_file fs (fs.join_path proc "net/snmp6") ≡ ok snmp6
      → (stats : Stats) × (get_net_stats fs proc ≡ some (ok stats))
        × (lookup "Tcp" stats ≡ or_else (lookup "Tcp" snmp) (lookup "Tcp" netstat))
  unfolding get_net_stats
  get_net_stats-tcp netstat snmp snmp6 a b c = (
    copy (copy netstat snmp) snmp6,
    ground (arith, a, b, c),
    rw
        (
          lookup-copy "Tcp" (copy netstat snmp) snmp6,
          file-tcp (fs.join_path proc "net/snmp6") snmp6 c,
          lookup-copy "Tcp" netstat snmp,
        )
        refl,
  )

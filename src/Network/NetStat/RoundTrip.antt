-- ===== src/Network/NetStat/RoundTrip.antt =====
-- The tables that the kernel writes into /proc/net/netstat and /proc/net/snmp, and what
-- pkg/network/netstat.go reads from them.
use Prim.Native.String.{◌++◌ as append_text, len, slice}
use text.Mathlib.TextPositions.{len-append, slice-append_left, eq_refl}
use vpn.Prelude.{
  inl, inr, Bool-cases, ◌==◌, suc, ◌-◌, ◌≡◌, refl, ap, ◌∙◌, String, true, false, Option, none, some,
  List, [], ◌∷◌, ok, length, All, map, str_eq, eq_iff, arith,
}
use vpn.Prelude.Dict.{insert}
use vpn.Prelude.Dict.Fresh.{Distinct, insert_all, insert_all-nil}
use vpn.Net.Text.{join}
use vpn.Net.Text.Parts.{Lacks, split-join}
use vpn.Network.NetStat.{Fields, Stats, store_fields, parse_pairs, parse_net_stats, finish}

abbrev key_of : String × String → String
key_of e = e.0

abbrev value_of : String × String → String
value_of e = e.1

-- The line of the names of a protocol, and the line of their values.
abbrev pub names_line : String → Fields → String
names_line protocol fields = join (append_text protocol ":" ∷ map key_of fields) " "

abbrev pub values_line : String → Fields → String
values_line protocol fields = join (append_text protocol ":" ∷ map value_of fields) " "

-- The lines of a file.
abbrev pub table_lines : Stats → List String
table_lines [] = []
table_lines ((protocol, fields) ∷ t) =
    names_line protocol fields ∷ values_line protocol fields ∷ table_lines t

-- The names of a protocol differ, and no text of it holds a space.
abbrev pub IsProtocol : String × Fields → Type 0
IsProtocol (protocol, fields) =
    Lacks " " (append_text protocol ":")
    × Distinct fields
    × All (Lacks " ") (map key_of fields)
    × All (Lacks " ") (map value_of fields)

-- The protocols differ, and each is one.
abbrev pub IsTable : Stats → Type 0
IsTable t = Distinct t × All IsProtocol t

store_fields-insert_all :
    (es dict : Fields) → store_fields (map key_of es) (map value_of es) dict ≡ insert_all es dict
unfolding store_fields
store_fields-insert_all [] dict = refl
store_fields-insert_all (e ∷ es) dict = store_fields-insert_all es (insert e.0 e.1 dict)

-- Behind the colon is cut off, the protocol is left.
protocol_of : (p : String) → slice (append_text p ":") 0 (len (append_text p ":") - 1) ≡ p
protocol_of p =
    let n : len (append_text p ":") - 1 ≡ len p = omega (arith, len-append p ":") in
    ap (λ k. slice (append_text p ":") 0 k) n ∙ slice-append_left p ":"

header_not_empty : (p : String) → str_eq (append_text p ":") "" ≡ false
header_not_empty p = elim (Bool-cases (str_eq (append_text p ":") "")) [
  | inl t ↦ absurd (omega (arith, len-append p ":", ap len ((eq_iff (append_text p ":") "").0 t)))
  | inr f ↦ f
]

same_length : (es : Fields) → length (map key_of es) ≡ length (map value_of es)
same_length [] = refl
same_length (e ∷ es) = ap suc (same_length es)

parse_pair :
    (e : String × Fields) (rest : List String) (failure : Option String) (stats : Stats)
    → IsProtocol e
    → parse_pairs (names_line e.0 e.1 ∷ values_line e.0 e.1 ∷ rest) failure stats
      ≡ parse_pairs rest failure (insert e.0 e.1 stats)
unfolding parse_pairs
parse_pair (p, fields) rest failure stats h =
    let head = append_text p ":" in
    let names = split-join " " head (map key_of fields) (h.0, h.2) in
    let values = split-join " " head (map value_of fields) (h.0, h.3) in
    let same : str_eq head head ≡ true = eq_refl head in
    let counted : (suc (length (map key_of fields)) == suc (length (map value_of fields))) ≡ true =
      ground (arith, same_length fields) in
    let stored : store_fields (map key_of fields) (map value_of fields) [] ≡ fields =
      store_fields-insert_all fields [] ∙ insert_all-nil fields h.1 in
    rw (names, values, same, header_not_empty p, counted, protocol_of p, stored) refl

parse_table :
    (t stats : Stats)
    → All IsProtocol t
    → parse_pairs (table_lines t) none stats ≡ some (ok (insert_all t stats))
parse_table [] stats h = unfold parse_pairs finish in refl
parse_table (e ∷ t) stats h =
    parse_pair e (table_lines t) none stats h.0 ∙ parse_table t (insert e.0 e.1 stats) h.1

-- Parsing the lines of a table of protocols, a line of names and a line of values for each, gives
-- the table, if the protocols differ, the names of each differ, and no text holds a space.
pub parse_net_stats-table_lines :
    (t : Stats)
    → IsTable t
    → parse_net_stats (record { lines = table_lines t; failure = none }) ≡ some (ok t)
unfolding parse_net_stats
parse_net_stats-table_lines t h =
    parse_table t [] h.1 ∙ ap (λ s. some (ok s)) (insert_all-nil t h.0)

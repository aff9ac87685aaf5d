-- ===== src/Network/NetStat.antt =====
-- pkg/network/netstat.go: the counters of the kernel, as the files of /proc/net give them. The files
-- and the paths of the Go library are parameters; a text is a list of characters, which are bytes in
-- these files.
use Prim.Native.Char.{Char, code}
use Prim.Native.String.{[] as empty, ◌∷◌ as consC, ◌++◌, len, slice, find}
use vpn.Prelude.{
  ℕ, ◌+◌, ◌-◌, ◌≡◌, refl, String, Bool, true, false, Option, none, some, List, [], ◌∷◌, Result, ok,
  err, leb, ◌==◌, ◌&&◌, ◌||◌, not, if◌then◌else◌, length, get_or, drop, str_eq,
}
use vpn.Prelude.Dict.{lookup, insert}
use vpn.Net.Text.{split}
use vpn.Net.Text.Space.{text_fields}
pub mod RoundTrip
pub mod Merge
pub mod Tests

-- `map[string]string` of one protocol, and the map of the protocols.
abbrev pub Fields : Type 0
Fields = List (String × String)

abbrev pub Stats : Type 0
Stats = List (String × Fields)

-- What a `bufio.Scanner` makes of an open file: its lines, and the error that ended it.
pub record Reader : Type 0 where
  pub lines : List String
  pub failure : Option String

-- `os.OpenInRoot`, with `os.ErrNotExist` apart from the other errors.
pub data Opened : Type 0 where
  opened : Reader → Opened
  not_exist : Opened
  failed : String → Opened

-- `filepath.Join`, `path.Split` and `os.OpenInRoot`.
pub record Files : Type 0 where
  pub join_path : String → String → String
  pub split_path : String → String × String
  pub open_in_root : String → String → Opened

-- `netStats, scanner.Err()`.
unfoldable pub finish : Option String → Stats → Result Stats
finish none stats = ok stats
finish (some e) stats = err e

-- The loop over the fields of one pair of lines, from the lists behind the fields of the protocol.
unfoldable pub store_fields : List String → List String → Fields → Fields
store_fields (n ∷ ns) (v ∷ vs) fields = store_fields ns vs (insert n v fields)
store_fields _ _ fields = fields

-- `parseNetStats`, from the lines that are left; `none` is a panic of the slice expression, for a
-- header whose first field is empty.
unfoldable pub parse_pairs : List String → Option String → Stats → Option (Result Stats)
unfolding finish store_fields
parse_pairs [] failure stats = some (finish failure stats)
parse_pairs (header ∷ []) failure stats = some (err "missing value line")
parse_pairs (header ∷ values ∷ rest) failure stats =
    let name_parts = split header " " in
    let value_parts = split values " " in
    let first = get_or name_parts 0 "" in
    let protocol = slice first 0 (len first - 1) in
    let fields = store_fields (drop 1 name_parts) (drop 1 value_parts) [] in
    let next = parse_pairs rest failure (insert protocol fields stats) in
    if not (str_eq first (get_or value_parts 0 ""))
    then some (err "header to value mismatch")
    else if str_eq first ""
    then none
    else if length name_parts == length value_parts
    then next
    else some (err "mismatch field count mismatch")

unfoldable pub parse_net_stats : Reader → Option (Result Stats)
unfolding parse_pairs
parse_net_stats r = parse_pairs r.lines r.failure []

-- `netStats[protocol][name] = value`, with the map of the protocol made where there is none.
unfoldable pub store_stat : String → String → String → Stats → Stats
unfolding lookup insert
store_stat protocol name value stats =
    insert protocol
      (insert name value (elim (lookup protocol stats) [ none ↦ [] | some fields ↦ fields ])) stats

-- A line with two fields, of which the first holds a 6.
unfoldable pub parse_snmp6_line : List String → Stats → Stats
unfolding store_stat
parse_snmp6_line (key ∷ value ∷ []) stats =
    let six = find key "6" in
    if leb six (len key)
    then store_stat (slice key 0 (six + 1)) (slice key (six + 1) (len key)) value stats
    else stats
parse_snmp6_line _ stats = stats

-- The loop of `parseSNMP6Stats`.
unfoldable pub parse_snmp6_lines : List String → Stats → Stats
unfolding text_fields parse_snmp6_line
parse_snmp6_lines [] stats = stats
parse_snmp6_lines (line ∷ lines) stats =
    parse_snmp6_lines lines (parse_snmp6_line (text_fields line) stats)

unfoldable pub parse_snmp6_stats : Reader → Result Stats
unfolding parse_snmp6_lines finish
parse_snmp6_stats r = finish r.failure (parse_snmp6_lines r.lines [])

-- `maps.Copy`. The keys of a map differ, so the order of the copies does not matter.
unfoldable pub copy : Stats → Stats → Stats
unfolding insert
copy dst [] = dst
copy dst ((protocol, fields) ∷ src) = insert protocol fields (copy dst src)

-- `getNetStats`, behind the call that opens the file.
unfoldable pub net_stats_of : Opened → Option (Result Stats)
unfolding parse_net_stats
net_stats_of (opened r) = parse_net_stats r
net_stats_of not_exist = some (err "file does not exist")
net_stats_of (failed e) = some (err e)

-- `getSNMP6Stats`, behind the call that opens the file; the nil map is the empty one.
unfoldable pub snmp6_stats_of : Opened → Result Stats
unfolding parse_snmp6_stats
snmp6_stats_of (opened r) = parse_snmp6_stats r
snmp6_stats_of not_exist = ok []
snmp6_stats_of (failed e) = err e

module _ (fs : Files) where
  abbrev pub open_path : String → Opened
  open_path path = let (dir, name) = fs.split_path path in fs.open_in_root dir name

  unfoldable pub get_net_stats_file : String → Option (Result Stats)
  get_net_stats_file path = net_stats_of (open_path path)

  unfoldable pub get_snmp6_stats_file : String → Result Stats
  get_snmp6_stats_file path = snmp6_stats_of (open_path path)

  -- `GetNetStats`.
  unfoldable pub get_net_stats : String → Option (Result Stats)
  get_net_stats proc = elim (get_net_stats_file (fs.join_path proc "net/netstat")) [
    | none ↦ none
    | some (err e) ↦ some (err "couldn't get netstats")
    | some (ok stats) ↦ elim (get_net_stats_file (fs.join_path proc "net/snmp")) [
      | none ↦ none
      | some (err e) ↦ some (err "couldn't get SNMP stats")
      | some (ok snmp) ↦ elim (get_snmp6_stats_file (fs.join_path proc "net/snmp6")) [
        | err e ↦ some (err "couldn't get SNMP6 stats")
        | ok snmp6 ↦ some (ok (copy (copy stats snmp) snmp6))
      ]
    ]
  ]

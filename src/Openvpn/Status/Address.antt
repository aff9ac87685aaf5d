-- ===== src/Openvpn/Status/Address.antt =====
-- `parseRealClientAddress` of pkg/openvpn/health/status.go. The package net/netip is a parameter. The
-- pattern is written out: an optional protocol, an optional address in optional brackets, and an
-- optional port.
use Prim.Native.Char.{Char, code}
use Prim.Native.String.{[] as empty, ◌∷◌ as consC, ◌++◌, len, slice}
use vpn.Prelude.{
  ℕ, ◌-◌, ◌≡◌, refl, String, Bool, Option, none, some, Result, ok, err, leb, ◌==◌, ◌&&◌, ◌||◌, not,
  if◌then◌else◌, str_eq, starts_with,
}

abbrev between : Char → ℕ → ℕ → Bool
between c first last = leb first (code c) && leb (code c) last

-- The class `\d`.
abbrev is_digit : Char → Bool
is_digit c = between c 48 57

-- The class `[a-fA-F0-9:.]`, of which the colon is 58 and the point 46.
abbrev is_address_char : Char → Bool
is_address_char c =
    between c 97 102 || (between c 65 70 || (is_digit c || (code c == 58 || code c == 46)))

-- The characters of a class that a text begins with, as many as there are, and the rest.
unfoldable span : (Char → Bool) → String → String × String
span holds empty = ("", "")
span holds (consC c s) =
    let (taken, rest) = span holds s in if holds c then (consC c taken, rest) else ("", consC c s)

-- The rest behind a text, if it begins with it.
unfoldable behind : String → String → Option String
behind prefix s = if starts_with s prefix then some (slice s (len prefix) (len s)) else none

abbrev or_keep : String → Option String → String
or_keep s none = s
or_keep s (some rest) = rest

-- `(?:4|6)?` and `(?:-(?:client|server))?`.
unfoldable skip_family : String → String
unfolding behind
skip_family s = elim (behind "4" s) [ some rest ↦ rest | none ↦ or_keep s (behind "6" s) ]

unfoldable skip_side : String → String
unfolding behind
skip_side s = elim (behind "-client" s) [ some rest ↦ rest | none ↦ or_keep s (behind "-server" s) ]

-- The whole of the optional protocol with its colon, or nothing of it.
unfoldable skip_protocol : String → String
unfolding behind skip_family skip_side
skip_protocol s =
    let proto : Option String = elim (behind "udp" s) [ some r ↦ some r | none ↦ behind "tcp" s ] in
    elim proto [ none ↦ s | some rest ↦ or_keep s (behind ":" (skip_side (skip_family rest))) ]

-- `(?::(\d+))?$`: the port, or no match.
unfoldable port_of : String → Option String
unfolding span behind
port_of rest = elim (behind ":" rest) [
  | none ↦ if str_eq rest "" then some "" else none
  | some text ↦
      let (digits, left) = span is_digit text in
      if str_eq digits "" || not (str_eq left "") then none else some digits
]

-- The two groups of the pattern. The address takes all the characters of its class, since a shorter
-- one has a character of the class behind it and could only end before a port, which the longer one
-- has in itself.
unfoldable pub find_submatch : String → Option (String × String)
unfolding skip_protocol span behind port_of
find_submatch addr =
    let s = skip_protocol addr in
    let opened = or_keep s (behind "[" s) in
    let (inner, rest) = span is_address_char opened in
    let closed = or_keep rest (behind "]" rest) in
    let (group, left) : String × String =
      if str_eq inner "" then ("", s) else (slice s 0 (len s - len closed), closed) in
    elim (port_of left) [ none ↦ none | some port ↦ some (group, port) ]

-- `netip.ParseAddrPort`, `netip.ParseAddr` and `netip.AddrPortFrom`.
pub record Netip (Addr AddrPort : Type 0) : Type 0 where
  pub parse_addr_port : String → Result AddrPort
  pub parse_addr : String → Result Addr
  pub addr_port_from : Addr → ℕ → AddrPort

unfoldable pub parse_real_client_address : {A P : Type 0} → Netip A P → String → Result P
unfolding find_submatch
parse_real_client_address netip addr = elim (find_submatch addr) [
  | none ↦ err "invalid address format"
  | some (ip, port) ↦
      if not (str_eq port "")
      then netip.parse_addr_port (ip ++ (":" ++ port))
      else elim (netip.parse_addr_port ip) [
        | ok addr_port ↦ ok addr_port
        | err e ↦ elim (netip.parse_addr ip) [
          | err e' ↦ err e'
          | ok a ↦ ok (netip.addr_port_from a 0)
        ]
      ]
]

udp6 : find_submatch "udp6:[2001:db8::1]:1234" ≡ some ("[2001:db8::1]", "1234")
unfolding find_submatch
udp6 = refl

tcp4_server : find_submatch "tcp4-server:100.64.5.13:47764" ≡ some ("100.64.5.13:47764", "")
unfolding find_submatch
tcp4_server = refl

no_port : find_submatch "2001:db8::1" ≡ some ("2001:db8::1", "")
unfolding find_submatch
no_port = refl

no_address : find_submatch "tcp:" ≡ some ("", "")
unfolding find_submatch
no_address = refl

a_name : find_submatch "host:1234" ≡ none
unfolding find_submatch
a_name = refl

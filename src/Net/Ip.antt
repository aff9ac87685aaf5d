-- ===== src/Net/Ip.antt =====
-- `net.IP` of the Go library: a list of 4 or 16 bytes, its two forms, and its text.
use Prim.Native.String.{◌++◌}
use vpn.Prelude.{
  ℕ, suc, ◌+◌, ◌*◌, ◌/◌, ◌%◌, ◌≡◌, refl, String, Bool, true, Option, none, some, List, [], ◌∷◌, ltb,
  ◌==◌, ◌&&◌, if◌then◌else◌, length, get_or, take, drop,
}

abbrev pub Ip : Type 0
Ip = List ℕ

unfoldable pub all_zero : List ℕ → Bool
all_zero [] = true
all_zero (b ∷ bs) = b == 0 && all_zero bs

-- `IP.To4`: the four bytes of an IPv4 address, also of one that is mapped into IPv6.
unfoldable pub to4 : Ip → Option Ip
unfolding all_zero
to4 ip =
    if length ip == 4
    then some ip
    else if length ip == 16
        && (all_zero (take 10 ip) && (get_or ip 10 0 == 255 && get_or ip 11 0 == 255))
    then some (drop 12 ip)
    else none

-- `net.IPv4`, the 16-byte form of an IPv4 address.
unfoldable pub ipv4 : ℕ → ℕ → ℕ → ℕ → Ip
ipv4 a b c d = 0 ∷ 0 ∷ 0 ∷ 0 ∷ 0 ∷ 0 ∷ 0 ∷ 0 ∷ 0 ∷ 0 ∷ 255 ∷ 255 ∷ a ∷ b ∷ c ∷ d ∷ []

-- `IP.To16`; `none` is nil.
unfoldable pub to16 : Ip → Option Ip
to16 ip =
    if length ip == 4
    then some (0 ∷ 0 ∷ 0 ∷ 0 ∷ 0 ∷ 0 ∷ 0 ∷ 0 ∷ 0 ∷ 0 ∷ 255 ∷ 255 ∷ ip)
    else if length ip == 16
    then some ip
    else none

abbrev digit : ℕ → String
digit n =
    get_or
      ("0" ∷ "1" ∷ "2" ∷ "3" ∷ "4" ∷ "5" ∷ "6" ∷ "7" ∷ "8" ∷ "9" ∷ "a" ∷ "b" ∷ "c" ∷ "d" ∷ "e" ∷ "f"
        ∷ [])
      n "?"

-- A byte in decimal.
unfoldable pub decimal_byte : ℕ → String
decimal_byte n =
    if ltb n 10
    then digit n
    else if ltb n 100
    then digit (n / 10) ++ digit (n % 10)
    else digit (n / 100) ++ (digit (n / 10 % 10) ++ digit (n % 10))

-- A byte as two hexadecimal digits: the format `%02x`.
unfoldable pub hex_byte : ℕ → String
hex_byte n = digit (n / 16 % 16) ++ digit (n % 16)

-- Two bytes in hexadecimal without leading zeros.
unfoldable pub hex_group : ℕ → String
hex_group n =
    if ltb n 16
    then digit n
    else if ltb n 256
    then digit (n / 16) ++ digit (n % 16)
    else if ltb n 4096
    then digit (n / 256) ++ (digit (n / 16 % 16) ++ digit (n % 16))
    else digit (n / 4096) ++ (digit (n / 256 % 16) ++ (digit (n / 16 % 16) ++ digit (n % 16)))

groups : List ℕ → List ℕ
groups [] = []
groups (a ∷ []) = []
groups (a ∷ b ∷ rest) = (a * 256 + b) ∷ groups rest

zeros : List ℕ → ℕ
zeros [] = 0
zeros (g ∷ gs) = if g == 0 then suc (zeros gs) else 0

-- The first longest run of zero groups, as its start and length, above the one found so far.
longest_run : ℕ → List ℕ → ℕ × ℕ → ℕ × ℕ
unfolding zeros
longest_run i [] best = best
longest_run i (g ∷ gs) best =
    longest_run (i + 1) gs (if ltb best.1 (zeros (g ∷ gs)) then (i, zeros (g ∷ gs)) else best)

join : String → List String → String
join sep [] = ""
join sep (x ∷ []) = x
join sep (x ∷ y ∷ xs) = x ++ (sep ++ join sep (y ∷ xs))

texts : List ℕ → List String
unfolding hex_group
texts [] = []
texts (g ∷ gs) = hex_group g ∷ texts gs

ipv6_string : List ℕ → String
unfolding groups longest_run join texts
ipv6_string ip =
    let gs = groups ip in
    let run : ℕ × ℕ = longest_run 0 gs (0, 0) in
    if ltb run.1 2
    then join ":" (texts gs)
    else join ":" (texts (take run.0 gs)) ++ ("::" ++ join ":" (texts (drop (run.0 + run.1) gs)))

ipv4_string : List ℕ → String
unfolding decimal_byte
ipv4_string ip =
    decimal_byte (get_or ip 0 0)
    ++ ("."
        ++ (decimal_byte (get_or ip 1 0)
            ++ ("." ++ (decimal_byte (get_or ip 2 0) ++ ("." ++ decimal_byte (get_or ip 3 0))))))

-- `IP.String` of an address of 4 or 16 bytes, or of none.
unfoldable pub ip_string : Ip → String
unfolding to4 ipv4_string ipv6_string
ip_string ip =
    if length ip == 0
    then "<nil>"
    else elim (to4 ip) [ some v4 ↦ ipv4_string v4 | none ↦ ipv6_string ip ]

ip_string_v6 :
    ip_string
      (0xfd ∷ 0x8f ∷ 0x6d ∷ 0x53 ∷ 0xb9 ∷ 0x7a ∷ 0 ∷ 1 ∷ 0 ∷ 0 ∷ 0 ∷ 0 ∷ 0 ∷ 0xb ∷ 0 ∷ 1 ∷ [])
    ≡ "fd8f:6d53:b97a:1::b:1"
unfolding ip_string
ip_string_v6 = refl

ip_string_v4 : ip_string (ipv4 10 99 0 255) ≡ "10.99.0.255"
unfolding ip_string ipv4
ip_string_v4 = refl

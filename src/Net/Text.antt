-- ===== src/Net/Text.antt =====
-- Texts of the Go library: `strings.Split`, `strings.Join` and the format `%d` of a number.
pub mod Parts
pub mod Space
use Prim.Native.String.{◌++◌, len, slice, find}
use vpn.Prelude.{
  ℕ, zero, suc, ◌+◌, ◌/◌, ◌%◌, ◌≡◌, refl, String, List, [], ◌∷◌, ltb, leb, if◌then◌else◌, get_or,
}

-- `strings.Split` by a text that is not empty, on fuel.
unfoldable split_fuel : ℕ → String → String → List String
split_fuel zero s sep = s ∷ []
split_fuel (suc fuel) s sep =
    let i = find s sep in
    let rest = split_fuel fuel (slice s (i + len sep) (len s)) sep in
    if leb i (len s) then slice s 0 i ∷ rest else s ∷ []

unfoldable pub split : String → String → List String
unfolding split_fuel
split s sep = split_fuel (len s) s sep

unfoldable pub join : List String → String → String
join [] sep = ""
join (s ∷ []) sep = s
join (s ∷ t ∷ rest) sep = s ++ (sep ++ join (t ∷ rest) sep)

abbrev digits : List String
digits = "0" ∷ "1" ∷ "2" ∷ "3" ∷ "4" ∷ "5" ∷ "6" ∷ "7" ∷ "8" ∷ "9" ∷ []

-- The last digits of a number, as many as there is fuel for.
unfoldable decimal_fuel : ℕ → ℕ → String
decimal_fuel zero n = ""
decimal_fuel (suc fuel) n =
    let rest = decimal_fuel fuel (n / 10) in
    if ltb n 10 then get_or digits n "" else rest ++ get_or digits (n % 10) ""

-- The format `%d`.
unfoldable pub decimal : ℕ → String
unfolding decimal_fuel
decimal n = decimal_fuel (suc n) n

split_test : split "a,,bc" "," ≡ "a" ∷ "" ∷ "bc" ∷ []
unfolding split
split_test = refl

decimal_test : decimal 1207 ≡ "1207"
unfolding decimal
decimal_test = refl

-- ===== src/Net/Text/Space.antt =====
-- White space in texts of the Go library: `strings.Fields` and `strings.TrimSpace`.
use Prim.Native.Char.{Char, code}
use Prim.Native.String.{[] as empty, ◌∷◌ as consC}
use vpn.Prelude.{
  ◌≡◌, refl, String, Bool, List, [], ◌∷◌, leb, ◌==◌, ◌&&◌, ◌||◌, if◌then◌else◌, str_eq,
}

-- `unicode.IsSpace`.
unfoldable pub is_space : Char → Bool
is_space c =
    let n = code c in
    (leb 9 n && leb n 13)
    || (n == 32
        || (n == 0x85
            || (n == 0xa0
                || (n == 0x1680
                    || ((leb 0x2000 n && leb n 0x200a)
                        || (n == 0x2028
                            || (n == 0x2029 || (n == 0x202f || (n == 0x205f || n == 0x3000)))))))))

-- The field that a text begins with, maybe empty, and the fields behind it.
unfoldable pub fields_of : String → String × List String
unfolding is_space
fields_of empty = ("", [])
fields_of (consC c s) =
    let (word, words) = fields_of s in
    if is_space c
    then ("", if str_eq word "" then words else word ∷ words)
    else (consC c word, words)

-- `strings.Fields`.
unfoldable pub text_fields : String → List String
unfolding fields_of
text_fields s = let (word, words) = fields_of s in if str_eq word "" then words else word ∷ words

unfoldable trim_left : String → String
unfolding is_space
trim_left empty = empty
trim_left (consC c s) = let rest = trim_left s in if is_space c then rest else consC c s

unfoldable trim_right : String → String
unfolding is_space
trim_right empty = empty
trim_right (consC c s) =
    let rest = trim_right s in if is_space c && str_eq rest "" then "" else consC c rest

-- `strings.TrimSpace`.
unfoldable pub trim_space : String → String
unfolding trim_left trim_right
trim_space s = trim_right (trim_left s)

trim_space_test : trim_space " Nodad  Permanent \t" ≡ "Nodad  Permanent"
unfolding trim_space
trim_space_test = refl

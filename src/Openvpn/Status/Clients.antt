-- ===== src/Openvpn/Status/Clients.antt =====
-- Which clients pkg/openvpn/health/status.go reads from a status file.
use vpn.Prelude.{
  ◌≡◌, ◌≢◌, refl, ap, sym, ◌∙◌, String, Bool, List, [], ◌∷◌, ◌++◌, ok, if◌then◌else◌, str_eq, ◌||◌,
  arith, eq_iff, Result-cases, inl, inr,
}
use vpn.Net.Text.{split}
use vpn.Openvpn.Status.{
  field, OpenVpnStatus, ClientInfo, Parsers, parse_lines, parse_openvpn_status, empty_status,
  parse_line, parse_parts, title_line, time_line, client_line, routing_line, stats_line,
  client_info,
}

abbrev pub names : List ClientInfo → List String
names [] = []
names (c ∷ cs) = c.common_name ∷ names cs

-- The line is one of a client.
abbrev pub is_client_line : String → Bool
is_client_line l = str_eq (field (split l ",") 0) "CLIENT_LIST"

-- The second fields of the lines of clients, in order.
unfoldable pub listed : List String → List String
listed [] = []
listed (l ∷ ls) =
    let rest = listed ls in
    if str_eq l "" || str_eq l "END"
    then rest
    else if is_client_line l
    then field (split l ",") 1 ∷ rest
    else rest

names-append : (cs ds : List ClientInfo) → names (cs ++ ds) ≡ names cs ++ names ds
names-append [] ds = refl
names-append (c ∷ cs) ds = ap (λ ns. c.common_name ∷ ns) (names-append cs ds)

append_assoc : (a b c : List String) → (a ++ b) ++ c ≡ a ++ (b ++ c)
append_assoc [] b c = refl
append_assoc (x ∷ a) b c = ap (λ r. x ∷ r) (append_assoc a b c)

append-nil : (a : List String) → a ++ [] ≡ a
append-nil [] = refl
append-nil (x ∷ a) = ap (λ r. x ∷ r) (append-nil a)

title_differs : ◌≢◌ {A = String} "TITLE" "CLIENT_LIST"
title_differs h = cc ((eq_iff "TITLE" "CLIENT_LIST").1 h)

time_differs : ◌≢◌ {A = String} "TIME" "CLIENT_LIST"
time_differs h = cc ((eq_iff "TIME" "CLIENT_LIST").1 h)

listed-nil : listed [] ≡ []
unfolding listed
listed-nil = refl

listed-cons : (l : String) (ls : List String) → listed (l ∷ ls) ≡ listed (l ∷ []) ++ listed ls
unfolding listed
listed-cons l ls = ground arith

module _ (p : Parsers) where
  client_info-name :
      (parts : List String) (c : ClientInfo)
      → client_info p parts ≡ ok c
      → c.common_name ≡ field parts 1
  unfolding client_info
  client_info-name parts c e = ground arith

  time_line-names :
      (s s' : OpenVpnStatus) (parts : List String)
      → time_line p s parts ≡ ok s'
      → names s'.clients ≡ names s.clients
  unfolding time_line
  time_line-names s s' parts e = ground arith

  routing_line-names :
      (s s' : OpenVpnStatus) (parts : List String)
      → routing_line p s parts ≡ ok s'
      → names s'.clients ≡ names s.clients
  unfolding routing_line
  routing_line-names s s' parts e = ground arith

  stats_line-names :
      (s s' : OpenVpnStatus) (parts : List String)
      → stats_line p s parts ≡ ok s'
      → names s'.clients ≡ names s.clients
  unfolding stats_line
  stats_line-names s s' parts e = ground arith

  client_line-names :
      (s s' : OpenVpnStatus) (parts : List String)
      → client_line p s parts ≡ ok s'
      → names s'.clients ≡ names s.clients ++ (field parts 1 ∷ [])
  unfolding client_line
  client_line-names s s' parts e = elim (Result-cases (client_info p parts)) [
    | inr f ↦ ground (arith, f.1)
    | inl c ↦ ground (arith, c.1, names-append s.clients (c.0 ∷ []), client_info-name parts c.0 c.1)
  ]

  title_line-names :
      (s s' : OpenVpnStatus) (parts : List String)
      → title_line s parts ≡ s'
      → names s'.clients ≡ names s.clients
  unfolding title_line
  title_line-names s s' parts e = ap (λ t. names t.clients) (sym e)

  -- What a line adds.
  parse_parts-names :
      (s s' : OpenVpnStatus) (parts : List String)
      → parse_parts p s parts ≡ ok s'
      → names s'.clients
        ≡ names s.clients
          ++ (if str_eq (field parts 0) "CLIENT_LIST" then field parts 1 ∷ [] else [])
  unfolding parse_parts
  parse_parts-names s s' parts e =
      let kind = field parts 0 in
      ground (
        arith,
        title_differs,
        time_differs,
        append-nil (names s.clients),
        eq_iff kind "TITLE",
        eq_iff kind "TIME",
        eq_iff kind "CLIENT_LIST",
        eq_iff kind "ROUTING_TABLE",
        eq_iff kind "GLOBAL_STATS",
        eq_iff kind "HEADER",
        title_line-names s s' parts,
        time_line-names s s' parts,
        client_line-names s s' parts,
        routing_line-names s s' parts,
        stats_line-names s s' parts,
      )

  parse_line-names :
      (s s' : OpenVpnStatus) (l : String)
      → parse_line p s l ≡ ok s'
      → names s'.clients ≡ names s.clients ++ listed (l ∷ [])
  unfolding parse_line listed
  parse_line-names s s' l e =
      ground (arith, append-nil (names s.clients), parse_parts-names s s' (split l ","))

  pub parse_lines-names :
      (s s' : OpenVpnStatus) (ls : List String)
      → parse_lines p s ls ≡ ok s'
      → names s'.clients ≡ names s.clients ++ listed ls
  unfolding parse_lines
  parse_lines-names s s' [] e = ground (arith, append-nil (names s.clients), listed-nil)
  parse_lines-names s s' (l ∷ ls) e = elim (Result-cases (parse_line p s l)) [
    | inr f ↦ absurd (ground (arith, f.1))
    | inl m ↦
        parse_lines-names m.0 s' ls (ground (arith, m.1))
        ∙ ap (λ n. n ++ listed ls) (parse_line-names s m.0 l m.1)
        ∙ append_assoc (names s.clients) (listed (l ∷ [])) (listed ls)
        ∙ ap (λ n. names s.clients ++ n) (sym (listed-cons l ls))
  ]

  -- If a status file is parsed, the clients of the status have, in order, the names in the second
  -- fields of the lines of clients, and there are no others.
  pub parse_openvpn_status-names :
      (ls : List String) (s : OpenVpnStatus)
      → parse_openvpn_status p ls ≡ ok s
      → names s.clients ≡ listed ls
  unfolding parse_openvpn_status
  parse_openvpn_status-names ls s e = parse_lines-names empty_status s ls e

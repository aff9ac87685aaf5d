-- ===== src/Net/Text/Parts.antt =====
-- `strings.Split` gives back the parts that `strings.Join` has put together.
use Prim.Native.Char.{Char, code, len_utf8}
use Prim.Native.Nat.{Ordering, compare as compare_ℕ}
use Prim.Native.String.append
use Prim.Native.String.find as find_clauses
use Prim.Native.String.len as len_clauses
use Prim.Native.String.{[] as empty, ◌∷◌ as consC, ◌++◌, len, slice, find, same}
use text.Mathlib.TextLemmas.{append_assoc}
use text.Mathlib.TextPositions.{
  slice-append_left, slice-append_right, len-append, compare_self, len_utf8-pos,
}
use vpn.Prelude.{
  ℕ, zero, suc, ◌+◌, ◌≤◌, ◌≡◌, refl, sym, ap, ◌∙◌, true, String, List, [], ◌∷◌, length, All, leb,
  arith,
}
use vpn.Net.Text.{split, split_fuel, join}

-- A text that does not hold another one.
abbrev pub Lacks : String → String → Type 0
Lacks sep s = find s sep ≡ suc (len s)

same_hit : (o : Ordering) (n m : ℕ) → same o 0 n ≡ suc m → (k : ℕ) → same o 0 k ≡ k
same_hit Ordering.lt n m e k = refl
same_hit Ordering.eq n m e k = absurd (omega (arith, e))
same_hit Ordering.gt n m e k = refl

module _ (d : Char) where
  abbrev sep : String
  sep = consC d empty

  find_step :
      (c : Char) (s : String)
      → find (consC c s) sep ≡ same (compare_ℕ (code c) (code d)) 0 (len_utf8 c + find s sep)
  find_step c s = find_clauses.cons c s sep

  -- What a text that lacks the separator says of its first character, and of the rest.
  Lacks-cons :
      (c : Char) (s : String)
      → Lacks sep (consC c s)
      → ((k : ℕ) → same (compare_ℕ (code c) (code d)) 0 k ≡ k) × Lacks sep s
  Lacks-cons c s h =
      let o = compare_ℕ (code c) (code d) in
      let n = len_utf8 c + find s sep in
      let e : same o 0 n ≡ suc (len_utf8 c + len s) =
        sym (find_step c s) ∙ h ∙ ap suc (len_clauses.cons c s) in
      let keep = same_hit o n (len_utf8 c + len s) e in (keep, omega (arith, sym (keep n) ∙ e))

  -- The separator is found behind a text that lacks it.
  find_at : (s rest : String) → Lacks sep s → find (s ++ consC d rest) sep ≡ len s
  find_at empty rest h =
      ap (λ t. find t sep) (append.nil (consC d rest))
      ∙ find_step d rest
      ∙ ap (λ o. same o 0 (len_utf8 d + find rest sep)) (compare_self (code d))
      ∙ sym len_clauses.nil
  find_at (consC c s) rest h =
      let l = Lacks-cons c s h in
      ap (λ t. find t sep) (append.cons c s (consC d rest))
      ∙ find_step c (s ++ consC d rest)
      ∙ l.0 (len_utf8 c + find (s ++ consC d rest) sep)
      ∙ ap (λ n. len_utf8 c + n) (find_at s rest l.1)
      ∙ sym (len_clauses.cons c s)

  join_step :
      (p q : String) (ps : List String) → join (p ∷ q ∷ ps) sep ≡ p ++ consC d (join (q ∷ ps) sep)
  unfolding join
  join_step p q ps =
      ap (λ t. p ++ t)
        (append.cons d empty (join (q ∷ ps) sep) ∙ ap (consC d) (append.nil (join (q ∷ ps) sep)))

  -- Behind the first part and its separator the rest of the text begins.
  slice_behind :
      (p rest : String)
      → slice (p ++ consC d rest) (len p + len sep) (len (p ++ consC d rest)) ≡ rest
  slice_behind p rest =
      let front = p ++ sep in
      let whole : front ++ rest ≡ p ++ consC d rest =
        append_assoc p sep rest
        ∙ ap (λ t. p ++ t) (append.cons d empty rest ∙ ap (consC d) (append.nil rest)) in
      ap (λ t. slice t (len p + len sep) (len t)) (sym whole)
      ∙ ap (λ n. slice (front ++ rest) n (len (front ++ rest))) (sym (len-append p sep))
      ∙ ap (λ n. slice (front ++ rest) (len front) n) (len-append front rest)
      ∙ slice-append_right front rest

  split_fuel-join :
      (fuel : ℕ) (p : String) (ps : List String)
      → All (Lacks sep) (p ∷ ps)
      → length ps ≤ fuel
      → split_fuel fuel (join (p ∷ ps) sep) sep ≡ p ∷ ps
  unfolding split_fuel
  split_fuel-join zero p [] h le = unfold join in refl
  split_fuel-join zero p (q ∷ ps) h le = absurd (omega (arith, le))
  split_fuel-join (suc fuel) p [] h le = unfold join in ground (arith, h.0)
  split_fuel-join (suc fuel) p (q ∷ ps) h le =
      let rest = join (q ∷ ps) sep in
      let whole = p ++ consC d rest in
      let at = find_at p rest h.0 in
      let front : slice whole 0 (len p) ≡ p = slice-append_left p (consC d rest) in
      let tail : split_fuel fuel rest sep ≡ q ∷ ps =
        split_fuel-join fuel q ps h.1 (omega (arith, le)) in
      let found : leb (len p) (len whole) ≡ true = ground (arith, len-append p (consC d rest)) in
      rw (join_step p q ps, at, found, front, slice_behind p rest, tail) refl

  length-join : (p : String) (ps : List String) → length ps ≤ len (join (p ∷ ps) sep)
  length-join p [] = omega arith
  length-join p (q ∷ ps) = omega (
    arith,
    length-join q ps,
    ap len (join_step p q ps),
    len-append p (consC d (join (q ∷ ps) sep)),
    len_clauses.cons d (join (q ∷ ps) sep),
    (len_utf8-pos d).1,
  )

  -- If there is a part and none holds the separator, splitting a join gives the parts back.
  pub split-join :
      (p : String) (ps : List String)
      → All (Lacks sep) (p ∷ ps)
      → split (join (p ∷ ps) sep) sep ≡ p ∷ ps
  unfolding split
  split-join p ps h = split_fuel-join (len (join (p ∷ ps) sep)) p ps h (length-join p ps)

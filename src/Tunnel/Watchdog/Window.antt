-- ===== src/Tunnel/Watchdog/Window.antt =====
-- The ring buffer of pkg/shoot_client/tunnel/watchdog.go is a sliding window over the events.
use vpn.Prelude.{
  ℕ, zero, suc, ◌+◌, ◌%◌, ◌≤◌, ◌<◌, ◌≡◌, refl, sym, ◌∙◌, ap, Bool, true, false, List, [], ◌∷◌, ◌++◌,
  ok, length, set, replicate, take, drop, arith, length-set, length-replicate, ◌⊎◌, ◌≢◌, ◌↔◌,
}
use vpn.Prelude.Int.{ℤ, pos, pos_part, neg_part, ◌≤ℤ◌}
use mathlib.Core.List.{append_assoc, append-nil}
use native.Mathlib.Decide.{ℕ_discrete}
use vpn.Tunnel.Watchdog.{Watchdog, new_watchdog, failures, push_event}

-- What holds of a watchdog between two events.
pub record Inv (wd : Watchdog) : Type 0 where
  pub pos_in_window : wd.window_pos < length wd.window
  pub threshold_pos : 0 < wd.threshold
  pub threshold_fits : wd.threshold ≤ length wd.window
  pub cooldown_pos : 0 < wd.cooldown
  pub count_bounded : wd.cooldown_count ≤ wd.cooldown

-- The last events, oldest first.
abbrev pub recent : Watchdog → List Bool
recent wd = drop wd.window_pos wd.window ++ take wd.window_pos wd.window

drop-set : (w : List Bool) (i : ℕ) (v : Bool) → drop (suc i) (set w i v) ≡ drop (suc i) w
drop-set [] i v = refl
drop-set (x ∷ w) zero v = refl
drop-set (x ∷ w) (suc i) v = drop-set w i v

take-set :
    (w : List Bool) (i : ℕ) (v : Bool)
    → i < length w
    → take (suc i) (set w i v) ≡ take i w ++ v ∷ []
take-set [] i v h = elim h [ ]
take-set (x ∷ w) zero v h = refl
take-set (x ∷ w) (suc i) v h = ap (λ (l : List Bool). x ∷ l) (take-set w i v (omega arith))

drop-tail : (w : List Bool) (i : ℕ) → drop 1 (drop i w) ≡ drop (suc i) w
drop-tail w zero = refl
drop-tail [] (suc i) = refl
drop-tail (x ∷ w) (suc i) = drop-tail w i

drop_one-append : (xs ys : List Bool) → 0 < length xs → drop 1 (xs ++ ys) ≡ drop 1 xs ++ ys
drop_one-append [] ys h = elim h [ ]
drop_one-append (x ∷ xs) ys h = refl

drop-length : (w : List Bool) (n : ℕ) → length w ≤ n → drop n w ≡ []
drop-length [] zero h = refl
drop-length [] (suc n) h = refl
drop-length (x ∷ w) zero h = elim h [ ]
drop-length (x ∷ w) (suc n) h = drop-length w n (omega arith)

take-length : (w : List Bool) (n : ℕ) → length w ≤ n → take n w ≡ w
take-length [] zero h = refl
take-length [] (suc n) h = refl
take-length (x ∷ w) zero h = elim h [ ]
take-length (x ∷ w) (suc n) h = ap (λ (l : List Bool). x ∷ l) (take-length w n (omega arith))

length-drop_pos : (w : List Bool) (i : ℕ) → i < length w → 0 < length (drop i w)
length-drop_pos [] i h = elim h [ ]
length-drop_pos (x ∷ w) zero h = omega arith
length-drop_pos (x ∷ w) (suc i) h = length-drop_pos w i (omega arith)

wrap_pos : (i n : ℕ) → suc i ≡ n → (i + 1) % n ≡ 0
wrap_pos i n h = grind arith

next_index : (i n : ℕ) → suc i < n → (i + 1) % n ≡ suc i
next_index i n h = grind arith

rotate :
    (w : List Bool) (v : Bool) (i k : ℕ)
    → i < length w
    → k ≡ (i + 1) % length w
    → drop k (set w i v) ++ take k (set w i v) ≡ drop 1 (drop i w ++ take i w) ++ v ∷ []
rotate w v i k h e =
    rw (drop_one-append (drop i w) (take i w) (length-drop_pos w i h), drop-tail w i)
      (elim (ℕ_discrete (suc i) (length w)) [
        | yes full ↦
            rw
              (
                zero_pos full,
                append-nil,
                ← take-length (set w i v) (suc i) (omega (arith, length-set w i v)),
                take-set w i v h,
                drop-length w (suc i) (omega arith),
              )
              refl
        | no d ↦
            rw (next_pos d, drop-set w i v, take-set w i v h)
              (sym (append_assoc (drop (suc i) w) (take i w) (v ∷ [])))
      ])
  where
    zero_pos : suc i ≡ length w → k ≡ 0
    zero_pos full = e ∙ wrap_pos i (length w) full

    next_pos : suc i ≢ length w → k ≡ suc i
    next_pos d = e ∙ next_index i (length w) (omega arith)

-- The write forgets the oldest event and appends the new one.
pub push_event-recent :
    (wd : Watchdog) (v : Bool)
    → wd.window_pos < length wd.window
    → recent (push_event wd v) ≡ drop 1 (recent wd) ++ v ∷ []
unfolding push_event
push_event-recent wd v h = rotate wd.window v wd.window_pos _ h refl

pub failures-append : (xs ys : List Bool) → failures (xs ++ ys) ≡ failures xs + failures ys
unfolding failures
failures-append [] ys = omega arith
failures-append (true ∷ xs) ys = omega (arith, failures-append xs ys)
failures-append (false ∷ xs) ys = failures-append xs ys

failures-split : (w : List Bool) (i : ℕ) → failures (take i w) + failures (drop i w) ≡ failures w
unfolding failures
failures-split w zero = omega arith
failures-split [] (suc i) = refl
failures-split (true ∷ w) (suc i) = omega (arith, failures-split w i)
failures-split (false ∷ w) (suc i) = failures-split w i

pub failures-recent : (wd : Watchdog) → failures (recent wd) ≡ failures wd.window
failures-recent wd = omega (
  arith,
  failures-append (drop wd.window_pos wd.window) (take wd.window_pos wd.window),
  failures-split wd.window wd.window_pos,
)

-- A watchdog is made exactly from settings that fit together.
pub IsSetting : ℤ → ℤ → ℤ → Type 0
IsSetting windowsize threshold cooldown =
    (pos 1 ≤ℤ threshold) × (threshold ≤ℤ windowsize) × (pos 1 ≤ℤ cooldown)

new_watchdog-made :
    (windowsize threshold cooldown : ℤ) {wd : Watchdog}
    → new_watchdog windowsize threshold cooldown ≡ ok wd
    → IsSetting windowsize threshold cooldown
      × (wd ≡ record {
        window = replicate (pos_part windowsize) false;
        window_pos = 0;
        threshold = pos_part threshold;
        cooldown = pos_part cooldown;
        cooldown_count = 0;
      })
unfolding new_watchdog IsSetting
new_watchdog-made windowsize threshold cooldown h = ground arith

-- An integer is not of both signs.
one_sign : (a : ℤ) → (pos_part a ≡ 0) ⊎ (neg_part a ≡ 0)
one_sign a = ground arith

pub new_watchdog-Inv :
    (windowsize threshold cooldown : ℤ) {wd : Watchdog}
    → new_watchdog windowsize threshold cooldown ≡ ok wd
    → Inv wd
unfolding IsSetting
new_watchdog-Inv windowsize threshold cooldown h =
    let (s, e) = new_watchdog-made windowsize threshold cooldown h in
    rw e (record {
      pos_in_window = omega (arith, length-replicate (pos_part windowsize) false);
      threshold_pos = omega arith;
      threshold_fits = omega (
        arith,
        one_sign threshold,
        one_sign windowsize,
        length-replicate (pos_part windowsize) false,
      );
      cooldown_pos = omega arith;
      count_bounded = omega arith;
    })

new_watchdog-total :
    (windowsize threshold cooldown : ℤ)
    → IsSetting windowsize threshold cooldown
    → (wd : Watchdog) × (new_watchdog windowsize threshold cooldown ≡ ok wd)
unfolding new_watchdog IsSetting
new_watchdog-total windowsize threshold cooldown h = (
  record {
    window = replicate (pos_part windowsize) false;
    window_pos = 0;
    threshold = pos_part threshold;
    cooldown = pos_part cooldown;
    cooldown_count = 0;
  },
  ground arith,
)

-- `NewWatchdog` gives a watchdog exactly for settings with 0 < threshold ≤ windowsize and
-- 0 < cooldown, and the watchdog is then well formed.
pub new_watchdog_lem :
    (windowsize threshold cooldown : ℤ)
    → (((wd : Watchdog) × (new_watchdog windowsize threshold cooldown ≡ ok wd))
        ↔ IsSetting windowsize threshold cooldown)
      × ((wd : Watchdog) → new_watchdog windowsize threshold cooldown ≡ ok wd → Inv wd)
new_watchdog_lem windowsize threshold cooldown = (
  (
    λ (wd, h). (new_watchdog-made windowsize threshold cooldown h).0,
    new_watchdog-total windowsize threshold cooldown,
  ),
  λ wd h. new_watchdog-Inv windowsize threshold cooldown h,
)

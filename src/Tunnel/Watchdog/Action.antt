-- ===== src/Tunnel/Watchdog/Action.antt =====
-- Runs of events through the watchdog of pkg/shoot_client/tunnel/watchdog.go: the action comes in
-- time, and not again before the cooldown is over.
pub mod Once
use vpn.Prelude.{
  ℕ, zero, suc, ◌+◌, ◌-◌, ◌≤◌, ◌<◌, ◌≡◌, refl, sym, ◌∙◌, ap, Bool, true, false, List, [], ◌∷◌, ◌++◌,
  ◌||◌, ltb, leb, length, replicate, drop, arith, ◌⊎◌, inl, inr, Bool-cases, length-append,
  length-replicate,
}
use mathlib.Core.Path.{subst}
use mathlib.Core.List.{append-nil, append_assoc}
use vpn.Tunnel.Watchdog.{Watchdog, failures, reset, push_event, record_event}
use vpn.Tunnel.Watchdog.Window.{Inv, recent, failures-append}
use vpn.Tunnel.Watchdog.Firing.{
  view, Sliding, slide, slide-fires, slide-counts, record_event-slide, record_event-Inv,
  length-recent,
}

-- Whether one of the events calls the action.
pub fires_in : Watchdog → List Bool → Bool
fires_in wd [] = false
fires_in wd (e ∷ es) = let (wd', fired) = record_event wd e in fired || fires_in wd' es

pub record_event-settings :
    (wd : Watchdog) (v : Bool)
    → ((record_event wd v).0.threshold ≡ wd.threshold)
      × ((record_event wd v).0.cooldown ≡ wd.cooldown)
unfolding record_event push_event reset
record_event-settings wd v = ground arith

failures-replicate : (n : ℕ) → failures (replicate n true) ≡ n
unfolding failures
failures-replicate zero = refl
failures-replicate (suc n) = ap suc (failures-replicate n)

replicate-snoc : (n : ℕ) → replicate n true ++ true ∷ [] ≡ replicate (suc n) true
replicate-snoc zero = refl
replicate-snoc (suc n) = ap (λ (l : List Bool). true ∷ l) (replicate-snoc n)

-- One more failure behind k of them.
shift :
    (xs : List Bool) (k : ℕ)
    → 0 < length xs
    → drop 1 (xs ++ replicate k true) ++ true ∷ [] ≡ drop 1 xs ++ replicate (suc k) true
shift [] k h = elim h [ ]
shift (x ∷ xs) k h =
    append_assoc xs (replicate k true) (true ∷ []) ∙ ap (λ l. xs ++ l) (replicate-snoc k)

failures-shift : (ys : List Bool) (k : ℕ) → k ≤ failures (ys ++ replicate k true)
failures-shift ys k = omega (arith, failures-append ys (replicate k true), failures-replicate k)

leb-false : (a b : ℕ) → leb a b ≡ false → b < a
leb-false a b h = ground arith

or_right : (a b : Bool) → b ≡ true → (a || b) ≡ true
or_right true b h = refl
or_right false b h = h

-- A watchdog out of its cooldown whose last `k` events were failures.
record Failing (k : ℕ) (xs : List Bool) (wd : Watchdog) : Type 0 where
  inv : Inv wd
  ready : wd.cooldown_count ≡ 0
  tail : recent wd ≡ xs ++ replicate k true
  below : k < wd.threshold

module _ {k : ℕ} {xs : List Bool} {wd : Watchdog} (f : Failing k xs wd) where
  idle : ltb 0 wd.cooldown_count ≡ false
  idle = rw f.ready

  step :
      (view (record_event wd true).0, (record_event wd true).1)
      ≡ slide wd.threshold wd.cooldown (view wd) true
  step = record_event-slide wd true f.inv

  shifted : drop 1 (recent wd) ++ true ∷ [] ≡ drop 1 xs ++ replicate (suc k) true
  shifted = rw f.tail (
      shift xs k (
        omega (
          arith,
          length-recent wd,
          ap length f.tail,
          length-append xs (replicate k true),
          length-replicate k true,
          f.inv.threshold_fits,
          f.below,
        )))

  -- One more failure calls the action, or there are now `k + 1` failures.
  one_more :
      ((record_event wd true).1 ≡ true)
      ⊎ ((suc k < wd.threshold) × Failing (suc k) (drop 1 xs) (record_event wd true).0)
  one_more = elim (Bool-cases (leb wd.threshold (failures (drop 1 (recent wd) ++ true ∷ [])))) [
    | inl many ↦ inl (
        ap (λ (p : Sliding × Bool). p.1)
          (step ∙ slide-fires wd.threshold wd.cooldown (view wd) true idle many))
    | inr few ↦
        let after = step ∙ slide-counts wd.threshold wd.cooldown (view wd) true idle few in
        let less : suc k < wd.threshold = omega (
          arith,
          leb-false wd.threshold _ few,
          ap failures shifted,
          failures-shift (drop 1 xs) (suc k),
        ) in
        inr (
          less,
          record {
            inv = record_event-Inv wd true f.inv;
            ready = ap (λ (p : Sliding × Bool). p.0.wait) after ∙ f.ready;
            tail = ap (λ (p : Sliding × Bool). p.0.events) after ∙ shifted;
            below = rw (record_event-settings wd true).0 less;
          },
        )
  ]

fires_of_failures :
    (m k : ℕ) (xs : List Bool) (wd : Watchdog)
    → Failing k xs wd
    → k + suc m ≡ wd.threshold
    → fires_in wd (replicate (suc m) true) ≡ true
unfolding fires_in
fires_of_failures zero k xs wd f sum = elim (one_more f) [
  | inl now ↦ rw now
  | inr (less, next) ↦ absurd (omega arith)
]
fires_of_failures (suc m) k xs wd f sum = elim (one_more f) [
  | inl now ↦ rw now
  | inr (less, next) ↦ or_right (record_event wd true).1 _ (
      fires_of_failures m (suc k) (drop 1 xs) (record_event wd true).0 next
        (omega (arith, (record_event-settings wd true).0)))
]

-- Out of its cooldown, a watchdog calls the action at the latest when `threshold` events in a row
-- were failures, whatever its window held before.
pub failures-fire :
    (wd : Watchdog)
    → Inv wd
    → wd.cooldown_count ≡ 0
    → fires_in wd (replicate wd.threshold true) ≡ true
failures-fire wd inv ready =
    let e : wd.threshold ≡ suc (wd.threshold - 1) = omega (arith, inv.threshold_pos) in
    subst (λ t. fires_in wd (replicate t true) ≡ true) (sym e)
      (fires_of_failures (wd.threshold - 1) 0 (recent wd) wd
        (record {
          inv = inv;
          ready = ready;
          tail = sym (append-nil (recent wd));
          below = inv.threshold_pos;
        })
        (omega arith))

record_event-quiet :
    (wd : Watchdog) (v : Bool)
    → 0 < wd.cooldown_count
    → ((record_event wd v).1 ≡ false)
      × ((record_event wd v).0.cooldown_count + 1 ≡ wd.cooldown_count)
unfolding record_event
record_event-quiet wd v h = ground arith

cooldown-quiet :
    (wd : Watchdog) (es : List Bool) → length es ≤ wd.cooldown_count → fires_in wd es ≡ false
unfolding fires_in
cooldown-quiet wd [] h = refl
cooldown-quiet wd (e ∷ es) h =
    let (quiet, less) = record_event-quiet wd e (omega arith) in
    rw quiet (cooldown-quiet (record_event wd e).0 es (omega arith))

record_event-fired :
    (wd : Watchdog) (v : Bool)
    → (record_event wd v).1 ≡ true
    → (record_event wd v).0.cooldown_count ≡ wd.cooldown
unfolding record_event push_event reset
record_event-fired wd v h = ground arith

-- After the action the next `cooldown` events do not call it again.
pub fired-quiet :
    (wd : Watchdog) (v : Bool) (es : List Bool)
    → (record_event wd v).1 ≡ true
    → length es ≤ wd.cooldown
    → fires_in (record_event wd v).0 es ≡ false
fired-quiet wd v es h l =
    cooldown-quiet (record_event wd v).0 es (omega (arith, record_event-fired wd v h))

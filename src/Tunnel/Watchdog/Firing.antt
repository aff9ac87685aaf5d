-- ===== src/Tunnel/Watchdog/Firing.antt =====
-- When `record` of pkg/shoot_client/tunnel/watchdog.go calls its action.
use vpn.Prelude.{
  ℕ, zero, suc, ◌+◌, ◌-◌, ◌≡◌, refl, sym, ◌∙◌, ap, Bool, true, false, List, [], ◌∷◌, ◌++◌, ltb, leb,
  if◌then◌else◌, length, set, replicate, take, drop, arith, length-set, length-replicate, inl, inr,
  Bool-cases, length-append,
}
use mathlib.Core.List.{append-nil}
use vpn.Tunnel.Watchdog.{Watchdog, failures, reset, push_event, record_event}
use vpn.Tunnel.Watchdog.Window.{Inv, recent, push_event-recent, failures-recent}

-- The specification: the last events, oldest first, and what is left of the cooldown.
pub record Sliding : Type 0 where
  pub events : List Bool
  pub wait : ℕ

pub slide : ℕ → ℕ → Sliding → Bool → Sliding × Bool
slide threshold cooldown s failure =
    let shifted = drop 1 s.events ++ failure ∷ [] in
    if ltb 0 s.wait
    then (record s { wait = s.wait - 1 }, false)
    else if leb threshold (failures shifted)
    then (record { events = replicate (length s.events) false; wait = cooldown }, true)
    else (record { events = shifted; wait = s.wait }, false)

abbrev pub view : Watchdog → Sliding
view wd = record { events = recent wd; wait = wd.cooldown_count }

length-take-drop : (i : ℕ) (w : List Bool) → length (take i w) + length (drop i w) ≡ length w
length-take-drop zero w = omega arith
length-take-drop (suc i) [] = refl
length-take-drop (suc i) (x ∷ w) = omega (arith, length-take-drop i w)

pub length-recent : (wd : Watchdog) → length (recent wd) ≡ length wd.window
length-recent wd = omega (
  arith,
  length-append (drop wd.window_pos wd.window) (take wd.window_pos wd.window),
  length-take-drop wd.window_pos wd.window,
)

recent-reset : (wd : Watchdog) → recent (reset wd) ≡ replicate (length wd.window) false
unfolding reset
recent-reset wd = append-nil _

-- A write leaves all but the window and its position.
record Keeps (wd wd' : Watchdog) : Type 0 where
  size : length wd'.window ≡ length wd.window
  threshold : wd'.threshold ≡ wd.threshold
  cooldown : wd'.cooldown ≡ wd.cooldown
  count : wd'.cooldown_count ≡ wd.cooldown_count

push_event-Keeps : (wd : Watchdog) (v : Bool) → Keeps wd (push_event wd v)
unfolding push_event
push_event-Keeps wd v = record {
  size = length-set wd.window wd.window_pos v;
  threshold = refl;
  cooldown = refl;
  count = refl;
}

-- The three branches of `record`.
record_event-waits :
    (wd : Watchdog) (v : Bool)
    → ltb 0 wd.cooldown_count ≡ true
    → record_event wd v ≡ (record wd { cooldown_count = wd.cooldown_count - 1 }, false)
unfolding record_event
record_event-waits wd v h = simp h

module _ (wd : Watchdog) (v : Bool) (ready : ltb 0 wd.cooldown_count ≡ false) where
  abbrev pushed : Watchdog
  pushed = push_event wd v

  record_event-fires :
      leb pushed.threshold (failures pushed.window) ≡ true
      → record_event wd v ≡ (reset (record pushed { cooldown_count = pushed.cooldown }), true)
  unfolding record_event
  record_event-fires h = simp (ready, h)

  record_event-counts :
      leb pushed.threshold (failures pushed.window) ≡ false → record_event wd v ≡ (pushed, false)
  unfolding record_event
  record_event-counts h = simp (ready, h)

same_view :
    {e e' : List Bool} {n n' : ℕ} (fired : Bool)
    → e ≡ e'
    → n ≡ n'
    → ◌≡◌ {A = Sliding × Bool}
        (record { events = e; wait = n }, fired)
        (record { events = e'; wait = n' }, fired)
same_view fired h k = cc

module _ (threshold cooldown : ℕ) (s : Sliding) (v : Bool) (ready : ltb 0 s.wait ≡ false) where
  pub slide-fires :
      leb threshold (failures (drop 1 s.events ++ v ∷ [])) ≡ true
      → slide threshold cooldown s v
        ≡ (record { events = replicate (length s.events) false; wait = cooldown }, true)
  unfolding slide
  slide-fires h = simp (ready, h)

  pub slide-counts :
      leb threshold (failures (drop 1 s.events ++ v ∷ [])) ≡ false
      → slide threshold cooldown s v
        ≡ (record { events = drop 1 s.events ++ v ∷ []; wait = s.wait }, false)
  unfolding slide
  slide-counts h = simp (ready, h)

reset-wait : (wd : Watchdog) → (reset wd).cooldown_count ≡ wd.cooldown_count
unfolding reset
reset-wait wd = refl

-- The ring buffer implements the sliding window: after each event it holds the same last events and
-- cooldown, and the action is called in the same cases.
pub record_event-slide :
    (wd : Watchdog) (failure : Bool)
    → Inv wd
    → (view (record_event wd failure).0, (record_event wd failure).1)
      ≡ slide wd.threshold wd.cooldown (view wd) failure
record_event-slide wd v inv = elim (Bool-cases (ltb 0 wd.cooldown_count)) [
  | inl waits ↦ rw (record_event-waits wd v waits) (unfold slide in simp waits)
  | inr ready ↦
      let k = push_event-Keeps wd v in
      let shifted = push_event-recent wd v inv.pos_in_window in
      let same : failures (drop 1 (recent wd) ++ v ∷ []) ≡ failures (push_event wd v).window =
        ap failures (sym shifted) ∙ failures-recent (push_event wd v) in
      let test : leb wd.threshold (failures (drop 1 (recent wd) ++ v ∷ []))
          ≡ leb wd.threshold (failures (push_event wd v).window) =
        ap (leb wd.threshold) same in
      elim (Bool-cases (leb wd.threshold (failures (push_event wd v).window))) [
        | inl many ↦
            rw
              (
                record_event-fires wd v ready (rw k.threshold many),
                slide-fires wd.threshold wd.cooldown (view wd) v ready (test ∙ many),
              )
              (same_view true
                (recent-reset _ ∙ ap (λ n. replicate n false) (k.size ∙ sym (length-recent wd)))
                (reset-wait _ ∙ k.cooldown))
        | inr few ↦
            rw
              (
                record_event-counts wd v ready (rw k.threshold few),
                slide-counts wd.threshold wd.cooldown (view wd) v ready (test ∙ few),
              )
              (same_view false shifted k.count)
      ]
]

-- Every event keeps a watchdog well formed: the position is in the window, the threshold is
-- positive and fits the window, and the rest of the cooldown is at most the cooldown.
pub record_event-Inv : (wd : Watchdog) (failure : Bool) → Inv wd → Inv (record_event wd failure).0
unfolding record_event push_event reset
record_event-Inv wd failure inv = ground (
  arith,
  length-set wd.window wd.window_pos failure,
  length-replicate (length (set wd.window wd.window_pos failure)) false,
)

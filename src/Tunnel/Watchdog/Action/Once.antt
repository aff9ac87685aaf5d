-- ===== src/Tunnel/Watchdog/Action/Once.antt =====
-- Failures in a row call the action of pkg/shoot_client/tunnel/watchdog.go once.
use vpn.Prelude.{
  ℕ, zero, suc, ◌+◌, ◌≤◌, ◌<◌, ◌≡◌, refl, ◌∙◌, ap, Bool, true, false, List, [], ◌∷◌, Result, length,
  replicate, set, arith, inl, inr, Bool-cases,
}
use vpn.Tunnel.Watchdog.{Watchdog, failures, reset, push_event, record_event, record_and_act, fail}
use vpn.Tunnel.Watchdog.Window.{Inv}
use vpn.Tunnel.Watchdog.Action.{fires_in, failures-fire, record_event-settings}

failures-set : (w : List Bool) (i : ℕ) (v : Bool) → failures (set w i v) ≤ suc (failures w)
unfolding failures
failures-set [] i v = omega arith
failures-set (true ∷ w) zero true = omega arith
failures-set (true ∷ w) zero false = omega arith
failures-set (false ∷ w) zero true = omega arith
failures-set (false ∷ w) zero false = omega arith
failures-set (true ∷ w) (suc i) v = omega (arith, failures-set w i v)
failures-set (false ∷ w) (suc i) v = failures-set w i v

failures-replicate-false : (n : ℕ) → failures (replicate n false) ≡ 0
unfolding failures
failures-replicate-false zero = refl
failures-replicate-false (suc n) = failures-replicate-false n

-- One failure in a window that has room for one more below the threshold.
record_event-few :
    (wd : Watchdog)
    → failures wd.window + 1 < wd.threshold
    → ((record_event wd true).1 ≡ false)
      × (failures (record_event wd true).0.window ≤ failures wd.window + 1)
unfolding record_event push_event reset
record_event-few wd h = ground (arith, h, failures-set wd.window wd.window_pos true)

few-quiet :
    (k : ℕ) (wd : Watchdog)
    → failures wd.window + k < wd.threshold
    → fires_in wd (replicate k true) ≡ false
unfolding fires_in
few-quiet zero wd h = refl
few-quiet (suc k) wd h =
    let few = record_event-few wd (omega (arith, h)) in
    rw few.0 (
      few-quiet k (record_event wd true).0
        (omega (arith, h, few.1, (record_event-settings wd true).0)))

record_event-emptied :
    (wd : Watchdog) → (record_event wd true).1 ≡ true → failures (record_event wd true).0.window ≡ 0
unfolding record_event push_event reset
record_event-emptied wd h =
    ground (arith, h, failures-replicate-false (length (set wd.window wd.window_pos true)))

module _ {W : Type 0} (action : W → W × Result (Unit {0})) where
  -- The watchdog and the state of the action behind so many failures; errors are dropped.
  unfoldable pub fails : ℕ → Watchdog → W → Watchdog × W
  fails zero wd w = (wd, w)
  fails (suc k) wd w = let (wd', w', answer) = fail action wd w in fails k wd' w'

  fail_fired :
      (wd : Watchdog) (w : W)
      → (record_event wd true).1 ≡ true
      → (k : ℕ) → fails (suc k) wd w ≡ fails k (record_event wd true).0 (action w).0
  unfolding fails fail record_and_act
  fail_fired wd w h k = rw h refl

  fail_quiet :
      (wd : Watchdog) (w : W)
      → (record_event wd true).1 ≡ false
      → (k : ℕ) → fails (suc k) wd w ≡ fails k (record_event wd true).0 w
  unfolding fails fail record_and_act
  fail_quiet wd w h k = rw h refl

  quiet-fails :
      (k : ℕ) (wd : Watchdog) (w : W)
      → fires_in wd (replicate k true) ≡ false
      → (fails k wd w).1 ≡ w
  unfolding fires_in
  quiet-fails zero wd w h = unfold fails in refl
  quiet-fails (suc k) wd w h = elim (Bool-cases (record_event wd true).1) [
    | inl t ↦ absurd (ground (arith, h, t))
    | inr f ↦
        ap (λ x. x.1) (fail_quiet wd w f k)
        ∙ quiet-fails k (record_event wd true).0 w (ground (arith, h, f))
  ]

  once-fails :
      (k : ℕ) (wd : Watchdog) (w : W)
      → k ≤ wd.threshold
      → fires_in wd (replicate k true) ≡ true
      → (fails k wd w).1 ≡ (action w).0
  unfolding fires_in
  once-fails zero wd w le h = absurd (ground (arith, h))
  once-fails (suc k) wd w le h =
      let same = (record_event-settings wd true).0 in
      elim (Bool-cases (record_event wd true).1) [
        | inl t ↦
            ap (λ x. x.1) (fail_fired wd w t k)
            ∙ quiet-fails k (record_event wd true).0 (action w).0 (
                few-quiet k (record_event wd true).0
                  (omega (arith, le, same, record_event-emptied wd t)))
        | inr f ↦
            ap (λ x. x.1) (fail_quiet wd w f k)
            ∙ once-fails k (record_event wd true).0 w (omega (arith, le, same))
                (ground (arith, h, f))
      ]

  -- Out of its cooldown, so many failures in a row as the threshold says call the action once.
  pub fails-once :
      (wd : Watchdog) (w : W)
      → Inv wd
      → wd.cooldown_count ≡ 0
      → (fails wd.threshold wd w).1 ≡ (action w).0
  fails-once wd w inv ready =
      once-fails wd.threshold wd w (omega arith) (failures-fire wd inv ready)

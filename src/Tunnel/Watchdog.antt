-- ===== src/Tunnel/Watchdog.antt =====
-- pkg/shoot_client/tunnel/watchdog.go: failures over a sliding window, an action, and a cooldown.
-- The window is a ring buffer of the last events; `action` is a function over a state of its own.
pub mod Window
pub mod Firing
pub mod Action
use vpn.Prelude.{
  ℕ, zero, suc, ◌+◌, ◌-◌, ◌%◌, ◌≤◌, ◌<◌, ◌≡◌, refl, Bool, true, false, List, [], ◌∷◌, Result, ok,
  err, ◌>>=◌, ◌>>◌, ltb, leb, ◌==◌, if◌then◌else◌, length, set, replicate, guard, not,
}
use vpn.Prelude.Int.{ℤ, pos, pos_part, leb_ℤ, ltb_ℤ}

pub record Watchdog : Type 0 where
  pub window : List Bool
  pub window_pos : ℕ
  pub threshold : ℕ
  pub cooldown : ℕ
  pub cooldown_count : ℕ

-- `NewWatchdog`.
unfoldable pub new_watchdog : ℤ → ℤ → ℤ → Result Watchdog
new_watchdog windowsize threshold cooldown = do
  guard (not (leb_ℤ windowsize (pos 0))) "invalid windowsize, must be > 0"
  guard (not (leb_ℤ threshold (pos 0))) "invalid threshold, must be > 0"
  guard (not (ltb_ℤ windowsize threshold)) "invalid threshold, must be <= windowsize"
  guard (not (leb_ℤ cooldown (pos 0))) "invalid cooldown, must be > 0"
  ok (record {
    window = replicate (pos_part windowsize) false;
    window_pos = 0;
    threshold = pos_part threshold;
    cooldown = pos_part cooldown;
    cooldown_count = 0;
  })

-- The loop that counts the failures in the window.
unfoldable pub failures : List Bool → ℕ
failures [] = 0
failures (true ∷ w) = suc (failures w)
failures (false ∷ w) = failures w

unfoldable pub reset : Watchdog → Watchdog
reset wd = record wd { window = replicate (length wd.window) false; window_pos = 0 }

-- The write of an event into the window.
unfoldable pub push_event : Watchdog → Bool → Watchdog
push_event wd failure = record wd {
  window = set wd.window wd.window_pos failure;
  window_pos = (wd.window_pos + 1) % length wd.window;
}

-- `record` up to the call of the action: the watchdog, and whether the action is called.
unfoldable pub record_event : Watchdog → Bool → Watchdog × Bool
record_event wd failure =
    if ltb 0 wd.cooldown_count
    then (record wd { cooldown_count = wd.cooldown_count - 1 }, false)
    else let wd' = push_event wd failure in
      if leb wd'.threshold (failures wd'.window)
      then (reset (record wd' { cooldown_count = wd'.cooldown }), true)
      else (wd', false)

module _ {W : Type 0} (action : W → W × Result (Unit {0})) where
  -- `record`, with the action's error.
  unfoldable pub record_and_act : Watchdog → Bool → W → Watchdog × W × Result (Unit {0})
  record_and_act wd failure w =
      let (wd', fired) = record_event wd failure in
      let (w', answer) = action w in if fired then (wd', w', answer) else (wd', w, ok tt)

  unfoldable pub fail : Watchdog → W → Watchdog × W × Result (Unit {0})
  unfolding record_and_act
  fail wd w = record_and_act wd true w

  unfoldable pub succeed : Watchdog → W → Watchdog × W × Result (Unit {0})
  unfolding record_and_act
  succeed wd w = record_and_act wd false w

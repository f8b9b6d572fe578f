-- ===== src/Core/Retry.antt =====
-- Backoff, and what becomes of an event whose work failed (internal/core/reconciler.go).
-- Durations are in nanoseconds.
pub mod Delays
use ramify.Prelude.{
  ℕ, suc, ◌+◌, ◌-◌, ◌*◌, ◌/◌, ◌%◌, ◌^◌, Bool, ◌||◌, Option, some, leb, ltb, ◌==◌, min,
  if◌then◌else◌,
}
use ramify.Errors.{Err, is_terminal}
use ramify.World.{Exec, read_clock, logged, ◌>>=◌}
use ramify.Store.Types.{Event}
use ramify.Store.Events.{mark_event_retry, mark_event_dead_lettered}
use ramify.Core.Reconciler.{Reconciler}

abbrev pub second : ℕ
second = 1000000000

abbrev pub max_apply_attempts : ℕ
max_apply_attempts = 5

abbrev pub max_event_attempts : ℕ
max_event_attempts = 10

unfoldable pub retry_delay : ℕ → ℕ
retry_delay attempt =
    let n = if ltb attempt 1 then 1 else attempt in
    let d = 2 ^ min (n - 1) 8 * second in if ltb (300 * second) d then 300 * second else d

-- The shift is by `attempt - 2`; the callers pass 2 or more.
unfoldable pub apply_backoff : ℕ → ℕ
apply_backoff attempt =
    let d = 2 ^ (attempt - 2) * second in if ltb (30 * second) d then 30 * second else d

-- `draw` is what rand.Int64N gives: any number, taken below the bound.
unfoldable pub full_jitter : ℕ → ℕ → ℕ
full_jitter draw d = if d == 0 then 0 else (let half = d / 2 in half + draw % (d - half + 1))

module _ (r : Reconciler) where
  unfoldable pub draw_delay : ℕ → Exec ℕ
  draw_delay d w = (ramify.Provider.ok (r.jitter w.calls d), w)

  unfoldable pub schedule_retry : Event → Err → Exec (Unit {0})
  unfolding draw_delay
  schedule_retry ev cause =
      let attempt = ev.attempts + 1 in
      if is_terminal (some cause) || leb max_event_attempts attempt
      then logged (do now ← read_clock; mark_event_dead_lettered r.runtime ev.id now cause)
      else logged (do
        delay ← draw_delay (retry_delay attempt)
        now ← read_clock
        mark_event_retry r.runtime ev.id (now + delay) cause)

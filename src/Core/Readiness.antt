-- ===== src/Core/Readiness.antt =====
-- waitUntilHealthy (internal/core/reconciler.go).
pub mod Termination
use ramify.Prelude.{
  ℕ, zero, suc, ◌+◌, ◌/◌, String, Bool, true, false, Option, none, some, ltb, if◌then◌else◌,
}
use ramify.Errors.{Err, other, wrap}
use ramify.Provider.{Health}
use ramify.World.{Exec, pure, raise, read_clock, clock_sleep, context_error, wrapped, ◌>>=◌, ◌>>◌}
use ramify.Core.Reconciler.{Reconciler, health_check}

module _ (r : Reconciler) where
  unfoldable pub unless_cancelled : Option Err → Exec (Option (Unit {0})) → Exec (Option (Unit {0}))
  unless_cancelled none rest = rest
  unless_cancelled (some e) rest = raise e

  -- `some tt` is a healthy deployment; `none` says that the fuel ran out.
  unfoldable pub poll : ℕ → ℕ → String → Exec (Option (Unit {0}))
  unfolding unless_cancelled
  poll zero deadline ref = pure none
  poll (suc fuel) deadline ref = do
    cancelled ← context_error r.runtime
    unless_cancelled cancelled (do
      status ← wrapped "health check" (health_check r ref)
      if status.healthy then pure (some tt) else (do
        now ← read_clock
        if ltb now deadline
            then (do clock_sleep r.readiness_poll_interval; poll fuel deadline ref)
            else raise (other "readiness timed out")))

  -- One round for each poll interval of the timeout, and two more.
  unfoldable pub poll_fuel : ℕ
  poll_fuel = r.readiness_timeout / r.readiness_poll_interval + 2

  unfoldable pub finished : Option (Unit {0}) → Exec (Unit {0})
  finished (some _) = pure tt
  finished none = raise (other "the loop did not end")

  unfoldable pub wait_until_healthy : String → Exec (Unit {0})
  unfolding finished
  wait_until_healthy ref = do
    now ← read_clock
    o ← poll poll_fuel (now + r.readiness_timeout) ref
    finished o

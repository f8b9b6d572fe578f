-- ===== src/Core/SleepWake/Guards.antt =====
-- What Sleep and Wake refuse (internal/core/reconciler.go).
use ramify.Prelude.{◌≡◌, refl, false}
use ramify.World.{World, raise}
use ramify.Store.Types.{Environment, ready, sleeping, same_status}
use ramify.Core.Reconciler.{Reconciler}
use ramify.Core.SleepWake.{sleep, wake}

module _ (r : Reconciler) (env : Environment) (w : World) where
  -- Sleep of an environment that is not ready, and Wake of one that is not asleep, change nothing,
  -- call nothing and log nothing.
  pub sleep_refused : same_status env.status ready ≡ false → (sleep r env w).1 ≡ w
  unfolding sleep raise
  sleep_refused h = rw h refl

  pub wake_refused : same_status env.status sleeping ≡ false → (wake r env w).1 ≡ w
  unfolding wake raise
  wake_refused h = rw h refl

-- ===== src/Core/Reaper.antt =====
-- The reaper (internal/core/reaper.go).
use ramify.Prelude.{ℕ, ◌+◌, List, [], ◌∷◌, ◌++◌, length}
use ramify.Errors.{Err, wrap, join_all}
use ramify.World.{Exec, pure, raise, catch, count, read_clock, ◌>>=◌, ◌>>◌}
use ramify.Store.Types.{Environment}
use ramify.Store.Environments.{list_expired_environments}
use ramify.Core.Reconciler.{Reconciler}
use ramify.Core.Destroy.{destroy, collect}

module _ (r : Reconciler) where
  -- one failure does not stop the rest
  unfoldable pub destroy_all : List Environment → Exec (List Err)
  destroy_all [] = pure []
  destroy_all (env ∷ rest) = do
    here ← collect "environment" (destroy r env)
    later ← destroy_all rest
    pure (here ++ later)

  unfoldable pub cleanup_failed : ℕ → Exec (Unit {0})
  cleanup_failed n = count (λ m. record m { cleanup_failures = m.cleanup_failures + n })

  unfoldable pub report : List Err → Exec (Unit {0})
  report [] = pure tt
  report (e ∷ errs) = do
    cleanup_failed (length (e ∷ errs))
    raise (wrap "reaper: sweep" (join_all e errs))

  unfoldable pub sweep : Exec (Unit {0})
  unfolding cleanup_failed report
  sweep = do
    count (λ m. record m { cleanup_runs = m.cleanup_runs + 1 })
    now ← read_clock
    catch (list_expired_environments r.runtime now)
        (λ expired. do errs ← destroy_all expired; report errs)
        (λ e. cleanup_failed 1 >> raise (wrap "reaper: listing expired environments" e))

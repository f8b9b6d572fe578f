-- ===== src/Core/Apply/Publication.antt =====
-- The last step of attemptApply, and doApply after its failure (internal/core/reconciler.go).
use ramify.Prelude.{String, ◌≡◌, none, some, ◌⊎◌, find_first, arith, inl, inr}
use ramify.Errors.{Err}
use ramify.Provider.{ok, err, Deployment}
use ramify.World.Steps.{Result-cases, catch_ok, catch_err}
use ramify.World.{World, statement, wrapped, catch, pure, read_clock, logged, call, ◌>>=◌, ◌>>◌}
use ramify.Store.Types.{Environment, zero_environment}
use ramify.Store.Tables.{has_id}
use ramify.Store.Environments.{update_environment, update_transaction}
use ramify.Core.Reconciler.{Reconciler, ApplyRequest, notify}
use ramify.Core.Apply.{prepare, publish, refresh_ttl, attempt_apply, fail}

module _ (r : Reconciler) (env : Environment) (req : ApplyRequest) where
  publish_failed :
      (d : Deployment) (w : World) {env' : Environment} {e : Err}
      → (publish r env req d w).0 ≡ ok (env', some e)
      → env' ≡ zero_environment
  unfolding publish refresh_ttl ◌>>=◌ catch read_clock pure
  publish_failed d w h = ground arith

  publish_returns : (d : Deployment) (w : World) {e : Err} → (publish r env req d w).0 ≡ err e → ⊥
  unfolding publish refresh_ttl ◌>>=◌ catch read_clock pure
  publish_returns d w h = ground arith

  module _ (name tag : String) (w : World) where
    -- An attempt that fails before its last step returns the environment that it was given; one
    -- whose last step fails, the write of the ready environment, returns the zero environment.
    pub attempt_failed :
        {env' : Environment} {e : Err}
        → (attempt_apply r env req name tag w).0 ≡ ok (env', some e)
        → (((prepare r env req name tag w).0 ≡ err e) × (env' ≡ env))
          ⊎ ((d : Deployment) × ((prepare r env req name tag w).0 ≡ ok d)
              × (env' ≡ zero_environment))
    unfolding attempt_apply
    attempt_failed {env'} {e} h = elim (Result-cases (prepare r env req name tag w).0) [
      | inl (d, done) ↦ inr (
        d,
        done,
        publish_failed d (prepare r env req name tag w).1 {e = e} (
            ground (
              arith,
              catch_ok (prepare r env req name tag) (publish r env req) (λ e'. pure (env, some e'))
                  w done,
            )),
      )
      | inr (e', stopped) ↦
          let ran =
            catch_err (prepare r env req name tag) (publish r env req) (λ e'. pure (env, some e')) w
              stopped in
          inl (unfold pure in ground (arith, ran), unfold pure in ground (arith, ran))
    ]

-- If no row has the empty identifier, marking the zero environment failed changes no table: the row
-- of the environment that the attempts were about stays as it is, deploying.
pub fail_zero :
    (r : Reconciler) (req : ApplyRequest) (e : Err) (w : World)
    → find_first (has_id "") w.db.environments ≡ none
    → (fail r zero_environment req e w).1.db ≡ w.db
unfolding fail logged notify call update_environment update_transaction wrapped statement ◌>>=◌ ◌>>◌
    pure
fail_zero r req e w h = ground arith

-- ===== src/Api/Guards.antt =====
-- Requests that the handlers of internal/api/handlers.go refuse.
use ramify.Prelude.{String, ◌≡◌, true, false, str_eq, none, some, find_first, arith}
use ramify.Errors.{is, wrap, sentinel, invalid_environment_action}
use ramify.Provider.{ok}
use ramify.World.{World, statement, wrapped, catch, pure, raise}
use ramify.Store.Types.{Environment, ready, same_status}
use ramify.Store.Tables.{has_id}
use ramify.Store.Environments.{get_environment, found}
use ramify.Core.SleepWake.{sleep}
use ramify.Api.{
  Server, failure_of, failure, lookup_environment, answer_action, handle_sleep_environment,
  roll_back_to_good, handle_rollback_environment,
}

module _ (s : Server) (id : String) (w : World) {env : Environment} where
  -- Provided that the database answers, the request to put an environment to sleep that is not
  -- ready is answered with status 409, and nothing is written and no provider is called.
  sleep_conflict :
      s.reconciler.runtime.db_fault w.calls ≡ none
      → find_first (has_id id) w.db.environments ≡ some env
      → same_status env.status ready ≡ false
      → ((handle_sleep_environment s id w).0
          ≡ ok (failure_of 409 "" (wrap "status" (sentinel invalid_environment_action))))
        × ((handle_sleep_environment s id w).1.db ≡ w.db)
        × ((handle_sleep_environment s id w).1.journal ≡ w.journal)
  unfolding handle_sleep_environment lookup_environment answer_action get_environment found wrapped
      statement catch pure raise sleep is
  sleep_conflict up at idle = (ground arith, ground arith, ground arith)

  -- Provided that the database answers, the request to roll back an environment that has never been
  -- up is answered with status 409, and nothing is written and no provider is called.
  rollback_conflict :
      s.reconciler.runtime.db_fault w.calls ≡ none
      → find_first (has_id id) w.db.environments ≡ some env
      → str_eq env.last_good_artifact_ref "" ≡ true
      → ((handle_rollback_environment s id w).0
          ≡ ok (failure 409 "environment has no known-good revision to roll back to"))
        × ((handle_rollback_environment s id w).1.db ≡ w.db)
        × ((handle_rollback_environment s id w).1.journal ≡ w.journal)
  unfolding handle_rollback_environment lookup_environment roll_back_to_good get_environment found
      wrapped statement catch pure raise
  rollback_conflict up at never = (ground arith, ground arith, ground arith)

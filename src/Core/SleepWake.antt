-- ===== src/Core/SleepWake.antt =====
-- Sleep and Wake (internal/core/reconciler.go).
pub mod Guards
use ramify.Prelude.{String, Bool, if◌then◌else◌, some, none, str_eq}
use ramify.Errors.{Err, sentinel, other, wrap, terminal_error, invalid_environment_action}
use ramify.World.{Exec, pure, raise, catch, wrapped, ◌>>=◌, ◌>>◌}
use ramify.Store.Types.{Environment, ready, sleeping, same_status}
use ramify.Store.Environments.{update_environment}
use ramify.Core.Reconciler.{Reconciler, deploy_sleep, deploy_wake}
use ramify.Core.Retry.{schedule_retry}
use ramify.Core.Apply.{log_event, mark_processed}

abbrev invalid_action : Err
invalid_action = wrap "status" (sentinel invalid_environment_action)

module _ (r : Reconciler) where
  unfoldable pub do_sleep : Environment → Exec Environment
  do_sleep env =
      if same_status env.status ready
      then (if str_eq env.deploy_ref ""
          then raise (terminal_error (other "environment has no deployment to sleep"))
          else (do
            wrapped "deploy sleep" (deploy_sleep r env.deploy_ref)
            wrapped "marking environment sleeping"
                (update_environment r.runtime (record env { status = sleeping }))))
      else raise (terminal_error invalid_action)

  unfoldable pub do_wake : Environment → Exec Environment
  do_wake env =
      if same_status env.status sleeping
      then (if str_eq env.deploy_ref ""
          then raise (terminal_error (other "environment has no deployment to wake"))
          else (do
            wrapped "deploy wake" (deploy_wake r env.deploy_ref)
            wrapped "marking environment ready"
                (update_environment r.runtime (record env { status = ready }))))
      else raise (terminal_error invalid_action)

  unfoldable pub sleep : Environment → Exec Environment
  sleep env =
      if same_status env.status ready
      then wrapped "reconciler: sleep" (do
        ev ← log_event r "sleep_requested" env.id (r.codec.marshal_target env.project env.branch)
        catch (do_sleep env) (λ result. mark_processed r ev >> pure result)
            (λ e. schedule_retry r ev e >> raise e))
      else raise invalid_action

  unfoldable pub wake : Environment → Exec Environment
  wake env =
      if same_status env.status sleeping
      then wrapped "reconciler: wake" (do
        ev ← log_event r "wake_requested" env.id (r.codec.marshal_target env.project env.branch)
        catch (do_wake env) (λ result. mark_processed r ev >> pure result)
            (λ e. schedule_retry r ev e >> raise e))
      else raise invalid_action

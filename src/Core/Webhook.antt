-- ===== src/Core/Webhook.antt =====
-- Admission and ProcessWebhookEvent (internal/core/reconciler.go).
pub mod Admission
use ramify.Prelude.{
  ℕ, String, Bool, true, false, ◌||◌, Option, none, some, leb, ◌==◌, str_eq, if◌then◌else◌,
}
use ramify.Errors.{Err, other, is, not_found, wrap}
use ramify.Provider.{GitEvent}
use ramify.Policy.{Reason, Decision, decide, ceiling_reached}
use ramify.World.{Exec, pure, raise, catch, wrapped, ◌>>=◌, ◌>>◌}
use ramify.Store.Types.{Environment}
use ramify.Store.Environments.{get_environment_by_project_branch, count_live_environments}
use ramify.Core.Reconciler.{Reconciler, ApplyRequest, apply_request_from_event, normalized_branch}
use ramify.Core.Apply.{Outcome, do_apply, upsert_pending_environment}
use ramify.Core.Destroy.{destroy_without_event}

-- the error of a call whose other result is dropped
unfoldable pub error_of : Outcome → Exec (Unit {0})
error_of (env, none) = pure tt
error_of (env, some e) = raise e

module _ (r : Reconciler) where
  -- a new branch takes a slot if there is one
  unfoldable pub reserve : ApplyRequest → Exec (Option Reason)
  reserve req = do
    live ← wrapped "counting live environments" (count_live_environments r.runtime)
    if leb r.max_concurrent live
        then pure (some (ceiling_reached live r.max_concurrent))
        else (do _ ← wrapped "reserving slot" (upsert_pending_environment r req); pure none)

  unfoldable pub below_ceiling : ApplyRequest → Exec (Option Reason)
  below_ceiling req =
      if r.max_concurrent == 0
      then pure none
      else catch (get_environment_by_project_branch r.runtime req.project req.branch)
          (λ _. pure none)
          (λ e. if is e not_found then reserve req else raise (wrap "admission lookup" e))

  -- `some` is the reason to skip the event
  unfoldable pub admit : GitEvent → ApplyRequest → Exec (Option Reason)
  unfolding below_ceiling
  admit ev req =
      let d = decide r.text.path_match r.text.equal_fold r.policy ev in
      if d.allowed then below_ceiling req else pure d.reason

  unfoldable pub apply_without_event : ApplyRequest → Exec (Unit {0})
  unfolding error_of
  apply_without_event req = do
    env ← wrapped "reconciler: webhook apply" (upsert_pending_environment r req)
    o ← do_apply r env req
    error_of o

  unfoldable pub admitted : ApplyRequest → Option Reason → Exec (Unit {0})
  admitted req (some reason) = pure tt
  admitted req none = apply_without_event req

  unfoldable pub pushed : GitEvent → Exec (Unit {0})
  pushed ev =
      let req = apply_request_from_event ev (normalized_branch r ev.branch 63) in
      do reason ← admit ev req; admitted req reason

  unfoldable pub closed : GitEvent → Exec (Unit {0})
  closed ev =
      catch (get_environment_by_project_branch r.runtime ev.project ev.branch)
        (destroy_without_event r) (λ e. if is e not_found then pure tt else raise e)

  unfoldable pub process_webhook_event : GitEvent → Exec (Unit {0})
  unfolding pushed closed admitted
  process_webhook_event ev =
      if str_eq ev.kind "branch_pushed" || str_eq ev.kind "pr_synchronized"
      then pushed ev
      else if str_eq ev.kind "pr_closed" || str_eq ev.kind "branch_deleted"
      then closed ev
      else raise (other "unsupported webhook event kind")

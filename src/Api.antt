-- ===== src/Api.antt =====
-- The control API's handlers of one environment (internal/api/handlers.go), after the request has been
-- read: a body that could not be decoded is `err`.
pub mod Inbox
pub mod Listing
pub mod Guards
pub mod Gateway
pub mod Sockets
pub mod Health
use Prim.Native.String
use ramify.Prelude.{ℕ, String, ◌||◌, ltb, str_eq, if◌then◌else◌, Option, none, some, List}
use ramify.Errors.{Err, is, not_found, invalid_environment_action}
use ramify.Provider.{Result, ok, err, GitEvent}
use ramify.World.{Exec, pure, catch, ◌>>=◌}
use ramify.Store.Types.{Environment}
use ramify.Store.Environments.{get_environment}
use ramify.Core.Reconciler.{Reconciler, ApplyRequest, normalized_branch}
use ramify.Core.Apply
use ramify.Core.Destroy
use ramify.Core.SleepWake

-- A status with its body: none, the message of writeError (with the error that it shows), an
-- environment, a page with the offset of the next one, or a text.
pub data Response : Type 0 where
  empty : ℕ → Response
  failure : ℕ → String → Response
  failure_of : ℕ → String → Err → Response
  one_environment : ℕ → Environment → Response
  page : List Environment → Option ℕ → Response
  plain_text : String → Response

-- `parse_webhook` takes the payload and the signature; `logs` is none where the deploy provider has
-- no such method.
pub record Server : Type 0 where
  pub reconciler : Reconciler
  pub parse_webhook : String → String → Result GitEvent
  pub logs : Option (String → Result String)
  pub subdomain_max : ℕ
  pub queue_capacity : ℕ

pub record CreateRequest : Type 0 where
  pub project : String
  pub branch : String
  pub subdomain : String
  pub artifact_ref : String
  pub pr_number : ℕ

module _ (s : Server) where
  unfoldable pub lookup_environment : String → (Environment → Exec Response) → Exec Response
  lookup_environment id handler = catch (get_environment s.reconciler.runtime id) handler (λ e.
      pure (
        if is e not_found
        then failure 404 "environment not found"
        else failure 500 "looking up environment"))

  unfoldable pub handle_get_environment : String → Exec Response
  handle_get_environment id = lookup_environment id (λ env. pure (one_environment 200 env))

  -- what the handlers make of Apply
  unfoldable pub answer_apply : ℕ → String → Apply.Outcome → Exec Response
  answer_apply code text (env, none) = pure (one_environment code env)
  answer_apply code text (env, some e) = pure (failure_of 500 text e)

  unfoldable pub apply_and_answer : ℕ → String → ApplyRequest → Exec Response
  unfolding answer_apply
  apply_and_answer code text req = do o ← Apply.apply s.reconciler req; answer_apply code text o

  unfoldable pub requested_subdomain : CreateRequest → String
  requested_subdomain body =
      if str_eq body.subdomain ""
      then normalized_branch s.reconciler body.branch s.subdomain_max
      else normalized_branch s.reconciler body.subdomain s.subdomain_max

  unfoldable pub handle_create_environment : Result CreateRequest → Exec Response
  unfolding requested_subdomain
  handle_create_environment (err e) = pure (failure 400 "invalid request body")
  handle_create_environment (ok body) =
      if str_eq body.project "" || str_eq body.branch "" || str_eq body.artifact_ref ""
      then pure (failure 400 "project, branch, and artifact_ref are required")
      else if ltb 256 (String.len body.project)
          || ltb 256 (String.len body.branch)
          || ltb 1024 (String.len body.artifact_ref)
          || ltb 63 (String.len body.subdomain)
      then pure (failure 400 "request fields exceed maximum length")
      else apply_and_answer 201 "creating environment: " (record {
        project = body.project;
        branch = body.branch;
        pr_number = body.pr_number;
        subdomain = requested_subdomain body;
        artifact_ref = body.artifact_ref;
      })

  -- the environment as it is, with another artifact
  unfoldable pub redeploy_request : Environment → String → ApplyRequest
  redeploy_request env artifact_ref = record {
    project = env.project;
    branch = env.branch;
    pr_number = env.pr_number;
    subdomain = env.subdomain;
    artifact_ref = artifact_ref;
  }

  unfoldable pub update_with : Result String → Environment → Exec Response
  unfolding redeploy_request
  update_with (err e) env = pure (failure 400 "invalid request body")
  update_with (ok artifact_ref) env =
      if str_eq artifact_ref ""
      then pure (failure 400 "artifact_ref is required")
      else if ltb 1024 (String.len artifact_ref)
      then pure (failure 400 "artifact_ref exceeds maximum length")
      else apply_and_answer 200 "updating environment: " (redeploy_request env artifact_ref)

  unfoldable pub handle_update_environment : String → Result String → Exec Response
  unfolding update_with
  handle_update_environment id body = lookup_environment id (update_with body)

  unfoldable pub handle_delete_environment : String → Exec Response
  handle_delete_environment id = lookup_environment id (λ env.
      catch (Destroy.destroy s.reconciler env) (λ _. pure (empty 204))
        (λ e. pure (failure_of 500 "destroying environment: " e)))

  unfoldable pub roll_back_to_good : Environment → Exec Response
  unfolding redeploy_request
  roll_back_to_good env =
      if str_eq env.last_good_artifact_ref ""
      then pure (failure 409 "environment has no known-good revision to roll back to")
      else apply_and_answer 200 "rolling back environment: "
          (redeploy_request env env.last_good_artifact_ref)

  unfoldable pub handle_rollback_environment : String → Exec Response
  unfolding roll_back_to_good
  handle_rollback_environment id = lookup_environment id roll_back_to_good

  -- a refused action is a conflict
  unfoldable pub answer_action : String → Exec Environment → Exec Response
  answer_action text action =
      catch action (λ env. pure (one_environment 200 env))
        (λ e.
          pure (
            if is e invalid_environment_action then failure_of 409 "" e else failure_of 500 text e))

  unfoldable pub handle_sleep_environment : String → Exec Response
  handle_sleep_environment id =
      lookup_environment id
        (λ env. answer_action "sleeping environment: " (SleepWake.sleep s.reconciler env))

  unfoldable pub handle_wake_environment : String → Exec Response
  handle_wake_environment id =
      lookup_environment id
        (λ env. answer_action "waking environment: " (SleepWake.wake s.reconciler env))

  unfoldable pub answer_logs : Result String → Response
  answer_logs (ok text) = plain_text text
  answer_logs (err e) = failure_of 500 "fetching logs: " e

  unfoldable pub logs_of : Option (String → Result String) → Environment → Response
  unfolding answer_logs
  logs_of none env = failure 501 "the configured deploy provider does not support log retrieval"
  logs_of (some fetch) env = answer_logs (fetch env.deploy_ref)

  unfoldable pub handle_logs : String → Exec Response
  unfolding logs_of
  handle_logs id = lookup_environment id (λ env. pure (
      if str_eq env.deploy_ref ""
      then failure 409 "environment has no deployment"
      else logs_of s.logs env))

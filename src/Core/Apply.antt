-- ===== src/Core/Apply.antt =====
-- Apply (internal/core/reconciler.go): deploy, readiness, DNS, certificate, publication, with
-- retries and the rollback. A function that returns an environment beside an error gives both.
pub mod Publication
pub mod Journal
pub mod Ordering
pub mod Traces
use Prim.Native.String
use ramify.Prelude.{
  ℕ, zero, suc, ◌+◌, ◌&&◌, ◌||◌, not, String, Bool, true, false, Option, none, some, List, [], ◌∷◌,
  any, ltb, ◌==◌, str_eq, if◌then◌else◌,
}
use ramify.Errors.{Err, is, not_found, wrap, join}
use ramify.Provider.{Result, ok, err, Deployment, DnsRecord}
use ramify.World.{Exec, pure, raise, catch, wrapped, logged, read_clock, clock_sleep, ◌>>=◌, ◌>>◌}
use ramify.Store.Types.{
  Environment, zero_environment, zero_event, Event, pending, deploying, ready, failed, degraded,
  same_status, DnsRow,
}
use ramify.Store.Environments.{
  create_environment, get_environment_by_project_branch, update_environment,
}
use ramify.Store.DnsRows.{create_dns_record, list_dns_records}
use ramify.Store.Events.{create_event, mark_event_processed}
use ramify.Core.Reconciler.{
  Reconciler, ApplyRequest, ownership_tag, fqdn, deploy_apply, ensure_record, ensure_certificate,
  install_certificate, notify,
}
use ramify.Core.Readiness.{wait_until_healthy}
use ramify.Core.Retry.{schedule_retry, apply_backoff, max_apply_attempts}

abbrev pub Outcome : Type 0
Outcome = Environment × Option Err

module _ (r : Reconciler) where
  unfoldable pub record_dns_row : String → DnsRecord → Exec (Unit {0})
  record_dns_row environment_id rec = do
    existing ← wrapped "listing dns records" (list_dns_records r.runtime environment_id)
    if any (λ row. str_eq row.name rec.name) existing then pure tt else (do
      _ ← wrapped "recording dns record" (
          create_dns_record r.runtime (record {
            id = "";
            environment_id = environment_id;
            record_type = rec.record_type;
            name = rec.name;
            value = rec.value;
            ownership_tag = rec.ownership_tag;
            created_at = 0;
          }))
      pure tt)

  -- attemptApply up to the row of the DNS record
  unfoldable pub prepare : Environment → ApplyRequest → String → String → Exec Deployment
  prepare env req name tag = do
    deployment ← wrapped "deploy apply" (
        deploy_apply r (record {
          project = req.project;
          branch = req.branch;
          subdomain = req.subdomain;
          artifact_ref = req.artifact_ref;
          previous_ref = env.deploy_ref;
        }))
    wrapped "readiness check" (wait_until_healthy r deployment.ref)
    let rec : DnsRecord = record {
      zone = r.base_domain;
      name = name;
      record_type = "A";
      value = deployment.internal_addr;
      ownership_tag = tag;
    }
    wrapped "dns ensure record" (ensure_record r rec)
    cert ← wrapped "ensure certificate" (ensure_certificate r name)
    wrapped "install certificate" (install_certificate r name cert)
    record_dns_row env.id rec
    pure deployment

  unfoldable pub refresh_ttl : Environment → Exec Environment
  refresh_ttl env =
      if r.default_ttl == 0
      then pure env
      else (do now ← read_clock; pure (record env { ttl_expires_at = some (now + r.default_ttl) }))

  -- the last step of attemptApply, which returns what UpdateEnvironment returned
  unfoldable pub publish : Environment → ApplyRequest → Deployment → Exec Outcome
  unfolding refresh_ttl
  publish env req deployment = do
    up ← refresh_ttl (record env {
      deploy_ref = deployment.ref;
      status = ready;
      last_good_artifact_ref = req.artifact_ref;
      last_good_deploy_ref = deployment.ref;
    })
    catch (update_environment r.runtime up) (λ stored. pure (stored, none))
        (λ e. pure (zero_environment, some (wrap "marking environment ready" e)))

  unfoldable pub attempt_apply : Environment → ApplyRequest → String → String → Exec Outcome
  attempt_apply env req name tag =
      catch (prepare env req name tag) (publish env req) (λ e. pure (env, some e))

  unfoldable pub back_off : ℕ → Exec (Unit {0})
  back_off attempt = if ltb 1 attempt then clock_sleep (apply_backoff attempt) else pure tt

  unfoldable pub unless_done : Outcome → (Environment → Err → Exec Outcome) → Exec Outcome
  unless_done (env, none) retry = pure (env, none)
  unless_done (env, some e) retry = retry env e

  -- The loop of doApply: `n` attempts are left, `attempt` is the number of the next one and `last`
  -- the error of the one before.
  unfoldable pub attempts :
      ℕ → ℕ → Environment → Option Err → ApplyRequest → String → String → Exec Outcome
  unfolding back_off unless_done
  attempts zero attempt env last req name tag = pure (env, last)
  attempts (suc n) attempt env last req name tag = do
    back_off attempt
    o ← attempt_apply env req name tag
    unless_done o (λ env' e. attempts n (attempt + 1) env' (some e) req name tag)

  -- the environment is marked failed, whatever becomes of the write
  unfoldable pub fail : Environment → ApplyRequest → Err → Exec Outcome
  fail env req e = do
    logged (update_environment r.runtime (record env { status = failed }))
    notify r req.project req.pr_number (record { kind = "failed"; url = ""; detail = some e })
    pure (zero_environment, some (wrap "apply failed" e))

  -- the rollback has come up: it is marked degraded, under the revision that was asked for
  unfoldable pub degrade : Environment → ApplyRequest → Err → Exec Outcome
  degrade rolled_back req e = do
    marked ←
        catch
          (update_environment r.runtime
            (record rolled_back { status = degraded; artifact_ref = req.artifact_ref }))
          pure (λ _. pure zero_environment)
    notify r req.project req.pr_number (record { kind = "degraded"; url = ""; detail = some e })
    pure (marked, some (wrap "apply failed, rolled back" e))

  unfoldable pub after_rollback : Environment → ApplyRequest → Err → Outcome → Exec Outcome
  after_rollback env req e (rolled_back, none) = degrade rolled_back req e
  after_rollback env req e (_, some e') =
      fail env req (join (wrap "update failed" e) (wrap "rollback also failed" e'))

  -- doApply after the last attempt
  unfoldable pub roll_back : Environment → ApplyRequest → String → String → Err → Exec Outcome
  unfolding after_rollback
  roll_back env req name tag e =
      if not (str_eq env.last_good_artifact_ref "")
        && not (str_eq env.last_good_artifact_ref req.artifact_ref)
      then (do
        o ← attempt_apply env (record req { artifact_ref = env.last_good_artifact_ref }) name tag
        after_rollback env req e o)
      else fail env req e

  -- whether the environment was up before
  unfoldable pub is_update : Environment → Bool
  is_update env =
      same_status env.status ready
      || same_status env.status degraded
      || not (str_eq env.deploy_ref "")

  unfoldable pub concluded : Bool → ApplyRequest → String → String → Outcome → Exec Outcome
  concluded update req name tag (env, none) = do
    notify r req.project req.pr_number (record {
      kind = if update then "updated" else "ready";
      url = String.◌++◌ "https://" name;
      detail = none;
    })
    pure (env, none)
  concluded update req name tag (env, some e) = roll_back env req name tag e

  unfoldable pub do_apply : Environment → ApplyRequest → Exec Outcome
  unfolding concluded
  do_apply env req =
      catch
        (update_environment r.runtime (record env {
          pr_number = req.pr_number;
          subdomain = req.subdomain;
          artifact_ref = req.artifact_ref;
          status = deploying;
        }))
        (λ marked.
          let name = fqdn r req.subdomain in
          let tag = ownership_tag r req.project req.branch in
          do
            o ← attempts max_apply_attempts 1 marked none req name tag
            concluded (is_update env) req name tag o)
        (λ e. pure (zero_environment, some (wrap "marking environment deploying" e)))

  unfoldable pub upsert_pending_environment : ApplyRequest → Exec Environment
  upsert_pending_environment req =
      catch (get_environment_by_project_branch r.runtime req.project req.branch) pure (λ e.
        if is e not_found
        then create_environment r.runtime (record zero_environment {
          project = req.project;
          branch = req.branch;
          pr_number = req.pr_number;
          subdomain = req.subdomain;
          artifact_ref = req.artifact_ref;
          status = pending;
        })
        else raise (wrap "looking up environment" e))

  unfoldable pub mark_processed : Event → Exec (Unit {0})
  mark_processed ev = logged (do now ← read_clock; mark_event_processed r.runtime ev.id now)

  unfoldable pub lift : Result String → Exec String
  lift (ok s) = pure s
  lift (err e) = raise e

  unfoldable pub log_event : String → String → Result String → Exec Event
  unfolding lift
  log_event kind environment_id payload = do
    text ← lift payload
    create_event r.runtime
        (record zero_event { environment_id = environment_id; kind = kind; payload = text })

  unfoldable pub settle : Event → Outcome → Exec Outcome
  settle ev (env, none) = do mark_processed ev; pure (env, none)
  settle ev (env, some e) = do schedule_retry r ev e; pure (env, some e)

  unfoldable pub start_apply : ApplyRequest → Exec (Environment × Event)
  start_apply req = do
    env ← upsert_pending_environment req
    ev ← log_event "apply_requested" env.id (r.codec.marshal_apply req)
    pure (env, ev)

  -- Apply: the lock of the branch is held throughout
  unfoldable pub apply : ApplyRequest → Exec Outcome
  unfolding start_apply settle
  apply req =
      catch (start_apply req) (λ started. do o ← do_apply started.0 req; settle started.1 o)
        (λ e. pure (zero_environment, some (wrap "reconciler: apply" e)))

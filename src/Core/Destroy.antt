-- ===== src/Core/Destroy.antt =====
-- Destroy and doDestroy (internal/core/reconciler.go): every step of the teardown is tried.
pub mod Teardown
pub mod Steps
pub mod Completion
use ramify.Prelude.{
  ℕ, String, Bool, true, false, Option, none, some, List, [], ◌∷◌, ◌++◌, str_eq, if◌then◌else◌,
}
use ramify.Errors.{Err, is, record_already_absent, wrap, join_all}
use ramify.Provider.{DnsRecord}
use ramify.World.{Exec, pure, raise, catch, wrapped, ◌>>=◌, ◌>>◌}
use ramify.Store.Types.{Environment, DnsRow, Event, destroying, destroyed, same_status}
use ramify.Store.Environments.{update_environment}
use ramify.Store.DnsRows.{list_dns_records, delete_dns_record}
use ramify.Core.Reconciler.{
  Reconciler, fqdn, delete_record, revoke_certificate, remove_certificate, deploy_destroy, notify,
}
use ramify.Core.Retry.{schedule_retry}
use ramify.Core.Apply.{log_event, mark_processed}

-- `if err != nil { errs = append(errs, ...) }`
abbrev pub collect : String → Exec (Unit {0}) → Exec (List Err)
collect text m = catch m (λ _. pure []) (λ e. pure (wrap text e ∷ []))

module _ (r : Reconciler) where
  unfoldable pub provider_record : DnsRow → DnsRecord
  provider_record row = record {
    zone = r.base_domain;
    name = row.name;
    record_type = row.record_type;
    value = row.value;
    ownership_tag = row.ownership_tag;
  }

  unfoldable pub drop_row : DnsRow → Exec (List Err)
  drop_row row = collect "removing dns record row" (delete_dns_record r.runtime row.id)

  -- a record that is still there keeps its row
  unfoldable pub tear_down_record : DnsRow → Exec (List Err)
  unfolding provider_record drop_row
  tear_down_record row =
      catch (delete_record r (provider_record row)) (λ _. drop_row row)
        (λ e.
          if is e record_already_absent
          then drop_row row
          else pure (wrap "deleting dns record" e ∷ []))

  unfoldable pub tear_down_records : List DnsRow → Exec (List Err)
  tear_down_records [] = pure []
  tear_down_records (row ∷ rows) = do
    here ← tear_down_record row
    later ← tear_down_records rows
    pure (here ++ later)

  unfoldable pub listed_rows : String → Exec (List DnsRow × List Err)
  listed_rows id =
      catch (list_dns_records r.runtime id) (λ rows. pure (rows, []))
        (λ e. pure ([], wrap "listing dns records" e ∷ []))

  unfoldable pub destroy_deployment : Environment → Exec (List Err)
  destroy_deployment env =
      if str_eq env.deploy_ref ""
      then pure []
      else collect "destroying deployment" (deploy_destroy r env.deploy_ref)

  -- what doDestroy does with the errors that it gathered
  unfoldable pub conclude : Environment → List Err → Exec (Unit {0})
  conclude env (e ∷ errs) = raise (wrap "doDestroy" (join_all e errs))
  conclude env [] = do
    _ ←
        wrapped "marking environment destroyed"
          (update_environment r.runtime (record env { status = destroyed }))
    notify r env.project env.pr_number (record { kind = "destroyed"; url = ""; detail = none })

  -- every step of the teardown, with the errors of those that failed
  unfoldable pub tear_down : Environment → Exec (List Err)
  unfolding listed_rows destroy_deployment
  tear_down env = do
    listed ← listed_rows env.id
    records ← tear_down_records listed.0
    revoked ← collect "revoking certificate" (revoke_certificate r (fqdn r env.subdomain))
    removed ← collect "removing deployed certificate" (remove_certificate r (fqdn r env.subdomain))
    gone ← destroy_deployment env
    pure (listed.1 ++ (records ++ (revoked ++ (removed ++ gone))))

  unfoldable pub do_destroy : Environment → Exec (Unit {0})
  do_destroy env = do errs ← tear_down env; conclude env errs

  unfoldable pub mark_destroying : Environment → Exec Environment
  mark_destroying env =
      if same_status env.status destroying
      then pure env
      else update_environment r.runtime (record env { status = destroying })

  unfoldable pub destroy_without_event : Environment → Exec (Unit {0})
  destroy_without_event env = do
    marked ← wrapped "marking environment destroying" (mark_destroying env)
    do_destroy marked

  -- Destroy: the lock of the branch is held throughout
  unfoldable pub destroy : Environment → Exec (Unit {0})
  destroy env = wrapped "reconciler: destroy" (do
    ev ← log_event r "destroy_requested" env.id (r.codec.marshal_target env.project env.branch)
    marked ← wrapped "marking destroying" (mark_destroying env)
    catch (do_destroy marked) (λ _. mark_processed r ev) (λ e. schedule_retry r ev e >> raise e))

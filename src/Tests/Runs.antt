-- ===== src/Tests/Runs.antt =====
-- Runs of the model at concrete inputs, with what they return.
use ramify.Prelude.{
  ◌≡◌, refl, ap, arith, clash, eq_iff, inl, inr, true, false, some, find_first, keep, update_where,
}
use ramify.Errors.{other, wrap, sentinel, invalid_transition}
use ramify.Provider.{ok, err}
use ramify.World.{
  World, call, pure, raise, catch, wrapped, logged, statement, read_clock, row_id, fresh_id,
  context_error, ◌>>=◌, ◌>>◌,
}
use ramify.Store.Types.{ready, destroying, destroyed, same_status, zero_environment}
use ramify.Store.Tables.{has_id, branch_clash, order_by, refers, is_due}
use ramify.Store.Transitions.{can_transition, validate_transition}
use ramify.Store.Environments.{update_environment, get_environment, update_transaction}
use ramify.Store.DnsRows.{list_dns_records, create_dns_record, insert_dns_row}
use ramify.Store.Events.{claim_event, event_is}
use ramify.Core.Reconciler.{
  fqdn, deploy_apply, health_check, ensure_record, ensure_certificate, install_certificate,
  revoke_certificate, remove_certificate, deploy_destroy, notify,
}
use ramify.Core.Readiness.{wait_until_healthy, poll, poll_fuel, finished}
use ramify.Core.Apply.{attempt_apply, prepare, publish, refresh_ttl, record_dns_row}
use ramify.Core.Destroy.{
  do_destroy, tear_down, tear_down_records, conclude, listed_rows, destroy_deployment,
}
use ramify.Core.Destroy.Steps.{TornDown}
use ramify.Tests.Fixtures.{reconciler, environment, world, request, runtime}

-- a teardown that the providers carry out
pub clean_teardown :
    (do_destroy (reconciler true true) (environment destroying) (world destroying)).0 ≡ ok tt
unfolding do_destroy tear_down conclude listed_rows list_dns_records tear_down_records
    destroy_deployment revoke_certificate remove_certificate deploy_destroy fqdn notify logged
    update_environment update_transaction get_environment order_by keep find_first
    validate_transition can_transition branch_clash call wrapped statement pure catch ◌>>=◌ has_id
    same_status update_where
clean_teardown = refl

-- a teardown that the deploy provider does not carry out
pub failed_teardown :
    (w' : World)
    → TornDown (reconciler true false) (environment destroying) (world destroying) w'
    → ⊥
unfolding deploy_destroy call
failed_teardown w' t = elim t.destroys [
  | inl (none_there, same) ↦ clash ((eq_iff "ref" "").1 none_there) refl
  | inr ran ↦
      let refused : err (other "the provider is down") ≡ ok tt = ap (λ o. o.0) ran in
      absurd (ground arith)
]

-- a deployment whose environment has been destroyed meanwhile
pub late_attempt :
    (attempt_apply
      (reconciler true true)
      (environment ready)
      (request "main")
      "name"
      "tag"
      (world destroyed)).0
    ≡ ok (
      zero_environment,
      some (
          wrap "marking environment ready"
            (wrap "updating environment" (wrap "invalid move" (sentinel invalid_transition)))),
    )
unfolding attempt_apply prepare publish refresh_ttl deploy_apply health_check ensure_record
    ensure_certificate install_certificate wait_until_healthy poll poll_fuel finished record_dns_row
    list_dns_records create_dns_record insert_dns_row order_by keep refers update_environment
    update_transaction get_environment find_first validate_transition can_transition branch_clash
    context_error read_clock call wrapped statement pure raise catch ◌>>=◌ ◌>>◌ has_id same_status
    row_id fresh_id
late_attempt = refl

-- a first health check that reports a healthy deployment
pub healthy_at_once : (wait_until_healthy (reconciler true true) "ref" (world ready)).0 ≡ ok tt
unfolding wait_until_healthy poll poll_fuel finished health_check context_error read_clock call
    wrapped pure catch ◌>>=◌ ◌>>◌
healthy_at_once = refl

-- the first claim of an event
pub first_claim : (claim_event runtime "event" 1001 2000 (world ready)).0 ≡ ok true
unfolding claim_event event_is keep is_due wrapped statement pure catch ◌>>=◌
first_claim = refl

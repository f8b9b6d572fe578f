-- ===== src/Tests/Witnesses.antt =====
-- The theorems at concrete inputs.
use ramify.Prelude.{◌≡◌, ◌≢◌, refl, true, false, none, some, find_first, List, [], ◌∷◌, arith, keep}
use ramify.Provider.{ok, err}
use ramify.Errors.{Err}
use ramify.World.{World, Call, health_checked}
use ramify.Store.Types.{
  Environment, Event, ready, destroying, destroyed, sleeping, zero_environment,
}
use ramify.Store.Tables
use ramify.Store.Tables.{has_id}
use ramify.Store.Lifecycle.{Lives}
use ramify.Store.EventLog.{event_at, Grows}
use ramify.Store.Validity.{Distinct}
use ramify.Core.Operations.{Operation, run_all}
use ramify.Core.Histories.{run_all-Lives, run_all-Grows, run_all-Distinct}
use ramify.Tests.Runs.{clean_teardown, failed_teardown, healthy_at_once}
use ramify.Core.Destroy.{do_destroy}
use ramify.Core.Destroy.Steps.{TornDown}
use ramify.Core.Destroy.Completion.{partial_teardown, teardown_done}
use ramify.Store.Environments.Updates.{HasStatusOf}
use ramify.Core.Apply.{apply}
use ramify.Core.Apply.Journal.{InOrder}
use ramify.Core.Apply.Traces.{apply-InOrder}
use ramify.Core.Readiness.{poll, poll_fuel, wait_until_healthy}
use ramify.Core.Readiness.Termination.{poll_fuel_suffices, wait_healthy}
use ramify.Core.Webhook.{admit}
use ramify.Core.Webhook.Admission.{ceiling_holds}
use ramify.Store.Events.{claim_event}
use ramify.Policy.{decide, ceiling_reached}
use ramify.Tests.Fixtures.{reconciler, environment, event, world, push, request}

abbrev history : List Operation
history =
    Operation.apply (request "main") ∷ Operation.destroy (environment ready) ∷ Operation.replay ∷ []

run_all-Lives_example :
    let w = world ready in
    let w' = run_all (reconciler true true) history w in Lives w.past w.db w'.past w'.db
run_all-Lives_example = run_all-Lives (reconciler true true) history (world ready)

run_all-Grows_example :
    (b : Event) × (event_at "event" (run_all (reconciler true true) history (world ready)).db
      ≡ some b)
    × Grows event b
unfolding find_first ramify.Store.Events.event_is
run_all-Grows_example =
    run_all-Grows (reconciler true true) history (world ready) "event" event refl

run_all-Distinct_example :
    Distinct (run_all (reconciler true true) history (world ready)).db.environments
unfolding ramify.Store.Tables.environment_clash
run_all-Distinct_example = run_all-Distinct (reconciler true true) history (world ready) (refl, tt)

teardown_done_example :
    ((w' : World) × TornDown (reconciler true true) (environment destroying) (world destroying) w')
    × HasStatusOf
        (record (environment destroying) { status = destroyed })
        (do_destroy (reconciler true true) (environment destroying) (world destroying)).1.db
teardown_done_example =
    teardown_done (reconciler true true) (environment destroying) (world destroying) clean_teardown

partial_teardown_example :
    ((e : Err) × ((do_destroy (reconciler true false) (environment destroying) (world destroying)).0
        ≡ err e))
    × ((do_destroy
          (reconciler true false)
          (environment destroying)
          (world destroying)).1.db.environments
        ≡ (world destroying).db.environments)
partial_teardown_example =
    partial_teardown (reconciler true false) (environment destroying) (world destroying)
      failed_teardown

poll_fuel_suffices_example :
    (poll (reconciler false true) (poll_fuel (reconciler false true)) 1030 "ref" (world ready)).0
    ≢ ok none
poll_fuel_suffices_example =
    poll_fuel_suffices (reconciler false true) "ref" (world ready) (omega arith)

wait_healthy_example :
    (older : List Call) × ((wait_until_healthy (reconciler true true) "ref" (world ready)).1.journal
      ≡ health_checked "ref" true ∷ older)
wait_healthy_example = wait_healthy (reconciler true true) "ref" (world ready) healthy_at_once

ceiling_holds_example :
    ((admit (reconciler true true) (push "feature") (request "feature") (world ready)).0
      ≡ ok (some (ceiling_reached 1 1)))
    × ((admit (reconciler true true) (push "feature") (request "feature") (world ready)).1.db
        ≡ (world ready).db)
unfolding find_first decide ramify.Store.Tables.on_branch ramify.Policy.first_denied
    ramify.Policy.matches keep ramify.Store.Tables.is_live ramify.Store.Types.same_status
ceiling_holds_example =
    ceiling_holds (reconciler true true) (push "feature") (request "feature") (world ready) refl
      refl (omega arith) (omega arith) refl refl

apply-InOrder_example :
    InOrder (apply (reconciler true true) (request "main") (world ready)).1.journal
apply-InOrder_example = apply-InOrder (reconciler true true) (request "main") (world ready) tt

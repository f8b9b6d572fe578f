-- ===== src/Core/Process.antt =====
-- ProcessEvent (internal/core/reconciler.go): a durable event is claimed, dispatched by its kind, and
-- marked processed or scheduled for a retry.
pub mod Leases
use ramify.Prelude.{
  ℕ, suc, ◌+◌, ◌*◌, String, Bool, true, false, Option, none, some, List, [], ◌∷◌, str_eq,
  if◌then◌else◌,
}
use ramify.Errors.{Err, other, is, not_found, wrap, terminal_error}
use ramify.Provider.{Result, ok, err, GitEvent}
use ramify.World.{Exec, Metrics, pure, raise, catch, wrapped, count, read_clock, ◌>>=◌, ◌>>◌}
use ramify.Store.Types.{Environment, Event}
use ramify.Store.Environments.{get_environment}
use ramify.Store.Events.{claim_event, list_due_events}
use ramify.Core.Reconciler.{Reconciler, ApplyRequest}
use ramify.Core.Retry.{schedule_retry, second}
use ramify.Core.Apply.{do_apply, mark_processed}
use ramify.Core.Destroy.{do_destroy}
use ramify.Core.SleepWake.{do_sleep, do_wake}
use ramify.Core.Webhook.{error_of, process_webhook_event}

pub data Kind : Type 0 where
  apply_requested destroy_requested sleep_requested wake_requested webhook_received : Kind
  other_kind : Kind

unfoldable pub kind_of : String → Kind
kind_of s =
    if str_eq s "apply_requested"
    then apply_requested
    else if str_eq s "destroy_requested"
    then destroy_requested
    else if str_eq s "sleep_requested"
    then sleep_requested
    else if str_eq s "wake_requested"
    then wake_requested
    else if str_eq s "webhook_received"
    then webhook_received
    else other_kind

module _ (r : Reconciler) where
  -- a row that is gone stays gone
  unfoldable pub classify_lookup : Exec Environment → Exec Environment
  classify_lookup m = catch m pure (λ e.
      if is e not_found then raise (terminal_error (wrap "replay" e)) else raise (wrap "replay" e))

  unfoldable pub loaded : Event → Exec Environment
  loaded ev = classify_lookup (get_environment r.runtime ev.environment_id)

  -- the end of ProcessEvent
  unfoldable pub finish : Event → Exec (Unit {0}) → Exec (Unit {0})
  finish ev work =
      catch work
        (λ _.
          count (λ m. record m { reconciliations = m.reconciliations + 1 }) >> mark_processed r ev)
        (λ e.
          count (λ m. record m { reconciliation_failures = m.reconciliation_failures + 1 })
          >> schedule_retry r ev e)

  unfoldable pub replay_apply : Event → Result ApplyRequest → Exec (Unit {0})
  replay_apply ev (err e) =
      schedule_retry r ev (terminal_error (wrap "replay: bad apply payload" e))
  replay_apply ev (ok req) = finish ev (do env ← loaded ev; o ← do_apply r env req; error_of o)

  unfoldable pub replay_webhook : Result GitEvent → Exec (Unit {0})
  replay_webhook (err e) = raise (terminal_error (wrap "replay: bad webhook payload" e))
  replay_webhook (ok ev) = process_webhook_event r ev

  unfoldable pub dispatch : Kind → Event → Exec (Unit {0})
  unfolding loaded replay_apply replay_webhook
  dispatch apply_requested ev = replay_apply ev (r.codec.unmarshal_apply ev.payload)
  dispatch destroy_requested ev = finish ev (do env ← loaded ev; do_destroy r env)
  dispatch sleep_requested ev = finish ev (do env ← loaded ev; _ ← do_sleep r env; pure tt)
  dispatch wake_requested ev = finish ev (do env ← loaded ev; _ ← do_wake r env; pure tt)
  dispatch webhook_received ev = finish ev (replay_webhook (r.codec.unmarshal_webhook ev.payload))
  dispatch other_kind ev = schedule_retry r ev (terminal_error (other "replay: unknown event kind"))

  unfoldable pub claimed : Event → Exec Bool
  claimed ev = do now ← read_clock; claim_event r.runtime ev.id now (now + 600 * second)

  unfoldable pub process_event : Event → Exec (Unit {0})
  unfolding claimed kind_of
  process_event ev =
      catch (claimed ev) (λ won. if won then dispatch (kind_of ev.kind) ev else pure tt)
        (λ e. pure tt)

  -- ReplayEvents, in the order of the list
  unfoldable pub replay_events : List Event → Exec (Unit {0})
  replay_events [] = pure tt
  replay_events (ev ∷ rest) = process_event ev >> replay_events rest

  unfoldable pub replay_unprocessed_events : Exec (Unit {0})
  replay_unprocessed_events = do
    now ← read_clock
    events ← wrapped "reconciler: replay" (list_due_events r.runtime now 1000)
    replay_events events

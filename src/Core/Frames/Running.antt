-- ===== src/Core/Frames/Running.antt =====
-- The lifting for every other operation of internal/core.
use ramify.Prelude.{ℕ, String, Option, none, some, List, [], ◌∷◌}
use ramify.Errors.{Err}
use ramify.Provider.{Result, ok, err, GitEvent}
use ramify.World.Moves.{Moves, Moves-pure, Moves-raise, Moves-if, Moves-bind, Moves-then}
use ramify.Core.Apply.{Outcome}
use ramify.Store.Types.{Environment, Event, DnsRow}
use ramify.Store.Frames.{StoreFrame, tables}
use ramify.Core.Reconciler.{Reconciler, ApplyRequest}
use ramify.Core.Frames.Applying.{apply_rules}
use ramify.Core.Destroy.{
  tear_down_record, tear_down_records, listed_rows, destroy_deployment, tear_down, conclude,
  do_destroy, mark_destroying, destroy_without_event, destroy,
}
use ramify.Core.SleepWake.{do_sleep, do_wake, sleep, wake}
use ramify.Policy.{Reason}
use ramify.World.{Exec}
use ramify.Core.Webhook.{
  error_of, reserve, below_ceiling, admit, apply_without_event, admitted, pushed, closed,
  process_webhook_event,
}
use ramify.Core.Process.{
  Kind, classify_lookup, finish, loaded, replay_apply, replay_webhook, dispatch, claimed,
  process_event, replay_events, replay_unprocessed_events,
}
use ramify.Core.Reaper.{destroy_all, cleanup_failed, report, sweep}
use ramify.Core.Process.{
  apply_requested, destroy_requested, sleep_requested, wake_requested, webhook_received, other_kind,
}

module _ (f : StoreFrame) (r : Reconciler) where
  tear_down_record-Moves : (row : DnsRow) → Moves (tables f) (tear_down_record r row)
  unfolding tear_down_record
  tear_down_record-Moves row = search apply_rules depth 10

  tear_down_records-Moves : (rows : List DnsRow) → Moves (tables f) (tear_down_records r rows)
  unfolding tear_down_records
  tear_down_records-Moves [] = Moves-pure []
  tear_down_records-Moves (row ∷ rows) =
      Moves-bind _ _ (tear_down_record-Moves row)
        (λ here. Moves-bind _ _ (tear_down_records-Moves rows) (λ later. Moves-pure _))

  listed_rows-Moves : (id : String) → Moves (tables f) (listed_rows r id)
  unfolding listed_rows
  listed_rows-Moves id = search apply_rules depth 8

  destroy_deployment-Moves : (env : Environment) → Moves (tables f) (destroy_deployment r env)
  unfolding destroy_deployment
  destroy_deployment-Moves env = search apply_rules depth 8

  tear_down-Moves : (env : Environment) → Moves (tables f) (tear_down r env)
  unfolding tear_down
  tear_down-Moves env =
      search (apply_rules, listed_rows-Moves, tear_down_records-Moves, destroy_deployment-Moves)
        depth 14

  conclude-Moves : (env : Environment) (errs : List Err) → Moves (tables f) (conclude r env errs)
  unfolding conclude
  conclude-Moves env [] = search apply_rules depth 8
  conclude-Moves env (e ∷ errs) = Moves-raise _

  do_destroy-Moves : (env : Environment) → Moves (tables f) (do_destroy r env)
  unfolding do_destroy
  do_destroy-Moves env = search (apply_rules, tear_down-Moves, conclude-Moves)

  mark_destroying-Moves : (env : Environment) → Moves (tables f) (mark_destroying r env)
  unfolding mark_destroying
  mark_destroying-Moves env = search apply_rules

  destroy_without_event-Moves : (env : Environment) → Moves (tables f) (destroy_without_event r env)
  unfolding destroy_without_event
  destroy_without_event-Moves env = search (apply_rules, mark_destroying-Moves, do_destroy-Moves)

  pub Moves-destroy : (env : Environment) → Moves (tables f) (destroy r env)
  unfolding destroy
  Moves-destroy env = search (apply_rules, mark_destroying-Moves, do_destroy-Moves) depth 10

  do_sleep-Moves : (env : Environment) → Moves (tables f) (do_sleep r env)
  unfolding do_sleep
  do_sleep-Moves env = search apply_rules depth 8

  do_wake-Moves : (env : Environment) → Moves (tables f) (do_wake r env)
  unfolding do_wake
  do_wake-Moves env = search apply_rules depth 8

  pub Moves-sleep : (env : Environment) → Moves (tables f) (sleep r env)
  unfolding sleep
  Moves-sleep env = search (apply_rules, do_sleep-Moves) depth 10

  pub Moves-wake : (env : Environment) → Moves (tables f) (wake r env)
  unfolding wake
  Moves-wake env = search (apply_rules, do_wake-Moves) depth 10

  error_of-Moves : (o : Outcome) → Moves (tables f) (error_of o)
  unfolding error_of
  error_of-Moves (env, none) = Moves-pure tt
  error_of-Moves (env, some e) = Moves-raise e

  reserve-Moves : (req : ApplyRequest) → Moves (tables f) (reserve r req)
  unfolding reserve
  reserve-Moves req = search apply_rules depth 10

  below_ceiling-Moves : (req : ApplyRequest) → Moves (tables f) (below_ceiling r req)
  unfolding below_ceiling
  below_ceiling-Moves req = search (apply_rules, reserve-Moves) depth 10

  admit-Moves : (ev : GitEvent) (req : ApplyRequest) → Moves (tables f) (admit r ev req)
  unfolding admit
  admit-Moves ev req = search (apply_rules, below_ceiling-Moves)

  apply_without_event-Moves : (req : ApplyRequest) → Moves (tables f) (apply_without_event r req)
  unfolding apply_without_event
  apply_without_event-Moves req = search (apply_rules, error_of-Moves) depth 8

  admitted-Moves : (req : ApplyRequest) (o : Option Reason) → Moves (tables f) (admitted r req o)
  unfolding admitted
  admitted-Moves req none = apply_without_event-Moves req
  admitted-Moves req (some reason) = Moves-pure tt

  pushed-Moves : (ev : GitEvent) → Moves (tables f) (pushed r ev)
  unfolding pushed
  pushed-Moves ev = search (apply_rules, admit-Moves, admitted-Moves)

  closed-Moves : (ev : GitEvent) → Moves (tables f) (closed r ev)
  unfolding closed
  closed-Moves ev = search (apply_rules, destroy_without_event-Moves) depth 8

  process_webhook_event-Moves : (ev : GitEvent) → Moves (tables f) (process_webhook_event r ev)
  unfolding process_webhook_event
  process_webhook_event-Moves ev =
      Moves-if _ _ _ (pushed-Moves ev) (Moves-if _ _ _ (closed-Moves ev) (Moves-raise _))

  loaded-Moves : (ev : Event) → Moves (tables f) (loaded r ev)
  unfolding loaded classify_lookup
  loaded-Moves ev = search apply_rules depth 8

  finish-Moves :
      (ev : Event) (m : Exec (Unit {0})) → Moves (tables f) m → Moves (tables f) (finish r ev m)
  unfolding finish
  finish-Moves ev m p = search apply_rules depth 8

  replay_apply-Moves :
      (ev : Event) (o : Result ApplyRequest) → Moves (tables f) (replay_apply r ev o)
  unfolding replay_apply
  replay_apply-Moves ev (ok req) =
      search (apply_rules, finish-Moves, loaded-Moves, error_of-Moves) depth 8
  replay_apply-Moves ev (err e) = search apply_rules

  replay_webhook-Moves : (o : Result GitEvent) → Moves (tables f) (replay_webhook r o)
  unfolding replay_webhook
  replay_webhook-Moves (ok ev) = process_webhook_event-Moves ev
  replay_webhook-Moves (err e) = Moves-raise _

  dispatch-Moves : (k : Kind) (ev : Event) → Moves (tables f) (dispatch r k ev)
  unfolding dispatch
  dispatch-Moves apply_requested ev = replay_apply-Moves ev _
  dispatch-Moves destroy_requested ev =
      search (apply_rules, finish-Moves, loaded-Moves, do_destroy-Moves) depth 8
  dispatch-Moves sleep_requested ev =
      search (apply_rules, finish-Moves, loaded-Moves, do_sleep-Moves) depth 8
  dispatch-Moves wake_requested ev =
      search (apply_rules, finish-Moves, loaded-Moves, do_wake-Moves) depth 8
  dispatch-Moves webhook_received ev = finish-Moves ev _ (replay_webhook-Moves _)
  dispatch-Moves other_kind ev = search apply_rules

  claimed-Moves : (ev : Event) → Moves (tables f) (claimed r ev)
  unfolding claimed
  claimed-Moves ev = search apply_rules

  pub Moves-process_event : (ev : Event) → Moves (tables f) (process_event r ev)
  unfolding process_event
  Moves-process_event ev = search (apply_rules, claimed-Moves, dispatch-Moves) depth 8

  pub replay_events-Moves : (evs : List Event) → Moves (tables f) (replay_events r evs)
  unfolding replay_events
  replay_events-Moves [] = Moves-pure tt
  replay_events-Moves (ev ∷ evs) = Moves-then _ _ (Moves-process_event ev) (replay_events-Moves evs)

  pub Moves-replay : Moves (tables f) (replay_unprocessed_events r)
  unfolding replay_unprocessed_events
  Moves-replay = search (apply_rules, replay_events-Moves) depth 8

  destroy_all-Moves : (envs : List Environment) → Moves (tables f) (destroy_all r envs)
  unfolding destroy_all
  destroy_all-Moves [] = Moves-pure []
  destroy_all-Moves (env ∷ envs) =
      Moves-bind _ _ (search (apply_rules, Moves-destroy) depth 8)
        (λ here. Moves-bind _ _ (destroy_all-Moves envs) (λ later. Moves-pure _))

  cleanup_failed-Moves : (n : ℕ) → Moves (tables f) (cleanup_failed r n)
  unfolding cleanup_failed
  cleanup_failed-Moves n = search apply_rules

  report-Moves : (errs : List Err) → Moves (tables f) (report r errs)
  unfolding report
  report-Moves [] = Moves-pure tt
  report-Moves (e ∷ errs) = search (apply_rules, cleanup_failed-Moves)

  pub Moves-sweep : Moves (tables f) (sweep r)
  unfolding sweep
  Moves-sweep = search (apply_rules, destroy_all-Moves, report-Moves) depth 10

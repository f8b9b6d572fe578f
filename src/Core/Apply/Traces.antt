-- ===== src/Core/Apply/Traces.antt =====
-- The order of the calls of Apply (internal/core/reconciler.go).
use ramify.Prelude.{ℕ, zero, suc, ◌+◌, String, Bool, Option, none, some}
use ramify.Errors.{Err}
use ramify.Provider.{Result, ok, err, NotifyEvent}
use ramify.World.{World, Exec, note, event_logged, notified, succeeded}
use ramify.World.Moves.{Moves, Moves-pure, Moves-raise, Moves-bind, Moves-then, Moves-logged}
use ramify.Store.Types.{Environment, Event}
use ramify.Store.Environments.{
  create_environment, get_environment_by_project_branch, update_environment, get_environment,
}
use ramify.Store.Events.{
  create_event, mark_event_processed, mark_event_retry, mark_event_dead_lettered,
}
use ramify.Core.Reconciler.{Reconciler, ApplyRequest, notify}
use ramify.Core.Retry.{schedule_retry, draw_delay}
use ramify.Core.Apply.Journal.{InOrder, ordered, ordered_rules, call-Moves}
use ramify.Core.Apply.Ordering.{attempt_apply-Moves}
use ramify.Core.Apply.{
  Outcome, unless_done, back_off, attempts, fail, degrade, after_rollback, roll_back, concluded,
  do_apply, upsert_pending_environment, mark_processed, lift, log_event, settle, start_apply, apply,
}

event_logged-Moves : (kind : String) → Moves ordered (note (event_logged kind))
unfolding note
event_logged-Moves kind = record { at = λ w h. h }

module _ (r : Reconciler) where
  notify-Moves :
      (project : String) (n : ℕ) (ev : NotifyEvent) → Moves ordered (notify r project n ev)
  unfolding notify
  notify-Moves project n ev =
      Moves-logged _ (call-Moves r.runtime (λ o. notified ev (succeeded o)) _ (λ o j h. h))

  update-Moves : (env : Environment) → Moves ordered (update_environment r.runtime env)
  unfolding update_environment get_environment
  update-Moves env = search ordered_rules depth 8

  draw_delay-Moves : (d : ℕ) → Moves ordered (draw_delay r d)
  unfolding draw_delay
  draw_delay-Moves d = record { at = λ w h. h }

  schedule_retry-Moves : (ev : Event) (e : Err) → Moves ordered (schedule_retry r ev e)
  unfolding schedule_retry mark_event_retry mark_event_dead_lettered
  schedule_retry-Moves ev e = search (ordered_rules, draw_delay-Moves) depth 12

  mark_processed-Moves : (ev : Event) → Moves ordered (mark_processed r ev)
  unfolding mark_processed mark_event_processed
  mark_processed-Moves ev = search ordered_rules depth 12

  unless_done-Moves :
      (o : Outcome) (k : Environment → Err → Exec Outcome)
      → ((env : Environment) (e : Err) → Moves ordered (k env e))
      → Moves ordered (unless_done r o k)
  unfolding unless_done
  unless_done-Moves (env, none) k p = Moves-pure _
  unless_done-Moves (env, some e) k p = p env e

  back_off-Moves : (n : ℕ) → Moves ordered (back_off r n)
  unfolding back_off
  back_off-Moves n = search ordered_rules depth 8

  attempts-Moves :
      (n attempt : ℕ) (env : Environment) (last : Option Err) (req : ApplyRequest)
      (name tag : String)
      → Moves ordered (attempts r n attempt env last req name tag)
  unfolding attempts
  attempts-Moves zero attempt env last req name tag = Moves-pure _
  attempts-Moves (suc n) attempt env last req name tag = Moves-then _ _ (back_off-Moves attempt) (
      Moves-bind _ _ (attempt_apply-Moves r env req name tag) (λ o.
        unless_done-Moves o _
          (λ env' e. attempts-Moves n (attempt + 1) env' (some e) req name tag)))

  fail-Moves : (env : Environment) (req : ApplyRequest) (e : Err) → Moves ordered (fail r env req e)
  unfolding fail
  fail-Moves env req e = search (ordered_rules, update-Moves, notify-Moves) depth 8

  degrade-Moves :
      (env : Environment) (req : ApplyRequest) (e : Err) → Moves ordered (degrade r env req e)
  unfolding degrade
  degrade-Moves env req e = search (ordered_rules, update-Moves, notify-Moves) depth 8

  after_rollback-Moves :
      (env : Environment) (req : ApplyRequest) (e : Err) (o : Outcome)
      → Moves ordered (after_rollback r env req e o)
  unfolding after_rollback
  after_rollback-Moves env req e (up, none) = degrade-Moves up req e
  after_rollback-Moves env req e (up, some e') = fail-Moves env req _

  roll_back-Moves :
      (env : Environment) (req : ApplyRequest) (name tag : String) (e : Err)
      → Moves ordered (roll_back r env req name tag e)
  unfolding roll_back
  roll_back-Moves env req name tag e =
      search (ordered_rules, attempt_apply-Moves, after_rollback-Moves, fail-Moves) depth 8

  concluded-Moves :
      (update : Bool) (req : ApplyRequest) (name tag : String) (o : Outcome)
      → Moves ordered (concluded r update req name tag o)
  unfolding concluded
  concluded-Moves update req name tag (env, none) = search (ordered_rules, notify-Moves) depth 8
  concluded-Moves update req name tag (env, some e) = roll_back-Moves env req name tag e

  do_apply-Moves : (env : Environment) (req : ApplyRequest) → Moves ordered (do_apply r env req)
  unfolding do_apply
  do_apply-Moves env req =
      search (ordered_rules, update-Moves, attempts-Moves, concluded-Moves) depth 10

  upsert-Moves : (req : ApplyRequest) → Moves ordered (upsert_pending_environment r req)
  unfolding upsert_pending_environment get_environment_by_project_branch create_environment
  upsert-Moves req = search ordered_rules depth 12

  lift-Moves : (o : Result String) → Moves ordered (lift r o)
  unfolding lift
  lift-Moves (ok s) = Moves-pure s
  lift-Moves (err e) = Moves-raise e

  log_event-Moves :
      (kind id : String) (payload : Result String) → Moves ordered (log_event r kind id payload)
  unfolding log_event create_event
  log_event-Moves kind id payload = search (ordered_rules, lift-Moves, event_logged-Moves) depth 12

  settle-Moves : (ev : Event) (o : Outcome) → Moves ordered (settle r ev o)
  unfolding settle
  settle-Moves ev (env, none) = search (ordered_rules, mark_processed-Moves) depth 8
  settle-Moves ev (env, some e) = search (ordered_rules, schedule_retry-Moves) depth 8

  start_apply-Moves : (req : ApplyRequest) → Moves ordered (start_apply r req)
  unfolding start_apply
  start_apply-Moves req = search (ordered_rules, upsert-Moves, log_event-Moves) depth 8

  apply-Moves : (req : ApplyRequest) → Moves ordered (apply r req)
  unfolding apply
  apply-Moves req = search (ordered_rules, start_apply-Moves, do_apply-Moves, settle-Moves) depth 10

  -- If each call of the journal that publishes a DNS record follows directly on a report of a healthy
  -- deployment, then this is so after Apply with its retries and its rollback, whatever the
  -- providers and the database answer.
  pub apply-InOrder :
      (req : ApplyRequest) (w : World) → InOrder w.journal → InOrder (apply r req w).1.journal
  apply-InOrder req = (apply-Moves req).at

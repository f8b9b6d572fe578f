-- ===== src/Core/Frames/Applying.antt =====
-- The lifting for Apply (internal/core/reconciler.go).
use ramify.Prelude.{ℕ, zero, suc, ◌+◌, String, Bool, Option, none, some}
use ramify.Errors.{Err}
use ramify.Provider.{Result, ok, err, Deployment, DnsRecord}
use ramify.World.Moves.{Moves, Moves-pure, Moves-raise, Moves-bind, Moves-then}
use ramify.World.{Exec}
use ramify.Store.Types.{Environment, Event}
use ramify.Store.Frames.{StoreFrame, tables}
use ramify.Core.Reconciler.{Reconciler, ApplyRequest}
use ramify.Core.Frames.Calls.{calls_rules}
use ramify.Core.Apply.{
  Outcome, record_dns_row, prepare, publish, refresh_ttl, attempt_apply, unless_done, back_off,
  attempts, fail, degrade, after_rollback, roll_back, concluded, do_apply,
  upsert_pending_environment, mark_processed, lift, log_event, settle, start_apply, apply,
}

module _ (f : StoreFrame) (r : Reconciler) where
  record_dns_row-Moves :
      (id : String) (rec : DnsRecord) → Moves (tables f) (record_dns_row r id rec)
  unfolding record_dns_row
  record_dns_row-Moves id rec = search calls_rules depth 10

  prepare-Moves :
      (env : Environment) (req : ApplyRequest) (name tag : String)
      → Moves (tables f) (prepare r env req name tag)
  unfolding prepare
  prepare-Moves env req name tag = search (calls_rules, record_dns_row-Moves) depth 14

  refresh_ttl-Moves : (env : Environment) → Moves (tables f) (refresh_ttl r env)
  unfolding refresh_ttl
  refresh_ttl-Moves env = search calls_rules depth 8

  publish-Moves :
      (env : Environment) (req : ApplyRequest) (d : Deployment)
      → Moves (tables f) (publish r env req d)
  unfolding publish
  publish-Moves env req d = search (calls_rules, refresh_ttl-Moves) depth 8

  attempt_apply-Moves :
      (env : Environment) (req : ApplyRequest) (name tag : String)
      → Moves (tables f) (attempt_apply r env req name tag)
  unfolding attempt_apply
  attempt_apply-Moves env req name tag = search (calls_rules, prepare-Moves, publish-Moves) depth 8

  unless_done-Moves :
      (o : Outcome) (k : Environment → Err → Exec Outcome)
      → ((env : Environment) (e : Err) → Moves (tables f) (k env e))
      → Moves (tables f) (unless_done r o k)
  unfolding unless_done
  unless_done-Moves (env, none) k p = Moves-pure _
  unless_done-Moves (env, some e) k p = p env e

  back_off-Moves : (n : ℕ) → Moves (tables f) (back_off r n)
  unfolding back_off
  back_off-Moves n = search calls_rules depth 8

  attempts-Moves :
      (n attempt : ℕ) (env : Environment) (last : Option Err) (req : ApplyRequest)
      (name tag : String)
      → Moves (tables f) (attempts r n attempt env last req name tag)
  unfolding attempts
  attempts-Moves zero attempt env last req name tag = Moves-pure _
  attempts-Moves (suc n) attempt env last req name tag = Moves-then _ _ (back_off-Moves attempt) (
      Moves-bind _ _ (attempt_apply-Moves env req name tag) (λ o.
        unless_done-Moves o _
          (λ env' e. attempts-Moves n (attempt + 1) env' (some e) req name tag)))

  fail-Moves :
      (env : Environment) (req : ApplyRequest) (e : Err) → Moves (tables f) (fail r env req e)
  unfolding fail
  fail-Moves env req e = search calls_rules depth 8

  degrade-Moves :
      (env : Environment) (req : ApplyRequest) (e : Err) → Moves (tables f) (degrade r env req e)
  unfolding degrade
  degrade-Moves env req e = search calls_rules depth 8

  after_rollback-Moves :
      (env : Environment) (req : ApplyRequest) (e : Err) (o : Outcome)
      → Moves (tables f) (after_rollback r env req e o)
  unfolding after_rollback
  after_rollback-Moves env req e (up, none) = degrade-Moves up req e
  after_rollback-Moves env req e (up, some e') = fail-Moves env req _

  roll_back-Moves :
      (env : Environment) (req : ApplyRequest) (name tag : String) (e : Err)
      → Moves (tables f) (roll_back r env req name tag e)
  unfolding roll_back
  roll_back-Moves env req name tag e =
      search (calls_rules, attempt_apply-Moves, after_rollback-Moves, fail-Moves) depth 8

  concluded-Moves :
      (update : Bool) (req : ApplyRequest) (name tag : String) (o : Outcome)
      → Moves (tables f) (concluded r update req name tag o)
  unfolding concluded
  concluded-Moves update req name tag (env, none) = search calls_rules depth 8
  concluded-Moves update req name tag (env, some e) = roll_back-Moves env req name tag e

  pub Moves-do_apply :
      (env : Environment) (req : ApplyRequest) → Moves (tables f) (do_apply r env req)
  unfolding do_apply
  Moves-do_apply env req = search (calls_rules, attempts-Moves, concluded-Moves) depth 10

  pub Moves-upsert : (req : ApplyRequest) → Moves (tables f) (upsert_pending_environment r req)
  unfolding upsert_pending_environment
  Moves-upsert req = search calls_rules depth 8

  pub Moves-mark_processed : (ev : Event) → Moves (tables f) (mark_processed r ev)
  unfolding mark_processed
  Moves-mark_processed ev = search calls_rules depth 8

  lift-Moves : (o : Result String) → Moves (tables f) (lift r o)
  unfolding lift
  lift-Moves (ok s) = Moves-pure s
  lift-Moves (err e) = Moves-raise e

  pub Moves-log_event :
      (kind id : String) (payload : Result String) → Moves (tables f) (log_event r kind id payload)
  unfolding log_event
  Moves-log_event kind id payload = search (calls_rules, lift-Moves) depth 8

  settle-Moves : (ev : Event) (o : Outcome) → Moves (tables f) (settle r ev o)
  unfolding settle
  settle-Moves ev (env, none) = search (calls_rules, Moves-mark_processed) depth 8
  settle-Moves ev (env, some e) = search (calls_rules) depth 8

  start_apply-Moves : (req : ApplyRequest) → Moves (tables f) (start_apply r req)
  unfolding start_apply
  start_apply-Moves req = search (calls_rules, Moves-upsert, Moves-log_event) depth 8

  pub Moves-apply : (req : ApplyRequest) → Moves (tables f) (apply r req)
  unfolding apply
  Moves-apply req = search (calls_rules, start_apply-Moves, Moves-do_apply, settle-Moves) depth 10

pub ruleset apply_rules =
    (calls_rules, Moves-do_apply, Moves-upsert, Moves-mark_processed, Moves-log_event, Moves-apply)

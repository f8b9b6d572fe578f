-- ===== src/Core/Frames/Calls.antt =====
-- The lifting for the calls of the providers, the health checks and the retries (internal/core).
use ramify.Prelude.{ℕ, zero, suc, String, Option, none, some}
use ramify.Errors.{Err}
use ramify.Provider.{Result, EnvSpec, DnsRecord, CertRef, NotifyEvent}
use ramify.World.Moves.{Moves, Moves-pure, Moves-raise}
use ramify.Store.Types.{Event}
use ramify.Store.Frames.{StoreFrame, tables}
use ramify.World.Tables.{Moves-call}
use ramify.Store.Frames.Operations.{store_rules}
use ramify.Core.Reconciler.{
  Reconciler, deploy_apply, health_check, ensure_record, delete_record, ensure_certificate,
  revoke_certificate, install_certificate, remove_certificate, deploy_destroy, deploy_sleep,
  deploy_wake, notify, install_with, remove_with,
}
use ramify.Core.Readiness.{poll, unless_cancelled, wait_until_healthy, finished}
use ramify.Core.Retry.{schedule_retry, draw_delay}

module _ (f : StoreFrame) (r : Reconciler) where
  pub Moves-deploy_apply : (spec : EnvSpec) → Moves (tables f) (deploy_apply r spec)
  unfolding deploy_apply
  Moves-deploy_apply spec = Moves-call f.base _ _ _

  pub Moves-health_check : (ref : String) → Moves (tables f) (health_check r ref)
  unfolding health_check
  Moves-health_check ref = Moves-call f.base _ _ _

  pub Moves-ensure_record : (rec : DnsRecord) → Moves (tables f) (ensure_record r rec)
  unfolding ensure_record
  Moves-ensure_record rec = Moves-call f.base _ _ _

  pub Moves-delete_record : (rec : DnsRecord) → Moves (tables f) (delete_record r rec)
  unfolding delete_record
  Moves-delete_record rec = Moves-call f.base _ _ _

  pub Moves-ensure_certificate : (name : String) → Moves (tables f) (ensure_certificate r name)
  unfolding ensure_certificate
  Moves-ensure_certificate name = Moves-call f.base _ _ _

  pub Moves-revoke_certificate : (name : String) → Moves (tables f) (revoke_certificate r name)
  unfolding revoke_certificate
  Moves-revoke_certificate name = Moves-call f.base _ _ _

  pub Moves-deploy_destroy : (ref : String) → Moves (tables f) (deploy_destroy r ref)
  unfolding deploy_destroy
  Moves-deploy_destroy ref = Moves-call f.base _ _ _

  pub Moves-deploy_sleep : (ref : String) → Moves (tables f) (deploy_sleep r ref)
  unfolding deploy_sleep
  Moves-deploy_sleep ref = Moves-call f.base _ _ _

  pub Moves-deploy_wake : (ref : String) → Moves (tables f) (deploy_wake r ref)
  unfolding deploy_wake
  Moves-deploy_wake ref = Moves-call f.base _ _ _

  pub Moves-notify :
      (project : String) (n : ℕ) (ev : NotifyEvent) → Moves (tables f) (notify r project n ev)
  unfolding notify
  Moves-notify project n ev = search (store_rules)

  install_with-Moves :
      (o : Option (ℕ → String → CertRef → Result (Unit {0}))) (name : String) (cert : CertRef)
      → Moves (tables f) (install_with r o name cert)
  unfolding install_with
  install_with-Moves none name cert = Moves-pure tt
  install_with-Moves (some install) name cert = search (store_rules)

  pub Moves-install_certificate :
      (name : String) (cert : CertRef) → Moves (tables f) (install_certificate r name cert)
  unfolding install_certificate
  Moves-install_certificate name cert = install_with-Moves r.deploy.install_certificate name cert

  remove_with-Moves :
      (o : Option (ℕ → String → Result (Unit {0}))) (name : String)
      → Moves (tables f) (remove_with r o name)
  unfolding remove_with
  remove_with-Moves none name = Moves-pure tt
  remove_with-Moves (some remove) name = Moves-call f.base _ _ _

  pub Moves-remove_certificate : (name : String) → Moves (tables f) (remove_certificate r name)
  unfolding remove_certificate
  Moves-remove_certificate name = remove_with-Moves r.deploy.remove_certificate name

  unless_cancelled-Moves :
      (o : Option Err) (rest : ramify.World.Exec (Option (Unit {0})))
      → Moves (tables f) rest
      → Moves (tables f) (unless_cancelled r o rest)
  unfolding unless_cancelled
  unless_cancelled-Moves none rest p = p
  unless_cancelled-Moves (some e) rest p = Moves-raise e

  poll-Moves : (fuel deadline : ℕ) (ref : String) → Moves (tables f) (poll r fuel deadline ref)
  unfolding poll
  poll-Moves zero deadline ref = Moves-pure none
  poll-Moves (suc fuel) deadline ref =
      search (store_rules, unless_cancelled-Moves, Moves-health_check, poll-Moves fuel) depth 14

  finished-Moves : (o : Option (Unit {0})) → Moves (tables f) (finished r o)
  unfolding finished
  finished-Moves none = Moves-raise _
  finished-Moves (some _) = Moves-pure tt

  pub Moves-wait_until_healthy : (ref : String) → Moves (tables f) (wait_until_healthy r ref)
  unfolding wait_until_healthy
  Moves-wait_until_healthy ref = search (store_rules, poll-Moves, finished-Moves)

  draw_delay-Moves : (d : ℕ) → Moves (tables f) (draw_delay r d)
  unfolding draw_delay
  draw_delay-Moves d = record { at = λ w. f.stay w.past w.db }

  pub Moves-schedule_retry : (ev : Event) (e : Err) → Moves (tables f) (schedule_retry r ev e)
  unfolding schedule_retry
  Moves-schedule_retry ev e = search (store_rules, draw_delay-Moves) depth 8

pub ruleset calls_rules = (
  store_rules, Moves-deploy_apply, Moves-ensure_record, Moves-delete_record,
  Moves-ensure_certificate, Moves-revoke_certificate, Moves-deploy_destroy, Moves-deploy_sleep,
  Moves-deploy_wake, Moves-notify, Moves-install_certificate, Moves-remove_certificate,
  Moves-wait_until_healthy, Moves-schedule_retry,
)

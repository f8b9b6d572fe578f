-- ===== src/Core/Apply/Journal.antt =====
-- The order of the calls in the journal, and the steps of attemptApply that publish nothing
-- (internal/core/reconciler.go).
use ramify.Prelude.{ℕ, zero, suc, String, ◌≡◌, Bool, true, false, Option, none, some, List, [], ◌∷◌}
use ramify.Errors.{Err}
use ramify.Provider.{Result, ok, err, DnsRecord, CertRef, Deployment}
use ramify.World.{
  Exec, Runtime, Call, record_ensured, health_checked, call, statement, run_statement, fresh_id,
  row_id, clock_sleep,
}
use ramify.World.Moves.{Frame, Moves, Moves-pure, Moves-raise, Moves-if, Moves-bind, moves_rules}
use ramify.Store.Types.{Db, Environment}
use ramify.Store.DnsRows.{list_dns_records, create_dns_record}
use ramify.Core.Reconciler.{
  Reconciler, deploy_apply, health_check, ensure_certificate, install_certificate, install_with,
}
use ramify.Core.Readiness.{poll, unless_cancelled, wait_until_healthy, finished}
use ramify.Core.Apply.{record_dns_row}

-- The newest call reported a healthy deployment.
abbrev pub healthy_last : List Call → Bool
healthy_last (health_checked ref b ∷ older) = b
healthy_last _ = false

-- Each call that publishes a DNS record follows directly on a report of a healthy deployment.
abbrev pub InOrder : List Call → Type 0
InOrder [] = Unit
InOrder (record_ensured rec b ∷ older) = (healthy_last older ≡ true) × InOrder older
InOrder (_ ∷ older) = InOrder older

abbrev pub ordered : Frame
ordered = record {
  rel = λ w w'. InOrder w.journal → InOrder w'.journal;
  stay = λ w h. h;
  chain = λ u v w p q h. q (p h);
}

module _ (x : Runtime) where
  pub call-Moves :
      {A : Type 0} (entry : Result A → Call) (method : ℕ → Result A)
      → ((o : Result A) (j : List Call) → InOrder j → InOrder (entry o ∷ j))
      → Moves ordered (call x entry method)
  unfolding call
  call-Moves entry method p = record { at = λ w. p (method w.calls) w.journal }

  run-Moves :
      {A : Type 0} (query : ℕ → Db → Result A × Db) (o : Option Err)
      → Moves ordered (run_statement x o query)
  unfolding run_statement
  run-Moves query none = record { at = λ w h. h }
  run-Moves query (some e) = record { at = λ w h. h }

  pub statement-Moves :
      {A : Type 0} (query : ℕ → Db → Result A × Db) → Moves ordered (statement x query)
  unfolding statement
  statement-Moves query = record { at = λ w. (run-Moves query (x.db_fault w.calls)).at _ }

  fresh_id-Moves : Moves ordered (fresh_id x)
  unfolding fresh_id
  fresh_id-Moves = record { at = λ w h. h }

  pub row_id-Moves : (id : String) → Moves ordered (row_id x id)
  unfolding row_id
  row_id-Moves id = Moves-if _ _ _ fresh_id-Moves (Moves-pure id)

pub clock_sleep-Moves : (d : ℕ) → Moves ordered (clock_sleep d)
unfolding clock_sleep
clock_sleep-Moves d = record { at = λ w h. h }

pub ruleset ordered_rules = (moves_rules, statement-Moves, row_id-Moves, clock_sleep-Moves)

module _ (r : Reconciler) where
  pub deploy_apply-Moves : (spec : ramify.Provider.EnvSpec) → Moves ordered (deploy_apply r spec)
  unfolding deploy_apply
  deploy_apply-Moves spec = call-Moves r.runtime _ _ (λ o j h. h)

  health_check-Moves : (ref : String) → Moves ordered (health_check r ref)
  unfolding health_check
  health_check-Moves ref = call-Moves r.runtime _ _ (λ o j h. h)

  pub ensure_certificate-Moves : (name : String) → Moves ordered (ensure_certificate r name)
  unfolding ensure_certificate
  ensure_certificate-Moves name = call-Moves r.runtime _ _ (λ o j h. h)

  install_with-Moves :
      (o : Option (ℕ → String → CertRef → Result (Unit {0}))) (name : String) (cert : CertRef)
      → Moves ordered (install_with r o name cert)
  unfolding install_with
  install_with-Moves none name cert = Moves-pure tt
  install_with-Moves (some install) name cert =
      Moves-if _ _ _ (Moves-pure tt)
        (Moves-if _ _ _ (Moves-pure tt) (call-Moves r.runtime _ _ (λ o j h. h)))

  pub install_certificate-Moves :
      (name : String) (cert : CertRef) → Moves ordered (install_certificate r name cert)
  unfolding install_certificate
  install_certificate-Moves name cert = install_with-Moves r.deploy.install_certificate name cert

  unless_cancelled-Moves :
      (o : Option Err) (rest : Exec (Option (Unit {0})))
      → Moves ordered rest
      → Moves ordered (unless_cancelled r o rest)
  unfolding unless_cancelled
  unless_cancelled-Moves none rest p = p
  unless_cancelled-Moves (some e) rest p = Moves-raise e

  poll-Moves : (fuel deadline : ℕ) (ref : String) → Moves ordered (poll r fuel deadline ref)
  unfolding poll
  poll-Moves zero deadline ref = Moves-pure none
  poll-Moves (suc fuel) deadline ref =
      search (ordered_rules, unless_cancelled-Moves, health_check-Moves, poll-Moves fuel) depth 14

  finished-Moves : (o : Option (Unit {0})) → Moves ordered (finished r o)
  unfolding finished
  finished-Moves none = Moves-raise _
  finished-Moves (some _) = Moves-pure tt

  pub wait-Moves : (ref : String) → Moves ordered (wait_until_healthy r ref)
  unfolding wait_until_healthy
  wait-Moves ref = search (ordered_rules, poll-Moves, finished-Moves)

  list_dns_records-Moves : (id : String) → Moves ordered (list_dns_records r.runtime id)
  unfolding list_dns_records
  list_dns_records-Moves id = search ordered_rules depth 8

  create_dns_record-Moves :
      (row : ramify.Store.Types.DnsRow) → Moves ordered (create_dns_record r.runtime row)
  unfolding create_dns_record
  create_dns_record-Moves row = search ordered_rules depth 8

  pub record_dns_row-Moves :
      (id : String) (rec : DnsRecord) → Moves ordered (record_dns_row r id rec)
  unfolding record_dns_row
  record_dns_row-Moves id rec =
      search (ordered_rules, list_dns_records-Moves, create_dns_record-Moves) depth 10

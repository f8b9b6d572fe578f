-- ===== src/Core/Apply/Ordering.antt =====
-- The order of the calls of attemptApply (internal/core/reconciler.go).
use ramify.Prelude.{String, ◌≡◌, refl, true, inl, inr, arith}
use ramify.Provider.{Result, ok, err, DnsRecord, CertRef, Deployment}
use ramify.World.{World, Exec, call, wrapped, catch, pure, raise, fork, ◌>>=◌, ◌>>◌}
use ramify.World.Moves.{Moves, Moves-bind}
use ramify.World.Steps.{Result-cases, bind_ok, bind_err}
use ramify.Store.Types.{Environment}
use ramify.Store.Environments.{update_environment, get_environment}
use ramify.Core.Reconciler.{
  Reconciler, ApplyRequest, deploy_apply, ensure_record, ensure_certificate, install_certificate,
}
use ramify.Core.Readiness.{wait_until_healthy}
use ramify.Core.Readiness.Termination.{wait_healthy}
use ramify.Core.Apply.{record_dns_row, prepare, publish, refresh_ttl, attempt_apply}
use ramify.Core.Apply.Journal.{
  healthy_last, InOrder, ordered, ordered_rules, deploy_apply-Moves, ensure_certificate-Moves,
  install_certificate-Moves, wait-Moves, record_dns_row-Moves,
}

module _ (r : Reconciler) where
  -- The publication itself needs a report just before it.
  ensure_at :
      (rec : DnsRecord) (w : World)
      → healthy_last w.journal ≡ true
      → InOrder w.journal
      → InOrder (wrapped "dns ensure record" (ensure_record r rec) w).1.journal
  unfolding wrapped ensure_record call catch pure raise fork
  ensure_at rec w up h = elim (Result-cases (r.dns.ensure_record w.calls rec)) [
    | inl (u, done) ↦ rw done (up, h)
    | inr (e, failed) ↦ rw failed (up, h)
  ]

  wrapped_wait :
      (ref : String) (w : World) {u : Unit {0}}
      → (wrapped "readiness check" (wait_until_healthy r ref) w).0 ≡ ok u
      → healthy_last (wrapped "readiness check" (wait_until_healthy r ref) w).1.journal ≡ true
  unfolding wrapped catch pure raise fork
  wrapped_wait ref w h = elim (Result-cases (wait_until_healthy r ref w).0) [
    | inl (u, done) ↦ let (older, seen) = wait_healthy r ref w done in rw done (rw seen refl)
    | inr (e, failed) ↦ absurd (ground (arith, failed))
  ]

module _ {A B C : Type 0} (m : Exec A) (n : Exec B) (k : B → Exec C) where
  -- `n` needs what a success of `m` leaves; the rest needs nothing.
  then_at :
      Moves ordered m
      → ((w : World) (a : A)
          → (m w).0 ≡ ok a
          → InOrder (m w).1.journal
          → InOrder (n (m w).1).1.journal)
      → ((b : B) → Moves ordered (k b))
      → Moves ordered (m >> (n >>= k))
  unfolding ◌>>◌
  then_at pm pn pk = record { at = at_world }
    where
      rest : (v : World) → InOrder (n v).1.journal → InOrder ((n >>= k) v).1.journal
      rest v h = elim (Result-cases (n v).0) [
        | inl (b, done) ↦ rw (bind_ok n k v done) ((pk b).at (n v).1 h)
        | inr (e, failed) ↦ rw (bind_err n k v failed) h
      ]

      at_world : (w : World) → InOrder w.journal → InOrder ((m >>= λ _. n >>= k) w).1.journal
      at_world w h = elim (Result-cases (m w).0) [
        | inl (a, done) ↦
            rw (bind_ok m (λ _. n >>= k) w done) (rest (m w).1 (pn w a done (pm.at w h)))
        | inr (e, failed) ↦ rw (bind_err m (λ _. n >>= k) w failed) (pm.at w h)
      ]

module _ (r : Reconciler) (env : Environment) (req : ApplyRequest) where
  abbrev published : String → String → Deployment → DnsRecord
  published name tag d = record {
    zone = r.base_domain;
    name = name;
    record_type = "A";
    value = d.internal_addr;
    ownership_tag = tag;
  }

  -- prepare after the publication
  abbrev secure : String → String → Deployment → Exec Deployment
  secure name tag d = do
    cert ← wrapped "ensure certificate" (ensure_certificate r name)
    wrapped "install certificate" (install_certificate r name cert)
    record_dns_row r env.id (published name tag d)
    pure d

  secure-Moves : (name tag : String) (d : Deployment) → Moves ordered (secure name tag d)
  secure-Moves name tag d =
      search
        (ordered_rules, ensure_certificate-Moves, install_certificate-Moves, record_dns_row-Moves)
        depth 12

  wrapped_wait-Moves :
      (ref : String) → Moves ordered (wrapped "readiness check" (wait_until_healthy r ref))
  wrapped_wait-Moves ref = search (ordered_rules, wait-Moves)

  wrapped_deploy-Moves :
      (spec : ramify.Provider.EnvSpec)
      → Moves ordered (wrapped "deploy apply" (deploy_apply r spec))
  wrapped_deploy-Moves spec = search (ordered_rules, deploy_apply-Moves)

  prepare-Moves : (name tag : String) → Moves ordered (prepare r env req name tag)
  unfolding prepare ◌>>◌
  prepare-Moves name tag = Moves-bind _ _ (wrapped_deploy-Moves _) (λ d.
      then_at (wrapped "readiness check" (wait_until_healthy r d.ref))
        (wrapped "dns ensure record" (ensure_record r (published name tag d)))
        (λ _. secure name tag d) (wrapped_wait-Moves d.ref)
        (λ w u done h. ensure_at r (published name tag d) _ (wrapped_wait r d.ref w done) h)
        (λ _. secure-Moves name tag d))

  publish-Moves : (d : Deployment) → Moves ordered (publish r env req d)
  unfolding publish refresh_ttl update_environment get_environment
  publish-Moves d = search ordered_rules depth 12

  pub attempt_apply-Moves : (name tag : String) → Moves ordered (attempt_apply r env req name tag)
  unfolding attempt_apply
  attempt_apply-Moves name tag = search (ordered_rules, prepare-Moves, publish-Moves) depth 8

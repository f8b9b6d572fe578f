-- ===== src/Core/Destroy/Completion.antt =====
-- The end of doDestroy (internal/core/reconciler.go).
use ramify.Prelude.{
  ℕ, String, ◌≡◌, refl, ap, ◌∙◌, false, none, some, List, [], ◌∷◌, find_first, arith, Option-cases,
  inl, inr,
}
use ramify.Errors.{Err, wrap, join_all, sentinel, invalid_transition}
use ramify.Provider.{Result, ok, err}
use ramify.World.Steps.{bind_ok, bind_err, Result-cases}
use ramify.World.{World, Runtime, raise, catch, fork, wrapped, logged, call, statement, ◌>>=◌}
use ramify.Store.Types.{Environment, destroyed}
use ramify.Store.Tables.{has_id}
use ramify.Store.Transitions.{can_transition, validate_transition}
use ramify.Store.Environments.{update_environment}
use ramify.Store.Environments.Updates.{HasStatusOf, update_done}
use ramify.Core.Reconciler.{Reconciler, notify}
use ramify.Core.Destroy.{tear_down, conclude, do_destroy}
use ramify.Core.Destroy.Teardown.{tear_down-stays}
use ramify.Core.Destroy.Steps.{TornDown, tear_down-TornDown}

module _ (x : Runtime) (env : Environment) (w : World) where
  -- A write whose move is not allowed fails and changes no table.
  pub update_refused :
      {row : Environment}
      → find_first (has_id env.id) w.db.environments ≡ some row
      → can_transition row.status env.status ≡ false
      → ((e : Err) × ((update_environment x env w).0 ≡ err e))
        × ((update_environment x env w).1.db ≡ w.db)
  unfolding update_environment wrapped statement ◌>>=◌ validate_transition
  update_refused {row} e h = elim (Option-cases (x.db_fault w.calls)) [
    | inl up ↦ (
      (
        wrap "updating environment" (wrap "invalid move" (sentinel invalid_transition)),
        ground arith,
      ),
      ground arith,
    )
    | inr (fault, down) ↦ ((wrap "updating environment" fault, ground arith), ground arith)
  ]

module _ (r : Reconciler) (env : Environment) (w : World) where
  -- What doDestroy does with the errors that the teardown collected.
  collected_fail :
      {e : Err} {errs : List Err}
      → (tear_down r env w).0 ≡ ok (e ∷ errs)
      → ((do_destroy r env w).0 ≡ err (wrap "doDestroy" (join_all e errs)))
        × ((do_destroy r env w).1.db.environments ≡ w.db.environments)
  unfolding do_destroy ◌>>=◌ conclude catch fork raise
  collected_fail h =
      (ground (arith, tear_down-stays r env w), ground (arith, tear_down-stays r env w))

  -- If the steps of the teardown do not all succeed, doDestroy returns an error and the environments
  -- table is as it was before.
  pub partial_teardown :
      ((w' : World) → TornDown r env w w' → ⊥)
      → ((e : Err) × ((do_destroy r env w).0 ≡ err e))
        × ((do_destroy r env w).1.db.environments ≡ w.db.environments)
  unfolding do_destroy
  partial_teardown incomplete = elim (Result-cases (tear_down r env w).0) [
    | inr (f, failed) ↦
        rw (bind_err (tear_down r env) (conclude r env) w failed)
          ((f, refl), (tear_down-stays r env w).0)
    | inl (f ∷ errs, gathered) ↦ ((_, (collected_fail gathered).0), (collected_fail gathered).1)
    | inl ([], clean) ↦ absurd (
        incomplete _ (
          tear_down-TornDown r env w (tear_down r env w).1
            (ap (λ o. (o, (tear_down r env w).1)) clean)))
  ]

  conclude_refused :
      (v : World) {row : Environment}
      → find_first (has_id env.id) v.db.environments ≡ some row
      → can_transition row.status destroyed ≡ false
      → ((e : Err) × ((conclude r env [] v).0 ≡ err e)) × ((conclude r env [] v).1.db ≡ v.db)
  unfolding conclude wrapped ◌>>=◌
  conclude_refused v e h =
      let ((f, refused), kept) =
        update_refused r.runtime (record env { status = destroyed }) v e h in
      ((wrap "marking environment destroyed" f, ground arith), ground arith)

  -- doDestroy of an environment whose stored status has no move to destroyed never succeeds,
  -- whatever the providers answer, and leaves the environments table as it is.
  pub stuck_teardown :
      {row : Environment}
      → find_first (has_id env.id) w.db.environments ≡ some row
      → can_transition row.status destroyed ≡ false
      → ((e : Err) × ((do_destroy r env w).0 ≡ err e))
        × ((do_destroy r env w).1.db.environments ≡ w.db.environments)
  unfolding do_destroy
  stuck_teardown {row} e h = elim (Result-cases (tear_down r env w).0) [
    | inr (f, failed) ↦
        rw (bind_err (tear_down r env) (conclude r env) w failed)
          ((f, refl), (tear_down-stays r env w).0)
    | inl (f ∷ errs, gathered) ↦ ((_, (collected_fail gathered).0), (collected_fail gathered).1)
    | inl ([], clean) ↦
        let kept = (tear_down-stays r env w).0 in
        let ((f, refused), same) =
          conclude_refused (tear_down r env w).1 {row = row} (rw kept e) h in
        rw (bind_ok (tear_down r env) (conclude r env) w clean)
          ((f, refused), ap (λ d. d.environments) same ∙ kept)
  ]

  notified_keeps :
      (v : World) (project : String) (n : ℕ) (ev : ramify.Provider.NotifyEvent)
      → (notify r project n ev v).1.db ≡ v.db
  unfolding notify logged call
  notified_keeps v project n ev = ground arith

  conclude_done :
      (v : World) {u : Unit {0}}
      → (conclude r env [] v).0 ≡ ok u
      → HasStatusOf (record env { status = destroyed }) (conclude r env [] v).1.db
  unfolding conclude wrapped ◌>>=◌
  conclude_done v k =
      elim (Result-cases (update_environment r.runtime (record env { status = destroyed }) v).0) [
        | inl (stored, done) ↦
            let after : World =
              (update_environment r.runtime (record env { status = destroyed }) v).1 in
            let kept : (conclude r env [] v).1.db ≡ after.db = ground (
              arith,
              done,
              notified_keeps after env.project env.pr_number
                  (record { kind = "destroyed"; url = ""; detail = none }),
            ) in
            rw kept (update_done r.runtime (record env { status = destroyed }) v done)
        | inr (e, failed) ↦ absurd (ground arith)
      ]

  -- If doDestroy succeeds, every step of the teardown succeeded, one after the other: the rows of the
  -- DNS records were read, each record was deleted or absent and its row deleted, the certificate was
  -- revoked and removed, and the deployment, if there was one, destroyed; and the row of the
  -- environment is marked destroyed.
  pub teardown_done :
      {u : Unit {0}}
      → (do_destroy r env w).0 ≡ ok u
      → ((w' : World) × TornDown r env w w')
        × HasStatusOf (record env { status = destroyed }) (do_destroy r env w).1.db
  unfolding do_destroy
  teardown_done k = elim (Result-cases (tear_down r env w).0) [
    | inr (f, failed) ↦
        absurd (ground (arith, bind_err (tear_down r env) (conclude r env) w failed))
    | inl (f ∷ errs, gathered) ↦ absurd (ground (arith, (collected_fail gathered).0))
    | inl ([], clean) ↦
        let ran = bind_ok (tear_down r env) (conclude r env) w clean in
        (
          (
            _,
            tear_down-TornDown r env w (tear_down r env w).1
                (ap (λ o. (o, (tear_down r env w).1)) clean),
          ),
          rw ran (conclude_done (tear_down r env w).1 (rw ran at k)),
        )
  ]

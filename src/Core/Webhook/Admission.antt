-- ===== src/Core/Webhook/Admission.antt =====
-- The ceiling on live environments (admit of internal/core/reconciler.go).
use ramify.Prelude.{
  suc, ◌≤◌, ◌<◌, ◌≡◌, refl, true, false, none, some, find_first, keep, length, arith,
}
use ramify.Errors.{is}
use ramify.Provider.{ok, GitEvent}
use ramify.Policy.{decide, ceiling_reached}
use ramify.World.{World, statement, wrapped, catch, pure, raise, ◌>>=◌}
use ramify.Store.Types.{Environment}
use ramify.Store.Tables.{on_branch, is_live}
use ramify.Store.Environments.{get_environment_by_project_branch, count_live_environments}
use ramify.Core.Reconciler.{Reconciler, ApplyRequest}
use ramify.Core.Webhook.{admit, below_ceiling, reserve}

module _ (r : Reconciler) (ev : GitEvent) (req : ApplyRequest) (w : World) where
  -- An event that passes the policy, for a branch that has a row of any status, is admitted,
  -- whatever the number of live environments, provided that the database answers.
  pub known_branch_admitted :
      {row : Environment}
      → (decide r.text.path_match r.text.equal_fold r.policy ev).allowed ≡ true
      → find_first (on_branch req.project req.branch) w.db.environments ≡ some row
      → r.runtime.db_fault w.calls ≡ none
      → (admit r ev req w).0 ≡ ok none
  unfolding admit below_ceiling get_environment_by_project_branch wrapped statement catch pure
  known_branch_admitted h k up = ground arith

  -- A branch without a row is skipped, and nothing is written, when the number of live
  -- environments has reached the ceiling, provided that the database answers.
  pub ceiling_holds :
      (decide r.text.path_match r.text.equal_fold r.policy ev).allowed ≡ true
      → find_first (on_branch req.project req.branch) w.db.environments ≡ none
      → 0 < r.max_concurrent
      → r.max_concurrent ≤ length (keep is_live w.db.environments)
      → r.runtime.db_fault w.calls ≡ none
      → r.runtime.db_fault (suc w.calls) ≡ none
      → ((admit r ev req w).0
          ≡ ok (some (ceiling_reached (length (keep is_live w.db.environments)) r.max_concurrent)))
        × ((admit r ev req w).1.db ≡ w.db)
  unfolding admit below_ceiling reserve get_environment_by_project_branch count_live_environments
      wrapped statement catch pure raise ◌>>=◌ is
  ceiling_holds h k pos full up up' = (ground arith, ground arith)

  -- An event that the policy refuses is skipped with its reason, and nothing is read or written.
  pub policy_refuses :
      (decide r.text.path_match r.text.equal_fold r.policy ev).allowed ≡ false
      → admit r ev req w ≡ (ok (decide r.text.path_match r.text.equal_fold r.policy ev).reason, w)
  unfolding admit pure
  policy_refuses h = rw h refl

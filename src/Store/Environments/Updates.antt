-- ===== src/Store/Environments/Updates.antt =====
-- The row that UpdateEnvironment writes (internal/store/sqlite.go).
use ramify.Prelude.{
  ℕ, String, ◌≡◌, refl, Option, none, some, find_first, update_where, change, arith, Bool-cases,
  Option-cases, inl, inr,
}
use ramify.Prelude.Searches.{find_first-update_where, find_first_passes}
use ramify.Errors.{Err}
use ramify.Provider.{ok}
use ramify.World.Steps.{Result-cases}
use ramify.World.{World, Runtime, statement, wrapped, ◌>>=◌}
use ramify.Store.Types.{Db, Environment}
use ramify.Store.Tables.{has_id, branch_clash}
use ramify.Store.Environments.{
  update_environment, update_transaction, replace_environment, check_move, write_environment,
  overwrite, get_environment,
}

-- The row with the identifier of `env` has its status.
abbrev pub HasStatusOf : Environment → Db → Type 0
HasStatusOf env d =
    (row : Environment) × (find_first (has_id env.id) d.environments ≡ some row)
    × (row.status ≡ env.status)

module _ (env : Environment) (now : ℕ) (d : Db) where
  same : (id : String) (a : Environment) → has_id id (overwrite env now a) ≡ has_id id a
  unfolding has_id overwrite
  same id a = refl

  written :
      {row : Environment}
      → find_first (has_id env.id) d.environments ≡ some row
      → HasStatusOf env (record d {
        environments = update_where (has_id env.id) (overwrite env now) d.environments;
      })
  unfolding overwrite
  written {row} h = (
    overwrite env now row,
    rw
        (find_first-update_where (has_id env.id) (has_id env.id) (overwrite env now) (same env.id)
          d.environments)
        (rw h (unfold change in rw (find_first_passes (has_id env.id) d.environments h) refl)),
    refl,
  )

  checked :
      {row : Environment} (o : Option Err)
      → find_first (has_id env.id) d.environments ≡ some row
      → (check_move env o now d).0 ≡ ok tt
      → HasStatusOf env (check_move env o now d).1
  unfolding check_move write_environment
  checked (some e) h k = absurd (ground arith)
  checked none h k = elim (Bool-cases (branch_clash env d.environments)) [
    | inl taken ↦ absurd (ground arith)
    | inr free ↦ rw free (written h)
  ]

  replaced :
      (o : Option Environment)
      → find_first (has_id env.id) d.environments ≡ o
      → (replace_environment env o now d).0 ≡ ok tt
      → HasStatusOf env (replace_environment env o now d).1
  unfolding replace_environment
  replaced none h k = absurd (ground arith)
  replaced (some row) h k = checked _ h k

  transaction_done :
      (update_transaction env now d).0 ≡ ok tt → HasStatusOf env (update_transaction env now d).1
  unfolding update_transaction
  transaction_done k = replaced _ refl k

module _ (x : Runtime) (env : Environment) (w : World) where
  transaction_ran :
      {u : Unit {0}}
      → (statement x (update_transaction env) w).0 ≡ ok u
      → HasStatusOf env (statement x (update_transaction env) w).1.db
  unfolding statement
  transaction_ran k = elim (Option-cases (x.db_fault w.calls)) [
    | inl working ↦ rw working (transaction_done env _ w.db (ground arith))
    | inr (e, failing) ↦ absurd (ground arith)
  ]

  -- reading changes nothing
  get_keeps : (v : World) (id : String) → (get_environment x id v).1.db ≡ v.db
  unfolding get_environment wrapped statement
  get_keeps v id = ground arith

  -- When UpdateEnvironment succeeds, the row with the identifier has the status that was written.
  pub update_done :
      {stored : Environment}
      → (update_environment x env w).0 ≡ ok stored
      → HasStatusOf env (update_environment x env w).1.db
  unfolding update_environment wrapped ◌>>=◌
  update_done k = elim (Result-cases (statement x (update_transaction env) w).0) [
    | inl (u, done) ↦
        let after : World = (statement x (update_transaction env) w).1 in
        let kept : (update_environment x env w).1.db ≡ after.db =
          ground (arith, done, get_keeps after env.id) in
        rw kept (transaction_ran done)
    | inr (e, failed) ↦ absurd (ground arith)
  ]

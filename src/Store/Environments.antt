-- ===== src/Store/Environments.antt =====
-- The operations on environments of internal/store/sqlite.go.
pub mod Updates
use ramify.Prelude.{
  ℕ, String, Bool, true, false, Option, none, some, List, [], ◌∷◌, ◌++◌, length, any, keep,
  find_first, update_where, str_eq, if◌then◌else◌,
}
use ramify.Errors.{Err, sentinel, wrap, not_found, conflict}
use ramify.Provider.{Result, ok, err}
use ramify.World.{Exec, Runtime, pure, statement, row_id, wrapped, ◌>>=◌}
use ramify.Store.Types.{Environment, Db, Status}
use ramify.Store.Transitions.{validate_transition}
use ramify.Store.Tables.{
  environment_clash, branch_clash, has_id, on_branch, is_live, is_expired, expires_before, order_by,
  nullable_int, null_int,
}

-- INSERT, with the pr_number that a later read gives back
unfoldable pub insert_environment : Environment → ℕ → Db → Result Environment × Db
insert_environment env now d =
    let row = record env {
      pr_number = null_int (nullable_int env.pr_number);
      created_at = now;
      updated_at = now;
    } in
    if environment_clash row d.environments
    then (err (sentinel conflict), d)
    else (ok row, record d { environments = d.environments ++ row ∷ [] })

-- the columns that UPDATE sets
unfoldable pub overwrite : Environment → ℕ → Environment → Environment
overwrite env now row = record env {
  id = row.id;
  pr_number = null_int (nullable_int env.pr_number);
  created_at = row.created_at;
  updated_at = now;
}

unfoldable pub found : Option Environment → Result Environment
found none = err (sentinel not_found)
found (some env) = ok env

unfoldable pub write_environment : Environment → ℕ → Db → Result (Unit {0}) × Db
write_environment env now d =
    if branch_clash env d.environments then (err (sentinel conflict), d) else (
      ok tt,
      record d { environments = update_where (has_id env.id) (overwrite env now) d.environments },
    )

unfoldable pub check_move : Environment → Option Err → ℕ → Db → Result (Unit {0}) × Db
check_move env (some e) now d = (err e, d)
check_move env none now d = write_environment env now d

-- the transaction of UpdateEnvironment
unfoldable pub replace_environment :
    Environment → Option Environment → ℕ → Db → Result (Unit {0}) × Db
replace_environment env none now d = (err (sentinel not_found), d)
replace_environment env (some row) now d =
    check_move env (validate_transition row.status env.status) now d

unfoldable pub update_transaction : Environment → ℕ → Db → Result (Unit {0}) × Db
unfolding replace_environment check_move write_environment overwrite
update_transaction env now d =
    replace_environment env (find_first (has_id env.id) d.environments) now d

module _ (x : Runtime) where
  unfoldable pub create_environment : Environment → Exec Environment
  unfolding insert_environment
  create_environment env =
      wrapped "creating environment"
        (do id ← row_id x env.id; statement x (insert_environment (record env { id = id })))

  unfoldable pub get_environment : String → Exec Environment
  unfolding found
  get_environment id =
      wrapped "getting environment"
        (statement x (λ now d. (found (find_first (has_id id) d.environments), d)))

  unfoldable pub get_environment_by_project_branch : String → String → Exec Environment
  unfolding found
  get_environment_by_project_branch project branch =
      wrapped "getting environment"
        (statement x (λ now d. (found (find_first (on_branch project branch) d.environments), d)))

  unfoldable pub update_environment : Environment → Exec Environment
  unfolding update_transaction
  update_environment env = do
    _ ← wrapped "updating environment" (statement x (update_transaction env))
    get_environment env.id

  unfoldable pub count_live_environments : Exec ℕ
  count_live_environments =
      wrapped "counting live environments"
        (statement x (λ now d. (ok (length (keep is_live d.environments)), d)))

  unfoldable pub list_expired_environments : ℕ → Exec (List Environment)
  list_expired_environments at = wrapped "listing expired environments" (
      statement x
        (λ now d. (ok (order_by expires_before (keep (is_expired at) d.environments)), d)))

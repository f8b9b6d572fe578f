-- ===== src/Store/Lifecycle.antt =====
-- The row of an environment and its status under the statements of internal/store/sqlite.go.
use ramify.Prelude.{
  ℕ, String, ◌≡◌, refl, sym, ◌∙◌, ◌⊎◌, Bool, true, false, Option, none, some, List, [], ◌∷◌,
  find_first, update_where, change, arith, eq_iff, Bool-cases, inl, inr,
}
use ramify.Prelude.Searches.{find_first-append, find_first-update_where, find_first_passes}
use ramify.Errors.{Err}
use ramify.Store.Types.{Db, Environment, Status}
use ramify.Store.Tables.{has_id, null_int, nullable_int, branch_clash}
use ramify.Store.Transitions.{validate_transition}
use ramify.Store.Transitions.Graph.{◌⟶◌}
use ramify.Store.Transitions.Soundness.{move_of_write}
use ramify.Store.Environments.{
  insert_environment, update_transaction, replace_environment, check_move, write_environment,
  overwrite,
}
use ramify.Store.DnsRows.{insert_dns_row, delete_rows}
use ramify.Store.Events.{insert_event, claim_rows, process_rows, retry_rows, dead_letter_rows}
use ramify.Store.Frames.{StoreFrame}

-- A row before and after a statement: its status stays or moves along one edge of the graph.
pub record Follows (a b : Environment) : Type 0 where
  pub created_at : a.created_at ≡ b.created_at
  pub move : (a.status ≡ b.status) ⊎ (a.status ⟶ b.status)

abbrev pub environment_at : String → Db → Option Environment
environment_at id d = find_first (has_id id) d.environments

-- Every row is still there after the statement.
abbrev pub Follow : Db → Db → Type 0
Follow d d' =
    (id : String) (a : Environment)
    → environment_at id d ≡ some a
    → (b : Environment) × (environment_at id d' ≡ some b) × Follows a b

-- The tables that the statements between two worlds found, one after the other.
pub data Lives (p : List Db) (c : Db) : List Db → Db → Type 0 where
  here : Lives p c p c
  next : {q : List Db} {d e : Db} → Lives p c q d → Follow d e → Lives p c (d ∷ q) e

Follows-refl : (a : Environment) → Follows a a
Follows-refl a = record { created_at = refl; move = inl refl }

pub Lives-trans :
    {p q : List Db} {c d : Db} {t : List Db} {e : Db}
    → Lives p c q d
    → Lives q d t e
    → Lives p c t e
Lives-trans g here = g
Lives-trans g (next h step) = next (Lives-trans g h) step

pub Follow-same : (d d' : Db) → d.environments ≡ d'.environments → Follow d d'
Follow-same d d' h id a e = (a, rw (← h) e, Follows-refl a)

stored : Environment → ℕ → Environment
stored env now = record env {
  pr_number = null_int (nullable_int env.pr_number);
  created_at = now;
  updated_at = now;
}

pub Follow-insert :
    (env : Environment) (now : ℕ) (d : Db) → Follow d (insert_environment env now d).1
unfolding insert_environment stored
Follow-insert env now d id a h = (
  a,
  ground (arith, find_first-append (has_id id) d.environments (stored env now ∷ []) h),
  Follows-refl a,
)

has_id-overwrite :
    (env : Environment) (now : ℕ) (id : String) (a : Environment)
    → has_id id (overwrite env now a) ≡ has_id id a
unfolding has_id overwrite
has_id-overwrite env now id a = refl

-- the row that a write replaces is the one whose move was checked
overwrite-Follows :
    (env : Environment) (now : ℕ) (row : Environment)
    → validate_transition row.status env.status ≡ none
    → Follows row (overwrite env now row)
unfolding overwrite
overwrite-Follows env now row legal = record { created_at = refl; move = move_of_write _ _ legal }

same_row :
    (rows : List Environment) (i j : String) {a b : Environment}
    → find_first (has_id i) rows ≡ some a
    → find_first (has_id j) rows ≡ some b
    → has_id i b ≡ true
    → a ≡ b
unfolding has_id
same_row rows i j {a} {b} ha hb e =
    let same : i ≡ j =
      sym ((eq_iff b.id i).0 e) ∙ (eq_iff b.id j).0 (find_first_passes (has_id j) rows hb) in
    cc

Follow-write :
    (env : Environment) (now : ℕ) (d : Db) {row : Environment}
    → environment_at env.id d ≡ some row
    → validate_transition row.status env.status ≡ none
    → Follow d (record d {
      environments = update_where (has_id env.id) (overwrite env now) d.environments;
    })
Follow-write env now d {row} e legal id a h = (
  change (overwrite env now) a (has_id env.id a),
  rw
      (find_first-update_where (has_id id) (has_id env.id) (overwrite env now)
        (has_id-overwrite env now id) d.environments)
      (rw h refl),
  moved (has_id env.id a) refl,
)
  where
    moved : (b : Bool) → has_id env.id a ≡ b → Follows a (change (overwrite env now) a b)
    moved true hit =
        unfold change in
        rw (same_row d.environments env.id id e h hit) at (overwrite-Follows env now row legal)
    moved false miss = unfold change in Follows-refl a

Follow-check :
    (env : Environment) (now : ℕ) (d : Db) {row : Environment} (o : Option Err)
    → environment_at env.id d ≡ some row
    → validate_transition row.status env.status ≡ o
    → Follow d (check_move env o now d).1
unfolding check_move write_environment
Follow-check env now d (some err) e legal = Follow-same d d refl
Follow-check env now d none e legal = elim (Bool-cases (branch_clash env d.environments)) [
  | inl taken ↦ rw taken (Follow-same d d refl)
  | inr free ↦ rw free (Follow-write env now d e legal)
]

Follow-replace :
    (env : Environment) (now : ℕ) (d : Db) (o : Option Environment)
    → environment_at env.id d ≡ o
    → Follow d (replace_environment env o now d).1
unfolding replace_environment
Follow-replace env now d none e = Follow-same d d refl
Follow-replace env now d (some row) e = Follow-check env now d _ e refl

pub Follow-update :
    (env : Environment) (now : ℕ) (d : Db) → Follow d (update_transaction env now d).1
unfolding update_transaction
Follow-update env now d = Follow-replace env now d _ refl

pub environments-insert_event :
    (ev : ramify.Store.Types.Event) (now : ℕ) (d : Db)
    → d.environments ≡ (insert_event ev now d).1.environments
unfolding insert_event
environments-insert_event ev now d = ground arith

pub environments-insert_dns_row :
    (rec : ramify.Store.Types.DnsRow) (now : ℕ) (d : Db)
    → d.environments ≡ (insert_dns_row rec now d).1.environments
unfolding insert_dns_row
environments-insert_dns_row rec now d = ground arith

pub Lives-step : (p : List Db) (d d' : Db) → Follow d d' → Lives p d (d ∷ p) d'
Lives-step p d d' step = next here step

unfoldable pub life_frame : StoreFrame
unfolding delete_rows claim_rows process_rows retry_rows dead_letter_rows
life_frame = record {
  base = record {
    rel = Lives;
    stay = λ p d. here;
    read = λ p d. Lives-step p d d (Follow-same d d refl);
    chain = λ p c q d t e g h. Lives-trans g h;
  };
  at_insert_environment = λ env p now d. Lives-step p d _ (Follow-insert env now d);
  at_update_environment = λ env p now d. Lives-step p d _ (Follow-update env now d);
  at_insert_dns_row = λ rec p now d.
      Lives-step p d _
        (Follow-same d (insert_dns_row rec now d).1 (environments-insert_dns_row rec now d));
  at_delete_rows = λ id p now d. Lives-step p d _ (Follow-same d (delete_rows id now d).1 refl);
  at_insert_event = λ ev p now d.
      Lives-step p d _
        (Follow-same d (insert_event ev now d).1 (environments-insert_event ev now d));
  at_claim =
      λ id at until p now d. Lives-step p d _ (Follow-same d (claim_rows id at until now d).1 refl);
  at_process = λ id at p now d. Lives-step p d _ (Follow-same d (process_rows id at now d).1 refl);
  at_retry = λ id at e p now d. Lives-step p d _ (Follow-same d (retry_rows id at e now d).1 refl);
  at_dead_letter =
      λ id at e p now d. Lives-step p d _ (Follow-same d (dead_letter_rows id at e now d).1 refl);
}

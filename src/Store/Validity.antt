-- ===== src/Store/Validity.antt =====
-- The constraints of the environments table (internal/store/migrations) under the statements.
use ramify.Prelude.{
  ℕ, String, ◌≡◌, refl, Bool, true, false, not, ◌&&◌, ◌||◌, Option, none, some, List, [], ◌∷◌, ◌++◌,
  any, update_where, change, arith, str_eq, eq_iff, Bool-cases, ◌⊎◌, inl, inr,
}
use ramify.Errors.{Err}
use ramify.Store.Types.{Db, Environment}
use ramify.Store.Tables.{has_id, on_branch, environment_clash, branch_clash, null_int, nullable_int}
use ramify.Store.Environments.{
  insert_environment, update_transaction, replace_environment, check_move, write_environment,
  overwrite,
}
use ramify.Store.DnsRows.{insert_dns_row, delete_rows}
use ramify.Store.Events.{insert_event, claim_rows, process_rows, retry_rows, dead_letter_rows}
use ramify.Store.Lifecycle.{environments-insert_event, environments-insert_dns_row}
use ramify.Store.Frames.{StoreFrame}

-- Each row against the rows behind it.
abbrev pub Distinct : List Environment → Type 0
Distinct [] = Unit
Distinct (row ∷ rows) = (environment_clash row rows ≡ false) × Distinct rows

pair_clash : Environment → Environment → Bool
unfolding has_id on_branch
pair_clash a b = has_id a.id b || on_branch a.project a.branch b

pair_clash-sym : (a b : Environment) → pair_clash a b ≡ pair_clash b a
unfolding pair_clash
pair_clash-sym a b = ground (
  arith,
  eq_iff a.id b.id,
  eq_iff b.id a.id,
  eq_iff a.project b.project,
  eq_iff b.project a.project,
  eq_iff a.branch b.branch,
  eq_iff b.branch a.branch,
)

clash-append :
    (a b : Environment) (rows : List Environment)
    → environment_clash a rows ≡ false
    → pair_clash a b ≡ false
    → environment_clash a (rows ++ b ∷ []) ≡ false
unfolding environment_clash pair_clash
clash-append a b [] h e = ground arith
clash-append a b (row ∷ rows) h e = ground (arith, clash-append a b rows)

Distinct-append :
    (row : Environment) (rows : List Environment)
    → Distinct rows
    → environment_clash row rows ≡ false
    → Distinct (rows ++ row ∷ [])
unfolding environment_clash pair_clash
Distinct-append row [] d h = (refl, tt)
Distinct-append row (x ∷ rows) d h = (
  clash-append x row rows d.0 (ground (arith, pair_clash-sym row x)),
  Distinct-append row rows d.1 (ground arith),
)

clash-cons :
    (a row : Environment) (rows : List Environment)
    → environment_clash a (row ∷ rows) ≡ false
    → (pair_clash a row ≡ false) × (environment_clash a rows ≡ false)
unfolding environment_clash pair_clash
clash-cons a row rows h = (ground arith, ground arith)

cons-clash :
    (a row : Environment) (rows : List Environment)
    → pair_clash a row ≡ false
    → environment_clash a rows ≡ false
    → environment_clash a (row ∷ rows) ≡ false
unfolding environment_clash pair_clash
cons-clash a row rows h k = ground arith

module _ (env : Environment) (now : ℕ) where
  -- the row that an update leaves in the place of `a`
  written : Environment → Environment
  unfolding change overwrite has_id
  written a = change (overwrite env now) a (has_id env.id a)

  -- `a` is no other row on the branch that is written
  off_branch : Environment → Bool
  unfolding has_id on_branch
  off_branch a = not (on_branch env.project env.branch a && not (has_id env.id a))

  pair_clash-written :
      (a b : Environment)
      → pair_clash a b ≡ false
      → off_branch a ≡ true
      → off_branch b ≡ true
      → pair_clash (written a) (written b) ≡ false
  unfolding pair_clash written off_branch
  pair_clash-written a b h p q = ground (
    arith,
    eq_iff a.id env.id,
    eq_iff b.id env.id,
    eq_iff b.id a.id,
    eq_iff a.project env.project,
    eq_iff a.branch env.branch,
    eq_iff b.project env.project,
    eq_iff b.branch env.branch,
    eq_iff env.project a.project,
    eq_iff env.branch a.branch,
  )

  branch_clash-cons :
      (row : Environment) (rows : List Environment)
      → branch_clash env (row ∷ rows) ≡ false
      → (off_branch row ≡ true) × (branch_clash env rows ≡ false)
  unfolding branch_clash off_branch
  branch_clash-cons row rows h = (ground arith, ground arith)

  rewritten : List Environment → List Environment
  rewritten rows = update_where (has_id env.id) (overwrite env now) rows

  clash-written :
      (a : Environment) (rows : List Environment)
      → environment_clash a rows ≡ false
      → off_branch a ≡ true
      → branch_clash env rows ≡ false
      → environment_clash (written a) (rewritten rows) ≡ false
  unfolding rewritten update_where has_id written
  clash-written a [] h p q = unfold environment_clash in refl
  clash-written a (row ∷ rows) h p q =
      let (ha, hr) = clash-cons a row rows h in
      let (pr, qr) = branch_clash-cons row rows q in
      cons-clash (written a) (written row) (rewritten rows) (pair_clash-written a row ha p pr)
        (clash-written a rows hr p qr)

  Distinct-written :
      (rows : List Environment)
      → Distinct rows
      → branch_clash env rows ≡ false
      → Distinct (rewritten rows)
  unfolding rewritten update_where written
  Distinct-written [] d h = tt
  Distinct-written (row ∷ rows) d h =
      let (p, q) = branch_clash-cons row rows h in
      (clash-written row rows d.0 p q, Distinct-written rows d.1 q)

abbrev pub KeepsDistinct : Db → Db → Type 0
KeepsDistinct d d' = Distinct d.environments → Distinct d'.environments

pub same_rows : (d d' : Db) → d.environments ≡ d'.environments → KeepsDistinct d d'
same_rows d d' h v = ramify.Prelude.subst Distinct h v

pub KeepsDistinct-insert :
    (env : Environment) (now : ℕ) (d : Db) → KeepsDistinct d (insert_environment env now d).1
unfolding insert_environment
KeepsDistinct-insert env now d v =
    let row : Environment = record env {
      pr_number = null_int (nullable_int env.pr_number);
      created_at = now;
      updated_at = now;
    } in
    elim (Bool-cases (environment_clash row d.environments)) [
      | inl taken ↦ rw taken v
      | inr free ↦ rw free (Distinct-append row d.environments v free)
    ]

KeepsDistinct-check :
    (env : Environment) (now : ℕ) (d : Db) (o : Option Err)
    → KeepsDistinct d (check_move env o now d).1
unfolding check_move write_environment
KeepsDistinct-check env now d (some e) v = v
KeepsDistinct-check env now d none v = elim (Bool-cases (branch_clash env d.environments)) [
  | inl taken ↦ rw taken v
  | inr free ↦ rw free (unfold rewritten in Distinct-written env now d.environments v free)
]

KeepsDistinct-replace :
    (env : Environment) (now : ℕ) (d : Db) (o : Option Environment)
    → KeepsDistinct d (replace_environment env o now d).1
unfolding replace_environment
KeepsDistinct-replace env now d none v = v
KeepsDistinct-replace env now d (some row) v = KeepsDistinct-check env now d _ v

pub KeepsDistinct-update :
    (env : Environment) (now : ℕ) (d : Db) → KeepsDistinct d (update_transaction env now d).1
unfolding update_transaction
KeepsDistinct-update env now d = KeepsDistinct-replace env now d _

unfoldable pub valid_frame : StoreFrame
unfolding delete_rows claim_rows process_rows retry_rows dead_letter_rows
valid_frame = record {
  base = record {
    rel = λ p d p' d'. KeepsDistinct d d';
    stay = λ p d v. v;
    read = λ p d v. v;
    chain = λ p c q d t e g h v. h (g v);
  };
  at_insert_environment = λ env p. KeepsDistinct-insert env;
  at_update_environment = λ env p. KeepsDistinct-update env;
  at_insert_dns_row = λ rec p now d.
      same_rows d (insert_dns_row rec now d).1 (environments-insert_dns_row rec now d);
  at_delete_rows = λ id p now d v. v;
  at_insert_event =
      λ ev p now d. same_rows d (insert_event ev now d).1 (environments-insert_event ev now d);
  at_claim = λ id at until p now d v. v;
  at_process = λ id at p now d v. v;
  at_retry = λ id at e p now d v. v;
  at_dead_letter = λ id at e p now d v. v;
}

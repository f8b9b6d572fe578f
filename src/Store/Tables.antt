-- ===== src/Store/Tables.antt =====
-- The constraints of the tables (internal/store/migrations) and the statements of
-- internal/store/sqlite.go on them, as functions of the rows.
use Prim.Native.Char.{code}
use ramify.Prelude.{
  ℕ, String, Bool, true, false, not, ◌&&◌, ◌||◌, Option, none, some, List, [], ◌∷◌, any, leb, ltb,
  ◌==◌, str_eq, if◌then◌else◌, is_some, ◌≡◌, ◌⊎◌, inl, inr, Bool-cases,
}
use ramify.Prelude.Membership.{In}
use ramify.Store.Types.{Environment, Event, destroyed, same_status}

-- A stable insertion sort: ORDER BY.
module _ {A : Type 0} (before : A → A → Bool) where
  insert_row : A → List A → List A
  insert_row a [] = a ∷ []
  insert_row a (b ∷ rows) =
      let rest = insert_row a rows in if before b a then b ∷ rest else a ∷ b ∷ rows

  sort_onto : List A → List A → List A
  sort_onto sorted [] = sorted
  sort_onto sorted (a ∷ rows) = sort_onto (insert_row a sorted) rows

  unfoldable pub order_by : List A → List A
  unfolding insert_row sort_onto
  order_by rows = sort_onto [] rows

  In-insert_row : (a : A) (rows : List A) (c : A) → In c (insert_row a rows) → (a ≡ c) ⊎ In c rows
  unfolding insert_row
  In-insert_row a [] c h = h
  In-insert_row a (b ∷ rows) c h = elim (Bool-cases (before b a)) [
    | inl earlier ↦ elim (rw earlier at h) [
      | inl e ↦ inr (inl e)
      | inr m ↦ elim (In-insert_row a rows c m) [ inl e ↦ inl e | inr k ↦ inr (inr k) ]
    ]
    | inr later ↦ rw later at h
  ]

  In-sort_onto :
      (sorted rows : List A) (c : A) → In c (sort_onto sorted rows) → In c sorted ⊎ In c rows
  unfolding sort_onto
  In-sort_onto sorted [] c h = inl h
  In-sort_onto sorted (a ∷ rows) c h = elim (In-sort_onto (insert_row a sorted) rows c h) [
    | inl m ↦ elim (In-insert_row a sorted c m) [ inl e ↦ inr (inl e) | inr k ↦ inl k ]
    | inr m ↦ inr (inr m)
  ]

  -- Sorting adds no row.
  pub In-order_by : (rows : List A) (c : A) → In c (order_by rows) → In c rows
  unfolding order_by sort_onto
  In-order_by rows c h = elim (In-sort_onto [] rows c h) [ inl m ↦ elim m [ ] | inr m ↦ m ]

abbrev codes : String → List ℕ
codes String.[] = []
codes (String.◌∷◌ c s) = code c ∷ codes s

lex_le : List ℕ → List ℕ → Bool
lex_le [] t = true
lex_le (a ∷ s) [] = false
lex_le (a ∷ s) (b ∷ t) = ltb a b || (a == b && lex_le s t)

-- ORDER BY created_at, id
unfoldable pub older : Environment → Environment → Bool
unfolding lex_le
older a b =
    ltb a.created_at b.created_at
    || (a.created_at == b.created_at && lex_le (codes a.id) (codes b.id))

-- A missing time is not compared: such rows are filtered out before.
abbrev instant : Option ℕ → ℕ
instant none = 0
instant (some t) = t

unfoldable pub expires_before : Environment → Environment → Bool
expires_before a b = leb (instant a.ttl_expires_at) (instant b.ttl_expires_at)

unfoldable pub dead_after : Event → Event → Bool
dead_after a b = leb (instant b.dead_lettered_at) (instant a.dead_lettered_at)

-- nullableInt and the NullInt64 that is read back
unfoldable pub nullable_int : ℕ → Option ℕ
nullable_int v = if v == 0 then none else some v

unfoldable pub null_int : Option ℕ → ℕ
null_int none = 0
null_int (some v) = v

unfoldable pub nullable_string : String → Option String
nullable_string v = if str_eq v "" then none else some v

abbrev same_value : Option String → Option String → Bool
same_value (some a) (some b) = str_eq a b
same_value _ _ = false

-- PRIMARY KEY (id), UNIQUE (project, branch)
unfoldable pub has_id : String → Environment → Bool
has_id id row = str_eq row.id id

unfoldable pub on_branch : String → String → Environment → Bool
on_branch project branch row = str_eq row.project project && str_eq row.branch branch

unfoldable pub environment_clash : Environment → List Environment → Bool
unfolding has_id on_branch
environment_clash env = any (λ row. has_id env.id row || on_branch env.project env.branch row)

-- Another row has the branch that an update writes.
unfoldable pub branch_clash : Environment → List Environment → Bool
unfolding has_id on_branch
branch_clash env = any (λ row. on_branch env.project env.branch row && not (has_id env.id row))

-- PRIMARY KEY (id), UNIQUE (kind, dedupe_key) WHERE dedupe_key IS NOT NULL
unfoldable pub event_clash : Event → List Event → Bool
unfolding nullable_string
event_clash ev = any (λ row.
    str_eq row.id ev.id
    || (str_eq row.kind ev.kind
        && same_value (nullable_string row.dedupe_key) (nullable_string ev.dedupe_key)))

-- REFERENCES environments(id), for a column that may be NULL
unfoldable pub refers : Option String → List Environment → Bool
unfolding has_id
refers none rows = true
refers (some id) rows = any (has_id id) rows

unfoldable pub is_live : Environment → Bool
is_live row = not (same_status row.status destroyed)

-- ttl_expires_at <= now, false at NULL
at_or_before : Option ℕ → ℕ → Bool
at_or_before none now = false
at_or_before (some t) now = leb t now

unfoldable pub is_expired : ℕ → Environment → Bool
unfolding at_or_before
is_expired now row = not row.pinned && at_or_before row.ttl_expires_at now

-- processed_at IS NULL AND dead_lettered_at IS NULL
unfoldable pub is_pending : Event → Bool
is_pending row = not (is_some row.processed_at) && not (is_some row.dead_lettered_at)

-- ... AND (next_attempt_at IS NULL OR next_attempt_at <= now)
unfoldable pub is_due : ℕ → Event → Bool
unfolding at_or_before is_pending
is_due now row =
    is_pending row && (not (is_some row.next_attempt_at) || at_or_before row.next_attempt_at now)

-- ===== src/Store/Events.antt =====
-- The operations on the event log of internal/store/sqlite.go.
use ramify.Prelude.{
  ℕ, ◌+◌, ◌-◌, String, Bool, not, ◌&&◌, none, some, List, [], ◌∷◌, ◌++◌, length, any, keep, take,
  update_where, leb, ltb, ◌==◌, str_eq, if◌then◌else◌, is_some,
}
use ramify.Errors.{Err, sentinel, other, not_found, conflict}
use ramify.Provider.{Result, ok, err}
use ramify.World.{Exec, Runtime, pure, statement, row_id, wrapped, note, event_logged, ◌>>=◌, ◌>>◌}
use ramify.Store.Types.{Event, Db}
use ramify.Store.Tables.{
  event_clash, refers, nullable_string, is_pending, is_due, order_by, dead_after,
}

-- INSERT: the column dead_lettered_at is not set
unfoldable pub insert_event : Event → ℕ → Db → Result Event × Db
insert_event ev now d =
    let row = record ev { created_at = now; dead_lettered_at = none } in
    if event_clash row d.events
    then (err (sentinel conflict), d)
    else if refers (nullable_string row.environment_id) d.environments
    then (ok (record ev { created_at = now }), record d { events = d.events ++ row ∷ [] })
    else (err (other "FOREIGN KEY constraint failed"), d)

unfoldable pub event_is : String → Event → Bool
event_is id row = str_eq row.id id

-- UPDATE events SET ... WHERE ..., with the number of the rows that it touched
abbrev update_events : (Event → Bool) → (Event → Event) → ℕ → Db → Result ℕ × Db
update_events p f now d =
    (ok (length (keep p d.events)), record d { events = update_where p f d.events })

affected : ℕ → Exec (Unit {0})
affected n = if n == 0 then ramify.World.raise (sentinel not_found) else pure tt

-- LIMIT, with the default of the operation for a limit that is not positive
abbrev pub page_size : ℕ → ℕ → ℕ
page_size default limit = if limit == 0 then default else limit

unfoldable pub claim_row : ℕ → Event → Event
claim_row lease_until row = record row { next_attempt_at = some lease_until }

unfoldable pub dead_letter_row : ℕ → Err → Event → Event
dead_letter_row at last_error row = record row {
  attempts = row.attempts + 1;
  dead_lettered_at = some at;
  next_attempt_at = none;
  last_error = some last_error;
}

unfoldable pub retry_row : ℕ → Err → Event → Event
retry_row next_attempt last_error row = record row {
  attempts = row.attempts + 1;
  next_attempt_at = some next_attempt;
  last_error = some last_error;
}

unfoldable pub claim_rows : String → ℕ → ℕ → ℕ → Db → Result ℕ × Db
unfolding event_is claim_row
claim_rows id at lease_until =
    update_events (λ row. event_is id row && is_due at row) (claim_row lease_until)

unfoldable pub process_row : ℕ → Event → Event
process_row at row = record row { processed_at = some at }

unfoldable pub process_rows : String → ℕ → ℕ → Db → Result ℕ × Db
unfolding event_is process_row
process_rows id at = update_events (event_is id) (process_row at)

unfoldable pub retry_rows : String → ℕ → Err → ℕ → Db → Result ℕ × Db
unfolding event_is retry_row
retry_rows id next_attempt last_error =
    update_events (λ row. event_is id row && is_pending row) (retry_row next_attempt last_error)

unfoldable pub dead_letter_rows : String → ℕ → Err → ℕ → Db → Result ℕ × Db
unfolding event_is dead_letter_row
dead_letter_rows id at last_error =
    update_events (λ row. event_is id row && is_pending row) (dead_letter_row at last_error)

module _ (x : Runtime) where
  -- The journal notes the kind of the event, so that calls can be ordered against it.
  unfoldable pub create_event : Event → Exec Event
  unfolding insert_event
  create_event ev = wrapped "creating event" (do
    id ← row_id x ev.id
    row ← statement x (insert_event (record ev { id = id }))
    note (event_logged row.kind)
    pure row)

  unfoldable pub list_unprocessed_events : Exec (List Event)
  list_unprocessed_events = wrapped "listing unprocessed events" (
      statement x (λ now d.
        (ok (order_by (λ a b. leb a.created_at b.created_at) (keep is_pending d.events)), d)))

  unfoldable pub list_due_events : ℕ → ℕ → Exec (List Event)
  list_due_events at limit = wrapped "listing due events" (
      statement x (λ now d. (
        ok (
            take (page_size 100 limit)
              (order_by (λ a b. leb a.created_at b.created_at) (keep (is_due at) d.events))),
        d,
      )))

  unfoldable pub claim_event : String → ℕ → ℕ → Exec Bool
  unfolding claim_rows
  claim_event id at lease_until =
      wrapped "claiming event" (do n ← statement x (claim_rows id at lease_until); pure (n == 1))

  unfoldable pub mark_event_processed : String → ℕ → Exec (Unit {0})
  unfolding process_rows affected
  mark_event_processed id at =
      wrapped "marking event processed" (do n ← statement x (process_rows id at); affected n)

  unfoldable pub mark_event_retry : String → ℕ → Err → Exec (Unit {0})
  unfolding retry_rows affected
  mark_event_retry id next_attempt last_error =
      wrapped "marking event retryable"
        (do n ← statement x (retry_rows id next_attempt last_error); affected n)

  unfoldable pub mark_event_dead_lettered : String → ℕ → Err → Exec (Unit {0})
  unfolding dead_letter_rows affected
  mark_event_dead_lettered id at last_error =
      wrapped "dead-lettering event"
        (do n ← statement x (dead_letter_rows id at last_error); affected n)

  unfoldable pub list_dead_lettered_events : ℕ → Exec (List Event)
  list_dead_lettered_events limit = wrapped "listing dead-lettered events" (
      statement x (λ now d. (
        ok (
            take (page_size 100 limit)
              (order_by dead_after (keep (λ row. is_some row.dead_lettered_at) d.events))),
        d,
      )))

  unfoldable pub count_dead_lettered_events : Exec ℕ
  count_dead_lettered_events = wrapped "counting dead-lettered events" (
      statement x (λ now d. (ok (length (keep (λ row. is_some row.dead_lettered_at) d.events)), d)))

-- DELETE ... WHERE id IN (SELECT id ...)
unfoldable pub is_prunable : ℕ → Event → Bool
is_prunable before row = is_some row.processed_at && ltb row.created_at before

unfoldable pub pruned : ℕ → ℕ → List Event → List Event
unfolding is_prunable event_is
pruned before limit rows =
    let chosen =
      take (page_size 5000 limit)
        (order_by (λ a b. leb a.created_at b.created_at) (keep (is_prunable before) rows)) in
    keep (λ row. not (any (λ c. event_is c.id row) chosen)) rows

unfoldable pub prune_query : ℕ → ℕ → ℕ → Db → Result ℕ × Db
unfolding pruned
prune_query before limit now d =
    let rest = pruned before limit d.events in
    (ok (length d.events - length rest), record d { events = rest })

module _ (x : Runtime) where
  unfoldable pub prune_processed_events : ℕ → ℕ → Exec ℕ
  unfolding prune_query
  prune_processed_events before limit =
      wrapped "pruning processed events" (statement x (prune_query before limit))

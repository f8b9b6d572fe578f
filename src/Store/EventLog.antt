-- ===== src/Store/EventLog.antt =====
-- The rows of the event log under the statements of internal/store/sqlite.go.
use ramify.Prelude.{
  ℕ, ◌≤◌, String, ◌≡◌, refl, Bool, true, false, Option, none, some, [], ◌∷◌, ◌++◌, find_first,
  update_where, change, arith,
}
use ramify.Prelude.Searches.{find_first-append, find_first-update_where}
use ramify.Errors.{Err}
use ramify.Store.Types.{Db, Event, Environment}
use ramify.Store.Tables.{is_pending}
use ramify.Store.Environments.{insert_environment, update_transaction}
use ramify.Store.DnsRows.{insert_dns_row, delete_rows}
use ramify.Store.Events.{
  event_is, insert_event, claim_rows, process_rows, retry_rows, dead_letter_rows, claim_row,
  process_row, retry_row, dead_letter_row,
}
use ramify.Store.Frames.{StoreFrame}

-- What becomes of a row of the log.
pub record Grows (a b : Event) : Type 0 where
  pub kind : a.kind ≡ b.kind
  pub payload : a.payload ≡ b.payload
  pub environment_id : a.environment_id ≡ b.environment_id
  pub attempts : a.attempts ≤ b.attempts
  pub settled : is_pending a ≡ false → is_pending b ≡ false

abbrev pub event_at : String → Db → Option Event
event_at id d = find_first (event_is id) d.events

abbrev pub LogGrows : Db → Db → Type 0
LogGrows d d' =
    (id : String) (a : Event)
    → event_at id d ≡ some a
    → (b : Event) × (event_at id d' ≡ some b) × Grows a b

Grows-refl : (a : Event) → Grows a a
Grows-refl a = record {
  kind = refl;
  payload = refl;
  environment_id = refl;
  attempts = omega arith;
  settled = λ h. h;
}

Grows-trans : {a b c : Event} → Grows a b → Grows b c → Grows a c
Grows-trans g h = ground arith

module _ (q : Event → Bool) (f : Event → Event) where
  pub LogGrows-update :
      ((id : String) (a : Event) → event_is id (f a) ≡ event_is id a)
      → ((a : Event) → q a ≡ true → Grows a (f a))
      → (d : Db) → LogGrows d (record d { events = update_where q f d.events })
  LogGrows-update same grows d id a h = (
    change f a (q a),
    rw (find_first-update_where (event_is id) q f (same id) d.events) (rw h refl),
    changed_row (q a) refl,
  )
    where
      changed_row : (b : Bool) → q a ≡ b → Grows a (change f a b)
      changed_row true e = unfold change in grows a e
      changed_row false e = unfold change in Grows-refl a

LogGrows-append : (d : Db) (row : Event) → LogGrows d (record d { events = d.events ++ row ∷ [] })
LogGrows-append d row id a h = (a, find_first-append (event_is id) d.events _ h, Grows-refl a)

pub LogGrows-refl : (d : Db) → LogGrows d d
LogGrows-refl d id a h = (a, h, Grows-refl a)

pub LogGrows-trans : (c d e : Db) → LogGrows c d → LogGrows d e → LogGrows c e
LogGrows-trans c d e p q id a h =
    let (b, hb, g) = p id a h in let (b', hb', g') = q id b hb in (b', hb', Grows-trans g g')

pub LogGrows-insert_event : (ev : Event) (now : ℕ) (d : Db) → LogGrows d (insert_event ev now d).1
unfolding insert_event
LogGrows-insert_event ev now d id a h = (
  a,
  ground (
    arith,
    find_first-append (event_is id) d.events
        (record ev { created_at = now; dead_lettered_at = none } ∷ []) h,
  ),
  Grows-refl a,
)

pub claim-Grows : (until : ℕ) (a : Event) → Grows a (claim_row until a)
unfolding claim_row is_pending
claim-Grows until a = ground arith

pub process-Grows : (at : ℕ) (a : Event) → Grows a (process_row at a)
unfolding process_row is_pending
process-Grows at a = ground arith

pub retry-Grows : (at : ℕ) (e : Err) (a : Event) → Grows a (retry_row at e a)
unfolding retry_row is_pending
retry-Grows at e a = ground arith

pub dead_letter-Grows : (at : ℕ) (e : Err) (a : Event) → Grows a (dead_letter_row at e a)
unfolding dead_letter_row is_pending
dead_letter-Grows at e a = ground arith

-- The statements of the store on the other tables leave the log as it is.
pub environments_only : (d d' : Db) → d.events ≡ d'.events → LogGrows d d'
environments_only d d' h id a e = (a, rw (← h) e, Grows-refl a)

pub events-update_environment :
    (env : Environment) (now : ℕ) (d : Db) → d.events ≡ (update_transaction env now d).1.events
unfolding update_transaction
events-update_environment env now d = ground arith

pub events-insert_environment :
    (env : Environment) (now : ℕ) (d : Db) → d.events ≡ (insert_environment env now d).1.events
unfolding insert_environment
events-insert_environment env now d = ground arith

pub events-insert_dns_row :
    (rec : ramify.Store.Types.DnsRow) (now : ℕ) (d : Db)
    → d.events ≡ (insert_dns_row rec now d).1.events
unfolding insert_dns_row
events-insert_dns_row rec now d = ground arith

unfoldable pub log_frame : StoreFrame
unfolding delete_rows claim_rows process_rows retry_rows dead_letter_rows event_is
log_frame = record {
  base = record {
    rel = λ p d p' d'. LogGrows d d';
    stay = λ p d. LogGrows-refl d;
    read = λ p d. LogGrows-refl d;
    chain = λ p c q d t e g h. LogGrows-trans c d e g h;
  };
  at_insert_environment = λ env p now d.
      environments_only d (insert_environment env now d).1 (events-insert_environment env now d);
  at_update_environment = λ env p now d.
      environments_only d (update_transaction env now d).1 (events-update_environment env now d);
  at_insert_dns_row = λ rec p now d.
      environments_only d (insert_dns_row rec now d).1 (events-insert_dns_row rec now d);
  at_delete_rows = λ id p now d. environments_only d (delete_rows id now d).1 refl;
  at_insert_event = λ ev p. LogGrows-insert_event ev;
  at_claim = λ id at until p now d.
      LogGrows-update _ (claim_row until) (λ j a. refl) (λ a _. claim-Grows until a) d;
  at_process = λ id at p now d.
      LogGrows-update _ (process_row at) (λ j a. refl) (λ a _. process-Grows at a) d;
  at_retry = λ id at e p now d.
      LogGrows-update _ (retry_row at e) (λ j a. refl) (λ a _. retry-Grows at e a) d;
  at_dead_letter = λ id at e p now d.
      LogGrows-update _ (dead_letter_row at e) (λ j a. refl) (λ a _. dead_letter-Grows at e a) d;
}

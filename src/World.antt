-- ===== src/World.antt =====
-- What a run of the core changes: the tables and the clock, beside a record of the run, which are the
-- tables that its statements found and the journal of its calls. `Exec` is an action of the core on it,
-- which returns a value or an error beside the new world.
pub mod Moves
pub mod Tables
pub mod Steps
use ramify.Prelude.{
  ℕ, suc, ◌+◌, String, Bool, true, false, Option, none, some, List, ◌∷◌, str_eq, if◌then◌else◌,
}
use ramify.Errors.{Err, wrap}
use ramify.Provider.{Result, ok, err, EnvSpec, DnsRecord, NotifyEvent}
use ramify.Store.Types.{Db}

-- A call that has been made, with whether it succeeded (for a health check: whether it reported a
-- healthy deployment), and the writes to the event log between them.
pub data Call : Type 0 where
  event_logged : String → Call
  deployment_applied : EnvSpec → Bool → Call
  health_checked : String → Bool → Call
  record_ensured : DnsRecord → Bool → Call
  certificate_ensured : String → Bool → Call
  certificate_installed : String → Bool → Call
  record_deleted : DnsRecord → Bool → Call
  certificate_revoked : String → Bool → Call
  certificate_removed : String → Bool → Call
  deployment_destroyed : String → Bool → Call
  slept : String → Bool → Call
  woken : String → Bool → Call
  notified : NotifyEvent → Bool → Call

-- The counters that the core adds to (internal/metrics).
pub record Metrics : Type 0 where
  pub reconciliations : ℕ
  pub reconciliation_failures : ℕ
  pub cleanup_runs : ℕ
  pub cleanup_failures : ℕ

pub record World : Type 0 where
  pub db : Db
  pub past : List Db  -- the tables as each statement that ran found them, the newest first
  pub journal : List Call  -- the newest first
  pub calls : ℕ  -- how many calls left the process, the database's included
  pub now : ℕ
  pub metrics : Metrics

-- What the program takes from its surroundings, by the number of the call: whether the database
-- engine fails at it, a fresh identifier, the time that passes in it, and whether the context
-- has been cancelled.
pub record Runtime : Type 0 where
  pub db_fault : ℕ → Option Err
  pub new_id : ℕ → Result String
  pub elapsed : ℕ → ℕ
  pub cancelled : ℕ → Option Err

abbrev pub Exec : Type 0 → Type 0
Exec A = World → Result A × World

module _ {A : Type 0} where
  unfoldable pub pure : A → Exec A
  pure a w = (ok a, w)

  unfoldable pub raise : Err → Exec A
  raise e w = (err e, w)

module _ {A B : Type 0} where
  unfoldable pub fork : Result A → (A → Exec B) → (Err → Exec B) → Exec B
  fork (ok a) f g = f a
  fork (err e) f g = g e

  -- `v, err := m; if err != nil { g } ; f`
  unfoldable pub catch : Exec A → (A → Exec B) → (Err → Exec B) → Exec B
  unfolding fork
  catch m f g w = let (r, w') = m w in fork r f g w'

  infixl 10 ◌>>=◌ ◌>>◌
  unfoldable pub ◌>>=◌ : Exec A → (A → Exec B) → Exec B
  unfolding catch raise
  m >>= f = catch m f raise

  unfoldable pub ◌>>◌ : Exec A → Exec B → Exec B
  unfolding ◌>>=◌
  m >> n = m >>= λ _. n

module _ {A : Type 0} where
  -- `if err != nil { return ..., fmt.Errorf(text + ": %w", err) }`
  unfoldable pub wrapped : String → Exec A → Exec A
  unfolding catch pure raise
  wrapped text m = catch m pure (λ e. raise (wrap text e))

  -- the result of `m` is dropped: its error is only logged
  unfoldable pub logged : Exec A → Exec (Unit {0})
  unfolding catch pure
  logged m = catch m (λ _. pure tt) (λ _. pure tt)

abbrev pub succeeded : {A : Type 0} → Result A → Bool
succeeded (ok a) = true
succeeded (err e) = false

-- clock.Now and clock.Sleep
unfoldable pub read_clock : Exec ℕ
read_clock w = (ok w.now, w)

unfoldable pub clock_sleep : ℕ → Exec (Unit {0})
clock_sleep d w = (ok tt, record w { now = w.now + d })

-- A line of the journal that is no call.
unfoldable pub note : Call → Exec (Unit {0})
note c w = (ok tt, record w { journal = c ∷ w.journal })

unfoldable pub count : (Metrics → Metrics) → Exec (Unit {0})
count f w = (ok tt, record w { metrics = f w.metrics })

module _ (x : Runtime) where
  -- ctx.Err()
  unfoldable pub context_error : Exec (Option Err)
  context_error w = (ok (x.cancelled w.calls), w)

  unfoldable pub pass : World → World
  pass w = record w { calls = suc w.calls; now = w.now + x.elapsed w.calls }

  -- A provider's method is called, and the journal says with what outcome.
  unfoldable pub call : {A : Type 0} → (Result A → Call) → (ℕ → Result A) → Exec A
  unfolding pass
  call entry method w =
      let r = method w.calls in
      (
        r,
        record w {
          journal = entry r ∷ w.journal;
          calls = suc w.calls;
          now = w.now + x.elapsed w.calls;
        },
      )

  unfoldable pub run_statement : {A : Type 0} → Option Err → (ℕ → Db → Result A × Db) → Exec A
  run_statement (some e) query w = (err e, w)
  run_statement none query w =
      let (r, d) = query w.now w.db in (r, record w { db = d; past = w.db ∷ w.past })

  -- One statement or transaction of the database, at the instant at which it runs. One that the
  -- engine fails has changed nothing.
  unfoldable pub statement : {A : Type 0} → (ℕ → Db → Result A × Db) → Exec A
  unfolding run_statement pass
  statement query w = run_statement (x.db_fault w.calls) query (pass w)

  -- newID
  unfoldable pub fresh_id : Exec String
  unfolding pass
  fresh_id w = (x.new_id w.calls, pass w)

  -- A row that comes without an identifier is given one.
  unfoldable pub row_id : String → Exec String
  row_id id = if str_eq id "" then fresh_id else pure id

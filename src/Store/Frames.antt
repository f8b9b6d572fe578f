-- ===== src/Store/Frames.antt =====
-- Relations between the tables before and after the statements of internal/store/sqlite.go, as an
-- interface.
pub mod Operations
use ramify.Prelude.{ℕ, String, List, ◌∷◌}
use ramify.Errors.{Err}
use ramify.World.Moves.{Frame}
use ramify.World.Tables.{TableFrame, on_tables}
use ramify.Store.Types.{Db, Environment, DnsRow, Event}
use ramify.Store.Environments.{insert_environment, update_transaction}
use ramify.Store.DnsRows.{insert_dns_row, delete_rows}
use ramify.Store.Events.{insert_event, claim_rows, process_rows, retry_rows, dead_letter_rows}

pub record StoreFrame : Type 1 where
  pub base : TableFrame
  pub open base use *
  pub at_insert_environment :
      (env : Environment) (p : List Db) (now : ℕ) (d : Db)
      → rel p d (d ∷ p) (insert_environment env now d).1
  pub at_update_environment :
      (env : Environment) (p : List Db) (now : ℕ) (d : Db)
      → rel p d (d ∷ p) (update_transaction env now d).1
  pub at_insert_dns_row :
      (rec : DnsRow) (p : List Db) (now : ℕ) (d : Db) → rel p d (d ∷ p) (insert_dns_row rec now d).1
  pub at_delete_rows :
      (id : String) (p : List Db) (now : ℕ) (d : Db) → rel p d (d ∷ p) (delete_rows id now d).1
  pub at_insert_event :
      (ev : Event) (p : List Db) (now : ℕ) (d : Db) → rel p d (d ∷ p) (insert_event ev now d).1
  pub at_claim :
      (id : String) (at until : ℕ) (p : List Db) (now : ℕ) (d : Db)
      → rel p d (d ∷ p) (claim_rows id at until now d).1
  pub at_process :
      (id : String) (at : ℕ) (p : List Db) (now : ℕ) (d : Db)
      → rel p d (d ∷ p) (process_rows id at now d).1
  pub at_retry :
      (id : String) (at : ℕ) (e : Err) (p : List Db) (now : ℕ) (d : Db)
      → rel p d (d ∷ p) (retry_rows id at e now d).1
  pub at_dead_letter :
      (id : String) (at : ℕ) (e : Err) (p : List Db) (now : ℕ) (d : Db)
      → rel p d (d ∷ p) (dead_letter_rows id at e now d).1

abbrev pub tables : StoreFrame → Frame
tables f = on_tables f.base

-- ===== src/World/Tables.antt =====
-- Relations between the tables before and after an action, each with those that the statements before
-- it found. The clock, the journal and the counters do not matter to them.
use ramify.Prelude.{ℕ, String, Option, none, some, List, ◌∷◌}
use ramify.Errors.{Err}
use ramify.Provider.{Result}
use ramify.Store.Types.{Db}
use ramify.World.{
  World, Call, Runtime, Metrics, statement, run_statement, call, note, clock_sleep, count, fresh_id,
  row_id,
}
use ramify.World.Moves.{Frame, Moves, Moves-if, Moves-pure}

pub record TableFrame : Type 1 where
  pub rel : List Db → Db → List Db → Db → Type 0
  pub stay : (p : List Db) (d : Db) → rel p d p d
  pub read : (p : List Db) (d : Db) → rel p d (d ∷ p) d
  pub chain :
      (p : List Db) (c : Db) (q : List Db) (d : Db) (t : List Db) (e : Db)
      → rel p c q d
      → rel q d t e
      → rel p c t e

abbrev pub on_tables : TableFrame → Frame
on_tables f = record {
  rel = λ w w'. f.rel w.past w.db w'.past w'.db;
  stay = λ w. f.stay w.past w.db;
  chain = λ u v w p q. f.chain u.past u.db v.past v.db w.past w.db p q;
}

module _ (f : TableFrame) where
  pub Moves-call :
      (x : Runtime) {A : Type 0} (entry : Result A → Call) (method : ℕ → Result A)
      → Moves (on_tables f) (call x entry method)
  unfolding call
  Moves-call x entry method = record { at = λ w. f.stay w.past w.db }

  pub Moves-note : (c : Call) → Moves (on_tables f) (note c)
  unfolding note
  Moves-note c = record { at = λ w. f.stay w.past w.db }

  pub Moves-clock_sleep : (d : ℕ) → Moves (on_tables f) (clock_sleep d)
  unfolding clock_sleep
  Moves-clock_sleep d = record { at = λ w. f.stay w.past w.db }

  pub Moves-count : (g : Metrics → Metrics) → Moves (on_tables f) (count g)
  unfolding count
  Moves-count g = record { at = λ w. f.stay w.past w.db }

  pub Moves-fresh_id : (x : Runtime) → Moves (on_tables f) (fresh_id x)
  unfolding fresh_id
  Moves-fresh_id x = record { at = λ w. f.stay w.past w.db }

  pub Moves-row_id : (x : Runtime) (id : String) → Moves (on_tables f) (row_id x id)
  unfolding row_id
  Moves-row_id x id = Moves-if _ _ _ (Moves-fresh_id x) (Moves-pure id)

  at_statement :
      (x : Runtime) {A : Type 0} (query : ℕ → Db → Result A × Db) (fault : Option Err)
      → ((p : List Db) (now : ℕ) (d : Db) → f.rel p d (d ∷ p) (query now d).1)
      → (w : World)
      → f.rel w.past w.db
          (run_statement x fault query w).1.past
          (run_statement x fault query w).1.db
  unfolding run_statement
  at_statement x query none p w = p w.past w.now w.db
  at_statement x query (some e) p w = f.stay w.past w.db

  pub Moves-statement :
      (x : Runtime) {A : Type 0} (query : ℕ → Db → Result A × Db)
      → ((p : List Db) (now : ℕ) (d : Db) → f.rel p d (d ∷ p) (query now d).1)
      → Moves (on_tables f) (statement x query)
  unfolding statement
  Moves-statement x query p = record { at = λ w. at_statement x query (x.db_fault w.calls) p _ }

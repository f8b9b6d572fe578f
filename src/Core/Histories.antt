-- ===== src/Core/Histories.antt =====
-- Histories of the core's operations, whatever the providers and the database answer, and whatever
-- copies of environments and events the callers pass.
use ramify.Prelude.{String, List, ◌≡◌, some}
use ramify.World.{World}
use ramify.Store.Types.{Event}
use ramify.Store.Lifecycle.{Lives, life_frame}
use ramify.Store.EventLog.{event_at, Grows, log_frame}
use ramify.Store.Validity.{Distinct, valid_frame}
use ramify.Core.Reconciler.{Reconciler}
use ramify.Core.Operations.{Operation, run_all}
use ramify.Core.Frames.Histories.{rel-run_all}

-- Through any history of operations, from the tables that one statement found to those that the next
-- one found, and at last to those that are left, no environment is lost, each keeps the time of its
-- creation, and its status stays or moves along one edge of the status graph.
pub run_all-Lives :
    (r : Reconciler) (history : List Operation) (w : World)
    → Lives w.past w.db (run_all r history w).past (run_all r history w).db
unfolding life_frame
run_all-Lives r history w = rel-run_all life_frame r history w

-- After any history of operations, an event of the log is there with its kind, payload and
-- environment, its count of attempts has not fallen, and if it had been processed or
-- dead-lettered it is still not pending.
pub run_all-Grows :
    (r : Reconciler) (history : List Operation) (w : World) (id : String) (a : Event)
    → event_at id w.db ≡ some a
    → (b : Event) × (event_at id (run_all r history w).db ≡ some b) × Grows a b
unfolding log_frame
run_all-Grows r history w id a h = rel-run_all log_frame r history w id a h

-- If no two environments of the store share an identifier or a project and branch, then none do
-- after any history of operations.
pub run_all-Distinct :
    (r : Reconciler) (history : List Operation) (w : World)
    → Distinct w.db.environments
    → Distinct (run_all r history w).db.environments
unfolding valid_frame
run_all-Distinct r history w v = rel-run_all valid_frame r history w v

-- ===== src/Core/Process/Leases.antt =====
-- ProcessEvent and the leases of the event log (internal/core/reconciler.go).
use ramify.Prelude.{◌&&◌, ◌≡◌, keep, length, arith, Option-cases, inl, inr}
use ramify.World.{World, read_clock, statement, wrapped, catch, pure, ◌>>=◌}
use ramify.Store.Types.{Event}
use ramify.Store.Tables.{is_due}
use ramify.Store.Events.{event_is, claim_event}
use ramify.Core.Reconciler.{Reconciler}
use ramify.Core.Process.{process_event}

-- An event of which no due row is in the log, because another worker holds its lease, or it has been
-- processed, retired or pruned, is not dispatched: no provider is called and no counter changes.
pub unclaimed_not_dispatched :
    (r : Reconciler) (ev : Event) (w : World)
    → length (keep (λ row. event_is ev.id row && is_due w.now row) w.db.events) ≡ 0
    → ((process_event r ev w).1.journal ≡ w.journal)
      × ((process_event r ev w).1.metrics ≡ w.metrics)
unfolding process_event claim_event read_clock statement wrapped catch pure ◌>>=◌
unclaimed_not_dispatched r ev w h = elim (Option-cases (r.runtime.db_fault w.calls)) [
  | inl up ↦ (ground arith, ground arith)
  | inr (e, down) ↦ (ground arith, ground arith)
]

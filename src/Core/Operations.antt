-- ===== src/Core/Operations.antt =====
-- The entry points of the core, as the daemon and the control API call them.
use ramify.Prelude.{List, [], ◌∷◌}
use ramify.World.{World}
use ramify.Store.Types.{Environment, Event}
use ramify.Core.Reconciler.{Reconciler, ApplyRequest}
use ramify.Core.Apply
use ramify.Core.Destroy
use ramify.Core.SleepWake
use ramify.Core.Process.{process_event, replay_unprocessed_events}
use ramify.Core.Reaper

-- The environments and events are the caller's copies, which may be out of date.
pub data Operation : Type 0 where
  apply : ApplyRequest → Operation
  destroy sleep wake : Environment → Operation
  process : Event → Operation
  replay sweep : Operation

unfoldable pub run : Reconciler → Operation → World → World
run r (apply req) w = (Apply.apply r req w).1
run r (destroy env) w = (Destroy.destroy r env w).1
run r (sleep env) w = (SleepWake.sleep r env w).1
run r (wake env) w = (SleepWake.wake r env w).1
run r (process ev) w = (process_event r ev w).1
run r replay w = (replay_unprocessed_events r w).1
run r sweep w = (Reaper.sweep r w).1

-- a history: one operation after the other
unfoldable pub run_all : Reconciler → List Operation → World → World
run_all r [] w = w
run_all r (o ∷ rest) w = run_all r rest (run r o w)

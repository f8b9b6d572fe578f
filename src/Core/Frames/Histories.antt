-- ===== src/Core/Frames/Histories.antt =====
-- The lifting for histories of operations.
use ramify.Prelude.{List, [], ◌∷◌}
use ramify.World.{World}
use ramify.Store.Frames.{StoreFrame}
use ramify.Core.Reconciler.{Reconciler}
use ramify.Core.Operations.{
  Operation, apply, destroy, sleep, wake, process, replay, sweep, run, run_all,
}
use ramify.Core.Frames.Applying.{Moves-apply}
use ramify.Core.Frames.Running.{
  Moves-destroy, Moves-sleep, Moves-wake, Moves-process_event, Moves-replay, Moves-sweep,
}

module _ (f : StoreFrame) (r : Reconciler) where
  rel-run : (o : Operation) (w : World) → f.rel w.past w.db (run r o w).past (run r o w).db
  unfolding run
  rel-run (apply req) w = (Moves-apply f r req).at w
  rel-run (destroy env) w = (Moves-destroy f r env).at w
  rel-run (sleep env) w = (Moves-sleep f r env).at w
  rel-run (wake env) w = (Moves-wake f r env).at w
  rel-run (process ev) w = (Moves-process_event f r ev).at w
  rel-run replay w = (Moves-replay f r).at w
  rel-run sweep w = (Moves-sweep f r).at w

  pub rel-run_all :
      (history : List Operation) (w : World)
      → f.rel w.past w.db (run_all r history w).past (run_all r history w).db
  unfolding run_all
  rel-run_all [] w = f.stay w.past w.db
  rel-run_all (o ∷ rest) w =
      f.chain w.past w.db (run r o w).past (run r o w).db _ _ (rel-run o w)
        (rel-run_all rest (run r o w))

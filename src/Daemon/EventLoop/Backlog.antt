-- ===== src/Daemon/EventLoop/Backlog.antt =====
-- The gauge of pending events, and what GET /readyz makes of it: runEventLoop of cmd/ramifyd/main.go
-- with handleReadyz of internal/api/handlers.go.
use ramify.Prelude.{
  ℕ, zero, suc, ◌≤◌, ◌≡◌, refl, ap, ◌&&◌, ◌||◌, ltb, ◌==◌, ◌-◌, Bool-cases, inl, inr, none, some,
  List, [], ◌∷◌, length, take, if◌then◌else◌, arith, Option,
}
use ramify.Errors.{Err, wrap}
use ramify.Provider.{Result, ok, err}
use ramify.World.{
  World, wrapped, catch, fork, pure, raise, statement, run_statement, pass, Runtime, read_clock,
  ◌>>=◌,
}
use ramify.Store.Types.{Event, Db}
use ramify.Store.Events.{list_due_events, list_unprocessed_events}
use ramify.Core.Reconciler.{Reconciler}
use ramify.Api.{Server, Response, empty, failure}
use ramify.Api.Health.{
  ready_max_heartbeat_age, ready_max_inbox_backlog, Gauges, readiness, handle_readyz,
}
use ramify.Daemon.EventLoop.{
  Worker, new_worker, event_tick, after_listing, prune_if_due, count_dead, beat, prune_due,
}

-- The states of the event worker: at the start, and after a tick in whatever world.
pub data Reached (r : Reconciler) (event_retention : ℕ) : Worker → Type 0 where
  start : Reached r event_retention new_worker
  tick :
      {k : Worker}
      → Reached r event_retention k
      → (w : World) → Reached r event_retention (event_tick r event_retention k w).0

length-take-le : {A : Type 0} (n : ℕ) (xs : List A) → length (take n xs) ≤ n
length-take-le zero xs = omega arith
length-take-le (suc n) [] = omega arith
length-take-le (suc n) (x ∷ xs) = omega (arith, length-take-le n xs)

-- A list of at most `n` events, if any is returned.
abbrev AtMost : ℕ → Result (List Event) → Type 0
AtMost n (ok events) = length events ≤ n
AtMost n (err e) = Unit {0}

module _ (n : ℕ) where
  forked-AtMost :
      (g : Err → Err) (o : Result (List Event)) (w : World)
      → AtMost n o
      → AtMost n (fork o pure (λ e. raise (g e)) w).0
  unfolding fork pure raise
  forked-AtMost g (ok events) w h = h
  forked-AtMost g (err e) w h = tt

  statement-AtMost :
      (x : Runtime) (query : ℕ → Db → Result (List Event) × Db) (fault : Option Err) (w : World)
      → ((now : ℕ) (d : Db) → AtMost n (query now d).0)
      → AtMost n (run_statement x fault query w).0
  unfolding run_statement
  statement-AtMost x query (some e) w h = tt
  statement-AtMost x query none w h = h w.now w.db

list_due-AtMost : (x : Runtime) (at : ℕ) (w : World) → AtMost 100 (list_due_events x at 100 w).0
unfolding list_due_events wrapped catch statement
list_due-AtMost x at w =
    forked-AtMost 100 (wrap "listing due events") _ _
      (statement-AtMost 100 x _ (x.db_fault w.calls) (pass x w) (λ now d. length-take-le 100 _))

module _ (r : Reconciler) (event_retention : ℕ) where
  abbrev Small : Worker → Type 0
  Small k = k.gauges.inbox_pending ≤ 100

  count_dead-Small : (o : Result ℕ) (k : Worker) → Small k → Small (count_dead o k)
  unfolding count_dead
  count_dead-Small (ok dead) k h = h
  count_dead-Small (err e) k h = h

  prune_if_due-Small :
      (now : ℕ) (k : Worker) (w : World)
      → Small k
      → Small (prune_if_due r event_retention now k w).0
  unfolding prune_if_due
  prune_if_due-Small now k w h =
      elim (Bool-cases (ltb 0 event_retention && prune_due k.last_prune now)) [
        | inl due ↦ rw due h
        | inr early ↦ rw early h
      ]

  after_listing-Small :
      (now : ℕ) (o : Result (List Event)) (k : Worker) (w : World)
      → AtMost 100 o
      → Small k
      → Small (after_listing r event_retention now o k w).0
  unfolding after_listing
  after_listing-Small now (err e) k w p h = h
  after_listing-Small now (ok events) k w p h = prune_if_due-Small now _ _ (count_dead-Small _ _ p)

  Reached-Small : {k : Worker} → Reached r event_retention k → Small k
  unfolding event_tick
  Reached-Small start = omega arith
  Reached-Small (tick {k = k} before w) =
      after_listing-Small w.now _ (beat w.now k) _ (list_due-AtMost r.runtime w.now w)
        (Reached-Small before)

-- The readiness without its last test.
unfoldable pub by_heartbeat : ℕ → ℕ → Response
by_heartbeat now heartbeat =
    if heartbeat == 0 || ltb ready_max_heartbeat_age (now - heartbeat)
    then failure 503 "event worker heartbeat stale"
    else empty 200

readiness-Small :
    (now : ℕ) (g : Gauges)
    → g.inbox_pending ≤ 100
    → readiness now g ≡ by_heartbeat now g.worker_heartbeat
unfolding readiness by_heartbeat
readiness-Small now g h = elim (Bool-cases (ltb ready_max_inbox_backlog g.inbox_pending)) [
  | inl many ↦ absurd (ground arith)
  | inr few ↦ rw few refl
]

-- Whatever ticks of the event worker went before, if the event store answers, GET /readyz depends on
-- the heartbeat alone: however many events are due, it does not report a backlog.
pub readyz_ignores_backlog :
    (r : Reconciler) (event_retention : ℕ) {k : Worker} (s : Server) (w w' : World)
    (events : List Event)
    → Reached r event_retention k
    → list_unprocessed_events s.reconciler.runtime w ≡ (ok events, w')
    → (handle_readyz s k.gauges w).0 ≡ ok (by_heartbeat w'.now k.gauges.worker_heartbeat)
unfolding handle_readyz catch read_clock ◌>>=◌ pure fork
readyz_ignores_backlog r event_retention {k} s w w' events reached answer =
    rw answer (ap ok (readiness-Small w'.now k.gauges (Reached-Small r event_retention reached)))

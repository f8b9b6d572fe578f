-- ===== src/Daemon/EventLoop.antt =====
-- The poll loop of the event worker and the loop of the reaper: runEventLoop and runReaperLoop of
-- cmd/ramifyd/main.go. One tick of the ticker is a function.
pub mod Backlog
pub mod Upkeep
use ramify.Prelude.{
  ℕ, ◌*◌, ◌-◌, Bool, true, ◌&&◌, ltb, leb, Option, none, some, List, length, if◌then◌else◌,
}
use ramify.Provider.{Result, ok, err}
use ramify.World.{World}
use ramify.Store.Types.{Event}
use ramify.Store.Events.{list_due_events, count_dead_lettered_events, prune_processed_events}
use ramify.Core.Reconciler.{Reconciler}
use ramify.Core.Process.{replay_events}
use ramify.Core.Retry.{second}
use ramify.Api.Health.{Gauges}

-- `last_prune` is none for the zero time.
pub record Worker : Type 0 where
  pub gauges : Gauges
  pub last_prune : Option ℕ

abbrev pub new_worker : Worker
new_worker = record {
  gauges = record { inbox_pending = 0; dead_lettered = 0; worker_heartbeat = 0 };
  last_prune = none;
}

abbrev pub hour : ℕ
hour = 3600 * second

unfoldable pub prune_due : Option ℕ → ℕ → Bool
prune_due none now = true
prune_due (some last) now = leb hour (now - last)

unfoldable pub count_dead : Result ℕ → Worker → Worker
count_dead (ok dead) k = record k { gauges = record k.gauges { dead_lettered = dead } }
count_dead (err e) k = k

abbrev pub beat : ℕ → Worker → Worker
beat now k = record k { gauges = record k.gauges { worker_heartbeat = now } }

abbrev pub pending : ℕ → Worker → Worker
pending n k = record k { gauges = record k.gauges { inbox_pending = n } }

module _ (r : Reconciler) (event_retention : ℕ) where
  unfoldable pub prune_if_due : ℕ → Worker → World → Worker × World
  unfolding prune_due
  prune_if_due now k w =
      if ltb 0 event_retention && prune_due k.last_prune now
      then (
        record k { last_prune = some now },
        (prune_processed_events r.runtime (now - event_retention) 5000 w).1,
      )
      else (k, w)

  -- `continue` where the listing fails
  unfoldable pub after_listing : ℕ → Result (List Event) → Worker → World → Worker × World
  unfolding count_dead prune_if_due
  after_listing now (err e) k w = (k, w)
  after_listing now (ok events) k w =
      let (dead, counted) = count_dead_lettered_events r.runtime w in
      prune_if_due now (count_dead dead (pending (length events) k))
        (replay_events r events counted).1

  unfoldable pub event_tick : Worker → World → Worker × World
  unfolding after_listing
  event_tick k w =
      let (events, listed) = list_due_events r.runtime w.now 100 w in
      after_listing w.now events (beat w.now k) listed

-- the interval between two sweeps; one that is not positive is the default
unfoldable pub reaper_interval : ℕ → ℕ
reaper_interval interval = if ltb 0 interval then interval else 300 * second

-- ===== src/Api/Health.antt =====
-- GET /healthz and GET /readyz (handleHealthz and handleReadyz of internal/api/handlers.go), with the
-- gauges of internal/metrics/metrics.go that the event worker sets.
use ramify.Prelude.{ℕ, ◌*◌, ◌-◌, ◌||◌, ltb, ◌==◌, if◌then◌else◌}
use ramify.World.{Exec, pure, catch, read_clock, ◌>>=◌}
use ramify.Store.Paging.{list_environments}
use ramify.Store.Events.{list_unprocessed_events}
use ramify.Api.{Server, Response, empty, failure}

-- A heartbeat of 0 is none.
pub record Gauges : Type 0 where
  pub inbox_pending : ℕ
  pub dead_lettered : ℕ
  pub worker_heartbeat : ℕ

abbrev pub ready_max_heartbeat_age : ℕ
ready_max_heartbeat_age = 30 * 1000000000

abbrev pub ready_max_inbox_backlog : ℕ
ready_max_inbox_backlog = 1000

unfoldable pub readiness : ℕ → Gauges → Response
readiness now g =
    if g.worker_heartbeat == 0 || ltb ready_max_heartbeat_age (now - g.worker_heartbeat)
    then failure 503 "event worker heartbeat stale"
    else if ltb ready_max_inbox_backlog g.inbox_pending
    then failure 503 "event backlog exceeds threshold"
    else empty 200

unfoldable pub handle_healthz : Server → Exec Response
handle_healthz s =
    catch
      (list_environments s.reconciler.runtime
        (record { project = ""; branch = ""; limit = 1; offset = 0 }))
      (λ envs. pure (empty 200)) (λ e. pure (failure 503 "store unavailable"))

unfoldable pub handle_readyz : Server → Gauges → Exec Response
unfolding readiness
handle_readyz s g =
    catch (list_unprocessed_events s.reconciler.runtime)
      (λ events. do now ← read_clock; pure (readiness now g))
      (λ e. pure (failure 503 "event store unavailable"))

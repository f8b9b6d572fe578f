-- ===== src/Tests/Daemons.antt =====
-- The theorems on the daemon and its control API, at a router that tries the routes in order, a host
-- with one socket, and the small installation.
use ramify.Prelude.{
  ℕ, String, Bool, true, false, ◌&&◌, ◌≡◌, ◌≢◌, ◌⊎◌, inl, inr, refl, Option, some, none, List, [],
  ◌∷◌, find_first, str_eq, eq_iff, arith, if◌then◌else◌, ◌<◌, ◌-◌,
}
use ramify.Prelude.Codes.{chars, starts_with}
use ramify.Prelude.Membership.{In, find_first-In}
use ramify.Errors.{other}
use ramify.Provider.{ok, err}
use ramify.Dns.Triples.{Meets}
use ramify.Api.Gateway.{
  Router, IsRouter, Route, routes, literal, HttpRequest, get_environment, serve_tcp, handled,
}
use ramify.Api.Gateway.Authorization.{is_shell, serve_tcp-authorized}
use ramify.Api.Sockets.{Host, listen_unix, socket_mode}
use ramify.Api.Sockets.Ownership.{IsFaithful, listen_unix-owned}
use ramify.World.{succeeded}
use ramify.World.{World, pass}
use ramify.Store.Types.{Event, ready}
use ramify.Store.Events.{is_prunable, list_unprocessed_events}
use ramify.Store.EventLog.{event_at, Grows}
use ramify.Core.Reconciler.{Reconciler}
use ramify.Api.Health.{handle_readyz}
use ramify.Daemon.EventLoop.{new_worker, event_tick}
use ramify.Daemon.EventLoop.Upkeep.{replayed, tick-keeps}
use ramify.Daemon.EventLoop.Backlog.{Reached, by_heartbeat, readyz_ignores_backlog}
use ramify.Git.{GitHost, new_git_provider}
use ramify.Config.Types.{DeployConfig}
use ramify.Config.Loading.{load}
use ramify.Daemon.Providers.{
  DnsHost, new_dns_provider, SshLibrary, DeployTarget, new_deploy_provider,
}
use ramify.Daemon.Providers.Startup.{load_constructs}
use ramify.Tests.Hosts.{surroundings, loaded_config}
use ramify.Tests.Fixtures.{server, reconciler, event, world, runtime}

abbrev first_match : Router
first_match table method path =
    find_first (λ r. str_eq r.method method && starts_with path (literal r.pattern)) table

first_match-IsRouter : IsRouter first_match
first_match-IsRouter = record {
  finds = λ table method path r found.
      let (listed, passes) = find_first-In _ table found in
      (listed, (eq_iff r.method method).0 (ground arith), ground arith);
}

abbrev token : String
token = "secret"

abbrev show : HttpRequest
show = record { method = "GET"; path = chars "/environments/env"; authorization = "Bearer secret" }

serve_tcp-authorized_example :
    (is_shell get_environment ≡ true) ⊎ ((token ≢ "") × (show.authorization ≡ "Bearer secret"))
unfolding serve_tcp ramify.Api.Gateway.token_auth ramify.Api.Gateway.serve_http find_first routes
    literal starts_with ramify.Dns.Texts.same_text
serve_tcp-authorized_example = serve_tcp-authorized first_match first_match-IsRouter token show refl

-- Whether a process listens on the socket, and the mode of the socket.
abbrev Socket : Type 0
Socket = Bool × ℕ

abbrev host : Host Socket
host = record {
  make_parent = λ path s. (ok tt, s);
  stat = λ path s. (if s.0 then ok tt else err (other "no such file"), s);
  dial = λ path s. (if s.0 then ok tt else err (other "connection refused"), s);
  remove = λ path s. (ok tt, s);
  listen = λ path s.
      (if s.0 then err (other "address in use") else ok tt, if s.0 then s else (true, 493));
  chmod = λ path mode s. (ok tt, (s.0, mode));
  close = λ path s. (ok tt, (false, s.1));
  is_not_exist = λ e. true;
}

listen-starts : (s : Socket) → succeeded (host.listen "" s).0 ≡ true → (host.listen "" s).1.0 ≡ true
listen-starts (true, mode) h = refl
listen-starts (false, mode) h = refl

listen-fails : (s : Socket) → succeeded (host.listen "" s).0 ≡ false → (host.listen "" s).1.0 ≡ s.0
listen-fails (true, mode) h = refl
listen-fails (false, mode) h = absurd (ground arith)

abbrev host-IsFaithful : IsFaithful host "/run/ramify.sock"
host-IsFaithful = record {
  live = λ s. s.0;
  mode = λ s. s.1;
  parent_keeps = λ s. refl;
  stat_keeps = λ s. refl;
  stat_finds = λ s l. rw l refl;
  dial_keeps = λ s. refl;
  dial_connects = λ s l. rw l refl;
  remove_stops = λ s q. q;
  listen_starts = listen-starts;
  listen_fails = listen-fails;
  chmod_keeps = λ s m. refl;
  chmod_sets = λ s m set. refl;
  close_stops = λ s. refl;
}

listen_unix-owned_example :
    Meets
      (λ _ s'. (false ≡ false) × (s'.0 ≡ true) × (s'.1 ≡ socket_mode))
      (λ _ s'. s'.0 ≡ false)
      (listen_unix host "/run/ramify.sock" (false, 0)).0
      (listen_unix host "/run/ramify.sock" (false, 0)).1
listen_unix-owned_example = listen_unix-owned host "/run/ramify.sock" host-IsFaithful (false, 0)

abbrev keeper : Reconciler
keeper = reconciler true true

-- The event has been processed long ago.
abbrev old_event : Event
old_event = record event { kind = "webhook_received"; processed_at = some 10 }

abbrev old_world : World
old_world = record (world ready) { db = record (world ready).db { events = old_event ∷ [] } }

tick-keeps_example :
    (b : Event) × (event_at "event" (replayed keeper old_world).db ≡ some b)
    × Grows old_event b
    × ((event_at "event" (event_tick keeper 100 new_worker old_world).1.db ≡ some b)
        ⊎ ((0 < 100)
            × ((c : Event) × In c (replayed keeper old_world).db.events
                × (c.id ≡ "event")
                × (is_prunable 900 c ≡ true))))
unfolding find_first ramify.Store.Events.event_is
tick-keeps_example = tick-keeps keeper 100 new_worker old_world "event" old_event refl

readyz_ignores_backlog_example :
    (handle_readyz server (event_tick keeper 0 new_worker (world ready)).0.gauges (world ready)).0
    ≡ ok
        (by_heartbeat 1001 (event_tick keeper 0 new_worker (world ready)).0.gauges.worker_heartbeat)
unfolding list_unprocessed_events ramify.World.wrapped ramify.World.statement
    ramify.Store.Tables.order_by ramify.Prelude.keep ramify.Store.Tables.is_pending
readyz_ignores_backlog_example =
    readyz_ignores_backlog keeper 0 server (world ready)
      (record (pass runtime (world ready)) { past = (world ready).db ∷ [] }) (event ∷ [])
      (Reached.tick Reached.start (world ready)) refl

-- A key and a callback are texts here.
abbrev ssh : SshLibrary String String
ssh = record {
  read_file = λ path. ok path;
  parse_private_key = λ text. ok text;
  known_hosts = λ path. ok path;
  insecure_ignore_host_key = "any";
}

load_constructs_example :
    ((h : GitHost) × (new_git_provider loaded_config.git.provider ≡ ok h))
    × ((h : DnsHost) × (new_dns_provider loaded_config.dns.provider ≡ ok h))
    × ((t : DeployTarget String String) × (new_deploy_provider ssh loaded_config.deploy ≡ ok t))
unfolding load ramify.Config.Loading.◌>>=◌ ramify.Config.Loading.resolve_git
    ramify.Config.Loading.resolve_env ramify.Prelude.Texts.has_prefix
    ramify.Prelude.Texts.trim_suffix ramify.Prelude.Texts.trim_prefix
    ramify.Config.Loading.resolve_dns ramify.Config.Loading.resolve_server ramify.Config.validate
    ramify.Config.is_loopback_addr
load_constructs_example =
    load_constructs surroundings ssh "ramify.yaml" loaded_config "" "" "" refl refl refl refl

abbrev compose_settings : DeployConfig
compose_settings = record loaded_config.deploy {
  provider = "compose";
  ssh_private_key_path = "key";
  ssh_known_hosts_path = "hosts";
}

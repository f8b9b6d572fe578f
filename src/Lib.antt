-- ===== src/Lib.antt =====
-- A model of the core of ramify, which gives each branch of a project a preview environment: it
-- deploys a built artifact, waits until it is healthy, publishes it under a DNS name with a
-- certificate, puts it to sleep and wakes it, and tears it down.
--
-- The parts, with the code that they model:
--   Provider      providers/providerapi: the interfaces to deployment, DNS, certificates and notices
--   Errors        providers/providerapi/errors.go, internal/core/errors.go: wrapped and joined errors
--   World         what a run changes: the tables, the clock, the counters (internal/metrics), and as
--                 a record of the run the tables that each statement found (`past`) and a journal of
--                 the calls; `Exec` is an action on it that returns a value or an error
--   Store         internal/store: rows (Types), the constraints of the migrations (Tables), the status
--                 graph (Transitions), the statements (Environments, DnsRows, Events, Paging)
--   Domain        internal/core/domain/normalize.go: DNS labels from branch names
--   Policy        internal/core/policy/policy.go: which webhook events are admitted
--   Core          internal/core: Reconciler (its dependencies and its calls of them), Readiness,
--                 Retry, Apply, Destroy, SleepWake, Webhook, Process, Reaper; Operations has the
--                 entry points, and Frames the lemmas that lift a relation from statements to runs.
--   Api           internal/api: the handlers of environments, the pages of the listing (Listing), the
--                 webhook inbox (Inbox), health and readiness (Health) of handlers.go; the routes with
--                 the bearer token (Gateway) and the socket (Sockets) of server.go
--   Config        internal/config/config.go: Load and Validate, with what startup requires
--                 (Requirements)
--   Git           providers/git: the webhooks of GitHub, GitLab and Bitbucket, and the choice of one of
--                 them in cmd/ramifyd/main.go
--   Dns           providers/dns: cloudflare, over a client of a zone (Client) with the laws that its
--                 host documents; digitalocean, over the same client; route53 and googlecloud, with
--                 the quoting of TXT values (Texts). Triples has the rules for actions on what is
--                 behind a provider
--   Deploy        providers/deploy: compose, whose commands are read by the rules of a POSIX shell
--                 (Shell), and kubernetes, with its manifests (Kubernetes.Manifest)
--   Cert          providers/cert/acme/acme.go: the certificates of the cache and of the storage
--                 directory
--   Notify        providers/notify/prcomment/prcomment.go: the templates of the notices
--   Daemon        cmd/ramifyd/main.go: the construction of the providers (Providers) and the loop of the
--                 event worker (EventLoop), one tick of it a function
--   Cli           cmd/ramify/client.go: the walk over the pages of a listing, joined to the pages of
--                 the control API (Completeness)
--   Core.Locks    internal/core/keyedmutex.go: the mutexes per key as steps of any number of callers
--                 (`Step`), with the entries at addresses as the heap has them
--   Tests         a small installation and runs of the model on it
--
-- A function of the model has the name of its Go function in this library's spelling (`do_apply` for
-- doApply, `update_environment` for UpdateEnvironment). A method of the reconciler is an action: it
-- reads and changes the world in the order of the code. A statement or a transaction of the database
-- is one step, which the engine may fail (`Runtime.db_fault`), and then it changes nothing. A provider
-- may answer each call differently; it sees the number of the call. Times are natural numbers of
-- nanoseconds from a fixed origin, and the clock moves by an arbitrary amount in each call.
--
-- Taken as parameters, since their code is elsewhere: the providers, JSON (`Codec`), sha256, Unicode
-- lower case, path.Match and strings.EqualFold (`TextLibrary`), random draws and identifiers, the
-- clients of DNS hosts, HMAC and hexadecimal (`Git.Hooks.Codecs`), files, YAML, the environment and
-- the `net` package (`Config.Surroundings`), the HTTP router (`Api.Gateway.Router`), the operating
-- system's sockets (`Api.Sockets.Host`), the runners of commands, base64 and strconv
-- (`Deploy.Compose.Library`, `Deploy.Kubernetes.Cluster`), SSH keys (`Daemon.Providers.SshLibrary`),
-- templates (`Notify.TemplateLibrary`), the ACME authority with the files of its storage directory
-- (`Cert.Surroundings`) and the HTTP exchange of the command line (`Cli.ApiClient`).
--
-- The loop of waitUntilHealthy is recursion on fuel: one round for each poll interval of the timeout
-- and two more. The clock moves by at least the poll interval in each round, so the deadline ends
-- the loop before the fuel does where the interval is positive. All other loops run over lists, over
-- the five attempts of doApply, or over the 1000 pages at most of listEnvironments.
--
-- Not modelled: logging, contexts beyond their cancellation, opening and backing up the database, the
-- workers' parallelism (ReplayEvents is run in the order of its list), the metrics page, the assets
-- of the dashboard and the shutdown of the listeners, the connection over SSH and the process of
-- kubectl, the account of the ACME client and its challenges, the calls that post comments on pull
-- requests, and the rest of the command line. A request reaches a handler with its body decoded. The
-- blocks of the configuration that nothing checks are left out; so are the walk over the pages of a
-- listing at a DNS host, the time to live of a DNS record, and the listings of managed records other than Cloudflare's.
--
-- The locks that Apply, Destroy, Sleep and Wake hold make each of them one step for the others on the
-- same branch; a history runs one operation after the other.
pub mod Prelude
pub mod Errors
pub mod Provider
pub mod World
pub mod Store
pub mod Domain
pub mod Policy
pub mod Core
pub mod Api
pub mod Tests
pub mod Cert
pub mod Cli
pub mod Config
pub mod Daemon
pub mod Deploy
pub mod Dns
pub mod Git
pub mod Notify

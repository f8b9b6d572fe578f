-- ===== src/Api/Sockets.antt =====
-- The socket of the control API: listenUnix and probeStaleSocket of internal/api/server.go, and how
-- Serve opens its listeners. The operating system is a parameter.
pub mod Ownership
use ramify.Prelude.{ℕ, String, Bool, str_eq, if◌then◌else◌}
use ramify.Errors.{Err, other, wrap}
use ramify.Provider.{Result, ok, err}
use ramify.Dns.Client.{Act, pure, raise, ◌>>=◌, ◌>>◌, wrapped}

-- os.MkdirAll of the directory of a path, os.Stat, net.DialTimeout, os.Remove, net.Listen, os.Chmod and
-- the Close of a listener, the locks of pidlock_unix.go, and the Shutdown of the server.
pub record Host (S : Type 0) : Type 0 where
  pub make_parent : String → Act S (Unit {0})
  pub stat : String → Act S (Unit {0})
  pub dial : String → Act S (Unit {0})
  pub remove : String → Act S (Unit {0})
  pub listen : String → Act S (Unit {0})
  pub chmod : String → ℕ → Act S (Unit {0})
  pub close : String → Act S (Unit {0})
  pub is_not_exist : Err → Bool

-- An error that the source keeps in a variable.
unfoldable pub attempt : {S A : Type 0} → Act S A → Act S (Result A)
attempt m s = let (r, s') = m s in (ok r, s')

-- 0o660
abbrev pub socket_mode : ℕ
socket_mode = 432

module _ {S : Type 0} (h : Host S) (path : String) where
  unfoldable pub judged : Result (Unit {0}) → Act S (Unit {0})
  judged (ok connection) =
      raise (other "refusing to remove live socket: another ramifyd instance appears to be running")
  judged (err e) = pure tt

  unfoldable pub probe_stale_socket : Act S (Unit {0})
  unfolding judged
  probe_stale_socket = do connected ← attempt (h.dial path); judged connected

  unfoldable pub after_stat : Result (Unit {0}) → Act S (Unit {0})
  after_stat (ok info) = probe_stale_socket
  after_stat (err e) =
      if h.is_not_exist e then pure tt else raise (wrap "checking existing socket" e)

  unfoldable pub after_remove : Result (Unit {0}) → Act S (Unit {0})
  after_remove (ok removed) = pure tt
  after_remove (err e) =
      if h.is_not_exist e then pure tt else raise (wrap "removing stale socket" e)

  unfoldable pub after_chmod : Result (Unit {0}) → Act S (Unit {0})
  after_chmod (ok secured) = pure tt
  after_chmod (err e) = do
    closed ← attempt (h.close path)
    removed ← attempt (h.remove path)
    raise (wrap "securing socket" e)

  unfoldable pub listen_unix : Act S (Unit {0})
  unfolding after_stat after_remove after_chmod
  listen_unix = do
    wrapped "creating socket directory" (h.make_parent path)
    found ← attempt (h.stat path)
    after_stat found
    removed ← attempt (h.remove path)
    after_remove removed
    wrapped "listening" (h.listen path)
    secured ← attempt (h.chmod path socket_mode)
    after_chmod secured

-- ===== src/Api/Sockets/Ownership.antt =====
-- What listenUnix of internal/api/server.go does to the socket at its path.
use ramify.Prelude.{
  ℕ, String, Bool, true, false, ◌≡◌, refl, arith, sym, ◌∙◌, if◌then◌else◌, Bool-cases, inl, inr,
}
use ramify.Errors.{Err}
use ramify.Provider.{Result, ok, err}
use ramify.World.{succeeded}
use ramify.Dns.Client.{Act, pure, raise}
use ramify.Dns.Triples.{
  Meets, Triple, pure-Triple, raise-Triple, wrapped-Triple, bind, sequence, weaken,
}
use ramify.Dns.Calls.{steady}
use ramify.Api.Sockets.{
  Host, attempt, socket_mode, judged, probe_stale_socket, after_stat, after_remove, after_chmod,
  listen_unix,
}

-- What the operating system documents of a path: whether a process accepts connections on it, and
-- its mode. A call that fails has not started to listen.
pub record IsFaithful {S : Type 0} (h : Host S) (path : String) : Type 0 where
  pub live : S → Bool
  pub mode : S → ℕ
  pub parent_keeps : (s : S) → live (h.make_parent path s).1 ≡ live s
  pub stat_keeps : (s : S) → live (h.stat path s).1 ≡ live s
  pub stat_finds : (s : S) → live s ≡ true → succeeded (h.stat path s).0 ≡ true
  pub dial_keeps : (s : S) → live (h.dial path s).1 ≡ live s
  pub dial_connects : (s : S) → live s ≡ true → succeeded (h.dial path s).0 ≡ true
  pub remove_stops : (s : S) → live s ≡ false → live (h.remove path s).1 ≡ false
  pub listen_starts :
      (s : S) → succeeded (h.listen path s).0 ≡ true → live (h.listen path s).1 ≡ true
  pub listen_fails :
      (s : S) → succeeded (h.listen path s).0 ≡ false → live (h.listen path s).1 ≡ live s
  pub chmod_keeps : (s : S) (m : ℕ) → live (h.chmod path m s).1 ≡ live s
  pub chmod_sets :
      (s : S) (m : ℕ) → succeeded (h.chmod path m s).0 ≡ true → mode (h.chmod path m s).1 ≡ m
  pub close_stops : (s : S) → live (h.close path s).1 ≡ false

module _ {S A : Type 0} where
  attempt-Triple :
      {P : S → Type 0} {Q : Result A → S → Type 0} {E : Err → S → Type 0} (m : Act S A)
      → ((s : S) → P s → Q (m s).0 (m s).1)
      → Triple P (attempt m) Q E
  unfolding attempt Meets
  attempt-Triple m f = record { run = f }

  impossible : {Q : A → S → Type 0} {E : Err → S → Type 0} (m : Act S A) → Triple (λ s. ⊥) m Q E
  impossible m = record { run = λ s p. absurd p }

  outcome-Meets :
      (Q : S → Type 0) (E : S → Type 0) (r : Result A) (s : S)
      → (succeeded r ≡ true → Q s)
      → (succeeded r ≡ false → E s)
      → Meets (λ _. Q) (λ _. E) r s
  unfolding Meets
  outcome-Meets Q E (ok a) s q f = q refl
  outcome-Meets Q E (err e) s q f = f refl

  outcome-Triple :
      {P Q E : S → Type 0} {m : Act S A}
      → ((s : S) → P s → succeeded (m s).0 ≡ true → Q (m s).1)
      → ((s : S) → P s → succeeded (m s).0 ≡ false → E (m s).1)
      → Triple P m (λ _. Q) (λ _. E)
  outcome-Triple {Q = Q} {E = E} {m = m} q f = record {
    run = λ s p. outcome-Meets Q E (m s).0 (m s).1 (q s p) (f s p);
  }

module _ {S : Type 0} (h : Host S) (path : String) (os : IsFaithful h path) where
  abbrev pub Live : S → Type 0
  Live s = os.live s ≡ true

  abbrev pub Quiet : S → Type 0
  Quiet s = os.live s ≡ false

  abbrev pub Served : S → Type 0
  Served s = (os.live s ≡ true) × (os.mode s ≡ socket_mode)

  judged-Live :
      (r : Result (Unit {0}))
      → Triple (λ s. (succeeded r ≡ true) × Live s) (judged h path r) (λ _ s. ⊥) (λ _. Live)
  unfolding judged Meets raise
  judged-Live (ok connection) = record { run = λ s p. p.1 }
  judged-Live (err e) = record { run = λ s p. absurd (ground arith) }

  probe-Live : Triple Live (probe_stale_socket h path) (λ _ s. ⊥) (λ _. Live)
  unfolding probe_stale_socket
  probe-Live =
      bind
        (attempt-Triple {Q = λ r s. (succeeded r ≡ true) × Live s} (h.dial path)
          (λ s p. (os.dial_connects s p, os.dial_keeps s ∙ p)))
        judged-Live

  after_stat-Live :
      (r : Result (Unit {0}))
      → Triple (λ s. (succeeded r ≡ true) × Live s) (after_stat h path r) (λ _ s. ⊥) (λ _. Live)
  unfolding after_stat
  after_stat-Live (ok info) = record { run = λ s p. probe-Live.run s p.1 }
  after_stat-Live (err e) = record { run = λ s p. absurd (ground arith) }

  -- Where a process accepts connections on the socket, listenUnix returns an error, and the process
  -- still does.
  listen_unix-Live : Triple Live (listen_unix h path) (λ _ s. ⊥) (λ _. Live)
  unfolding listen_unix
  listen_unix-Live =
      sequence (wrapped-Triple _ (λ e s x. x) (steady (λ s p. os.parent_keeps s ∙ p))) (λ _.
        bind
          (attempt-Triple {Q = λ r s. (succeeded r ≡ true) × Live s} (h.stat path)
            (λ s p. (os.stat_finds s p, os.stat_keeps s ∙ p)))
          (λ found. sequence (after_stat-Live found) (λ _. impossible _)))

  judged-Quiet : (r : Result (Unit {0})) → Triple Quiet (judged h path r) (λ _. Quiet) (λ _. Quiet)
  unfolding judged
  judged-Quiet (ok connection) = raise-Triple _
  judged-Quiet (err e) = pure-Triple _

  tolerated-Quiet :
      (b : Bool) (e : Err)
      → Triple {A = Unit {0}} Quiet (if b then pure tt else raise e) (λ _. Quiet) (λ _. Quiet)
  tolerated-Quiet true e = pure-Triple _
  tolerated-Quiet false e = raise-Triple _

  after_stat-Quiet :
      (r : Result (Unit {0})) → Triple Quiet (after_stat h path r) (λ _. Quiet) (λ _. Quiet)
  unfolding after_stat probe_stale_socket
  after_stat-Quiet (ok info) =
      bind (attempt-Triple {Q = λ _. Quiet} (h.dial path) (λ s p. os.dial_keeps s ∙ p)) judged-Quiet
  after_stat-Quiet (err e) = tolerated-Quiet _ _

  after_remove-Quiet :
      (r : Result (Unit {0})) → Triple Quiet (after_remove h path r) (λ _. Quiet) (λ _. Quiet)
  unfolding after_remove
  after_remove-Quiet (ok removed) = pure-Triple _
  after_remove-Quiet (err e) = tolerated-Quiet _ _

  after_chmod-Served :
      (r : Result (Unit {0}))
      → Triple
          (λ s. (succeeded r ≡ true → os.mode s ≡ socket_mode) × Live s)
          (after_chmod h path r)
          (λ _. Served)
          (λ _. Quiet)
  unfolding after_chmod Meets pure
  after_chmod-Served (ok secured) = record { run = λ s p. (p.1, p.0 refl) }
  after_chmod-Served (err e) =
      bind (attempt-Triple {Q = λ _. Quiet} (h.close path) (λ s p. os.close_stops s)) (λ _.
        bind (attempt-Triple {Q = λ _. Quiet} (h.remove path) (λ s p. os.remove_stops s p))
          (λ _. raise-Triple _))

  -- Where no process accepts connections on the socket, listenUnix returns no error only when the
  -- daemon does, and the socket has mode 0660; when it returns an error, still no process does.
  listen_unix-Served : Triple Quiet (listen_unix h path) (λ _. Served) (λ _. Quiet)
  unfolding listen_unix
  listen_unix-Served =
      sequence (wrapped-Triple _ (λ e s x. x) (steady (λ s p. os.parent_keeps s ∙ p))) (λ _.
        bind (attempt-Triple {Q = λ _. Quiet} (h.stat path) (λ s p. os.stat_keeps s ∙ p)) (λ found.
          sequence (after_stat-Quiet found) (λ _.
            bind (attempt-Triple {Q = λ _. Quiet} (h.remove path) (λ s p. os.remove_stops s p))
              (λ removed. sequence (after_remove-Quiet removed) (λ _.
                sequence
                  (wrapped-Triple _ (λ e s x. x)
                    (outcome-Triple {Q = Live} (λ s p l. os.listen_starts s l)
                      (λ s p l. os.listen_fails s l ∙ p)))
                  (λ _.
                    bind
                      (attempt-Triple
                        {Q = λ r s. (succeeded r ≡ true → os.mode s ≡ socket_mode) × Live s}
                        (h.chmod path socket_mode)
                        (λ s p. (os.chmod_sets s socket_mode, os.chmod_keeps s socket_mode ∙ p)))
                      after_chmod-Served))))))

  -- However listenUnix ends: if it returns no error, no process was accepting connections on the
  -- socket, the daemon now is, and the socket has mode 0660; if it returns an error, a process that
  -- was accepting connections on it still is, and otherwise none does.
  pub listen_unix-owned :
      (s : S)
      → Meets
          (λ _ s'. (os.live s ≡ false) × (os.live s' ≡ true) × (os.mode s' ≡ socket_mode))
          (λ _ s'. os.live s' ≡ os.live s)
          (listen_unix h path s).0
          (listen_unix h path s).1
  listen_unix-owned s = elim (Bool-cases (os.live s)) [
    | inl live' ↦
        (weaken listen_unix-Live (λ t p. p) (λ a t f. absurd f) (λ e t p. p ∙ sym live')).run s
          live'
    | inr quiet ↦
        (weaken listen_unix-Served (λ t p. p) (λ a t p. (quiet, p.0, p.1))
            (λ e t p. p ∙ sym quiet)).run
          s quiet
  ]

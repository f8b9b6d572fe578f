-- ===== src/Daemon/EventLoop/Upkeep.antt =====
-- What a tick of the event worker does to the tables: runEventLoop of cmd/ramifyd/main.go.
use ramify.Prelude.{
  ℕ, ◌-◌, ◌<◌, ltb, String, true, ◌&&◌, ◌≡◌, ◌⊎◌, inl, inr, refl, ap, ◌∙◌, Option, none, some, List,
  Bool-cases, arith,
}
use ramify.Prelude.Membership.{In}
use ramify.Errors.{Err, wrap}
use ramify.Provider.{Result, ok, err}
use ramify.World.{
  World, Exec, wrapped, catch, fork, pure, raise, statement, run_statement, pass, Runtime,
}
use ramify.Store.Types.{Event}
use ramify.Store.Events.{
  list_due_events, count_dead_lettered_events, prune_processed_events, prune_query, is_prunable,
  pruned,
}
use ramify.Store.EventLog.{event_at, Grows, LogGrows, log_frame}
use ramify.Store.Pruning.{pruned-keeps}
use ramify.Core.Reconciler.{Reconciler}
use ramify.Core.Process.{replay_events}
use ramify.Core.Frames.Running.{replay_events-Moves}
use ramify.Store.Frames.Operations.{Moves-list_due_events, Moves-count_dead_lettered_events}
use ramify.Daemon.EventLoop.{Worker, event_tick, after_listing, prune_if_due, beat, prune_due}

module _ {A : Type 0} where
  forked-world :
      (g : Err → Err) (r : Result A) (w : World) → (fork r pure (λ e. raise (g e)) w).1 ≡ w
  unfolding fork pure raise
  forked-world g (ok a) w = refl
  forked-world g (err e) w = refl

  wrapped-world : (text : String) (m : Exec A) (w : World) → (wrapped text m w).1 ≡ (m w).1
  unfolding wrapped catch
  wrapped-world text m w = forked-world (wrap text) (m w).0 (m w).1

module _ (x : Runtime) (before limit : ℕ) where
  query-world :
      (fault : Option Err) (w : World)
      → ((run_statement x fault (prune_query before limit) w).1.db ≡ w.db)
        ⊎ ((run_statement x fault (prune_query before limit) w).1.db
            ≡ record w.db { events = pruned before limit w.db.events })
  unfolding run_statement prune_query
  query-world (some e) w = inl refl
  query-world none w = inr refl

  -- Pruning either fails and changes nothing, or prunes.
  prune-world :
      (w : World)
      → ((prune_processed_events x before limit w).1.db ≡ w.db)
        ⊎ ((prune_processed_events x before limit w).1.db
            ≡ record w.db { events = pruned before limit w.db.events })
  unfolding prune_processed_events statement pass prune_query
  prune-world w =
      rw (wrapped-world "pruning processed events" (statement x (prune_query before limit)) w)
        (query-world (x.db_fault w.calls) (pass x w))

module _ (r : Reconciler) where
  -- The world after the due events have been replayed.
  unfoldable pub after_replay : Result (List Event) → World → World
  after_replay (err e) w = w
  after_replay (ok events) w = (replay_events r events (count_dead_lettered_events r.runtime w).1).1

  unfoldable pub replayed : World → World
  unfolding after_replay
  replayed w =
      let (events, listed) = list_due_events r.runtime w.now 100 w in after_replay events listed

  after_replay-grows : (o : Result (List Event)) (w : World) → LogGrows w.db (after_replay o w).db
  unfolding after_replay log_frame
  after_replay-grows (err e) w = log_frame.stay w.past w.db
  after_replay-grows (ok events) w =
      let counted : World = (count_dead_lettered_events r.runtime w).1 in
      log_frame.chain w.past w.db counted.past counted.db (replay_events r events counted).1.past
        (replay_events r events counted).1.db
        ((Moves-count_dead_lettered_events log_frame r.runtime).at w)
        ((replay_events-Moves log_frame r events).at counted)

  replayed-grows : (w : World) → LogGrows w.db (replayed w).db
  unfolding replayed log_frame
  replayed-grows w =
      let listed : World = (list_due_events r.runtime w.now 100 w).1 in
      log_frame.chain w.past w.db listed.past listed.db (replayed w).past (replayed w).db
        ((Moves-list_due_events log_frame r.runtime w.now 100).at w)
        (after_replay-grows (list_due_events r.runtime w.now 100 w).0 listed)

  module _ (event_retention : ℕ) where
    -- A tick leaves the tables of the replay, or prunes them.
    abbrev Pruned : ℕ → World → World → Type 0
    Pruned now v w =
        (w.db ≡ v.db)
        ⊎ ((0 < event_retention)
            × (w.db ≡ record v.db { events = pruned (now - event_retention) 5000 v.db.events }))

    prune_if_due-Pruned :
        (now : ℕ) (k : Worker) (v : World) → Pruned now v (prune_if_due r event_retention now k v).1
    unfolding prune_if_due
    prune_if_due-Pruned now k v =
        elim (Bool-cases (ltb 0 event_retention && prune_due k.last_prune now)) [
          | inl due ↦ rw due (elim (prune-world r.runtime (now - event_retention) 5000 v) [
            | inl same ↦ inl same
            | inr cut ↦ inr (ground arith, cut)
          ])
          | inr early ↦ rw early (inl refl)
        ]

    after_listing-Pruned :
        (now : ℕ) (o : Result (List Event)) (k : Worker) (w : World)
        → Pruned now (after_replay o w) (after_listing r event_retention now o k w).1
    unfolding after_replay after_listing
    after_listing-Pruned now (err e) k w = inl refl
    after_listing-Pruned now (ok events) k w = prune_if_due-Pruned now _ _

    tick-Pruned :
        (k : Worker) (w : World) → Pruned w.now (replayed w) (event_tick r event_retention k w).1
    unfolding replayed event_tick
    tick-Pruned k w =
        let (events, listed) = list_due_events r.runtime w.now 100 w in
        after_listing-Pruned w.now events (beat w.now k) listed

    -- After a tick of the event worker, an event of the log is there, with its kind, payload and
    -- environment, as the replay of the due events left it, unless the log is pruned and the replay
    -- left an event of its identifier that has been processed and is older than the retention.
    pub tick-keeps :
        (k : Worker) (w : World) (id : String) (a : Event)
        → event_at id w.db ≡ some a
        → (b : Event) × (event_at id (replayed w).db ≡ some b)
          × Grows a b
          × ((event_at id (event_tick r event_retention k w).1.db ≡ some b)
              ⊎ ((0 < event_retention)
                  × ((c : Event) × In c (replayed w).db.events
                      × (c.id ≡ id)
                      × (is_prunable (w.now - event_retention) c ≡ true))))
    tick-keeps k w id a h =
        let (b, found, grows) = replayed-grows w id a h in
        (
          b,
          found,
          grows,
          elim (tick-Pruned k w) [
            | inl same ↦ inl (ap (event_at id) same ∙ found)
            | inr (retained, cut) ↦
                elim (pruned-keeps id (w.now - event_retention) 5000 (replayed w).db b found) [
                  | inl kept ↦ inl (ap (event_at id) cut ∙ kept)
                  | inr gone ↦ inr (retained, gone)
                ]
          ],
        )

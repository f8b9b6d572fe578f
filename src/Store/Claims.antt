-- ===== src/Store/Claims.antt =====
-- The leases of ClaimEvent (internal/store/sqlite.go).
use ramify.Prelude.{
  ℕ, ◌<◌, String, ◌≡◌, refl, Bool, true, false, ◌&&◌, none, List, [], ◌∷◌, arith, keep, keep_if,
  change, update_where, length, Bool-cases, Option-cases, inl, inr,
}
use ramify.Provider.{ok}
use ramify.World.{World, Runtime, statement, wrapped, ◌>>=◌}
use ramify.Store.Types.{Event}
use ramify.Store.Tables.{is_due}
use ramify.Store.Events.{event_is, claim_row, claim_event}

-- the rows that ClaimEvent would take
abbrev claimable : String → ℕ → Event → Bool
claimable id at row = event_is id row && is_due at row

abbrev claimed_rows : String → ℕ → ℕ → List Event → List Event
claimed_rows id at until rows = update_where (claimable id at) (claim_row until) rows

-- A lease that is held: the event's next attempt lies in the future.
abbrev pub IsLeased : ℕ → Event → Type 0
IsLeased at row = (is_due at row ≡ false)

leased_row :
    (until later : ℕ) (row : Event) → later < until → is_due later (claim_row until row) ≡ false
unfolding claim_row is_due
leased_row until later row h = ground arith

no_row :
    (id : String) (at until later : ℕ) (rows : List Event)
    → length (keep (event_is id) rows) ≡ 0
    → (length (keep (claimable id at) rows) ≡ 0)
      × (length (keep (claimable id later) (claimed_rows id at until rows)) ≡ 0)
unfolding keep update_where keep_if change event_is
no_row id at until later [] h = (refl, refl)
no_row id at until later (row ∷ rows) h =
    (ground (arith, no_row id at until later rows), ground (arith, no_row id at until later rows))

same_id :
    (id : String) (until : ℕ) (row : Event) → event_is id (claim_row until row) ≡ event_is id row
unfolding event_is claim_row
same_id id until row = refl

-- After a claim of the one row with the identifier, none with it is due before the lease ends.
none_claimable :
    (id : String) (at until later : ℕ) (rows : List Event)
    → later < until
    → length (keep (claimable id at) rows) ≡ 1
    → length (keep (event_is id) rows) ≡ 1
    → length (keep (claimable id later) (claimed_rows id at until rows)) ≡ 0
unfolding keep update_where keep_if change
none_claimable id at until later [] h one only = refl
none_claimable id at until later (row ∷ rows) h one only = elim (Bool-cases (event_is id row)) [
  | inl here ↦ ground (arith, no_row id at until later rows, leased_row until later row h)
  | inr there ↦ ground (arith, none_claimable id at until later rows h)
]

module _ (x : Runtime) (id : String) (at until later until' : ℕ) (w v : World) where
  -- An event with its own identifier that one worker has claimed up to `until` is not claimed
  -- again at an earlier instant: the second claim finds nothing, unless the database fails it. `v` is
  -- any later world with the tables that the first claim left.
  pub claim_exclusive :
      length (keep (event_is id) w.db.events) ≡ 1
      → later < until
      → (claim_event x id at until w).0 ≡ ok true
      → v.db ≡ (claim_event x id at until w).1.db
      → x.db_fault v.calls ≡ none
      → (claim_event x id later until' v).0 ≡ ok false
  unfolding claim_event wrapped ◌>>=◌ statement
  claim_exclusive only h won same up = elim (Option-cases (x.db_fault w.calls)) [
    | inl working ↦ ground (arith, none_claimable id at until later w.db.events)
    | inr (e, failing) ↦ ground arith
  ]

-- ===== src/Store/Pruning.antt =====
-- What PruneProcessedEvents of internal/store/sqlite.go leaves of the event log.
use ramify.Prelude.{
  ℕ, zero, suc, String, Bool, true, ◌≡◌, ◌⊎◌, inl, inr, refl, ap, sym, ◌∙◌, some, List, [], ◌∷◌,
  any, keep, keep_if, take, find_first, choose, Bool-cases, clash, eq_iff, leb,
}
use ramify.Prelude.Membership.{In, In-keep, any-In, find_first-In}
use ramify.Store.Types.{Event, Db}
use ramify.Store.Tables.{order_by, In-order_by}
use ramify.Store.Events.{event_is, is_prunable, pruned, page_size}
use ramify.Store.EventLog.{event_at}

module _ {A : Type 0} where
  In-take : (n : ℕ) (xs : List A) (a : A) → In a (take n xs) → In a xs
  In-take zero xs a h = elim h [ ]
  In-take (suc n) [] a h = elim h [ ]
  In-take (suc n) (x ∷ xs) a (inl e) = inl e
  In-take (suc n) (x ∷ xs) a (inr h) = inr (In-take n xs a h)

  -- A search among the elements that are kept, where those that it looks for are.
  find_first-keep :
      (p q : A → Bool) (xs : List A)
      → ((x : A) → p x ≡ true → q x ≡ true)
      → find_first p (keep q xs) ≡ find_first p xs
  unfolding find_first keep keep_if choose
  find_first-keep p q [] h = refl
  find_first-keep p q (x ∷ xs) h = elim (Bool-cases (q x)) [
    | inl kept ↦ rw kept (ap (choose x (p x)) (find_first-keep p q xs h))
    | inr gone ↦ elim (Bool-cases (p x)) [
      | inl found ↦ absurd (clash (h x found) gone)
      | inr other ↦ rw (gone, other) (find_first-keep p q xs h)
    ]
  ]

-- An event of the log stays as it is, unless there is an event of its identifier that has been
-- processed and was created before the given time.
pub pruned-keeps :
    (id : String) (before limit : ℕ) (d : Db) (a : Event)
    → event_at id d ≡ some a
    → (event_at id (record d { events = pruned before limit d.events }) ≡ some a)
      ⊎ ((c : Event) × In c d.events × (c.id ≡ id) × (is_prunable before c ≡ true))
unfolding pruned event_is
pruned-keeps id before limit d a h =
    let chosen : List Event =
      take (page_size 5000 limit)
        (order_by (λ a b. leb a.created_at b.created_at) (keep (is_prunable before) d.events)) in
    let found : a.id ≡ id = (eq_iff a.id id).0 (find_first-In (event_is id) d.events h).1 in
    elim (Bool-cases (any (λ c. event_is c.id a) chosen)) [
      | inl gone ↦
          let (c, m, e) = any-In (λ c. event_is c.id a) chosen gone in
          let (held, prunable) =
            In-keep (is_prunable before) c d.events (In-order_by _ _ c (In-take _ _ c m)) in
          inr (c, held, sym ((eq_iff a.id c.id).0 e) ∙ found, prunable)
      | inr kept ↦ inl (
          find_first-keep (event_is id) _ d.events
            (λ x named. rw ((eq_iff x.id id).0 named ∙ sym found) (rw kept refl))
          ∙ h)
    ]

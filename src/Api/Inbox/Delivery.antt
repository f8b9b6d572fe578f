-- ===== src/Api/Inbox/Delivery.antt =====
-- The deliveries that handleWebhook answers (internal/api/handlers.go).
use ramify.Prelude.{
  suc, ◌+◌, String, ◌≡◌, refl, sym, ◌∙◌, ◌≢◌, ◌⊎◌, inl, inr, none, some, List, [], ◌∷◌, ◌++◌,
  str_eq, any, eq_iff, Bool, true, false, ◌&&◌, arith, Bool-cases,
}
use ramify.Errors.{Err}
use ramify.Provider.{Result, ok, err, GitEvent}
use ramify.World.{
  World, Runtime, statement, wrapped, catch, pure, raise, note, row_id, fresh_id, read_clock, ◌>>=◌,
  ◌>>◌,
}
use ramify.World.Steps.{Result-cases}
use ramify.Store.Tables.{event_clash, nullable_string, refers}
use ramify.Store.Types.{Event, zero_event}
use ramify.Store.Events.{create_event, insert_event}
use ramify.Api.{Server, Response, empty}
use ramify.Api.Inbox.{
  Inbox, WebhookRequest, store_delivery, after_store, after_marshal, after_parse, after_read,
  handle_webhook,
}

abbrev pub is_delivery : String → Event → Bool
is_delivery delivery row = str_eq row.kind "webhook_received" && str_eq row.dedupe_key delivery

-- The row of a delivery clashes with one that is already there.
clash_again :
    (ev : Event) (rows : List Event)
    → str_eq ev.kind "webhook_received" ≡ true
    → str_eq ev.dedupe_key "" ≡ false
    → any (is_delivery ev.dedupe_key) rows ≡ true
    → event_clash ev rows ≡ true
unfolding event_clash nullable_string
clash_again ev [] k d h = absurd (ground arith)
clash_again ev (row ∷ rows) k d h = elim (Bool-cases (is_delivery ev.dedupe_key row)) [
  | inl hit ↦
      let kind : row.kind ≡ ev.kind =
        (eq_iff row.kind "webhook_received").0 (ground arith)
        ∙ sym ((eq_iff ev.kind "webhook_received").0 k) in
      let key : row.dedupe_key ≡ ev.dedupe_key =
        (eq_iff row.dedupe_key ev.dedupe_key).0 (ground arith) in
      ground
        (arith, (eq_iff row.kind ev.kind).1 kind, key, (eq_iff ev.dedupe_key ev.dedupe_key).1 refl)
  | inr miss ↦ ground (arith, clash_again ev rows k d)
]

-- One row is added to the log: it is the delivery, still to be processed.
pub record IsStored (delivery : String) (old new : List Event) : Type 0 where
  pub row : Event
  pub is_new : any (is_delivery delivery) old ≡ false
  pub added : new ≡ old ++ row ∷ []
  pub kind : row.kind ≡ "webhook_received"
  pub dedupe_key : row.dedupe_key ≡ delivery
  pub processed_at : row.processed_at ≡ none
  pub dead_lettered_at : row.dead_lettered_at ≡ none

module _ (s : Server) (delivery payload : String) (w : World) where
  abbrev pub delivered : Runtime → String → Event
  delivered x id = record zero_event {
    created_at = w.now + x.elapsed w.calls + x.elapsed (suc w.calls);
    id = id;
    kind = "webhook_received";
    dedupe_key = delivery;
    payload = payload;
    next_attempt_at = some w.now;
  }

  stored :
      {ev : Event}
      → str_eq delivery "" ≡ false
      → (store_delivery s delivery payload w).0 ≡ ok ev
      → IsStored delivery w.db.events (store_delivery s delivery payload w).1.db.events
  unfolding store_delivery create_event insert_event wrapped statement catch pure raise note row_id
      fresh_id read_clock ◌>>=◌ ◌>>◌
  stored given h = elim (Result-cases (s.reconciler.runtime.new_id w.calls)) [
    | inr (e, failed) ↦ absurd (ground arith)
    | inl (id, drawn) ↦ record {
      row = delivered s.reconciler.runtime id;
      is_new = elim (Bool-cases (any (is_delivery delivery) w.db.events)) [
        | inr fresh ↦ fresh
        | inl seen ↦ absurd (
            ground
              (arith, clash_again (delivered s.reconciler.runtime id) w.db.events refl given seen))
      ];
      added = ground arith;
      kind = refl;
      dedupe_key = refl;
      processed_at = refl;
      dead_lettered_at = refl;
    }
  ]

  not_stored :
      {e : Err}
      → (store_delivery s delivery payload w).0 ≡ err e
      → (store_delivery s delivery payload w).1.db.events ≡ w.db.events
  unfolding store_delivery create_event insert_event wrapped statement catch pure raise note row_id
      fresh_id read_clock ◌>>=◌ ◌>>◌
  not_stored h = ground arith

-- A delivery is accepted and stored, or it is not accepted and the log and the queue stay.
abbrev pub Settled : String → Inbox → World → (Response × Inbox) × World → Type 0
Settled delivery i w after =
    ((after.0.0 ≡ empty 202) × IsStored delivery w.db.events after.1.db.events)
    ⊎ ((after.0.0 ≢ empty 202) × (after.1.db.events ≡ w.db.events) × (after.0.1.queue ≡ i.queue))

module _ (s : Server) (delivery : String) (i : Inbox) (w : World) where
  Settled-store :
      (payload : String) (o : Result Event)
      → str_eq delivery "" ≡ false
      → (store_delivery s delivery payload w).0 ≡ o
      → Settled delivery i w (after_store s o i, (store_delivery s delivery payload w).1)
  unfolding after_store
  Settled-store payload (ok ev) given h = inl (refl, stored s delivery payload w given h)
  Settled-store payload (err e) given h =
      inr ((λ same. ground arith), not_stored s delivery payload w h, ground arith)

  Settled-marshal : (o : Result String) → Settled delivery i w (after_marshal s delivery o i w)
  unfolding after_marshal
  Settled-marshal (err e) = inr ((λ same. ground arith), refl, refl)
  Settled-marshal (ok payload) = elim (Bool-cases (str_eq delivery "")) [
    | inl missing ↦ rw missing (inr ((λ same. ground arith), refl, refl))
    | inr given ↦ rw given (Settled-store payload _ given refl)
  ]

  Settled-parse : (o : Result GitEvent) → Settled delivery i w (after_parse s delivery o i w)
  unfolding after_parse
  Settled-parse (ok ev) = Settled-marshal _
  Settled-parse (err e) = inr ((λ same. ground arith), refl, ground arith)

module _ (s : Server) (req : WebhookRequest) (i : Inbox) (w : World) where
  Settled-read : (o : Result String) → Settled req.delivery i w (after_read s req o i w)
  unfolding after_read
  Settled-read (ok body) = Settled-parse s req.delivery i w _
  Settled-read (err e) = inr ((λ same. ground arith), refl, refl)

module _ (s : Server) (req : WebhookRequest) (i : Inbox) (w : World) where
  -- A delivery is either answered with status 202 and added to the event log, as one row of its kind and
  -- delivery identifier that is still to be processed, or it is answered otherwise, and then the log
  -- and the queue are as they were.
  pub handle_webhook-Settled : Settled req.delivery i w (handle_webhook s req i w)
  unfolding handle_webhook
  handle_webhook-Settled = Settled-read s req (record i { received = i.received + 1 }) w req.body

  -- A delivery whose identifier is in the event log is not accepted again, and the log and the queue
  -- are as they were.
  pub redelivery_ignored :
      any (is_delivery req.delivery) w.db.events ≡ true
      → ((handle_webhook s req i w).0.0 ≢ empty 202)
        × ((handle_webhook s req i w).1.db.events ≡ w.db.events)
        × ((handle_webhook s req i w).0.1.queue ≡ i.queue)
  redelivery_ignored seen = elim handle_webhook-Settled [
    | inl (accepted, row) ↦ absurd (cc (row.is_new, seen))
    | inr kept ↦ kept
  ]

  -- A delivery with a readable body, a signature and payload that the Git provider accepts, and an
  -- identifier, is accepted if the database answers and its row clashes with none of the log.
  pub delivery_accepted :
      {body payload id : String} {ev : GitEvent}
      → req.body ≡ ok body
      → s.parse_webhook body req.signature ≡ ok ev
      → s.reconciler.codec.marshal_webhook ev ≡ ok payload
      → str_eq req.delivery "" ≡ false
      → s.reconciler.runtime.new_id w.calls ≡ ok id
      → s.reconciler.runtime.db_fault (suc w.calls) ≡ none
      → event_clash (delivered s req.delivery payload w s.reconciler.runtime id) w.db.events ≡ false
      → (handle_webhook s req i w).0.0 ≡ empty 202
  unfolding handle_webhook after_read after_parse after_marshal after_store store_delivery
      create_event insert_event wrapped statement catch pure raise note row_id fresh_id read_clock
      ◌>>=◌ ◌>>◌ refers nullable_string
  delivery_accepted read parsed encoded given drawn up free =
      rw read (rw parsed (rw encoded (rw given (ground arith))))

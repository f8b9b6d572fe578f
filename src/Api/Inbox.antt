-- ===== src/Api/Inbox.antt =====
-- POST /webhooks (handleWebhook of internal/api/handlers.go): a delivery is verified, stored in the
-- event log, and offered to the queue of the workers.
pub mod Delivery
use ramify.Prelude.{
  ℕ, ◌+◌, String, Option, none, some, List, [], ◌∷◌, ◌++◌, length, ltb, str_eq, if◌then◌else◌,
}
use ramify.Errors.{Err, is, conflict, invalid_webhook_signature, unhandled_webhook_event}
use ramify.Provider.{Result, ok, err, GitEvent}
use ramify.World.{World, Exec, read_clock, ◌>>=◌}
use ramify.Store.Types.{Event, zero_event}
use ramify.Store.Events.{create_event}
use ramify.Api.{Server, Response, empty, failure}

-- The queue (the oldest first) and the counters of the webhooks.
pub record Inbox : Type 0 where
  pub queue : List Event
  pub received : ℕ
  pub rejected : ℕ
  pub duplicates : ℕ

-- The body, and the two headers that the Git provider names.
pub record WebhookRequest : Type 0 where
  pub body : Result String
  pub signature : String
  pub delivery : String

-- a send that does not block
unfoldable pub offer : ℕ → Event → Inbox → Inbox
offer capacity ev i =
    if ltb (length i.queue) capacity then record i { queue = i.queue ++ ev ∷ [] } else i

abbrev pub reject : Inbox → Inbox
reject i = record i { rejected = i.rejected + 1 }

-- the row of the event log; its first retry is due at once
unfoldable pub store_delivery : Server → String → String → Exec Event
store_delivery s delivery payload = do
  now ← read_clock
  create_event s.reconciler.runtime (record zero_event {
    kind = "webhook_received";
    dedupe_key = delivery;
    payload = payload;
    next_attempt_at = some now;
  })

unfoldable pub after_store : Server → Result Event → Inbox → Response × Inbox
unfolding offer
after_store s (ok ev) i = (empty 202, offer s.queue_capacity ev i)
after_store s (err e) i =
    if is e conflict
    then (empty 200, record i { duplicates = i.duplicates + 1 })
    else (failure 503 "persisting webhook event", reject i)

unfoldable pub after_marshal :
    Server → String → Result String → Inbox → World → (Response × Inbox) × World
unfolding after_store
after_marshal s delivery (err e) i w = ((failure 500 "encoding webhook event", i), w)
after_marshal s delivery (ok payload) i w =
    let (stored, w') = store_delivery s delivery payload w in
    if str_eq delivery ""
    then ((failure 400 "missing webhook delivery ID", i), w)
    else (after_store s stored i, w')

unfoldable pub after_parse :
    Server → String → Result GitEvent → Inbox → World → (Response × Inbox) × World
unfolding after_marshal
after_parse s delivery (ok ev) i w =
    after_marshal s delivery (s.reconciler.codec.marshal_webhook ev) i w
after_parse s delivery (err e) i w = (
  if is e invalid_webhook_signature
      then (failure 401 "invalid webhook signature", reject i)
      else if is e unhandled_webhook_event
      then (empty 200, i)
      else (failure 400 "invalid webhook payload", reject i),
  w,
)

unfoldable pub after_read :
    Server → WebhookRequest → Result String → Inbox → World → (Response × Inbox) × World
unfolding after_parse
after_read s req (err e) i w = ((failure 400 "reading request body", i), w)
after_read s req (ok body) i w = after_parse s req.delivery (s.parse_webhook body req.signature) i w

unfoldable pub handle_webhook : Server → WebhookRequest → Inbox → World → (Response × Inbox) × World
unfolding after_read
handle_webhook s req i w = after_read s req req.body (record i { received = i.received + 1 }) w

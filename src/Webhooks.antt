-- ===== src/Webhooks.antt =====
-- src/modules/webhooks/webhooks.service.ts: deliveries of the payment provider's events. The handlers
-- behind the dispatcher work on a state of their own.
pub mod Outcomes
pub mod Delivery
mod Tests
use cashfb_backend.Prelude.{
  ℕ, Bool, true, false, Option, none, some, List, [], ◌∷◌, ◌++◌, ◌+◌, ◌==◌, ◌&&◌, or_default,
  if◌then◌else◌,
}
use cashfb_backend.Shared.Exec.{Result, ok, err}
use cashfb_backend.Shared.Mongo.{Mongo, find_and_update, update_one}

pub data EventStatus : Type 0 where
  received processing done failed : EventStatus

-- WebhookEvent.model.ts
pub record WebhookEvent : Type 0 where
  pub event_id : ℕ
  pub event_type : ℕ
  pub payload : ℕ
  pub received_at : ℕ
  pub processed_at : Option ℕ
  pub status : EventStatus
  pub attempts : ℕ

pub record RetryJob : Type 0 where
  pub event_id : ℕ
  pub attempt : ℕ

-- `S` is what the dispatcher reads and writes
pub record Store (S : Type 0) : Type 0 where
  pub events : List WebhookEvent
  pub domain : S
  pub retry_jobs : List RetryJob

pub data Message : Type 0 where
  ok_ duplicate concurrent missing_headers invalid_signature invalid_payload retry : Message

pub record HandleWebhookResult : Type 0 where
  pub http_code : ℕ
  pub message : Message

abbrev pub answer : ℕ → Message → HandleWebhookResult
answer code message = record { http_code = code; message = message }

abbrev pub event_is : ℕ → WebhookEvent → Bool
event_is k e = e.event_id == k

abbrev pub is_reclaimable : EventStatus → Bool
is_reclaimable EventStatus.failed = true
is_reclaimable EventStatus.received = true
is_reclaimable _ = false

abbrev pub reclaimable : ℕ → WebhookEvent → Bool
reclaimable k e = event_is k e && is_reclaimable e.status

abbrev pub reclaim : WebhookEvent → WebhookEvent
reclaim e = record e { status = EventStatus.processing; attempts = e.attempts + 1 }

abbrev pub finish : ℕ → WebhookEvent → WebhookEvent
finish now e = record e { status = EventStatus.done; processed_at = some now }

abbrev pub fail : WebhookEvent → WebhookEvent
fail e = record e { status = EventStatus.failed; attempts = e.attempts + 1 }

-- the `$setOnInsert`
abbrev pub new_event : ℕ → ℕ × ℕ → ℕ → WebhookEvent
new_event event_id event now = record {
  event_id = event_id;
  event_type = event.0;
  payload = event.1;
  received_at = now;
  processed_at = none;
  status = EventStatus.processing;
  attempts = 0;
}

-- the `attempts` of the document that `findOneAndUpdate` returns, 1 if there is none
abbrev attempts_of : Option WebhookEvent → ℕ
attempts_of none = 1
attempts_of (some e) = e.attempts

-- `dispatcher` is the service's parameter of that name, of which `defaultDispatcher` is one;
-- `enqueues` tells whether the retry queue takes a job.
module _ {S : Type 0} (m : Mongo) (dispatcher : ℕ → ℕ → S → Result (Unit {0}) × S)
    (enqueues : Bool) where
  unfoldable pub dispatch_and_finalise : ℕ → ℕ × ℕ → ℕ → Store S → HandleWebhookResult × Store S
  dispatch_and_finalise event_id (event_type, payload) now db =
      let (outcome, domain') = dispatcher event_type payload db.domain in
      elim outcome [
        | ok done_ ↦
            let (found, events') = update_one m (event_is event_id) (finish now) db.events in
            (answer 200 Message.ok_, record db { events = events'; domain = domain' })
        | err e ↦
            let (updated, events') = find_and_update m (event_is event_id) fail db.events in
            let job : RetryJob = record { event_id = event_id; attempt = attempts_of updated } in
            (
              answer 500 Message.retry,
              record db {
                events = events';
                domain = domain';
                retry_jobs = if enqueues then db.retry_jobs ++ job ∷ [] else db.retry_jobs;
              },
            )
      ]

  -- `FAILED` or `RECEIVED`; `between` is what other deliveries commit after the upsert
  pub reclaim_event : (Store S → Store S) → ℕ → ℕ × ℕ → ℕ → Store S → HandleWebhookResult × Store S
  unfolding dispatch_and_finalise
  reclaim_event between event_id event now db =
      let db' = between db in
      let (reclaimed, events') = find_and_update m (reclaimable event_id) reclaim db'.events in
      elim reclaimed [
        | none ↦ (answer 200 Message.concurrent, record db' { events = events' })
        | some e ↦ dispatch_and_finalise event_id event now (record db' { events = events' })
      ]

  pub inspect :
      (Store S → Store S) → ℕ → ℕ × ℕ → ℕ → EventStatus → Store S → HandleWebhookResult × Store S
  inspect between event_id event now EventStatus.done db = (answer 200 Message.duplicate, db)
  inspect between event_id event now EventStatus.processing db = (answer 200 Message.concurrent, db)
  inspect between event_id event now EventStatus.failed db =
      reclaim_event between event_id event now db
  inspect between event_id event now EventStatus.received db =
      reclaim_event between event_id event now db

  -- `validates` stands for the signature check, `parsed` for the event type and payload in the body.
  pub handle_razorpay_webhook :
      (Store S → Store S)
      → (ℕ → Bool)
      → Option (ℕ × ℕ)
      → ℕ
      → Option ℕ
      → Option ℕ
      → Store S
      → HandleWebhookResult × Store S
  unfolding dispatch_and_finalise inspect
  handle_razorpay_webhook between validates parsed now none event_id db =
      (answer 400 Message.missing_headers, db)
  handle_razorpay_webhook between validates parsed now (some signature) none db =
      (answer 400 Message.missing_headers, db)
  handle_razorpay_webhook between validates parsed now (some signature) (some event_id) db =
      if validates signature
      then elim parsed [
        | none ↦ (answer 400 Message.invalid_payload, db)
        | some event ↦
            let (old, events') =
              m.find_or_insert WebhookEvent (event_is event_id) (new_event event_id event now)
                db.events in
            let db' = record db { events = events' } in
            elim old [
              | none ↦ dispatch_and_finalise event_id event now db'
              | some prev ↦ inspect between event_id event now prev.status db'
            ]
      ]
      else (answer 400 Message.invalid_signature, db)

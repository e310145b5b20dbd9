-- ===== src/Webhooks/Delivery.antt =====
-- What a second delivery of an event finds, and one that is refused.
use cashfb_backend.Prelude.{
  ℕ, ◌≡◌, ◌≢◌, inl, inr, Bool, true, Option, none, some, arith, refl, Bool-cases,
}
use cashfb_backend.Shared.Exec.{Result}
use cashfb_backend.Shared.Mongo.{Mongo, IsMongo, Mongo-eq, driver}
use cashfb_backend.Webhooks.{Store, HandleWebhookResult, handle_razorpay_webhook}
use cashfb_backend.Webhooks.Outcomes.{Dispatching, Handling, handled}

module _ {S : Type 0} (dispatcher : ℕ → ℕ → S → Result (Unit {0}) × S) (enqueues : Bool) where
  dispatched_code :
      (event_id : ℕ) (event : ℕ × ℕ) (met : Store S) (r : HandleWebhookResult × Store S)
      → Dispatching dispatcher enqueues event_id event met r
      → r.0.http_code ≢ 400
  dispatched_code event_id event met r (domain, e, here, inl (went, said, ends, jobs)) code =
      ground arith
  dispatched_code event_id event met r (domain, e, here, inr (x, failed, said, ends, jobs)) code =
      ground arith

  delivered_code :
      (event_id : ℕ) (event : ℕ × ℕ) (db met : Store S) (r : HandleWebhookResult × Store S)
      → Handling dispatcher enqueues event_id event db met r
      → r.0.http_code ≢ 400
  delivered_code event_id event db met r (inl (new, d)) code =
      dispatched_code event_id event db r d code
  delivered_code event_id event db met r (inr (prev, here, inl (old, same))) code =
      ground (arith, same)
  delivered_code event_id event db met r (inr (prev, here, inr (inl (busy, same)))) code =
      ground (arith, same)
  delivered_code event_id event db met r (inr (prev, here, inr (inr (q, inl (taken, same))))) code =
      ground (arith, same)
  delivered_code event_id event db met r
        (inr (prev, here, inr (inr (q, inr (e, before, after_, whole, mine, free, d))))) code =
      dispatched_code event_id event met r d code

  refused :
      (between : Store S → Store S) (validates : ℕ → Bool) (parsed : Option (ℕ × ℕ)) (now : ℕ)
      (signature event_id : Option ℕ) (db : Store S)
      → let r =
          handle_razorpay_webhook driver dispatcher enqueues between validates parsed now signature
            event_id db in
        r.0.http_code ≡ 400 → r.1 ≡ db
  unfolding handle_razorpay_webhook
  refused between validates parsed now none event_id db code = refl
  refused between validates parsed now (some signature) none db code = refl
  refused between validates none now (some signature) (some event_id) db code = ground arith
  refused between validates (some event) now (some signature) (some event_id) db code =
      elim (Bool-cases (validates signature)) [
        | inl valid ↦ absurd (
            delivered_code event_id event db (between db) _
              (handled dispatcher enqueues between validates event now signature event_id db valid)
              code)
        | inr invalid ↦ rw invalid refl
      ]

module _ {m : Mongo} (h : IsMongo m) {S : Type 0} (dispatcher : ℕ → ℕ → S → Result (Unit {0}) × S)
    (enqueues : Bool) where
  -- A delivery that is refused, with a code 400, writes nothing.
  pub refused_delivery_writes_nothing :
      (between : Store S → Store S) (validates : ℕ → Bool) (parsed : Option (ℕ × ℕ)) (now : ℕ)
      (signature event_id : Option ℕ) (db : Store S)
      → let r =
          handle_razorpay_webhook m dispatcher enqueues between validates parsed now signature
            event_id db in
        r.0.http_code ≡ 400 → r.1 ≡ db
  refused_delivery_writes_nothing = rw (Mongo-eq h) (refused dispatcher enqueues)

  -- How a delivery with a valid signature and body ends, by the event's record that it finds. None:
  -- the event is dispatched. DONE: the answer is "duplicate"; PROCESSING: it is "concurrent"; nothing
  -- is written in either case. FAILED or RECEIVED: if the event is FAILED or RECEIVED still when the
  -- delivery takes it up, after what others commit meanwhile, it is dispatched, else the answer is
  -- "concurrent" and nothing is written. A dispatch leaves what the dispatcher makes of the state that
  -- it meets; where the dispatcher succeeds the answer is "ok" and the event DONE, where it fails the
  -- answer is "retry", the event FAILED and a retry job with its attempts queued, if the queue takes it.
  pub delivery_outcomes :
      (between : Store S → Store S) (validates : ℕ → Bool) (event : ℕ × ℕ)
      (now signature event_id : ℕ) (db : Store S)
      → validates signature ≡ true
      → Handling dispatcher enqueues event_id event db (between db) (
          handle_razorpay_webhook m dispatcher enqueues between validates
            (some event)
            now
            (some signature)
            (some event_id)
            db)
  delivery_outcomes = rw (Mongo-eq h) (handled dispatcher enqueues)

-- ===== src/Webhooks/Outcomes.antt =====
-- What a delivery finds, dispatches and answers.
use cashfb_backend.Prelude.{
  ℕ, ◌≡◌, ◌⊎◌, inl, inr, Bool, true, none, some, List, [], ◌∷◌, ◌++◌, any, any-change_first,
  any-append, first, first-change_first, change_first, is_some-first, arith, refl, ◌∙◌,
  Option-cases, Bool-cases, if◌then◌else◌, All, ◌≢◌, false, first-passes, change_first-Differ,
  change_first-absent,
}
use cashfb_backend.Shared.Errors.{AppError}
use cashfb_backend.Shared.Exec.{Result, ok, err, Result-cases}
use cashfb_backend.Shared.Mongo.{driver}
use cashfb_backend.Webhooks.{
  Store, WebhookEvent, EventStatus, Message, HandleWebhookResult, answer, event_is, is_reclaimable,
  finish, fail, reclaim, reclaimable, new_event, inspect, dispatch_and_finalise, reclaim_event,
  handle_razorpay_webhook,
}

-- the event is on record with that status
abbrev pub Recorded : {S : Type 0} → ℕ → EventStatus → Store S → Type 0
Recorded event_id status db =
    (e : WebhookEvent) × (first (event_is event_id) db.events ≡ some e) × (e.status ≡ status)

-- a retry may take up the event
abbrev pub Waiting : EventStatus → Type 0
Waiting s = (s ≡ EventStatus.failed) ⊎ (s ≡ EventStatus.received)

-- somebody has taken up the event
abbrev pub Busy : EventStatus → Type 0
Busy s = (s ≡ EventStatus.processing) ⊎ (s ≡ EventStatus.done)

found_there :
    (event_id : ℕ) (es : List WebhookEvent) (e : WebhookEvent)
    → first (reclaimable event_id) es ≡ some e
    → any (event_is event_id) es ≡ true
found_there event_id [] e h = absurd (ground arith)
found_there event_id (x ∷ xs) e h = elim (Bool-cases (reclaimable event_id x)) [
  | inl hit ↦ ground arith
  | inr miss ↦ ground (arith, found_there event_id xs e (rw miss at h))
]

inserted_there :
    (event_id : ℕ) (es : List WebhookEvent) (e : WebhookEvent)
    → e.event_id ≡ event_id
    → any (event_is event_id) (es ++ e ∷ []) ≡ true
inserted_there event_id es e mine = ground (arith, any-append (event_is event_id) es (e ∷ []))

retriable_then : (s : EventStatus) → is_reclaimable s ≡ true → Waiting s
retriable_then EventStatus.failed e = inl refl
retriable_then EventStatus.received e = inr refl
retriable_then EventStatus.processing e = absurd (ground arith)
retriable_then EventStatus.done e = absurd (ground arith)

taken_else : (s : EventStatus) → is_reclaimable s ≡ false → Busy s
taken_else EventStatus.failed e = absurd (ground arith)
taken_else EventStatus.received e = absurd (ground arith)
taken_else EventStatus.processing e = inl refl
taken_else EventStatus.done e = inr refl

all_taken :
    (event_id : ℕ) (es : List WebhookEvent)
    → first (reclaimable event_id) es ≡ none
    → All (λ e. (e.event_id ≢ event_id) ⊎ Busy e.status) es
all_taken event_id [] h = tt
all_taken event_id (e ∷ es) h = elim (Bool-cases (reclaimable event_id e)) [
  | inl hit ↦ absurd (ground (arith, hit))
  | inr miss ↦ (
    elim (Bool-cases (event_is event_id e)) [
      | inl mine ↦ inr (taken_else e.status (ground (arith, mine, miss)))
      | inr other ↦ inl (λ same. ground (arith, other, same))
    ],
    all_taken event_id es (rw miss at h),
  )
]

module _ {S : Type 0} (dispatcher : ℕ → ℕ → S → Result (Unit {0}) × S) (enqueues : Bool) where
  -- What a delivery that meets a store dispatches and answers: the dispatcher's outcome decides.
  abbrev pub Dispatching : ℕ → ℕ × ℕ → Store S → HandleWebhookResult × Store S → Type 0
  Dispatching event_id event met r =
      (r.1.domain ≡ (dispatcher event.0 event.1 met.domain).1)
      × (e : WebhookEvent) × (first (event_is event_id) r.1.events ≡ some e)
      × ((((dispatcher event.0 event.1 met.domain).0 ≡ ok tt)
            × (r.0 ≡ answer 200 Message.ok_)
            × (e.status ≡ EventStatus.done)
            × (r.1.retry_jobs ≡ met.retry_jobs))
          ⊎ ((x : AppError) × ((dispatcher event.0 event.1 met.domain).0 ≡ err x)
              × (r.0 ≡ answer 500 Message.retry)
              × (e.status ≡ EventStatus.failed)
              × (r.1.retry_jobs ≡ (
                  if enqueues
                  then met.retry_jobs ++ record { event_id = event_id; attempt = e.attempts } ∷ []
                  else met.retry_jobs))))

  finalised :
      (event_id : ℕ) (event : ℕ × ℕ) (now : ℕ) (db : Store S) (e : WebhookEvent)
      → first (event_is event_id) db.events ≡ some e
      → Dispatching event_id event db
          (dispatch_and_finalise driver dispatcher enqueues event_id event now db)
  unfolding dispatch_and_finalise
  finalised event_id event now db e there =
      elim (Result-cases (dispatcher event.0 event.1 db.domain).0) [
        | inl (u, went) ↦
            let after_ =
              first-change_first (event_is event_id) (finish now) (λ x p. p) db.events e there in
            (
              ground (arith, went),
              finish now e,
              ground (arith, went, after_),
              inl (went, ground (arith, went), refl, ground (arith, went)),
            )
        | inr (x, failed) ↦
            let after_ = first-change_first (event_is event_id) fail (λ x p. p) db.events e there in
            (
              ground (arith, failed),
              fail e,
              ground (arith, failed, after_),
              inr (x, failed, ground (arith, failed), refl, ground (arith, failed, after_, there)),
            )
      ]

  finalised_any :
      (event_id : ℕ) (event : ℕ × ℕ) (now : ℕ) (db : Store S)
      → any (event_is event_id) db.events ≡ true
      → Dispatching event_id event db
          (dispatch_and_finalise driver dispatcher enqueues event_id event now db)
  finalised_any event_id event now db there =
      elim (Option-cases (first (event_is event_id) db.events)) [
        | inl nothing ↦
            absurd (ground (arith, is_some-first (event_is event_id) db.events, nothing))
        | inr (e, here) ↦ finalised event_id event now db e here
      ]

  -- A retry that meets a store: somebody has taken up the event, or it takes it up.
  abbrev pub Retrying : ℕ → ℕ × ℕ → Store S → HandleWebhookResult × Store S → Type 0
  Retrying event_id event met r =
      (All (λ e. (e.event_id ≢ event_id) ⊎ Busy e.status) met.events
        × (r ≡ (answer 200 Message.concurrent, met)))
      ⊎ ((e : WebhookEvent) × (before : List WebhookEvent) × (after_ : List WebhookEvent)
          × (met.events ≡ before ++ e ∷ after_)
          × (e.event_id ≡ event_id)
          × Waiting e.status
          × Dispatching event_id event met r)

  reclaimed :
      (between : Store S → Store S) (event_id : ℕ) (event : ℕ × ℕ) (now : ℕ) (db : Store S)
      → Retrying event_id event
          (between db)
          (reclaim_event driver dispatcher enqueues between event_id event now db)
  unfolding reclaim_event
  reclaimed between event_id event now db =
      let es = (between db).events in
      elim (Option-cases (first (reclaimable event_id) es)) [
        | inl nothing ↦ inl (
          all_taken event_id es nothing,
          ground (arith, nothing, change_first-absent (reclaimable event_id) reclaim es nothing),
        )
        | inr (e, here) ↦
            let there : any (event_is event_id) (change_first (reclaimable event_id) reclaim es)
                ≡ true =
              any-change_first (event_is event_id) (reclaimable event_id) reclaim (λ x. refl) es
              ∙ found_there event_id es e here in
            let passes = first-passes (reclaimable event_id) es e here in
            let (before, after_, whole, changed) =
              change_first-Differ (reclaimable event_id) reclaim es e here in
            inr (
              e,
              before,
              after_,
              whole,
              ground (arith, passes),
              retriable_then e.status (ground (arith, passes)),
              rw (reclaim_event, here) (finalised_any event_id event now _ there),
            )
      ]

  -- How a delivery ends, by the record of the event that it finds.
  abbrev pub Handling : ℕ → ℕ × ℕ → Store S → Store S → HandleWebhookResult × Store S → Type 0
  Handling event_id event db met r =
      ((first (event_is event_id) db.events ≡ none) × Dispatching event_id event db r)
      ⊎ ((prev : WebhookEvent) × (first (event_is event_id) db.events ≡ some prev)
          × (((prev.status ≡ EventStatus.done) × (r ≡ (answer 200 Message.duplicate, db)))
              ⊎ (((prev.status ≡ EventStatus.processing)
                    × (r ≡ (answer 200 Message.concurrent, db)))
                  ⊎ (Waiting prev.status × Retrying event_id event met r))))

  inspected :
      (between : Store S → Store S) (event_id : ℕ) (event : ℕ × ℕ) (now : ℕ) (db : Store S)
      (status : EventStatus)
      → let r = inspect driver dispatcher enqueues between event_id event now status db in
        ((status ≡ EventStatus.done) × (r ≡ (answer 200 Message.duplicate, db)))
        ⊎ (((status ≡ EventStatus.processing) × (r ≡ (answer 200 Message.concurrent, db)))
            ⊎ (Waiting status × Retrying event_id event (between db) r))
  unfolding inspect
  inspected between event_id event now db EventStatus.done = inl (refl, refl)
  inspected between event_id event now db EventStatus.processing = inr (inl (refl, refl))
  inspected between event_id event now db EventStatus.failed =
      inr (inr (inl refl, reclaimed between event_id event now db))
  inspected between event_id event now db EventStatus.received =
      inr (inr (inr refl, reclaimed between event_id event now db))

  accepted_new :
      (between : Store S → Store S) (validates : ℕ → Bool) (event : ℕ × ℕ)
      (now signature event_id : ℕ) (db : Store S)
      → validates signature ≡ true
      → first (event_is event_id) db.events ≡ none
      → handle_razorpay_webhook driver dispatcher enqueues between validates
          (some event)
          now
          (some signature)
          (some event_id)
          db
        ≡ dispatch_and_finalise driver dispatcher enqueues event_id event now
            (record db { events = db.events ++ new_event event_id event now ∷ [] })
  unfolding handle_razorpay_webhook
  accepted_new between validates event now signature event_id db valid nothing = ground arith

  pub accepted_old :
      (between : Store S → Store S) (validates : ℕ → Bool) (event : ℕ × ℕ)
      (now signature event_id : ℕ) (db : Store S) (prev : WebhookEvent)
      → validates signature ≡ true
      → first (event_is event_id) db.events ≡ some prev
      → handle_razorpay_webhook driver dispatcher enqueues between validates
          (some event)
          now
          (some signature)
          (some event_id)
          db
        ≡ inspect driver dispatcher enqueues between event_id event now prev.status db
  unfolding handle_razorpay_webhook
  accepted_old between validates event now signature event_id db prev valid here = ground arith

  pub handled :
      (between : Store S → Store S) (validates : ℕ → Bool) (event : ℕ × ℕ)
      (now signature event_id : ℕ) (db : Store S)
      → validates signature ≡ true
      → Handling event_id event db (between db) (
          handle_razorpay_webhook driver dispatcher enqueues between validates
            (some event)
            now
            (some signature)
            (some event_id)
            db)
  handled between validates event now signature event_id db valid =
      elim (Option-cases (first (event_is event_id) db.events)) [
        | inl nothing ↦
            rw (accepted_new between validates event now signature event_id db valid nothing) (
              inl (
                nothing,
                finalised_any event_id event now _
                    (inserted_there event_id db.events (new_event event_id event now) refl),
              ))
        | inr (prev, here) ↦
            rw (accepted_old between validates event now signature event_id db prev valid here)
              (inr (prev, here, inspected between event_id event now db prev.status))
      ]

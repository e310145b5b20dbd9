-- ===== src/Webhooks/Tests.antt =====
-- An event whose first attempt failed, delivered twice to a dispatcher that counts.
use cashfb_backend.Prelude.{◌∷◌, none, ℕ, ◌≡◌, ◌+◌, refl, Bool, true, ◌==◌, some, []}
use cashfb_backend.Shared.Exec.{Result, ok}
use cashfb_backend.Shared.Mongo.{driver, driver-IsMongo}
use cashfb_backend.Webhooks.{Store, EventStatus, handle_razorpay_webhook}
use cashfb_backend.Webhooks.Outcomes.{Handling}
use cashfb_backend.Webhooks.Delivery.{delivery_outcomes}

abbrev counting : ℕ → ℕ → ℕ → Result (Unit {0}) × ℕ
counting event_type payload n = (ok tt, n + 1)

abbrev empty_store : Store ℕ
empty_store = record { events = []; domain = 0; retry_jobs = [] }

abbrev valid : ℕ → Bool
valid signature = signature == 8

-- a first attempt has failed
abbrev failed_once : Store ℕ
failed_once = record {
  events =
      record {
        event_id = 77;
        event_type = 1;
        payload = 2;
        received_at = 90;
        processed_at = none;
        status = EventStatus.failed;
        attempts = 1;
      }
      ∷ [];
  domain = 0;
  retry_jobs = [];
}

forged :
    (handle_razorpay_webhook driver counting true
      (λ s. s)
      valid
      (some (1, 2))
      100
      (some 9)
      (some 77)
      empty_store).0.http_code
    ≡ 400
unfolding handle_razorpay_webhook
forged = refl

delivery_outcomes_example :
    Handling counting true 77
      (1, 2)
      failed_once
      failed_once
      (handle_razorpay_webhook driver counting true
        (λ s. s)
        valid
        (some (1, 2))
        100
        (some 8)
        (some 77)
        failed_once)
delivery_outcomes_example =
    delivery_outcomes driver-IsMongo counting true (λ s. s) valid (1, 2) 100 8 77 failed_once refl

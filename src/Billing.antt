-- ===== src/Billing.antt =====
-- Payments: the collections that the services of src/modules/subscriptions share. Times are
-- milliseconds, the provider's are seconds; an amount is paise.
pub mod Subscriptions
pub mod Sweep
mod Tests
use cashfb_backend.Prelude.{ℕ, Option, List, Bool, ◌==◌}
use cashfb_backend.Shared.Tier.{SubscribableTier}
use cashfb_backend.Shared.User.{User}

-- the status of Subscription.model.ts
pub data BillingStatus : Type 0 where
  created authenticated active pending halted cancelled completed paused : BillingStatus

-- Subscription.model.ts
pub record Subscription : Type 0 where
  pub id : ℕ
  pub user_id : ℕ
  pub tier : SubscribableTier
  pub razorpay_subscription_id : ℕ
  pub razorpay_plan_id : ℕ
  pub status : BillingStatus
  pub base_amount : ℕ
  pub gst_amount : ℕ
  pub total_amount : ℕ
  pub current_start : Option ℕ
  pub current_end : Option ℕ
  pub charge_at : Option ℕ
  pub paid_count : ℕ
  pub remaining_count : Option ℕ
  pub cancelled_at : Option ℕ

-- SubscriptionPayment.model.ts
pub record SubscriptionPayment : Type 0 where
  pub id : ℕ
  pub subscription_id : ℕ
  pub user_id : ℕ
  pub razorpay_payment_id : ℕ
  pub amount : ℕ
  pub captured_at : ℕ
  pub invoice : Option ℕ

pub record Store : Type 0 where
  pub users : List User
  pub subscriptions : List Subscription
  pub payments : List SubscriptionPayment
  -- the payment ids that wait in the `invoice` queue
  pub invoice_jobs : List ℕ
  -- `razorpayPlanIds` of the default config
  pub plan_pro : Option ℕ
  pub plan_pro_max : Option ℕ

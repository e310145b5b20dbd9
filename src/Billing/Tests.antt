-- ===== src/Billing/Tests.antt =====
-- Subscriptions at a small store: one user who has a PRO subscription.
use cashfb_backend.Prelude.{
  ℕ, ◌≡◌, ◌⊎◌, refl, true, false, none, some, List, [], ◌∷◌, All, any, first, length, arith,
}
use cashfb_backend.Prelude.Int.{pos}
use cashfb_backend.Shared.Exec.{ok}
use cashfb_backend.Shared.Mongo.{driver, driver-IsMongo}
use cashfb_backend.Shared.Tier.{
  Tier, SubscribableTier, SubscriptionEntry, SubscriptionStatus, user_can_access_tier,
  has_active_entry, is_active_for_derivation,
}
use cashfb_backend.Shared.User.{User, KycStatus}
use cashfb_backend.Wallet.{has_id}
use cashfb_backend.Billing.{Store, Subscription, BillingStatus, SubscriptionPayment}
use cashfb_backend.Billing.Subscriptions.{
  RazorpaySubEntity, RazorpayPayEntity, on_charged, on_halted, pays,
}
use cashfb_backend.Billing.Subscriptions.Charges.{
  repeated_charge_writes_nothing, new_charge_gives_access,
}
use cashfb_backend.Billing.Subscriptions.Entries.{OnePerTier}
use cashfb_backend.Billing.Sweep.{is_candidate, sweep_expired_tiers, sweep_is_complete}

abbrev entry : SubscriptionEntry
entry = record {
  tier = SubscribableTier.pro;
  status = SubscriptionStatus.active;
  expires_at = some 500;
  subscription_id = some 3;
}

abbrev subscriber : User
subscriber = record {
  id = 1;
  phone = 900;
  coin_balance = pos 0;
  total_coins_earned = pos 0;
  total_votes_cast = 0;
  token_version = 0;
  kyc_status = KycStatus.none;
  pan_last4 = none;
  is_blocked = false;
  last_vote_date = none;
  subscriptions = entry ∷ [];
  anonymized_at = none;
  referral_code = 0;
  referred_by = none;
  deleted_at = none;
  erasure_held = false;
  last_login_ip = none;
  last_login_at = none;
}

abbrev subscription : Subscription
subscription = record {
  id = 3;
  user_id = 1;
  tier = SubscribableTier.pro;
  razorpay_subscription_id = 33;
  razorpay_plan_id = 7;
  status = BillingStatus.active;
  base_amount = 5000;
  gst_amount = 900;
  total_amount = 5900;
  current_start = none;
  current_end = none;
  charge_at = none;
  paid_count = 1;
  remaining_count = none;
  cancelled_at = none;
}

abbrev payment : SubscriptionPayment
payment = record {
  id = 40;
  subscription_id = 3;
  user_id = 1;
  razorpay_payment_id = 44;
  amount = 5900;
  captured_at = 100;
  invoice = none;
}

abbrev store : Store
store = record {
  users = subscriber ∷ [];
  subscriptions = subscription ∷ [];
  payments = payment ∷ [];
  invoice_jobs = [];
  plan_pro = some 7;
  plan_pro_max = none;
}

abbrev entity : RazorpaySubEntity
entity = record {
  id = 33;
  current_start = some 100;
  current_end = some 900;
  paid_count = none;
  remaining_count = none;
  charge_at = none;
  cancel_at_cycle_end = true;
}

abbrev old_payment : RazorpayPayEntity
old_payment = record { id = 44; amount = 5900 }

abbrev new_payment : RazorpayPayEntity
new_payment = record { id = 45; amount = 5900 }

one_each : OnePerTier subscriber
one_each SubscribableTier.pro = omega arith
one_each SubscribableTier.pro_max = omega arith

repeated_charge_writes_nothing_example :
    let answer = on_charged driver (λ s. s) 41 200 true entity old_payment store in
    (answer.0 ≡ ok tt) × ((answer.1 ≡ store) ⊎ (answer.1 ≡ store))
repeated_charge_writes_nothing_example =
    repeated_charge_writes_nothing driver-IsMongo (λ s. s) 41 200 true entity old_payment store refl

new_charge_gives_access_example :
    let db' = (on_charged driver (λ s. s) 41 200 true entity new_payment store).1 in
    (any (pays 45) db'.payments ≡ true)
    × ((v : User) × (first (has_id 1) db'.users ≡ some v)
        × (user_can_access_tier v.subscriptions Tier.pro 800 ≡ true))
new_charge_gives_access_example =
    new_charge_gives_access driver-IsMongo (λ s. s) 41 200 true entity new_payment store
      subscription subscriber subscriber 800 refl refl refl refl

abbrev halted_user : User
halted_user = record subscriber {
  subscriptions =
      record entry { status = SubscriptionStatus.cancelled; expires_at = some 200 } ∷ [];
}

halted_now : first (has_id 1) (on_halted driver 200 entity store).1.users ≡ some halted_user
unfolding on_halted
halted_now = refl

live_now : user_can_access_tier (entry ∷ []) Tier.pro 300 ≡ true
unfolding user_can_access_tier has_active_entry is_active_for_derivation
live_now = refl

-- the driver's count, for these runs
abbrev modified : List User → List User → ℕ
modified before after_ = length before

sweep_is_complete_example :
    All
      (λ u. is_candidate 600 u ≡ false)
      (sweep_expired_tiers driver modified (λ s. s) 600 none store).1.users
sweep_is_complete_example = sweep_is_complete driver-IsMongo modified 600 none store (omega arith)

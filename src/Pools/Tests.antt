-- ===== src/Pools/Tests.antt =====
-- A pool of two votes and one donation.
use cashfb_backend.Prelude.{
  ℕ, ◌≡◌, ◌≤◌, ◌<◌, ◌+◌, ◌*◌, ◌/◌, ◌^◌, refl, true, none, some, [], ◌∷◌, arith,
}
use cashfb_backend.Prelude.Int.{pos, ◌+ℤ◌}
use cashfb_backend.Shared.Mongo.{driver, driver-IsMongo}
use cashfb_backend.Shared.Tier.{Tier}
use cashfb_backend.Wallet.{Vote}
use cashfb_backend.Pools.{
  Store, Donation, DonationStatus, ComputeAndPublishInput, compute_and_publish_pool,
}
use cashfb_backend.Pools.Daily.{fund, created_pool_is_funded, created_budgets_add_up}

abbrev vote : Vote
vote = record {
  id = 1;
  user_id = 1;
  tier = Tier.public_tier;
  day_key = 4;
  target = 5;
  coins_spent = 3;
  ip_address = 0;
  device = none;
  created_at = 410;
}

abbrev donation : Donation
donation = record {
  id = 2;
  user_id = none;
  amount = 90;
  razorpay_order_id = 6;
  status = DonationStatus.captured;
  captured_at = some 450;
}

abbrev store : Store
store = record {
  votes = vote ∷ record vote { id = 2; user_id = 2 } ∷ [];
  donations = donation ∷ [];
  pools = [];
  config = record { base_rate_per_vote = none; pro_multiplier = none; pro_max_multiplier = none };
}

abbrev ist_day : ℕ → ℕ × ℕ
ist_day day = (day * 100, day * 100 + 100)

abbrev input : ComputeAndPublishInput
input = record { day_key = 5; yesterday_day_key = 4; tier = Tier.public_tier }

created : (compute_and_publish_pool driver ist_day (λ s. s) 505 input store).0.created ≡ true
unfolding compute_and_publish_pool
created = refl

small : (compute_and_publish_pool driver ist_day (λ s. s) 505 input store).0.total_pool < 2 ^ 48
unfolding compute_and_publish_pool
small = omega arith

created_pool_is_funded_example :
    (compute_and_publish_pool driver ist_day (λ s. s) 505 input store).0.total_pool
    ≡ fund ist_day input store
created_pool_is_funded_example =
    created_pool_is_funded driver-IsMongo ist_day (λ s. s) 505 input store created

created_budgets_add_up_example :
    let answer = (compute_and_publish_pool driver ist_day (λ s. s) 505 input store).0 in
    (pos answer.gift_code_budget +ℤ answer.custom_room_budget ≡ pos answer.total_pool)
    × (answer.gift_code_budget ≤ 7 * answer.total_pool / 10)
    × (7 * answer.total_pool / 10 ≤ answer.gift_code_budget + 1)
created_budgets_add_up_example =
    created_budgets_add_up driver-IsMongo ist_day (λ s. s) 505 input store created small

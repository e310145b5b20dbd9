-- ===== src/Pools.antt =====
-- src/modules/prize-pools/prize-pools.service.ts: the daily prize pool of each tier section. Amounts
-- are whole paise below 2 ^ 53, so a product of integers is exact.
pub mod Daily
mod Tests
use cashfb_backend.Prelude.{
  ℕ, Bool, true, false, Option, none, some, List, [], ◌∷◌, ◌+◌, ◌*◌, ◌==◌, ◌&&◌, not, leb, ltb,
  keep, map, sum_by, is_some, or_default, if◌then◌else◌,
}
use cashfb_backend.Prelude.Int.{ℤ, pos, ◌-ℤ◌}
use cashfb_backend.Shared.Double.{floor_times, seven_tenths}
use cashfb_backend.Shared.Mongo.{Mongo}
use cashfb_backend.Shared.Tier.{Tier}
use cashfb_backend.Wallet.{Vote}
use cashfb_backend.Wallet.Votes.{eq_tier}

pub data DonationStatus : Type 0 where
  created captured failed refunded : DonationStatus

-- Donation.model.ts
pub record Donation : Type 0 where
  pub id : ℕ
  pub user_id : Option ℕ
  pub amount : ℕ
  pub razorpay_order_id : ℕ
  pub status : DonationStatus
  pub captured_at : Option ℕ

pub data PoolStatus : Type 0 where
  pending calculated published closed : PoolStatus

-- PrizePool.model.ts
pub record PrizePool : Type 0 where
  pub tier : Tier
  pub day_key : ℕ
  pub yesterday_vote_count : ℕ
  pub base_rate : ℕ
  pub total_pool : ℕ
  pub gift_code_budget : Option ℕ
  pub custom_room_budget : Option ℤ
  pub pro_multiplier : ℕ
  pub pro_max_multiplier : ℕ
  pub status : PoolStatus
  pub calculated_at : Option ℕ

-- the fields of the default config that this service reads
pub record PoolConfig : Type 0 where
  pub base_rate_per_vote : Option ℕ
  pub pro_multiplier : Option ℕ
  pub pro_max_multiplier : Option ℕ

pub record Store : Type 0 where
  pub votes : List Vote
  pub donations : List Donation
  pub pools : List PrizePool
  pub config : PoolConfig

pub record ComputeAndPublishInput : Type 0 where
  pub day_key : ℕ
  pub yesterday_day_key : ℕ
  pub tier : Tier

pub record ComputeAndPublishResult : Type 0 where
  pub created : Bool
  pub tier : Tier
  pub vote_count : ℕ
  pub tier_multiplier : ℕ
  pub base_rate : ℕ
  pub vote_contribution : ℕ
  pub donation_contribution : ℤ
  pub total_pool : ℕ
  pub gift_code_budget : ℕ
  pub custom_room_budget : ℤ

pub record TodayPoolResult : Type 0 where
  pub tier : Tier
  pub day_key : ℕ
  pub vote_count : ℕ
  pub tier_multiplier : ℕ
  pub base_rate : ℕ
  pub vote_contribution : ℕ
  pub donation_contribution : ℤ
  pub total_pool : ℕ
  pub gift_code_budget : ℕ
  pub custom_room_budget : ℤ
  pub status : PoolStatus
  pub calculated_at : Option ℕ

-- the unique index {tier, dayKey}
abbrev pub pool_of : Tier → ℕ → PrizePool → Bool
pool_of tier day p = eq_tier p.tier tier && (p.day_key == day)

abbrev pub voted_on : ℕ → Tier → Vote → Bool
voted_on day tier v = (v.day_key == day) && eq_tier v.tier tier

abbrev is_captured : DonationStatus → Bool
is_captured DonationStatus.captured = true
is_captured _ = false

-- `capturedAt: { $gte: start, $lt: end }`
abbrev pub captured_within : ℕ × ℕ → Donation → Bool
captured_within (start, end_) d =
    is_captured d.status && elim d.captured_at [ none ↦ false | some t ↦ leb start t && ltb t end_ ]

-- `PRO` and `PRO_MAX` have a multiplier of their own
abbrev pub multiplier_of : Tier → ℕ → ℕ → ℕ
multiplier_of Tier.public_tier pro pro_max = 1
multiplier_of Tier.pro pro pro_max = pro
multiplier_of Tier.pro_max pro pro_max = pro_max

-- what a stored row shows
abbrev pub shown_multiplier : PrizePool → ℕ
shown_multiplier p = multiplier_of p.tier p.pro_multiplier p.pro_max_multiplier

abbrev pub shown_contribution : PrizePool → ℕ
shown_contribution p = p.yesterday_vote_count * p.base_rate * shown_multiplier p

abbrev pub stored_result : PrizePool → ComputeAndPublishResult
stored_result p = record {
  created = false;
  tier = p.tier;
  vote_count = p.yesterday_vote_count;
  tier_multiplier = shown_multiplier p;
  base_rate = p.base_rate;
  vote_contribution = shown_contribution p;
  donation_contribution = pos p.total_pool -ℤ pos (shown_contribution p);
  total_pool = p.total_pool;
  gift_code_budget = or_default p.gift_code_budget 0;
  custom_room_budget = or_default p.custom_room_budget (pos 0);
}

-- `ist_day` stands for the two dayjs computations: the start of a day key and of the day after it.
module _ (m : Mongo) (ist_day : ℕ → ℕ × ℕ) where
  unfoldable pub aggregate_captured_donations_for_day : ℕ → Store → ℕ
  aggregate_captured_donations_for_day day db =
      sum_by (λ (d : Donation). d.amount)
        (m.find Donation (captured_within (ist_day day)) db.donations)

  unfoldable pub donations_for : Tier → ℕ → Store → ℕ
  unfolding aggregate_captured_donations_for_day
  donations_for Tier.public_tier day db = aggregate_captured_donations_for_day day db
  donations_for Tier.pro day db = 0
  donations_for Tier.pro_max day db = 0

  -- `seed`, from what the three reads found
  unfoldable pub seed : ℕ → ComputeAndPublishInput → Store → PrizePool
  unfolding donations_for floor_times
  seed now input db =
      let vote_count = m.count Vote (voted_on input.yesterday_day_key input.tier) db.votes in
      let base_rate = or_default db.config.base_rate_per_vote 100 in
      let pro = or_default db.config.pro_multiplier 5 in
      let pro_max = or_default db.config.pro_max_multiplier 10 in
      let total =
        vote_count * base_rate * multiplier_of input.tier pro pro_max
        + donations_for input.tier input.yesterday_day_key db in
      let gift = floor_times seven_tenths 53 total in
      record {
        tier = input.tier;
        day_key = input.day_key;
        yesterday_vote_count = vote_count;
        base_rate = base_rate;
        total_pool = total;
        gift_code_budget = some gift;
        custom_room_budget = some (pos total -ℤ pos gift);
        pro_multiplier = pro;
        pro_max_multiplier = pro_max;
        status = PoolStatus.calculated;
        calculated_at = some now;
      }

  -- `between` is what other requests commit after the reads.
  pub compute_and_publish_pool :
      (Store → Store) → ℕ → ComputeAndPublishInput → Store → ComputeAndPublishResult × Store
  unfolding seed
  compute_and_publish_pool between now input db =
      let new = seed now input db in
      let db' = between db in
      let (old, pools') =
        m.find_or_insert PrizePool (pool_of input.tier input.day_key) new db'.pools in
      elim old [
        | none ↦ (
          record (stored_result new) {
            created = true;
            donation_contribution = pos (donations_for input.tier input.yesterday_day_key db);
          },
          record db' { pools = pools' },
        )
        | some prev ↦ (stored_result prev, record db' { pools = pools' })
      ]

  abbrev shown : PrizePool → TodayPoolResult
  shown row = record {
    tier = row.tier;
    day_key = row.day_key;
    vote_count = row.yesterday_vote_count;
    tier_multiplier = shown_multiplier row;
    base_rate = row.base_rate;
    vote_contribution = shown_contribution row;
    donation_contribution = pos row.total_pool -ℤ pos (shown_contribution row);
    total_pool = row.total_pool;
    gift_code_budget = or_default row.gift_code_budget 0;
    custom_room_budget = or_default row.custom_room_budget (pos 0);
    status = row.status;
    calculated_at = row.calculated_at;
  }

  -- `today` is the day key of the clock
  pub get_today_for_tier : ℕ → Tier → Store → TodayPoolResult
  get_today_for_tier today tier db = elim (m.find_one PrizePool (pool_of tier today) db.pools) [
    | some row ↦ shown row
    | none ↦ record {
      tier = tier;
      day_key = today;
      vote_count = 0;
      tier_multiplier = 0;
      base_rate = 0;
      vote_contribution = 0;
      donation_contribution = pos 0;
      total_pool = 0;
      gift_code_budget = 0;
      custom_room_budget = pos 0;
      status = PoolStatus.pending;
      calculated_at = none;
    }
  ]

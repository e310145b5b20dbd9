-- ===== src/Shared/User.antt =====
-- src/shared/models/User.model.ts: the fields of a user document that the services read or write.
use cashfb_backend.Prelude.{ℕ, Bool, Option, List}
use cashfb_backend.Prelude.Int.{ℤ}
use cashfb_backend.Shared.Tier.{SubscriptionEntry}

pub data KycStatus : Type 0 where
  none pending verified rejected : KycStatus

pub record User : Type 0 where
  pub id : ℕ
  pub phone : ℕ
  -- signed: no validator runs when `$inc` changes it
  pub coin_balance : ℤ
  pub total_coins_earned : ℤ
  pub total_votes_cast : ℕ
  pub token_version : ℕ
  pub kyc_status : KycStatus
  pub pan_last4 : Option ℕ
  pub is_blocked : Bool
  pub last_vote_date : Option ℕ
  pub subscriptions : List SubscriptionEntry
  pub anonymized_at : Option ℕ
  pub referral_code : ℕ
  pub referred_by : Option ℕ
  -- the erasure request, and `erasureHold.active`
  pub deleted_at : Option ℕ
  pub erasure_held : Bool
  pub last_login_ip : Option ℕ
  pub last_login_at : Option ℕ

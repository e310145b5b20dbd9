-- ===== src/Redeem.antt =====
-- Redeem codes: the collections that the services of src/modules/redeem-codes share. A ciphertext, a
-- hash and an id are numbers; an amount is paise.
pub mod Lifecycle
pub mod Kyc
pub mod Claim
pub mod Admin
pub mod Reconcile
mod Tests
use cashfb_backend.Prelude.{ℕ, Option, none, some, List, Bool, true, false, ◌==◌}
use cashfb_backend.Shared.Tier.{Tier}
use cashfb_backend.Shared.User.{User}
use cashfb_backend.Wallet.{Post, PostCompletion}

pub data CodeStatus : Type 0 where
  available published copied claimed expired void : CodeStatus

-- RedeemCode.model.ts
pub record RedeemCode : Type 0 where
  pub id : ℕ
  pub batch_id : ℕ
  pub denomination : ℕ
  pub tier : Tier
  pub code_ct : ℕ
  pub code_hash : ℕ
  pub status : CodeStatus
  pub post_id : Option ℕ
  pub published_at : Option ℕ
  pub first_copied_by : Option ℕ
  pub first_copied_at : Option ℕ
  pub copy_count : ℕ
  pub claimed_by : Option ℕ
  pub claimed_at : Option ℕ
  pub voided_reason : Option ℕ

pub data PayoutStatus : Type 0 where
  pending released withheld voided : PayoutStatus

pub data WinnerType : Type 0 where
  gift_code custom_room : WinnerType

-- PrizePoolWinner.model.ts
pub record PrizePoolWinner : Type 0 where
  pub id : ℕ
  pub day_key : ℕ
  pub user_id : ℕ
  pub type : WinnerType
  pub tier : Option Tier
  pub base_amount : Option ℕ
  pub multiplier : ℕ
  pub custom_room_id : Option ℕ
  pub final_amount : Option ℕ
  pub redeem_code_id : Option ℕ
  pub payout_status : PayoutStatus
  pub tds_deducted : ℕ
  pub pan_at_payout : Option ℕ
  pub released_at : Option ℕ
  pub created_at : ℕ

pub data BatchStatus : Type 0 where
  staged live exhausted : BatchStatus

-- RedeemCodeBatch.model.ts
pub record RedeemCodeBatch : Type 0 where
  pub id : ℕ
  pub denomination : ℕ
  pub count : ℕ
  pub total_value : Option ℕ
  pub status : BatchStatus

pub record Store : Type 0 where
  pub users : List User
  pub posts : List Post
  pub completions : List PostCompletion
  pub codes : List RedeemCode
  pub batches : List RedeemCodeBatch
  pub winners : List PrizePoolWinner
  -- `AppConfig.kycThresholdAmount` of the default config, if there is one
  pub kyc_threshold : Option ℕ

abbrev pub code_has_id : ℕ → RedeemCode → Bool
code_has_id k c = c.id == k

abbrev pub is_available : CodeStatus → Bool
is_available CodeStatus.available = true
is_available _ = false

abbrev pub is_published : CodeStatus → Bool
is_published CodeStatus.published = true
is_published _ = false

abbrev pub is_copied : CodeStatus → Bool
is_copied CodeStatus.copied = true
is_copied _ = false

-- `field === id`, false where the field is missing
abbrev pub holds : Option ℕ → ℕ → Bool
holds none k = false
holds (some j) k = j == k

-- ===== src/Redeem/Tests.antt =====
-- Redeem codes at a small store: one published code, one in stock, one prize.
use cashfb_backend.Prelude.{
  ℕ, ◌≡◌, ◌≢◌, ◌+◌, ◌⊎◌, refl, true, false, Option, none, some, List, [], ◌∷◌, arith, Differ,
}
use cashfb_backend.Prelude.Int.{pos}
use cashfb_backend.Shared.Errors.{AppError, post_not_completed}
use cashfb_backend.Shared.Exec.{ok, err}
use cashfb_backend.Shared.Mongo.{driver, driver-IsMongo}
use cashfb_backend.Shared.Tier.{Tier}
use cashfb_backend.Shared.User.{User, KycStatus}
use cashfb_backend.Wallet.{Post, PostStatus, PostCompletion}
use cashfb_backend.Redeem.{
  Store, RedeemCode, CodeStatus, BatchStatus, PrizePoolWinner, WinnerType, PayoutStatus,
}
use cashfb_backend.Redeem.Admin.{
  RawRow, PublishBatchInput, PublishBatchResult, UploadBatchResult, SkipReason,
  publish_batch_to_post, upload_batch,
}
use cashfb_backend.Redeem.Claim.{ClaimResult, claim}
use cashfb_backend.Redeem.Claim.Exclusive.{
  claim_takes_published_code, failed_claim_writes_nothing, second_claim_refused,
}

abbrev winner : User
winner = record {
  id = 1;
  phone = 900;
  coin_balance = pos 0;
  total_coins_earned = pos 0;
  total_votes_cast = 0;
  token_version = 0;
  kyc_status = KycStatus.none;
  pan_last4 = some 1234;
  is_blocked = false;
  last_vote_date = none;
  subscriptions = [];
  anonymized_at = none;
  referral_code = 0;
  referred_by = none;
  deleted_at = none;
  erasure_held = false;
  last_login_ip = none;
  last_login_at = none;
}

abbrev post : Post
post = record {
  id = 9;
  tier = Tier.public_tier;
  day_key = 5;
  scheduled_at = 0;
  status = PostStatus.live;
  coin_reward = 2;
}

abbrev completion : PostCompletion
completion = record {
  user_id = 1;
  post_id = 9;
  day_key = 5;
  completed_at = 50;
  coin_awarded = 2;
  coin_tx = none;
}

abbrev code : RedeemCode
code = record {
  id = 20;
  batch_id = 4;
  denomination = 5000;
  tier = Tier.public_tier;
  code_ct = 77;
  code_hash = 78;
  status = CodeStatus.published;
  post_id = some 9;
  published_at = some 40;
  first_copied_by = none;
  first_copied_at = none;
  copy_count = 0;
  claimed_by = none;
  claimed_at = none;
  voided_reason = none;
}

abbrev stock_code : RedeemCode
stock_code = record code {
  id = 21;
  code_hash = 79;
  status = CodeStatus.available;
  post_id = none;
  published_at = none;
}

abbrev prize : PrizePoolWinner
prize = record {
  day_key = 20250110;
  type = WinnerType.gift_code;
  tier = none;
  base_amount = none;
  multiplier = 1;
  custom_room_id = none;
  id = 30;
  user_id = 1;
  final_amount = some 5000;
  redeem_code_id = some 20;
  payout_status = PayoutStatus.pending;
  tds_deducted = 0;
  pan_at_payout = none;
  released_at = none;
  created_at = 45;
}

abbrev store : Store
store = record {
  users = winner ∷ [];
  posts = post ∷ [];
  completions = completion ∷ [];
  codes = code ∷ stock_code ∷ [];
  batches =
      record {
        id = 4;
        denomination = 5000;
        count = 2;
        total_value = some 10000;
        status = BatchStatus.live;
      }
      ∷ [];
  winners = prize ∷ [];
  kyc_threshold = none;
}

abbrev year : ℕ → ℕ × ℕ
year now = (0, 1000)

abbrev decrypt : ℕ → Option ℕ
decrypt ct = some (ct + 1)

abbrev receipt : ClaimResult
receipt = record {
  code_id = 20;
  plaintext_code = 78;
  denomination = 5000;
  tds = some (record { deducted_paise = 1500; winner_id = 30 });
}

claimed_once : (claim driver year decrypt (λ s. s) 60 20 1 store).0 ≡ ok receipt
unfolding claim
claimed_once = refl

not_completed :
    (claim driver year decrypt (λ s. s) 60 20 1 (record store { completions = [] })).0
    ≡ err (AppError.forbidden post_not_completed)
unfolding claim
not_completed = refl

claim_takes_published_code_example :
    (c : RedeemCode) × (c.id ≡ 20)
    × (c.status ≡ CodeStatus.published)
    × (receipt.code_id ≡ 20)
    × (decrypt c.code_ct ≡ some 78)
    × (5000 ≡ c.denomination)
    × Differ c
        (record c {
          status = CodeStatus.copied;
          first_copied_by = some 1;
          first_copied_at = some 60;
          copy_count = c.copy_count + 1;
        })
        store.codes
        (claim driver year decrypt (λ s. s) 60 20 1 store).1.codes
claim_takes_published_code_example =
    claim_takes_published_code driver-IsMongo year decrypt (λ s. s) 60 20 1 store receipt
      claimed_once

failed_claim_writes_nothing_example :
    ((claim driver year decrypt (λ s. s) 60 20 1 (record store { completions = [] })).1
      ≡ record store { completions = [] })
    ⊎ ((claim driver year decrypt (λ s. s) 60 20 1 (record store { completions = [] })).1
        ≡ record store { completions = [] })
failed_claim_writes_nothing_example =
    failed_claim_writes_nothing driver-IsMongo year decrypt (λ s. s) 60 20 1
      (record store { completions = [] }) (AppError.forbidden post_not_completed) not_completed
      (λ same. absurd (ground arith))

second_claim_refused_example :
    (claim driver year decrypt
      (λ s. s)
      61
      20
      2
      (claim driver year decrypt (λ s. s) 60 20 1 store).1).0
    ≢ ok receipt
second_claim_refused_example =
    second_claim_refused driver-IsMongo year decrypt (λ s. s) (λ s. s) 60 61 20 1 2 store receipt
      receipt (omega arith) (λ s gone. gone) claimed_once

abbrev request : PublishBatchInput
request = record { batch_id = 4; post_id = 9; count = 3 }

abbrev outcome : PublishBatchResult
outcome = record { published_count = 1; batch_exhausted = true }

published : (publish_batch_to_post driver 50 request store).0 ≡ ok outcome
unfolding publish_batch_to_post
published = refl

-- a new code, the same code again, and one whose denomination is another
abbrev rows : List RawRow
rows =
    record { code = 500; code_length = 8; denomination = some 5000 }
    ∷ record { code = 500; code_length = 8; denomination = some 5000 }
    ∷ record { code = 501; code_length = 8; denomination = some 100 }
    ∷ []

abbrev upload : UploadBatchResult
upload = record {
  batch_id = 5;
  inserted = 1;
  skipped =
      record { row = 2; code = 500; reason = SkipReason.duplicate_in_file }
      ∷ record { row = 3; code = 501; reason = SkipReason.invalid_denomination }
      ∷ [];
}

uploaded : (upload_batch driver (λ n. n + 100) (λ c. c) (λ c. c) 5 none rows store).0 ≡ ok upload
unfolding upload_batch
uploaded = refl

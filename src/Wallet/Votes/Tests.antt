-- ===== src/Wallet/Votes/Tests.antt =====
-- Votes at a small store: one user with seven coins.
use cashfb_backend.Prelude.{ℕ, ◌≡◌, ◌≢◌, ◌⊎◌, ◌%◌, refl, false, none, [], ◌∷◌, arith}
use cashfb_backend.Prelude.Int.{pos, ◌+ℤ◌}
use cashfb_backend.Shared.Errors.{AppError, tier_not_accessible}
use cashfb_backend.Shared.Exec.{ok, err}
use cashfb_backend.Shared.Mongo.{driver, driver-IsMongo}
use cashfb_backend.Shared.Tier.{Tier, has_active_entry}
use cashfb_backend.Shared.User.{User, KycStatus}
use cashfb_backend.Wallet.{Store, CoinTransaction, admin_credit}
use cashfb_backend.Wallet.Ledger.{Balanced, ledger}
use cashfb_backend.Wallet.Votes.{CastVoteInput, VoteReceipt, cast_vote}
use cashfb_backend.Wallet.Votes.Outcomes.{refused_vote_writes_nothing}
use cashfb_backend.Wallet.Votes.Slots.{
  OneVotePerSlot, Solvent, cast_vote-OneVotePerSlot, cast_vote-Balanced, cast_vote-nonneg,
  second_vote_refused,
}

abbrev pub voter : User
voter = record {
  id = 1;
  phone = 900;
  coin_balance = pos 7;
  total_coins_earned = pos 7;
  total_votes_cast = 0;
  token_version = 0;
  kyc_status = KycStatus.none;
  pan_last4 = none;
  is_blocked = false;
  last_vote_date = none;
  subscriptions = [];
  anonymized_at = none;
  referral_code = 0;
  referred_by = none;
  deleted_at = none;
  erasure_held = false;
  last_login_ip = none;
  last_login_at = none;
}

abbrev pub credit : CoinTransaction
credit = record {
  user_id = 1;
  type = admin_credit;
  amount = pos 7;
  balance_after = pos 7;
  reference = 0;
}

abbrev pub store : Store
store = record {
  users = voter ∷ [];
  votes = [];
  posts = [];
  completions = [];
  coin_txs = credit ∷ [];
  events = [];
}

abbrev day : ℕ → ℕ
day now = now % 100

abbrev input : CastVoteInput
input = record {
  user_id = 1;
  tier = Tier.public_tier;
  target = 5;
  ip_address = 0;
  device_fingerprint = none;
}

abbrev pro_input : CastVoteInput
pro_input = record {
  user_id = 1;
  tier = Tier.pro;
  target = 5;
  ip_address = 0;
  device_fingerprint = none;
}

abbrev receipt : VoteReceipt
receipt = record { coin_balance = pos 4; day_key = 5; tier = Tier.public_tier }

pub store-Balanced : Balanced store
unfolding ledger ◌+ℤ◌
store-Balanced = record { unique = (refl, tt); balanced = (refl, tt) }

accepted : (cast_vote driver day (λ s. s) 1 105 input store).0 ≡ ok receipt
unfolding cast_vote ◌+ℤ◌
accepted = refl

refused :
    (cast_vote driver day (λ s. s) 1 105 pro_input store).0
    ≡ err (AppError.forbidden tier_not_accessible)
unfolding cast_vote has_active_entry
refused = refl

cast_vote-Balanced_example : Balanced (cast_vote driver day (λ s. s) 1 105 input store).1
cast_vote-Balanced_example =
    cast_vote-Balanced driver-IsMongo day (λ s. s) 1 105 input store (λ s b. b) store-Balanced

cast_vote-OneVotePerSlot_example :
    OneVotePerSlot (cast_vote driver day (λ s. s) 1 105 input store).1.votes
cast_vote-OneVotePerSlot_example =
    cast_vote-OneVotePerSlot driver-IsMongo day (λ s. s) 1 105 input store (λ s b. b)
      (λ user_id tier day_key. omega arith)

cast_vote-nonneg_example : Solvent (cast_vote driver day (λ s. s) 1 105 input store).1.users
cast_vote-nonneg_example =
    cast_vote-nonneg driver-IsMongo day (λ s. s) 1 105 input store (λ s b. b) (omega arith, tt)

refused_vote_writes_nothing_example :
    ((cast_vote driver day (λ s. s) 1 105 pro_input store).1 ≡ store)
    ⊎ ((cast_vote driver day (λ s. s) 1 105 pro_input store).1 ≡ store)
refused_vote_writes_nothing_example =
    refused_vote_writes_nothing driver-IsMongo day (λ s. s) 1 105 pro_input store
      (AppError.forbidden tier_not_accessible) refused

second_vote_refused_example :
    (cast_vote driver day
      (λ s. s)
      2
      205
      input
      (cast_vote driver day (λ s. s) 1 105 input store).1).0
    ≢ ok receipt
second_vote_refused_example =
    second_vote_refused driver-IsMongo day (λ s. s) (λ s. s) 1 2 105 205 input input store receipt
      receipt accepted (λ s slot used. used) refl refl refl

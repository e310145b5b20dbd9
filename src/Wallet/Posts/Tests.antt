-- ===== src/Wallet/Posts/Tests.antt =====
-- A post completed twice.
use cashfb_backend.Prelude.{◌≡◌, refl, true, false, none, [], ◌∷◌}
use cashfb_backend.Prelude.Int.{pos, ◌+ℤ◌}
use cashfb_backend.Shared.Exec.{ok}
use cashfb_backend.Shared.Mongo.{driver, driver-IsMongo}
use cashfb_backend.Shared.Tier.{Tier}
use cashfb_backend.Shared.User.{User, KycStatus}
use cashfb_backend.Wallet.{Store, Post, PostStatus, CoinTransaction, admin_credit}
use cashfb_backend.Wallet.Ledger.{Balanced, ledger}
use cashfb_backend.Wallet.Posts.{CompletePostInput, CompletionReceipt, complete_post}
use cashfb_backend.Wallet.Posts.Rewards.{complete_post-Balanced, second_completion_pays_nothing}

abbrev reader : User
reader = record {
  id = 1;
  phone = 900;
  coin_balance = pos 7;
  total_coins_earned = pos 7;
  total_votes_cast = 0;
  token_version = 0;
  kyc_status = KycStatus.none;
  pan_last4 = none;
  is_blocked = false;
  last_vote_date = none;
  subscriptions = [];
  anonymized_at = none;
  referral_code = 0;
  referred_by = none;
  deleted_at = none;
  erasure_held = false;
  last_login_ip = none;
  last_login_at = none;
}

abbrev credit : CoinTransaction
credit = record {
  user_id = 1;
  type = admin_credit;
  amount = pos 7;
  balance_after = pos 7;
  reference = 0;
}

abbrev post : Post
post = record {
  id = 9;
  tier = Tier.public_tier;
  day_key = 5;
  scheduled_at = 0;
  status = PostStatus.live;
  coin_reward = 2;
}

abbrev store : Store
store = record {
  users = reader ∷ [];
  votes = [];
  posts = post ∷ [];
  completions = [];
  coin_txs = credit ∷ [];
  events = [];
}

abbrev input : CompletePostInput
input = record { post_id = 9; user_id = 1; subscriptions = [] }

abbrev first_receipt : CompletionReceipt
first_receipt = record { coin_balance = pos 9; already_completed = false }

abbrev second_receipt : CompletionReceipt
second_receipt = record { coin_balance = pos 9; already_completed = true }

store-Balanced : Balanced store
unfolding ledger ◌+ℤ◌
store-Balanced = record { unique = (refl, tt); balanced = (refl, tt) }

rewarded : (complete_post driver (λ s. s) 1 105 input store).0 ≡ ok first_receipt
unfolding complete_post ◌+ℤ◌
rewarded = refl

repeated :
    (complete_post driver
      (λ s. s)
      2
      106
      input
      (complete_post driver (λ s. s) 1 105 input store).1).0
    ≡ ok second_receipt
unfolding complete_post ◌+ℤ◌
repeated = refl

complete_post-Balanced_example : Balanced (complete_post driver (λ s. s) 1 105 input store).1
complete_post-Balanced_example =
    complete_post-Balanced driver-IsMongo (λ s. s) 1 105 input store (λ s b. b) store-Balanced

second_completion_pays_nothing_example :
    (second_receipt.already_completed ≡ true)
    × ((complete_post driver
          (λ s. s)
          2
          106
          input
          (complete_post driver (λ s. s) 1 105 input store).1).1
        ≡ (complete_post driver (λ s. s) 1 105 input store).1)
second_completion_pays_nothing_example =
    second_completion_pays_nothing driver-IsMongo (λ s. s) (λ s. s) 1 2 105 106 input input store
      first_receipt second_receipt rewarded refl (λ s p used. used) refl refl repeated

-- ===== src/Wallet/AdminCoins/Tests.antt =====
-- A debit of ten coins from a user who has seven.
use cashfb_backend.Prelude.{◌≡◌, refl, false, none, [], ◌∷◌, change_first, arith}
use cashfb_backend.Prelude.Int.{pos, negsuc, ◌+ℤ◌}
use cashfb_backend.Shared.Exec.{ok}
use cashfb_backend.Shared.Mongo.{driver, driver-IsMongo}
use cashfb_backend.Shared.User.{User, KycStatus}
use cashfb_backend.Wallet.{Store, CoinTransaction, admin_credit, has_id}
use cashfb_backend.Wallet.AdminCoins.{
  CoinAdjustInput, adjust_coins, adjust, adjust_coins-Balanced, adjust_coins_overdraws,
}
use cashfb_backend.Wallet.Ledger.{Balanced, ledger}

abbrev holder : User
holder = record {
  id = 1;
  phone = 900;
  coin_balance = pos 7;
  total_coins_earned = pos 7;
  total_votes_cast = 0;
  token_version = 0;
  kyc_status = KycStatus.none;
  pan_last4 = none;
  is_blocked = false;
  last_vote_date = none;
  subscriptions = [];
  anonymized_at = none;
  referral_code = 0;
  referred_by = none;
  deleted_at = none;
  erasure_held = false;
  last_login_ip = none;
  last_login_at = none;
}

abbrev credit : CoinTransaction
credit = record {
  user_id = 1;
  type = admin_credit;
  amount = pos 7;
  balance_after = pos 7;
  reference = 0;
}

abbrev store : Store
store = record {
  users = holder ∷ [];
  votes = [];
  posts = [];
  completions = [];
  coin_txs = credit ∷ [];
  events = [];
}

-- minus ten
abbrev input : CoinAdjustInput
input = record { user_id = 1; delta = negsuc 9; actor_id = 3 }

store-Balanced : Balanced store
unfolding ledger ◌+ℤ◌
store-Balanced = record { unique = (refl, tt); balanced = (refl, tt) }

adjust_coins-Balanced_example : Balanced (adjust_coins driver input store).1
adjust_coins-Balanced_example = adjust_coins-Balanced driver-IsMongo input store store-Balanced

adjust_coins_overdraws_example :
    ((adjust_coins driver input store).0
      ≡ ok (record { balance_before = pos 7; balance_after = pos 7 +ℤ negsuc 9; delta = negsuc 9 }))
    × ((adjust_coins driver input store).1.users
        ≡ change_first (has_id 1) (adjust (negsuc 9)) store.users)
adjust_coins_overdraws_example =
    adjust_coins_overdraws driver-IsMongo input store holder refl (λ same. absurd (ground arith))

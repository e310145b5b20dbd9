-- ===== src/Wallet/Votes.antt =====
-- src/modules/votes/votes.service.ts: casting a vote, and the home screen's vote card.
pub mod Outcomes
pub mod Slots
mod Tests
use cashfb_backend.Prelude.{
  ℕ, ◌≡◌, Bool, true, false, Option, none, some, List, not, ◌==◌, ◌&&◌, any, is_some, ◌+◌,
  if◌then◌else◌,
}
use cashfb_backend.Prelude.Int.{ℤ, pos, negsuc, ◌+ℤ◌, leb_ℤ}
use cashfb_backend.Shared.Errors.{
  AppError, user_blocked, tier_not_accessible, insufficient_coins, vote_already_cast,
}
use cashfb_backend.Shared.Exec.{
  Exec, Result, ok, err, pure, throw, gets, or_throw, update, modify, throw_if, ◌>>=◌, ◌>>◌,
}
use cashfb_backend.Shared.Mongo.{Mongo, find_and_update}
use cashfb_backend.Shared.Tier.{Tier, user_can_access_tier}
use cashfb_backend.Shared.User.{User}
use cashfb_backend.Wallet.{
  Store, Vote, CoinTransaction, CoinTransactionType, vote_spend, CoinEvent, has_id, record_tx, emit,
}

abbrev pub vote_cost : ℕ
vote_cost = 3

pub record CastVoteInput : Type 0 where
  pub user_id : ℕ
  pub tier : Tier
  pub target : ℕ
  pub ip_address : ℕ
  pub device_fingerprint : Option ℕ

pub record VoteReceipt : Type 0 where
  pub coin_balance : ℤ
  pub day_key : ℕ
  pub tier : Tier

-- what `getTodayStatus` answers
pub record VoteStatus : Type 0 where
  pub can_vote : Bool
  pub day_key : ℕ
  pub tier : Tier
  pub voted_at : Option ℕ
  pub total_votes_today : ℕ

-- the unique index {userId, tier, dayKey} of Vote.model.ts
abbrev pub eq_tier : Tier → Tier → Bool
eq_tier Tier.public_tier Tier.public_tier = true
eq_tier Tier.pro Tier.pro = true
eq_tier Tier.pro_max Tier.pro_max = true
eq_tier _ _ = false

abbrev pub in_slot : ℕ → Tier → ℕ → Vote → Bool
in_slot user_id tier day_key v = v.user_id == user_id && eq_tier v.tier tier && v.day_key == day_key

abbrev pub same_slot : Vote → Vote → Bool
same_slot a b = in_slot a.user_id a.tier a.day_key b

-- `{coinBalance: {$gte: VOTE_COST}, 'blocked.isBlocked': {$ne: true}}` at the user's id
abbrev pub can_pay : ℕ → User → Bool
can_pay user_id u = has_id user_id u && leb_ℤ (pos vote_cost) u.coin_balance && not u.is_blocked

abbrev pub charge_vote : ℕ → User → User
charge_vote day_key u = record u {
  coin_balance = u.coin_balance +ℤ negsuc 2;
  total_votes_cast = u.total_votes_cast + 1;
  last_vote_date = some day_key;
}

-- `dayKeyIst` rests on dayjs: `day_key_ist` stands for it.
module _ (m : Mongo) (day_key_ist : ℕ → ℕ) where
  -- `VoteRepository.insertIfAbsent`
  insert_if_absent : Vote → Store → Option Vote × Store
  insert_if_absent vote db = elim (m.insert Vote same_slot vote db.votes) [
    | none ↦ (none, db)
    | some votes' ↦ (some vote, record db { votes = votes' })
  ]

  charge_user : ℕ → ℕ → Store → Option User × Store
  charge_user user_id day_key db =
      let (updated, users') = find_and_update m (can_pay user_id) (charge_vote day_key) db.users in
      (updated, record db { users = users' })

  -- the callback of `withTransaction`
  vote_transaction : CastVoteInput → ℕ → Vote → Exec Store VoteReceipt
  unfolding insert_if_absent charge_user
  vote_transaction input day_key vote = do
    inserted ← update (insert_if_absent vote)
    or_throw (AppError.conflict vote_already_cast) inserted
    charged ← update (charge_user input.user_id day_key)
    updated ← or_throw (AppError.payment_required insufficient_coins) charged
    modify (
        record_tx (record {
          user_id = input.user_id;
          type = vote_spend;
          amount = negsuc 2;
          balance_after = updated.coin_balance;
          reference = vote.id;
        }))
    pure (record { coin_balance = updated.coin_balance; day_key = day_key; tier = input.tier })

  -- `between` is what other requests commit after the advisory reads and before the transaction;
  -- `vote_id` is the id that the driver gives the new document.
  pub cast_vote : (Store → Store) → ℕ → ℕ → CastVoteInput → Exec Store VoteReceipt
  unfolding vote_transaction user_can_access_tier
  cast_vote between vote_id now input = do
    let day_key = day_key_ist now
    found ← gets (λ db. m.find_one User (has_id input.user_id) db.users)
    user ← or_throw AppError.unauthorized found
    throw_if user.is_blocked (AppError.forbidden user_blocked)
    throw_if (not (user_can_access_tier user.subscriptions input.tier now))
        (AppError.forbidden tier_not_accessible)
    throw_if (not (leb_ℤ (pos vote_cost) user.coin_balance))
        (AppError.payment_required insufficient_coins)
    modify between
    receipt ← m.with_transaction Store VoteReceipt (
        vote_transaction input day_key (record {
          id = vote_id;
          user_id = input.user_id;
          tier = input.tier;
          day_key = day_key;
          target = input.target;
          coins_spent = vote_cost;
          ip_address = input.ip_address;
          device = input.device_fingerprint;
          created_at = now;
        }))
    modify (
        emit (record {
          user_id = input.user_id;
          coin_balance = receipt.coin_balance;
          reason = vote_spend;
        }))
    pure receipt

  pub get_today_status : ℕ → ℕ → Tier → Store → VoteStatus
  get_today_status now user_id tier db =
      let day_key = day_key_ist now in
      let vote = m.find_one Vote (in_slot user_id tier day_key) db.votes in
      record {
        can_vote = not (is_some vote);
        day_key = day_key;
        tier = tier;
        voted_at = elim vote [ none ↦ none | some v ↦ some v.created_at ];
        total_votes_today =
            m.count Vote (λ v. eq_tier v.tier tier && v.day_key == day_key) db.votes;
      }

-- ===== src/Wallet/Posts.antt =====
-- src/modules/posts/posts.service.ts: the daily feed and the completion of a post, which pays coins.
pub mod Outcomes
pub mod Rewards
mod Tests
use cashfb_backend.Prelude.{
  ℕ, Bool, true, false, Option, none, some, List, not, ◌==◌, ◌&&◌, ltb, any, map, if◌then◌else◌,
  is_some,
}
use cashfb_backend.Prelude.Int.{ℤ, pos, ◌+ℤ◌}
use cashfb_backend.Shared.Errors.{AppError, tier_not_accessible, post_not_live, invariant}
use cashfb_backend.Shared.Exec.{
  Exec, Result, ok, err, pure, throw, gets, or_throw, update, modify, throw_if, ◌>>=◌, ◌>>◌,
}
use cashfb_backend.Shared.Mongo.{Mongo, find_and_update, update_one}
use cashfb_backend.Shared.Tier.{Tier, SubscriptionEntry, user_can_access_tier}
use cashfb_backend.Shared.User.{User}
use cashfb_backend.Wallet.Votes.{eq_tier}
use cashfb_backend.Wallet.{
  Store, Post, PostStatus, PostCompletion, CoinTransaction, post_reward, has_id, record_tx, emit,
}

-- the outcome of `completePost`
pub record CompletionReceipt : Type 0 where
  pub coin_balance : ℤ
  pub already_completed : Bool

pub record CompletePostInput : Type 0 where
  pub post_id : ℕ
  pub user_id : ℕ
  pub subscriptions : List SubscriptionEntry

-- a post with the caller's completion flag; the fields that are only copied are left out
pub record UserFacingPostDto : Type 0 where
  pub post : Post
  pub completed : Bool

abbrev pub is_live : PostStatus → Bool
is_live PostStatus.live = true
is_live _ = false

abbrev pub post_has_id : ℕ → Post → Bool
post_has_id k p = p.id == k

-- `{userId, postId}`, the unique index of PostCompletion.model.ts
abbrev pub completes : ℕ → ℕ → PostCompletion → Bool
completes user_id post_id c = c.user_id == user_id && c.post_id == post_id

-- `UserRepository.incCoinBalance` for a reward
abbrev pub inc_coin_balance : ℕ → User → User
inc_coin_balance delta u = record u {
  coin_balance = u.coin_balance +ℤ pos delta;
  total_coins_earned =
      if ltb 0 delta then u.total_coins_earned +ℤ pos delta else u.total_coins_earned;
}

-- `{tier, dayKey, status: {$in: ['SCHEDULED', 'LIVE', 'CLOSED']}}`
abbrev pub is_shown : PostStatus → Bool
is_shown PostStatus.draft = false
is_shown _ = true

abbrev pub in_feed : Tier → ℕ → Post → Bool
in_feed tier day_key p = eq_tier p.tier tier && p.day_key == day_key && is_shown p.status

module _ (m : Mongo) where
  upsert_completion : PostCompletion → Store → Option PostCompletion × Store
  upsert_completion c db =
      let (old, completions') =
        m.find_or_insert PostCompletion (completes c.user_id c.post_id) c db.completions in
      (old, record db { completions = completions' })

  reward_user : ℕ → ℕ → Store → Option User × Store
  reward_user user_id delta db =
      let (updated, users') =
        find_and_update m (has_id user_id) (inc_coin_balance delta) db.users in
      (updated, record db { users = users' })

  -- the back-link `completion.coinTxId`
  link_tx : ℕ → ℕ → ℕ → Store → Store
  link_tx user_id post_id tx_id db =
      let (found, completions') =
        update_one m (completes user_id post_id)
          (λ (c : PostCompletion). record c { coin_tx = some tx_id }) db.completions in
      record db { completions = completions' }

  -- the branch of a first completion
  award : CompletePostInput → ℕ → ℕ → Exec Store CompletionReceipt
  unfolding reward_user link_tx
  award input coin_reward tx_id = do
    rewarded ← update (reward_user input.user_id coin_reward)
    updated ← or_throw (AppError.internal invariant) rewarded
    modify (
        record_tx (record {
          user_id = input.user_id;
          type = post_reward;
          amount = pos coin_reward;
          balance_after = updated.coin_balance;
          reference = input.post_id;
        }))
    modify (link_tx input.user_id input.post_id tx_id)
    pure (record { coin_balance = updated.coin_balance; already_completed = false })

  -- the branch of a repeated completion: the balance is read, nothing is written
  repeat_completion : CompletePostInput → Exec Store CompletionReceipt
  repeat_completion input = do
    found ← gets (λ db. m.find_one User (has_id input.user_id) db.users)
    user ← or_throw (AppError.internal invariant) found
    pure (record { coin_balance = user.coin_balance; already_completed = true })

  completion_transaction : CompletePostInput → Post → ℕ → ℕ → Exec Store CompletionReceipt
  unfolding upsert_completion award repeat_completion
  completion_transaction input post now tx_id = do
    old ← update (
        upsert_completion (record {
          user_id = input.user_id;
          post_id = input.post_id;
          day_key = post.day_key;
          completed_at = now;
          coin_awarded = post.coin_reward;
          coin_tx = none;
        }))
    if is_some old then repeat_completion input else award input post.coin_reward tx_id

  -- `between` is what other requests commit before the transaction; `tx_id` is the id of the new
  -- coin transaction.
  pub complete_post : (Store → Store) → ℕ → ℕ → CompletePostInput → Exec Store CompletionReceipt
  unfolding completion_transaction user_can_access_tier
  complete_post between tx_id now input = do
    found ← gets (λ db. m.find_one Post (post_has_id input.post_id) db.posts)
    post ← or_throw AppError.not_found found
    throw_if (not (is_live post.status)) (AppError.conflict post_not_live)
    throw_if (not (user_can_access_tier input.subscriptions post.tier now))
        (AppError.forbidden tier_not_accessible)
    modify between
    receipt ←
        m.with_transaction Store CompletionReceipt (completion_transaction input post now tx_id)
    modify (λ db.
        if receipt.already_completed
        then db
        else emit
            (record {
              user_id = input.user_id;
              coin_balance = receipt.coin_balance;
              reason = post_reward;
            })
            db)
    pure receipt

  -- `PostRepository.listForDayAndTier` sorts by `scheduledAt`, which mongoose does: `by_time`
  pub list_for_date : (List Post → List Post) → ℕ → ℕ → Tier → Store → List UserFacingPostDto
  list_for_date by_time day_key user_id tier db =
      let posts = by_time (m.find Post (in_feed tier day_key) db.posts) in
      let completions =
        m.find PostCompletion (λ c. c.user_id == user_id && c.day_key == day_key) db.completions in
      map (λ p. record { post = p; completed = any (λ c. c.post_id == p.id) completions }) posts

  pub get_by_id : ℕ → ℕ → ℕ → List SubscriptionEntry → Store → Option UserFacingPostDto
  get_by_id now post_id user_id subscriptions db =
      elim (m.find_one Post (post_has_id post_id) db.posts) [
        | none ↦ none
        | some p ↦
            if user_can_access_tier subscriptions p.tier now
            then some (record {
              post = p;
              completed =
                  is_some (m.find_one PostCompletion (completes user_id p.id) db.completions);
            })
            else none
      ]

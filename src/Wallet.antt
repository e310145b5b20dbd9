-- ===== src/Wallet.antt =====
-- The coin wallet: the collections that the coin-moving services share. A day key, a phone and
-- any other string that is only compared is a number; a time is milliseconds.
pub mod Ledger
pub mod Votes
pub mod Posts
pub mod AdminCoins
pub mod History
use cashfb_backend.Prelude.{ℕ, Option, List, Bool, ◌==◌, ◌&&◌, ◌++◌, [], ◌∷◌}
use cashfb_backend.Prelude.Int.{ℤ}
use cashfb_backend.Shared.User.{User}
use cashfb_backend.Shared.Tier.{Tier}

pub data CoinTransactionType : Type 0 where
  signup_bonus post_reward vote_spend admin_credit admin_debit : CoinTransactionType

-- CoinTransaction.model.ts
pub record CoinTransaction : Type 0 where
  pub user_id : ℕ
  pub type : CoinTransactionType
  -- positive for a credit, negative for a debit
  pub amount : ℤ
  pub balance_after : ℤ
  pub reference : ℕ

-- Vote.model.ts
pub record Vote : Type 0 where
  pub id : ℕ
  pub user_id : ℕ
  pub tier : Tier
  pub day_key : ℕ
  pub target : ℕ
  pub coins_spent : ℕ
  pub ip_address : ℕ
  pub device : Option ℕ
  pub created_at : ℕ

pub data PostStatus : Type 0 where
  draft scheduled live closed : PostStatus

-- Post.model.ts
pub record Post : Type 0 where
  pub id : ℕ
  pub tier : Tier
  pub day_key : ℕ
  pub scheduled_at : ℕ
  pub status : PostStatus
  pub coin_reward : ℕ

-- PostCompletion.model.ts
pub record PostCompletion : Type 0 where
  pub user_id : ℕ
  pub post_id : ℕ
  pub day_key : ℕ
  pub completed_at : ℕ
  pub coin_awarded : ℕ
  pub coin_tx : Option ℕ

-- what `emitCoinsUpdated` sends to the user's clients
pub record CoinEvent : Type 0 where
  pub user_id : ℕ
  pub coin_balance : ℤ
  pub reason : CoinTransactionType

pub record Store : Type 0 where
  pub users : List User
  pub votes : List Vote
  pub posts : List Post
  pub completions : List PostCompletion
  pub coin_txs : List CoinTransaction
  pub events : List CoinEvent

abbrev pub has_id : ℕ → User → Bool
has_id k u = u.id == k

abbrev pub record_tx : CoinTransaction → Store → Store
record_tx tx db = record db { coin_txs = db.coin_txs ++ tx ∷ [] }

abbrev pub emit : CoinEvent → Store → Store
emit e db = record db { events = db.events ++ e ∷ [] }

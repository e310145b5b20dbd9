-- ===== src/Wallet/AdminCoins.antt =====
-- `adjustCoins` of src/modules/admin-users/admin-users.service.ts.
mod Tests
use cashfb_backend.Prelude.{
  ℕ, ◌≡◌, ◌≢◌, ◌⊎◌, inl, inr, Bool, true, false, Option, none, some, List, [], ◌∷◌, ◌++◌, arith,
  refl, first, change_first, if◌then◌else◌, Option-cases, Bool-cases, zero,
}
use cashfb_backend.Prelude.Int.{
  ℤ, pos, negsuc, ◌+ℤ◌, ◌-ℤ◌, ◌≤ℤ◌, leb_ℤ, pos_part, neg_part, int_laws,
}
use cashfb_backend.Shared.Errors.{AppError}
use cashfb_backend.Shared.Exec.{
  Exec, Result, ok, err, pure, or_throw, update, modify, throw_if, ◌>>=◌, ◌>>◌, Result-cases,
}
use cashfb_backend.Shared.Mongo.{Mongo, IsMongo, Mongo-eq, driver, driver-IsMongo, find_and_update}
use cashfb_backend.Shared.User.{User}
use cashfb_backend.Wallet.{
  Store, CoinTransaction, CoinTransactionType, admin_credit, admin_debit, has_id, record_tx,
}
use cashfb_backend.Wallet.Ledger.{Balanced, change_first-UniqueIds, AllBalanced-moved}

pub record CoinAdjustInput : Type 0 where
  pub user_id : ℕ
  pub delta : ℤ
  pub actor_id : ℕ

pub record CoinAdjustResult : Type 0 where
  pub balance_before : ℤ
  pub balance_after : ℤ
  pub delta : ℤ

abbrev pub is_zero : ℤ → Bool
is_zero (pos zero) = true
is_zero _ = false

abbrev pub is_credit : ℤ → Bool
is_credit delta = leb_ℤ (pos 1) delta

-- `$inc: {coinBalance: delta}`; mongoose runs no validator on it
abbrev pub adjust : ℤ → User → User
adjust delta u = record u { coin_balance = u.coin_balance +ℤ delta }

module _ (m : Mongo) where
  adjust_user : CoinAdjustInput → Store → Option User × Store
  adjust_user input db =
      let (updated, users') =
        find_and_update m (has_id input.user_id) (adjust input.delta) db.users in
      (updated, record db { users = users' })

  adjust_transaction : CoinAdjustInput → Exec Store CoinAdjustResult
  unfolding adjust_user
  adjust_transaction input = do
    found ← update (adjust_user input)
    user ← or_throw AppError.not_found found
    modify (
        record_tx (record {
          user_id = input.user_id;
          type = if is_credit input.delta then admin_credit else admin_debit;
          amount = input.delta;
          balance_after = user.coin_balance;
          reference = input.actor_id;
        }))
    pure (record {
      balance_before = user.coin_balance -ℤ input.delta;
      balance_after = user.coin_balance;
      delta = input.delta;
    })

  pub adjust_coins : CoinAdjustInput → Exec Store CoinAdjustResult
  unfolding adjust_transaction
  adjust_coins input = do
    throw_if (is_zero input.delta) AppError.validation
    m.with_transaction Store CoinAdjustResult (adjust_transaction input)

abbrev pub adjust_tx : CoinAdjustInput → ℤ → CoinTransaction
adjust_tx input balance = record {
  user_id = input.user_id;
  type = if is_credit input.delta then admin_credit else admin_debit;
  amount = input.delta;
  balance_after = balance;
  reference = input.actor_id;
}

-- the store after an adjustment of the user `u`
abbrev adjusted : CoinAdjustInput → User → Store → Store
adjusted input u db = record db {
  users = change_first (has_id input.user_id) (adjust input.delta) db.users;
  coin_txs = db.coin_txs ++ adjust_tx input (u.coin_balance +ℤ input.delta) ∷ [];
}

-- With the driver's documented behaviour a call either throws and writes nothing, or adjusts.
adjust_cases :
    (input : CoinAdjustInput) (db : Store)
    → ((adjust_coins driver input db).1 ≡ db)
      ⊎ ((u : User) × (first (has_id input.user_id) db.users ≡ some u)
          × ((adjust_coins driver input db).1 ≡ adjusted input u db))
unfolding adjust_coins
adjust_cases input db = elim (Option-cases (first (has_id input.user_id) db.users)) [
  | inl nobody ↦ inl (ground arith)
  | inr (u, here) ↦ elim (Bool-cases (is_zero input.delta)) [
    | inl nothing ↦ inl (ground arith)
    | inr some_delta ↦ inr (u, here, ground arith)
  ]
]

before_lem : (b d : ℤ) → b +ℤ d -ℤ d ≡ b
before_lem b d = omega int_laws

module _ {m : Mongo} (h : IsMongo m) where
  -- An adjustment, refused or not, keeps each balance equal to the sum of its user's coin
  -- transactions.
  pub adjust_coins-Balanced :
      (input : CoinAdjustInput) (db : Store) → Balanced db → Balanced (adjust_coins m input db).1
  adjust_coins-Balanced = rw (Mongo-eq h) λ input db bal. elim (adjust_cases input db) [
    | inl same ↦ rw same bal
    | inr (u, here, moved) ↦ rw moved (record {
      unique = change_first-UniqueIds _ _ (λ v. refl) _ bal.unique;
      balanced =
          AllBalanced-moved _ _ _ (adjust_tx input (u.coin_balance +ℤ input.delta)) (λ v p. p)
            (λ v. refl) (λ v. refl) _ u here bal.unique bal.balanced;
    })
  ]

  -- Every adjustment by a nonzero amount of a user that exists succeeds, and reports the balance
  -- before and after it. So a debit that exceeds the balance is not refused: it stores a negative
  -- balance.
  pub adjust_coins_overdraws :
      (input : CoinAdjustInput) (db : Store) (u : User)
      → first (has_id input.user_id) db.users ≡ some u
      → input.delta ≢ pos 0
      → ((adjust_coins m input db).0
          ≡ ok (record {
            balance_before = u.coin_balance;
            balance_after = u.coin_balance +ℤ input.delta;
            delta = input.delta;
          }))
        × ((adjust_coins m input db).1.users
            ≡ change_first (has_id input.user_id) (adjust input.delta) db.users)
  unfolding adjust_coins
  adjust_coins_overdraws = rw (Mongo-eq h) λ input db u here nonzero.
      (ground (arith, before_lem u.coin_balance input.delta), ground arith)

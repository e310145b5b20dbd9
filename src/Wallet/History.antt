-- ===== src/Wallet/History.antt =====
-- src/modules/users/users.coins.service.ts: a user's balance and the pages of their coin transactions.
pub mod Sorting
pub mod Walk
mod Tests
use cashfb_backend.Prelude.{
  ℕ, ◌+◌, Bool, true, false, Option, none, some, List, [], ◌∷◌, ◌==◌, ◌&&◌, ◌||◌, not, ltb, keep,
  take, length, or_default, if◌then◌else◌,
}
use cashfb_backend.Prelude.Int.{ℤ}
use cashfb_backend.Shared.Errors.{AppError, invalid_cursor}
use cashfb_backend.Shared.Exec.{Exec, Result, ok, err, pure, throw, gets, or_throw, ◌>>=◌}
use cashfb_backend.Shared.Mongo.{Mongo}
use cashfb_backend.Shared.User.{User}
use cashfb_backend.Wallet.{Store, CoinTransaction, has_id}

-- a document of `coin_transactions`, with what its driver adds
pub record Row : Type 0 where
  pub id : ℕ
  pub created_at : ℕ
  pub tx : CoinTransaction

pub record CursorPayload : Type 0 where
  pub t : ℕ
  pub i : ℕ

pub record ListCoinTransactionsInput : Type 0 where
  pub user_id : ℕ
  pub cursor : Option ℕ
  pub limit : Option ℕ

pub record ListCoinTransactionsResult : Type 0 where
  pub items : List Row
  pub next_cursor : Option ℕ

abbrev pub default_limit : ℕ
default_limit = 50

abbrev pub max_limit : ℕ
max_limit = 100

-- `Math.max(1, Math.min(MAX_LIMIT, limit ?? DEFAULT_LIMIT))`
abbrev pub page_limit : Option ℕ → ℕ
page_limit limit =
    let n = or_default limit default_limit in
    if ltb n 1 then 1 else if ltb max_limit n then max_limit else n

-- the filter `{createdAt, _id}` before the cursor's
abbrev pub before : CursorPayload → Row → Bool
before c r = ltb r.created_at c.t || ((r.created_at == c.t) && ltb r.id c.i)

abbrev pub cursor_of : Row → CursorPayload
cursor_of r = record { t = r.created_at; i = r.id }

abbrev pub of_user : ℕ → Row → Bool
of_user user_id r = r.tx.user_id == user_id

abbrev pub last_row : List Row → Option Row
last_row [] = none
last_row (r ∷ []) = some r
last_row (r ∷ s ∷ rs) = last_row (s ∷ rs)

-- `to_base64` stands for the base64 of `JSON.stringify`, `parse` for `JSON.parse` of the decoded text:
-- the fields `t` and `i` that are a number and a string (`none` if it throws); `is_object_id` for the
-- test of 24 hexadecimal digits; `newest_first` for the driver's sort by `createdAt` and `_id`.
module _ (to_base64 : CursorPayload → ℕ) (parse : ℕ → Option (Option ℕ × Option ℕ))
    (is_object_id : ℕ → Bool) (newest_first : List Row → List Row) where
  pub encode_cursor : Row → ℕ
  encode_cursor doc = to_base64 (cursor_of doc)

  pub decode_cursor : ℕ → Result CursorPayload
  decode_cursor raw = elim (parse raw) [
    | none ↦ err (AppError.bad_request invalid_cursor)
    | some fields ↦ elim fields.0 [
      | none ↦ err (AppError.bad_request invalid_cursor)
      | some t ↦ elim fields.1 [
        | none ↦ err (AppError.bad_request invalid_cursor)
        | some i ↦
            if is_object_id i
            then ok (record { t = t; i = i })
            else err (AppError.bad_request invalid_cursor)
      ]
    ]
  ]

  abbrev pub page_filter : ℕ → Option CursorPayload → Row → Bool
  page_filter user_id none r = of_user user_id r
  page_filter user_id (some c) r = of_user user_id r && before c r

  page_after : ℕ → ℕ → Option CursorPayload → List Row → ListCoinTransactionsResult
  unfolding encode_cursor
  page_after user_id limit cursor rows =
      let fetched = take (limit + 1) (newest_first (keep (page_filter user_id cursor) rows)) in
      if ltb limit (length fetched)
      then (let items = take limit fetched in
          record {
            items = items;
            next_cursor = elim (last_row items) [
              | none ↦ none
              | some last ↦ some (encode_cursor last)
            ];
          })
      else record { items = fetched; next_cursor = none }

  pub list_transactions : ListCoinTransactionsInput → List Row → Result ListCoinTransactionsResult
  unfolding page_after decode_cursor
  list_transactions input rows =
      let limit = page_limit input.limit in
      elim input.cursor [
        | none ↦ ok (page_after input.user_id limit none rows)
        | some raw ↦ elim (decode_cursor raw) [
          | err e ↦ err e
          | ok c ↦ ok (page_after input.user_id limit (some c) rows)
        ]
      ]

module _ (m : Mongo) where
  pub get_balance : ℕ → Exec Store ℤ
  get_balance user_id = do
    found ← gets (λ (db : Store). m.find_one User (has_id user_id) db.users)
    user ← or_throw AppError.unauthorized found
    pure user.coin_balance

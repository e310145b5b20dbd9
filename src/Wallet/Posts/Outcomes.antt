-- ===== src/Wallet/Posts/Outcomes.antt =====
-- How a call of `completePost` ends.
use cashfb_backend.Prelude.{
  ℕ, ◌≡◌, ◌⊎◌, inl, inr, true, false, none, some, [], ◌∷◌, ◌++◌, arith, first, change_first,
  Option-cases, Bool-cases,
}
use cashfb_backend.Prelude.Int.{ℤ, pos, ◌+ℤ◌}
use cashfb_backend.Shared.Errors.{AppError}
use cashfb_backend.Shared.Exec.{ok, err, Result-cases}
use cashfb_backend.Shared.Mongo.{driver}
use cashfb_backend.Shared.User.{User}
use cashfb_backend.Wallet.{Store, Post, PostCompletion, CoinTransaction, post_reward, has_id}
use cashfb_backend.Wallet.Posts.{
  CompletePostInput, CompletionReceipt, complete_post, completes, inc_coin_balance, post_has_id,
}

abbrev pub reward_tx : CompletePostInput → ℕ → ℤ → CoinTransaction
reward_tx input reward balance = record {
  user_id = input.user_id;
  type = post_reward;
  amount = pos reward;
  balance_after = balance;
  reference = input.post_id;
}

abbrev pub completion_document : CompletePostInput → Post → ℕ → PostCompletion
completion_document input post now = record {
  user_id = input.user_id;
  post_id = input.post_id;
  day_key = post.day_key;
  completed_at = now;
  coin_awarded = post.coin_reward;
  coin_tx = none;
}

abbrev pub linked : ℕ → PostCompletion → PostCompletion
linked tx_id c = record c { coin_tx = some tx_id }

-- What an awarded completion does to the store that its transaction met; the post is the one that
-- was read before it.
abbrev pub Awarded : ℕ → ℕ → CompletePostInput → Store → Store → Store → Type 0
Awarded tx_id now input seen db db' =
    (post : Post) × (u : User) × (first (post_has_id input.post_id) seen.posts ≡ some post)
    × (first (has_id input.user_id) db.users ≡ some u)
    × (first (completes input.user_id input.post_id) db.completions ≡ none)
    × (db'.users ≡ change_first (has_id input.user_id) (inc_coin_balance post.coin_reward) db.users)
    × (db'.coin_txs
        ≡ db.coin_txs
          ++ reward_tx input post.coin_reward (u.coin_balance +ℤ pos post.coin_reward) ∷ [])
    × (db'.completions
        ≡ change_first (completes input.user_id input.post_id) (linked tx_id)
            (db.completions ++ completion_document input post now ∷ []))
    × (db'.votes ≡ db.votes)

module _ (between : Store → Store) (tx_id now : ℕ) (input : CompletePostInput) (db : Store) where
  pub refused_completion :
      (e : AppError)
      → (complete_post driver between tx_id now input db).0 ≡ err e
      → ((complete_post driver between tx_id now input db).1 ≡ db)
        ⊎ ((complete_post driver between tx_id now input db).1 ≡ between db)
  unfolding complete_post
  refused_completion e r = ground arith

  pub repeated_completion :
      (r : CompletionReceipt)
      → (complete_post driver between tx_id now input db).0 ≡ ok r
      → r.already_completed ≡ true
      → (complete_post driver between tx_id now input db).1 ≡ between db
  unfolding complete_post
  repeated_completion r e old = ground arith

  pub complete_post-Awarded :
      (r : CompletionReceipt)
      → (complete_post driver between tx_id now input db).0 ≡ ok r
      → r.already_completed ≡ false
      → Awarded tx_id now input db (between db) (complete_post driver between tx_id now input db).1
  unfolding complete_post
  complete_post-Awarded r e new = elim (Option-cases (first (post_has_id input.post_id) db.posts)) [
    | inl nothing ↦ absurd (ground arith)
    | inr (post, found) ↦ elim (Option-cases (first (has_id input.user_id) (between db).users)) [
      | inl nobody ↦ absurd (ground arith)
      | inr (u, here) ↦ (
        post,
        u,
        found,
        here,
        ground arith,
        ground arith,
        ground arith,
        ground arith,
        ground arith,
      )
    ]
  ]

  -- what a call may have done, however it ended
  pub completion_cases :
      let db' = (complete_post driver between tx_id now input db).1 in
      (db' ≡ db) ⊎ ((db' ≡ between db) ⊎ Awarded tx_id now input db (between db) db')
  completion_cases = elim (Result-cases (complete_post driver between tx_id now input db).0) [
    | inr (x, e) ↦ ground (arith, refused_completion x e)
    | inl (r, e) ↦ elim (Bool-cases r.already_completed) [
      | inl old ↦ inr (inl (repeated_completion r e old))
      | inr new ↦ inr (inr (complete_post-Awarded r e new))
    ]
  ]

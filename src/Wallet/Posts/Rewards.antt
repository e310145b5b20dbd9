-- ===== src/Wallet/Posts/Rewards.antt =====
-- What `completePost` keeps, and that a post pays a user once.
use cashfb_backend.Prelude.{
  ℕ, ◌≡◌, ◌≢◌, inl, inr, Bool, true, false, none, List, arith, refl, first, any, is_some-first,
  any-append, any-change_first, Bool-cases,
}
use cashfb_backend.Prelude.Int.{pos, ◌+ℤ◌}
use cashfb_backend.Shared.Exec.{ok}
use cashfb_backend.Shared.Mongo.{Mongo, IsMongo, Mongo-eq, driver}
use cashfb_backend.Wallet.{Store, PostCompletion}
use cashfb_backend.Wallet.Ledger.{Balanced, change_first-UniqueIds, AllBalanced-moved}
use cashfb_backend.Wallet.Posts.{CompletePostInput, CompletionReceipt, complete_post, completes}
use cashfb_backend.Wallet.Posts.Outcomes.{
  Awarded, reward_tx, completion_cases, complete_post-Awarded, repeated_completion,
}

on_record :
    (tx_id now : ℕ) (input : CompletePostInput) (seen db db' : Store)
    → Awarded tx_id now input seen db db'
    → any (completes input.user_id input.post_id) db'.completions ≡ true
on_record tx_id now input seen db db' a =
    rw a.7 (rw any-change_first (rw any-append (ground arith)))

not_on_record :
    (p : PostCompletion → Bool) (cs : List PostCompletion) → first p cs ≡ none → any p cs ≢ true
not_on_record p cs e k = ground (arith, is_some-first p cs)

module _ {m : Mongo} (h : IsMongo m) where
  -- Completing a post, in any interleaving with requests that do so too, keeps each balance equal to
  -- the sum of its user's coin transactions.
  pub complete_post-Balanced :
      (between : Store → Store) (tx_id now : ℕ) (input : CompletePostInput) (db : Store)
      → ((s : Store) → Balanced s → Balanced (between s))
      → Balanced db
      → Balanced (complete_post m between tx_id now input db).1
  complete_post-Balanced = rw (Mongo-eq h) λ between tx_id now input db keep bal.
      let moved = keep db bal in
      elim (completion_cases between tx_id now input db) [
        | inl same ↦ rw same bal
        | inr (inl other) ↦ rw other moved
        | inr (inr a) ↦ record {
          unique = rw a.5 (change_first-UniqueIds _ _ (λ u. refl) _ moved.unique);
          balanced =
              rw (a.5, a.6)
                (AllBalanced-moved _ _ _
                  (reward_tx input a.0.coin_reward (a.1.coin_balance +ℤ pos a.0.coin_reward))
                  (λ u p. p) (λ u. refl) (λ u. refl) _ a.1 a.3 moved.unique moved.balanced);
        }
      ]

  -- A post pays a user once: as long as other requests delete no completion, a later call of the same
  -- user for the same post that answers says `alreadyCompleted` and leaves the store, coins and
  -- transactions included, as the other requests left it.
  pub second_completion_pays_nothing :
      (between between' : Store → Store) (tx_id tx_id' now now' : ℕ)
      (input input' : CompletePostInput) (db : Store) (r r' : CompletionReceipt)
      → (complete_post m between tx_id now input db).0 ≡ ok r
      → r.already_completed ≡ false
      → ((s : Store) (p : PostCompletion → Bool)
          → any p s.completions ≡ true
          → any p (between' s).completions ≡ true)
      → input'.user_id ≡ input.user_id
      → input'.post_id ≡ input.post_id
      → (complete_post m between' tx_id' now' input'
          (complete_post m between tx_id now input db).1).0
        ≡ ok r'
      → (r'.already_completed ≡ true)
        × ((complete_post m between' tx_id' now' input'
              (complete_post m between tx_id now input db).1).1
            ≡ between' (complete_post m between tx_id now input db).1)
  second_completion_pays_nothing =
      rw (Mongo-eq h)
        λ between between' tx_id tx_id' now now' input input' db r r' e new grow same_user same_post
            e'.
          let a = complete_post-Awarded between tx_id now input db r e new in
          let db' = (complete_post driver between tx_id now input db).1 in
          let done =
            grow db' (completes input.user_id input.post_id)
              (on_record tx_id now input db (between db) db' a) in
          elim (Bool-cases r'.already_completed) [
            | inl old ↦ (old, repeated_completion between' tx_id' now' input' db' r' e' old)
            | inr fresh ↦
                let b = complete_post-Awarded between' tx_id' now' input' db' r' e' fresh in
                absurd
                  (not_on_record _ (between' db').completions b.4 (rw (same_user, same_post) done))
          ]

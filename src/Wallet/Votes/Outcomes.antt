-- ===== src/Wallet/Votes/Outcomes.antt =====
-- How a call of `castVote` ends.
use cashfb_backend.Prelude.{
  ℕ, ◌≡◌, ◌⊎◌, inl, inr, false, some, [], ◌∷◌, ◌++◌, arith, first, any, change_first, Option-cases,
}
use cashfb_backend.Shared.Errors.{AppError}
use cashfb_backend.Shared.Exec.{ok, err, Result-cases}
use cashfb_backend.Shared.Mongo.{Mongo, IsMongo, Mongo-eq, driver, driver-IsMongo}
use cashfb_backend.Prelude.Int.{ℤ, negsuc, ◌+ℤ◌}
use cashfb_backend.Shared.User.{User}
use cashfb_backend.Wallet.{Store, Vote, CoinTransaction, vote_spend}
use cashfb_backend.Wallet.Votes.{
  CastVoteInput, VoteReceipt, cast_vote, vote_cost, same_slot, can_pay, charge_vote,
}

module _ {m : Mongo} (h : IsMongo m) (day_key_ist : ℕ → ℕ) where
  -- A vote that is refused has written nothing: the store is as the call found it, or as other
  -- requests left it.
  pub refused_vote_writes_nothing :
      (between : Store → Store) (vote_id now : ℕ) (input : CastVoteInput) (db : Store)
      (e : AppError)
      → (cast_vote m day_key_ist between vote_id now input db).0 ≡ err e
      → ((cast_vote m day_key_ist between vote_id now input db).1 ≡ db)
        ⊎ ((cast_vote m day_key_ist between vote_id now input db).1 ≡ between db)
  unfolding cast_vote
  refused_vote_writes_nothing = rw (Mongo-eq h) λ between vote_id now input db e r. ground arith

-- the document that a call inserts
abbrev pub vote_document : (ℕ → ℕ) → ℕ → ℕ → CastVoteInput → Vote
vote_document day_key_ist vote_id now input = record {
  id = vote_id;
  user_id = input.user_id;
  tier = input.tier;
  day_key = day_key_ist now;
  target = input.target;
  coins_spent = vote_cost;
  ip_address = input.ip_address;
  device = input.device_fingerprint;
  created_at = now;
}

abbrev pub vote_tx : ℕ → CastVoteInput → ℤ → CoinTransaction
vote_tx vote_id input balance = record {
  user_id = input.user_id;
  type = vote_spend;
  amount = negsuc 2;
  balance_after = balance;
  reference = vote_id;
}

-- What an accepted vote does to the store that its transaction met.
abbrev pub Accepted : Vote → CastVoteInput → Store → Store → Type 0
Accepted vote input db db' =
    (u : User) × (first (can_pay input.user_id) db.users ≡ some u)
    × (any (same_slot vote) db.votes ≡ false)
    × (db'.votes ≡ db.votes ++ vote ∷ [])
    × (db'.users ≡ change_first (can_pay input.user_id) (charge_vote vote.day_key) db.users)
    × (db'.coin_txs ≡ db.coin_txs ++ vote_tx vote.id input (u.coin_balance +ℤ negsuc 2) ∷ [])
    × (db'.posts ≡ db.posts)
    × (db'.completions ≡ db.completions)

module _ (day_key_ist : ℕ → ℕ) where
  pub cast_vote-Accepted :
      (between : Store → Store) (vote_id now : ℕ) (input : CastVoteInput) (db : Store)
      (r : VoteReceipt)
      → (cast_vote driver day_key_ist between vote_id now input db).0 ≡ ok r
      → Accepted
          (vote_document day_key_ist vote_id now input)
          input
          (between db)
          (cast_vote driver day_key_ist between vote_id now input db).1
  unfolding cast_vote
  cast_vote-Accepted between vote_id now input db r e =
      elim (Option-cases (first (can_pay input.user_id) (between db).users)) [
        | inl nobody ↦ absurd (ground arith)
        | inr (u, found) ↦ (
          u,
          found,
          ground arith,
          ground arith,
          ground arith,
          ground arith,
          ground arith,
          ground arith,
        )
      ]

  -- what a call may have done, however it ended
  pub vote_cases :
      (between : Store → Store) (vote_id now : ℕ) (input : CastVoteInput) (db : Store)
      → let db' = (cast_vote driver day_key_ist between vote_id now input db).1 in
        (db' ≡ db)
        ⊎ ((db' ≡ between db)
            ⊎ Accepted (vote_document day_key_ist vote_id now input) input (between db) db')
  vote_cases between vote_id now input db =
      elim (Result-cases (cast_vote driver day_key_ist between vote_id now input db).0) [
        | inl (r, e) ↦ inr (inr (cast_vote-Accepted between vote_id now input db r e))
        | inr (x, e) ↦ ground (
          arith,
          refused_vote_writes_nothing driver-IsMongo day_key_ist between vote_id now input db x e,
        )
      ]

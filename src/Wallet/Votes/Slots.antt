-- ===== src/Wallet/Votes/Slots.antt =====
-- `castVote` against the slots of the votes and the balances of the users.
use cashfb_backend.Prelude.{
  ℕ, ◌≤◌, ◌≡◌, ◌≢◌, inl, inr, Bool, true, false, List, [], ◌∷◌, ◌++◌, All, All-change_first, arith,
  any, tally, tally-append, any-append, is_some-first, not, ap, ◌∙◌, Bool-cases, refl,
}
use cashfb_backend.Prelude.Int.{pos, negsuc, ◌+ℤ◌, ◌≤ℤ◌}
use cashfb_backend.Shared.Exec.{ok}
use cashfb_backend.Shared.Mongo.{Mongo, IsMongo, Mongo-eq, driver}
use cashfb_backend.Shared.Tier.{Tier}
use cashfb_backend.Shared.User.{User}
use cashfb_backend.Wallet.{Store, Vote}
use cashfb_backend.Wallet.Ledger.{Balanced, change_first-UniqueIds, AllBalanced-moved}
use cashfb_backend.Wallet.Votes.{
  CastVoteInput, VoteReceipt, cast_vote, get_today_status, in_slot, same_slot, eq_tier, can_pay,
  charge_vote,
}
use cashfb_backend.Wallet.Votes.Outcomes.{
  cast_vote-Accepted, vote_cases, vote_document, vote_tx, Accepted,
}

-- the rule of the unique index {userId, tier, dayKey}
abbrev pub OneVotePerSlot : List Vote → Type 0
OneVotePerSlot votes =
    (user_id : ℕ) (tier : Tier) (day : ℕ) → tally (in_slot user_id tier day) votes ≤ 1

tally-zero : (p : Vote → Bool) (vs : List Vote) → any p vs ≡ false → tally p vs ≡ 0
tally-zero p [] h = refl
tally-zero p (v ∷ vs) h = ground (arith, tally-zero p vs)

in_slot-same :
    (user_id : ℕ) (tier : Tier) (day : ℕ) (v w : Vote)
    → in_slot user_id tier day v ≡ true
    → in_slot user_id tier day w ≡ same_slot v w
in_slot-same user_id tier day v w h = ground arith

any-in_slot :
    (user_id : ℕ) (tier : Tier) (day : ℕ) (v : Vote) (vs : List Vote)
    → in_slot user_id tier day v ≡ true
    → any (in_slot user_id tier day) vs ≡ any (same_slot v) vs
any-in_slot user_id tier day v [] h = refl
any-in_slot user_id tier day v (w ∷ vs) h =
    ground (arith, in_slot-same user_id tier day v w h, any-in_slot user_id tier day v vs h)

OneVotePerSlot-insert :
    (v : Vote) (vs : List Vote)
    → any (same_slot v) vs ≡ false
    → OneVotePerSlot vs
    → OneVotePerSlot (vs ++ v ∷ [])
OneVotePerSlot-insert v vs free h user_id tier day =
    rw (tally-append (in_slot user_id tier day) vs (v ∷ []))
      (elim (Bool-cases (in_slot user_id tier day v)) [
        | inl hit ↦ ground (
          arith,
          tally-zero (in_slot user_id tier day) vs,
          any-in_slot user_id tier day v vs hit,
          free,
        )
        | inr miss ↦ ground (arith, miss, h user_id tier day)
      ])

eq_tier_refl : (tier : Tier) → eq_tier tier tier ≡ true
eq_tier_refl Tier.public_tier = refl
eq_tier_refl Tier.pro = refl
eq_tier_refl Tier.pro_max = refl

slot_filled :
    (day_key_ist : ℕ → ℕ) (vote_id now : ℕ) (input : CastVoteInput) (db db' : Store)
    → Accepted (vote_document day_key_ist vote_id now input) input db db'
    → any (in_slot input.user_id input.tier (day_key_ist now)) db'.votes ≡ true
slot_filled day_key_ist vote_id now input db db' a =
    rw a.3 (rw any-append (ground (arith, eq_tier_refl input.tier)))

-- no balance is negative
abbrev pub Solvent : List User → Type 0
Solvent us = All (λ u. pos 0 ≤ℤ u.coin_balance) us

charge_vote-nonneg :
    (input : CastVoteInput) (day : ℕ) (u : User)
    → can_pay input.user_id u ≡ true
    → pos 0 ≤ℤ u.coin_balance
    → pos 0 ≤ℤ (charge_vote day u).coin_balance
unfolding ◌+ℤ◌
charge_vote-nonneg input day u pays h = ground arith

module _ {m : Mongo} (h : IsMongo m) (day_key_ist : ℕ → ℕ) where
  -- In any interleaving with requests that do so too, a call of `castVote` keeps it true that each
  -- user, tier and day has at most one vote.
  pub cast_vote-OneVotePerSlot :
      (between : Store → Store) (vote_id now : ℕ) (input : CastVoteInput) (db : Store)
      → ((s : Store) → OneVotePerSlot s.votes → OneVotePerSlot (between s).votes)
      → OneVotePerSlot db.votes
      → OneVotePerSlot (cast_vote m day_key_ist between vote_id now input db).1.votes
  cast_vote-OneVotePerSlot = rw (Mongo-eq h) λ between vote_id now input db keep one.
      elim (vote_cases day_key_ist between vote_id now input db) [
        | inl same ↦ rw same one
        | inr (inl other) ↦ rw other (keep db one)
        | inr (inr a) ↦ rw a.3 (OneVotePerSlot-insert _ (between db).votes a.2 (keep db one))
      ]

  -- In any interleaving with requests that do so too, a call of `castVote` keeps each balance equal to
  -- the sum of its user's coin transactions.
  pub cast_vote-Balanced :
      (between : Store → Store) (vote_id now : ℕ) (input : CastVoteInput) (db : Store)
      → ((s : Store) → Balanced s → Balanced (between s))
      → Balanced db
      → Balanced (cast_vote m day_key_ist between vote_id now input db).1
  cast_vote-Balanced = rw (Mongo-eq h) λ between vote_id now input db keep bal.
      let moved = keep db bal in
      elim (vote_cases day_key_ist between vote_id now input db) [
        | inl same ↦ rw same bal
        | inr (inl other) ↦ rw other moved
        | inr (inr a) ↦ record {
          unique = rw a.4 (change_first-UniqueIds _ _ (λ u. refl) _ moved.unique);
          balanced =
              rw (a.4, a.5)
                (AllBalanced-moved _ _ _ (vote_tx vote_id input (a.0.coin_balance +ℤ negsuc 2))
                  (λ u p. ground arith) (λ u. refl) (λ u. refl) _ a.0 a.1 moved.unique
                  moved.balanced);
        }
      ]

  -- In any interleaving with requests that do so too, a call of `castVote` leaves no balance negative
  -- where none was.
  pub cast_vote-nonneg :
      (between : Store → Store) (vote_id now : ℕ) (input : CastVoteInput) (db : Store)
      → ((s : Store) → Solvent s.users → Solvent (between s).users)
      → Solvent db.users
      → Solvent (cast_vote m day_key_ist between vote_id now input db).1.users
  cast_vote-nonneg = rw (Mongo-eq h) λ between vote_id now input db keep pays.
      elim (vote_cases day_key_ist between vote_id now input db) [
        | inl same ↦ rw same pays
        | inr (inl other) ↦ rw other (keep db pays)
        | inr (inr a) ↦ rw a.4 (
            All-change_first _ _ _ (between db).users (charge_vote-nonneg input (day_key_ist now))
              (keep db pays))
      ]

  -- After an accepted vote the vote card shows the user's slot of that tier and day as used.
  pub accepted_vote_uses_slot :
      (between : Store → Store) (vote_id now : ℕ) (input : CastVoteInput) (db : Store)
      (r : VoteReceipt)
      → (cast_vote m day_key_ist between vote_id now input db).0 ≡ ok r
      → (get_today_status m day_key_ist now input.user_id input.tier
          (cast_vote m day_key_ist between vote_id now input db).1).can_vote
        ≡ false
  unfolding get_today_status
  accepted_vote_uses_slot = rw (Mongo-eq h) λ between vote_id now input db r e.
      let a = cast_vote-Accepted day_key_ist between vote_id now input db r e in
      let db' = (cast_vote driver day_key_ist between vote_id now input db).1 in
      let slot = in_slot input.user_id input.tier (day_key_ist now) in
      ap not (
        is_some-first slot db'.votes ∙ slot_filled day_key_ist vote_id now input (between db) db' a)

  -- As long as other requests delete no vote, a second call for the same user, tier and day as an
  -- accepted vote is refused, whenever it comes.
  pub second_vote_refused :
      (between between' : Store → Store) (vote_id vote_id' now now' : ℕ)
      (input input' : CastVoteInput) (db : Store) (r r' : VoteReceipt)
      → (cast_vote m day_key_ist between vote_id now input db).0 ≡ ok r
      → ((s : Store) (slot : Vote → Bool)
          → any slot s.votes ≡ true
          → any slot (between' s).votes ≡ true)
      → input'.user_id ≡ input.user_id
      → input'.tier ≡ input.tier
      → day_key_ist now' ≡ day_key_ist now
      → (cast_vote m day_key_ist between' vote_id' now' input'
          (cast_vote m day_key_ist between vote_id now input db).1).0
        ≢ ok r'
  second_vote_refused =
      rw (Mongo-eq h)
        λ between between' vote_id vote_id' now now' input input' db r r' e grow same_user same_tier
            same_day e'.
          let a = cast_vote-Accepted day_key_ist between vote_id now input db r e in
          let db' = (cast_vote driver day_key_ist between vote_id now input db).1 in
          let free = (cast_vote-Accepted day_key_ist between' vote_id' now' input' db' r' e').2 in
          let used =
            grow db' (in_slot input.user_id input.tier (day_key_ist now))
              (slot_filled day_key_ist vote_id now input (between db) db' a) in
          cc (used, rw (same_user, same_tier, same_day) at free)

-- ===== src/Redeem/Kyc.antt =====
-- src/shared/services/kyc.service.ts: the gate in front of a prize claim.
use cashfb_backend.Prelude.{
  ℕ, Bool, true, false, Option, none, some, List, [], ◌∷◌, ◌+◌, not, ◌&&◌, ◌==◌, ltb, leb,
  or_default, length,
}
use cashfb_backend.Shared.Mongo.{Mongo}
use cashfb_backend.Shared.User.{User, KycStatus}
use cashfb_backend.Redeem.{Store, PrizePoolWinner, PayoutStatus}
use cashfb_backend.Wallet.{has_id}

pub record CumulativeFyPrize : Type 0 where
  pub total_paise : ℕ
  pub winner_count : ℕ

pub record KycGateDecision : Type 0 where
  pub allowed : Bool
  pub threshold_paise : ℕ
  pub cumulative_paise : ℕ
  pub kyc_status : KycStatus

abbrev pub counts_for_kyc : PayoutStatus → Bool
counts_for_kyc PayoutStatus.pending = true
counts_for_kyc PayoutStatus.released = true
counts_for_kyc _ = false

abbrev pub is_verified : KycStatus → Bool
is_verified KycStatus.verified = true
is_verified _ = false

-- a prize of the user, still to be paid or paid, that was won in the financial year
abbrev pub counted : ℕ → ℕ × ℕ → PrizePoolWinner → Bool
counted user_id (start, end_) w =
    w.user_id == user_id
    && counts_for_kyc w.payout_status
    && leb start w.created_at
    && leb w.created_at end_

-- the loop `totalPaise += r.finalAmount ?? 0`
add_rows : ℕ → List PrizePoolWinner → ℕ
add_rows total [] = total
add_rows total (r ∷ rows) = add_rows (total + or_default r.final_amount 0) rows

-- `user?.kyc?.status ?? 'NONE'`
abbrev kyc_status_of : Option User → KycStatus
kyc_status_of none = KycStatus.none
kyc_status_of (some u) = u.kyc_status

-- `fy_bounds` stands for `currentFyBoundsIst`, which rests on dayjs.
module _ (m : Mongo) (fy_bounds : ℕ → ℕ × ℕ) where
  unfoldable pub cumulative_fy_prize_value : ℕ → ℕ → Store → CumulativeFyPrize
  unfolding add_rows
  cumulative_fy_prize_value user_id now db =
      let rows = m.find PrizePoolWinner (counted user_id (fy_bounds now)) db.winners in
      record { total_paise = add_rows 0 rows; winner_count = length rows }

  unfoldable pub evaluate_gate : ℕ → ℕ → Store → KycGateDecision
  unfolding cumulative_fy_prize_value
  evaluate_gate user_id now db =
      let user = m.find_one User (has_id user_id) db.users in
      let threshold = or_default db.kyc_threshold 1000000 in
      let cumulative = (cumulative_fy_prize_value user_id now db).total_paise in
      let status = kyc_status_of user in
      let over_threshold = ltb threshold cumulative in
      record {
        allowed = not (over_threshold && not (is_verified status));
        threshold_paise = threshold;
        cumulative_paise = cumulative;
        kyc_status = status;
      }

abbrev pub prize_value : PrizePoolWinner → ℕ
prize_value w = or_default w.final_amount 0

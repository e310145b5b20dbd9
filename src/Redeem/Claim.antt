-- ===== src/Redeem/Claim.antt =====
-- src/modules/redeem-codes/redeem-codes.service.ts: the first-come-first-served claim, and what the
-- copier declares afterwards.
pub mod Outcomes
pub mod Exclusive
use cashfb_backend.Prelude.{
  ℕ, suc, Bool, true, false, Option, none, some, List, not, ◌+◌, ◌==◌, ◌&&◌, map, is_some,
  if◌then◌else◌,
}
use cashfb_backend.Shared.Errors.{AppError, post_not_completed, code_taken, code_not_owned}
use cashfb_backend.Shared.Exec.{
  Exec, Result, ok, err, pure, throw, gets, or_throw, update, modify, throw_if, ◌>>=◌, ◌>>◌,
}
use cashfb_backend.Shared.Mongo.{Mongo, find_and_update, update_one}
use cashfb_backend.Shared.Tds.{compute_tds_194ba}
use cashfb_backend.Shared.User.{User}
use cashfb_backend.Wallet.{PostCompletion, has_id}
use cashfb_backend.Wallet.Posts.{completes}
use cashfb_backend.Redeem.{
  Store, RedeemCode, CodeStatus, PrizePoolWinner, PayoutStatus, code_has_id, is_available,
  is_published, is_copied, holds,
}
use cashfb_backend.Redeem.Kyc.{evaluate_gate}

pub record ClaimTdsResult : Type 0 where
  pub deducted_paise : ℕ
  pub winner_id : ℕ

pub record ClaimResult : Type 0 where
  pub code_id : ℕ
  pub plaintext_code : ℕ
  pub denomination : ℕ
  pub tds : Option ClaimTdsResult

-- `RedeemCodeRepository.atomicFcfsClaim`: the filter and the update
abbrev pub claimable : ℕ → RedeemCode → Bool
claimable code_id c = code_has_id code_id c && is_published c.status

abbrev pub copy_code : ℕ → ℕ → RedeemCode → RedeemCode
copy_code user_id now c = record c {
  status = CodeStatus.copied;
  first_copied_by = some user_id;
  first_copied_at = some now;
  copy_count = c.copy_count + 1;
}

abbrev is_pending : PayoutStatus → Bool
is_pending PayoutStatus.pending = true
is_pending _ = false

abbrev pub owed : ℕ → ℕ → PrizePoolWinner → Bool
owed user_id code_id w =
    w.user_id == user_id && holds w.redeem_code_id code_id && is_pending w.payout_status

-- `XXXXX${panLast4}` if the user has one, else the field stays
abbrev pub masked : Option ℕ → Option ℕ → Option ℕ
masked none old = old
masked (some last4) old = some last4

abbrev pub release : Option ℕ → ℕ → PrizePoolWinner → PrizePoolWinner
release pan_last4 now w = record w {
  payout_status = PayoutStatus.released;
  released_at = some now;
  pan_at_payout = masked pan_last4 w.pan_at_payout;
}

abbrev pub winner_has_id : ℕ → PrizePoolWinner → Bool
winner_has_id k w = w.id == k

-- `decrypt` stands for the encryptor's `decryptField`; `none` if it throws.
module _ (m : Mongo) (fy_bounds : ℕ → ℕ × ℕ) (decrypt : ℕ → Option ℕ) where
  pub atomic_fcfs_claim : ℕ → ℕ → ℕ → Store → Option RedeemCode × Store
  atomic_fcfs_claim code_id user_id now db =
      let (taken, codes') =
        find_and_update m (claimable code_id) (copy_code user_id now) db.codes in
      (taken, record db { codes = codes' })

  release_winner : ℕ → ℕ → Option ℕ → ℕ → Store → Option PrizePoolWinner × Store
  release_winner code_id user_id pan_last4 now db =
      let (released, winners') =
        find_and_update m (owed user_id code_id) (release pan_last4 now) db.winners in
      (released, record db { winners = winners' })

  record_tds : ℕ → ℕ → Store → Store
  record_tds winner_id deducted db =
      let (found, winners') =
        update_one m (winner_has_id winner_id)
          (λ (w : PrizePoolWinner). record w { tds_deducted = deducted }) db.winners in
      record db { winners = winners' }

  settle_tds : Option PrizePoolWinner → Exec Store (Option ClaimTdsResult)
  unfolding record_tds compute_tds_194ba
  settle_tds none = pure none
  settle_tds (some winner) = elim winner.final_amount [
    | none ↦ pure none
    | some amount ↦ do
      let deducted = compute_tds_194ba amount
      modify (record_tds winner.id deducted)
      pure (some (record { deducted_paise = deducted; winner_id = winner.id }))
  ]

  -- the callback of `withTransaction`; `none` if another caller took the code
  settle : ℕ → ℕ → Option ℕ → ℕ → Exec Store (Option (RedeemCode × Option ClaimTdsResult))
  unfolding atomic_fcfs_claim release_winner settle_tds
  settle code_id user_id pan_last4 now = do
    taken ← update (atomic_fcfs_claim code_id user_id now)
    elim taken [
      | none ↦ pure none
      | some code ↦ do
        winner ← update (release_winner code_id user_id pan_last4 now)
        tds ← settle_tds winner
        pure (some (code, tds))
    ]

  -- `between` is what other requests commit after the advisory checks and before the transaction.
  unfoldable pub claim : (Store → Store) → ℕ → ℕ → ℕ → Exec Store ClaimResult
  unfolding settle evaluate_gate
  claim between now code_id user_id = do
    found ← gets (λ db. m.find_one RedeemCode (code_has_id code_id) db.codes)
    code ← or_throw AppError.not_found found
    post_id ← or_throw AppError.not_found code.post_id
    known ← gets (λ db. m.find_one User (has_id user_id) db.users)
    user ← or_throw AppError.unauthorized known
    throw_if user.is_blocked AppError.unauthorized
    completion ← gets (λ db. m.find_one PostCompletion (completes user_id post_id) db.completions)
    throw_if (not (is_some completion)) (AppError.forbidden post_not_completed)
    gate ← gets (evaluate_gate m fy_bounds user_id now)
    throw_if (not gate.allowed) AppError.kyc_required
    modify between
    settled ←
        m.with_transaction Store (Option (RedeemCode × Option ClaimTdsResult))
          (settle code_id user_id user.pan_last4 now)
    pair ← or_throw (AppError.conflict code_taken) settled
    plaintext ← or_throw AppError.thrown (decrypt (pair.0).code_ct)
    pure (record {
      code_id = (pair.0).id;
      plaintext_code = plaintext;
      denomination = (pair.0).denomination;
      tds = pair.1;
    })

abbrev pub copied_by : ℕ → ℕ → RedeemCode → Bool
copied_by code_id user_id c =
    code_has_id code_id c && is_copied c.status && holds c.first_copied_by user_id

abbrev pub declare_claimed : ℕ → ℕ → RedeemCode → RedeemCode
declare_claimed user_id now c = record c {
  status = CodeStatus.claimed;
  claimed_by = some user_id;
  claimed_at = some now;
}

pub record ListForPostItem : Type 0 where
  pub id : ℕ
  pub denomination : ℕ
  pub status : CodeStatus

module _ (m : Mongo) where
  declare : ℕ → ℕ → ℕ → Store → Option RedeemCode × Store
  declare now code_id user_id db =
      let (updated, codes') =
        find_and_update m (copied_by code_id user_id) (declare_claimed user_id now) db.codes in
      (updated, record db { codes = codes' })

  pub mark_claimed : ℕ → ℕ → ℕ → Exec Store (Unit {0})
  unfolding declare
  mark_claimed now code_id user_id = do
    updated ← update (declare now code_id user_id)
    throw_if (not (is_some updated)) (AppError.conflict code_not_owned)

  -- the codes come sorted by `createdAt`, the natural order
  pub list_for_post : ℕ → ℕ → Exec Store (List ListForPostItem)
  list_for_post post_id user_id = do
    completion ← gets (λ db. m.find_one PostCompletion (completes user_id post_id) db.completions)
    throw_if (not (is_some completion)) (AppError.forbidden post_not_completed)
    codes ← gets (λ db.
        m.find RedeemCode (λ c. holds c.post_id post_id && not (is_available c.status)) db.codes)
    pure (map (λ c. record { id = c.id; denomination = c.denomination; status = c.status }) codes)

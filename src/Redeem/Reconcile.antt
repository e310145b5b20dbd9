-- ===== src/Redeem/Reconcile.antt =====
-- src/modules/redeem-codes/redeem-codes.reconcile.ts: copies that nobody declared are closed after
-- a day.
use cashfb_backend.Prelude.{
  ℕ, Bool, false, Option, none, some, List, [], ◌∷◌, ◌+◌, ◌*◌, ◌&&◌, leb, or_default, if◌then◌else◌,
}
use cashfb_backend.Shared.Mongo.{Mongo, update_one}
use cashfb_backend.Redeem.{Store, RedeemCode, CodeStatus, code_has_id, is_copied}

-- `DEFAULT_CUTOFF_MS`
abbrev default_cutoff_ms : ℕ
default_cutoff_ms = 24 * 60 * 60 * 1000

-- `status: 'COPIED', firstCopiedAt: { $lte: now - cutoff }`, which a missing date does not match
abbrev pub is_stuck : ℕ → ℕ → RedeemCode → Bool
is_stuck now cutoff_ms c =
    is_copied c.status && elim c.first_copied_at [ none ↦ false | some t ↦ leb (t + cutoff_ms) now ]

abbrev pub copied_code : ℕ → RedeemCode → Bool
copied_code code_id c = code_has_id code_id c && is_copied c.status

abbrev pub auto_claim : ℕ → ℕ → RedeemCode → RedeemCode
auto_claim user_id now c = record c {
  status = CodeStatus.claimed;
  claimed_by = some user_id;
  claimed_at = some now;
}

module _ (m : Mongo) (now : ℕ) where
  -- one turn of the loop: `res.modifiedCount === 1`, and the codes
  reconcile_row : RedeemCode → List RedeemCode → Bool × List RedeemCode
  reconcile_row row codes = elim row.first_copied_by [
    | none ↦ (false, codes)
    | some user_id ↦ update_one m (copied_code row.id) (auto_claim user_id now) codes
  ]

  reconcile_rows : ℕ → List RedeemCode → List RedeemCode → ℕ × List RedeemCode
  unfolding reconcile_row
  reconcile_rows reconciled [] codes = (reconciled, codes)
  reconcile_rows reconciled (row ∷ rows) codes =
      let (modified, codes') = reconcile_row row codes in
      reconcile_rows (if modified then reconciled + 1 else reconciled) rows codes'

  -- `between` is what other requests commit after the scan and before the loop.
  pub reconcile_copied_codes : (Store → Store) → Option ℕ → Store → ℕ × Store
  unfolding reconcile_rows
  reconcile_copied_codes between cutoff_ms db =
      let stuck =
        m.find RedeemCode (is_stuck now (or_default cutoff_ms default_cutoff_ms)) db.codes in
      let db' = between db in
      let (reconciled, codes') = reconcile_rows 0 stuck db'.codes in
      (reconciled, record db' { codes = codes' })

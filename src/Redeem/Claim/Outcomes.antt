-- ===== src/Redeem/Claim/Outcomes.antt =====
-- How a call of `claim` ends.
use cashfb_backend.Prelude.{
  ℕ, ◌≡◌, ◌⊎◌, inl, inr, Option, some, arith, first, change_first, change_first-absent,
  Option-cases,
}
use cashfb_backend.Shared.Errors.{AppError}
use cashfb_backend.Shared.Exec.{ok, err, Result-cases}
use cashfb_backend.Shared.Mongo.{driver}
use cashfb_backend.Redeem.{Store, RedeemCode}
use cashfb_backend.Redeem.Claim.{ClaimResult, claim, claimable, copy_code}

-- What a claim that reached a published code did to the store that its transaction met.
abbrev pub Claimed : ℕ → ℕ → ℕ → Store → Store → Type 0
Claimed now code_id user_id db db' =
    (c : RedeemCode) × (first (claimable code_id) db.codes ≡ some c)
    × (db'.codes ≡ change_first (claimable code_id) (copy_code user_id now) db.codes)

-- What a successful claim answers.
abbrev pub Answers : (ℕ → Option ℕ) → ClaimResult → RedeemCode → Type 0
Answers decrypt r c =
    (decrypt c.code_ct ≡ some r.plaintext_code)
    × (r.denomination ≡ c.denomination)
    × (r.code_id ≡ c.id)

module _ (fy_bounds : ℕ → ℕ × ℕ) (decrypt : ℕ → Option ℕ) (between : Store → Store)
    (now code_id user_id : ℕ) (db : Store) where
  pub settled_claim :
      (r : ClaimResult)
      → (claim driver fy_bounds decrypt between now code_id user_id db).0 ≡ ok r
      → (c : RedeemCode) × (first (claimable code_id) (between db).codes ≡ some c)
        × ((claim driver fy_bounds decrypt between now code_id user_id db).1.codes
            ≡ change_first (claimable code_id) (copy_code user_id now) (between db).codes)
        × Answers decrypt r c
  unfolding claim
  settled_claim r e = elim (Option-cases (first (claimable code_id) (between db).codes)) [
    | inl nothing ↦ absurd (ground arith)
    | inr (c, found) ↦ elim (Option-cases (decrypt c.code_ct)) [
      | inl unreadable ↦ absurd (ground arith)
      | inr (text, readable) ↦ (c, found, ground arith, (ground arith, ground arith, ground arith))
    ]
  ]

  pub failed_claim :
      (e : AppError)
      → (claim driver fy_bounds decrypt between now code_id user_id db).0 ≡ err e
      → ((claim driver fy_bounds decrypt between now code_id user_id db).1 ≡ db)
        ⊎ (((claim driver fy_bounds decrypt between now code_id user_id db).1 ≡ between db)
            ⊎ ((e ≡ AppError.thrown)
                × Claimed now code_id user_id
                    (between db)
                    (claim driver fy_bounds decrypt between now code_id user_id db).1))
  unfolding claim
  failed_claim x e = elim (Option-cases (first (claimable code_id) (between db).codes)) [
    | inl nothing ↦ ground (
      arith,
      change_first-absent (claimable code_id) (copy_code user_id now) (between db).codes nothing,
    )
    | inr (c, found) ↦ ground arith
  ]

  -- what a call may have done, however it ended
  pub claim_cases :
      let db' = (claim driver fy_bounds decrypt between now code_id user_id db).1 in
      (db' ≡ db) ⊎ ((db' ≡ between db) ⊎ Claimed now code_id user_id (between db) db')
  claim_cases =
      elim (Result-cases (claim driver fy_bounds decrypt between now code_id user_id db).0) [
        | inl (r, e) ↦ let a = settled_claim r e in inr (inr (a.0, a.1, a.2))
        | inr (x, e) ↦ elim (failed_claim x e) [
          | inl same ↦ inl same
          | inr (inl other) ↦ inr (inl other)
          | inr (inr (t, c)) ↦ inr (inr c)
        ]
      ]

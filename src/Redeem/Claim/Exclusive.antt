-- ===== src/Redeem/Claim/Exclusive.antt =====
-- First come, first served: who gets a code, and what the others see.
use cashfb_backend.Prelude.{
  ℕ, ◌≡◌, ◌≢◌, ◌≤◌, ◌⊎◌, inl, inr, true, false, Option, some, List, [], ◌∷◌, any, tally, arith,
  refl, first, change_first, change_first-absent, is_some-first, Option-cases, Bool-cases, ◌+◌,
  Differ, first-passes, change_first-Differ,
}
use cashfb_backend.Shared.Errors.{AppError, code_not_owned}
use cashfb_backend.Shared.Exec.{ok, err}
use cashfb_backend.Shared.Mongo.{Mongo, IsMongo, Mongo-eq, driver}
use cashfb_backend.Redeem.{Store, RedeemCode, CodeStatus, code_has_id, is_published}
use cashfb_backend.Redeem.Claim.{
  ClaimResult, claim, mark_claimed, claimable, copy_code, copied_by, declare_claimed,
}
use cashfb_backend.Redeem.Claim.Outcomes.{settled_claim, failed_claim, claim_cases}
use cashfb_backend.Redeem.Lifecycle.{AllMove-change_first, Evolves, rest, step, copy, CodeStep}

-- no code is both published and known by this id
abbrev pub Gone : ℕ → Store → Type 0
Gone code_id db = any (claimable code_id) db.codes ≡ false

untallied :
    (code_id : ℕ) (cs : List RedeemCode)
    → tally (code_has_id code_id) cs ≤ 0
    → any (claimable code_id) cs ≡ false
untallied code_id [] h = refl
untallied code_id (c ∷ cs) h = ground (arith, untallied code_id cs)

copied-gone :
    (code_id user_id now : ℕ) (cs : List RedeemCode)
    → tally (code_has_id code_id) cs ≤ 1
    → any (claimable code_id) (change_first (claimable code_id) (copy_code user_id now) cs) ≡ false
copied-gone code_id user_id now [] h = refl
copied-gone code_id user_id now (c ∷ cs) h = elim (Bool-cases (claimable code_id c)) [
  | inl hit ↦ ground (arith, hit, untallied code_id cs)
  | inr miss ↦ ground (arith, miss, copied-gone code_id user_id now cs)
]

published_then : (s : CodeStatus) → is_published s ≡ true → s ≡ CodeStatus.published
published_then CodeStatus.published e = refl
published_then CodeStatus.available e = absurd (ground arith)
published_then CodeStatus.copied e = absurd (ground arith)
published_then CodeStatus.claimed e = absurd (ground arith)
published_then CodeStatus.expired e = absurd (ground arith)
published_then CodeStatus.void e = absurd (ground arith)

module _ {m : Mongo} (h : IsMongo m) (fy_bounds : ℕ → ℕ × ℕ) (decrypt : ℕ → Option ℕ) where
  -- A claim that succeeds took a code with the id asked for that was PUBLISHED when its transaction
  -- ran: it gives out that code's id, plaintext and denomination, and leaves all codes as they were
  -- but that one, which is now COPIED, first by the caller at that time, with one more copy.
  pub claim_takes_published_code :
      (between : Store → Store) (now code_id user_id : ℕ) (db : Store) (r : ClaimResult)
      → (claim m fy_bounds decrypt between now code_id user_id db).0 ≡ ok r
      → (c : RedeemCode) × (c.id ≡ code_id)
        × (c.status ≡ CodeStatus.published)
        × (r.code_id ≡ code_id)
        × (decrypt c.code_ct ≡ some r.plaintext_code)
        × (r.denomination ≡ c.denomination)
        × Differ c
            (record c {
              status = CodeStatus.copied;
              first_copied_by = some user_id;
              first_copied_at = some now;
              copy_count = c.copy_count + 1;
            })
            (between db).codes
            (claim m fy_bounds decrypt between now code_id user_id db).1.codes
  claim_takes_published_code = rw (Mongo-eq h) λ between now code_id user_id db r e.
      let (c, found, codes, (text, value, id)) =
        settled_claim fy_bounds decrypt between now code_id user_id db r e in
      let passes = first-passes (claimable code_id) (between db).codes c found in
      (
        c,
        ground (arith, passes),
        published_then c.status (ground (arith, passes)),
        ground (arith, id, passes),
        text,
        value,
        rw codes (
            change_first-Differ (claimable code_id) (copy_code user_id now) (between db).codes c
              found),
      )

  -- A claim that fails leaves the store as it met it, before or after what other requests committed
  -- meanwhile, unless decryption threw: then the code stays copied.
  pub failed_claim_writes_nothing :
      (between : Store → Store) (now code_id user_id : ℕ) (db : Store) (e : AppError)
      → (claim m fy_bounds decrypt between now code_id user_id db).0 ≡ err e
      → e ≢ AppError.thrown
      → ((claim m fy_bounds decrypt between now code_id user_id db).1 ≡ db)
        ⊎ ((claim m fy_bounds decrypt between now code_id user_id db).1 ≡ between db)
  failed_claim_writes_nothing = rw (Mongo-eq h) λ between now code_id user_id db x e regular.
      elim (failed_claim fy_bounds decrypt between now code_id user_id db x e) [
        | inl same ↦ inl same
        | inr (inl other) ↦ inr other
        | inr (inr (thrown_, _)) ↦ absurd (regular thrown_)
      ]

  -- One winner: after a successful claim of a code, no claim of it by anybody succeeds, as long as
  -- the id is unique and other requests do not publish the code again.
  pub second_claim_refused :
      (between between' : Store → Store) (now now' code_id user_id user_id' : ℕ) (db : Store)
      (r r' : ClaimResult)
      → tally (code_has_id code_id) (between db).codes ≤ 1
      → ((s : Store) → Gone code_id s → Gone code_id (between' s))
      → (claim m fy_bounds decrypt between now code_id user_id db).0 ≡ ok r
      → (claim m fy_bounds decrypt between' now' code_id user_id'
          (claim m fy_bounds decrypt between now code_id user_id db).1).0
        ≢ ok r'
  second_claim_refused =
      rw (Mongo-eq h)
        λ between between' now now' code_id user_id user_id' db r r' unique quiet e e'.
          let db' = (claim driver fy_bounds decrypt between now code_id user_id db).1 in
          let codes = (settled_claim fy_bounds decrypt between now code_id user_id db r e).2 in
          let found' =
            (settled_claim fy_bounds decrypt between' now' code_id user_id' db' r' e').1 in
          let gone =
            quiet db' (rw codes (copied-gone code_id user_id now (between db).codes unique)) in
          let there = is_some-first (claimable code_id) (between' db').codes in
          absurd (ground (arith, gone, there, found'))

  -- Whatever a call of `claim` returns, the codes only move along their life cycle, if other
  -- requests move them so.
  pub claim-Evolves :
      (between : Store → Store) (now code_id user_id : ℕ) (db : Store)
      → ((s : Store) → Evolves s.codes (between s).codes)
      → Evolves db.codes (claim m fy_bounds decrypt between now code_id user_id db).1.codes
  claim-Evolves = rw (Mongo-eq h) λ between now code_id user_id db others.
      elim (claim_cases fy_bounds decrypt between now code_id user_id db) [
        | inl same ↦ rw same rest
        | inr (inl other) ↦ rw other (others db)
        | inr (inr (c, found, codes)) ↦ rw codes (
            step (others db) (
              AllMove-change_first (claimable code_id) (copy_code user_id now)
                (λ d p. (refl, inr (copy user_id (ground arith) refl refl))) (between db).codes))
      ]

claim_step :
    (user_id now code_id : ℕ) (c : RedeemCode)
    → copied_by code_id user_id c ≡ true
    → CodeStep c (declare_claimed user_id now c)
claim_step user_id now code_id c p = CodeStep.claim (ground arith) refl refl (ground arith)

marked :
    (now code_id user_id : ℕ) (db : Store)
    → let answer = mark_claimed driver now code_id user_id db in
      ((any (copied_by code_id user_id) db.codes ≡ true)
        × (answer.0 ≡ ok tt)
        × (answer.1.codes
            ≡ change_first (copied_by code_id user_id) (declare_claimed user_id now) db.codes))
      ⊎ ((any (copied_by code_id user_id) db.codes ≡ false)
          × (answer.0 ≡ err (AppError.conflict code_not_owned))
          × (answer.1 ≡ db))
unfolding mark_claimed
marked now code_id user_id db =
    let here = is_some-first (copied_by code_id user_id) db.codes in
    elim (Option-cases (first (copied_by code_id user_id) db.codes)) [
      | inl nothing ↦ ground (
        arith,
        here,
        change_first-absent (copied_by code_id user_id) (declare_claimed user_id now) db.codes
            nothing,
      )
      | inr (c, found) ↦ ground (arith, here)
    ]

module _ {m : Mongo} (h : IsMongo m) where
  -- Only the user who copied a code can mark it claimed, and only once: the call succeeds exactly if
  -- the code is copied and the caller copied it; it is then claimed by the caller, and otherwise the
  -- store stays as it was.
  pub mark_claimed_lem :
      (now code_id user_id : ℕ) (db : Store)
      → let answer = mark_claimed m now code_id user_id db in
        ((any (copied_by code_id user_id) db.codes ≡ true)
          × (answer.0 ≡ ok tt)
          × (answer.1.codes
              ≡ change_first (copied_by code_id user_id) (declare_claimed user_id now) db.codes))
        ⊎ ((any (copied_by code_id user_id) db.codes ≡ false)
            × (answer.0 ≡ err (AppError.conflict code_not_owned))
            × (answer.1 ≡ db))
  mark_claimed_lem = rw (Mongo-eq h) marked

  pub mark_claimed-Evolves :
      (now code_id user_id : ℕ) (db : Store)
      → Evolves db.codes (mark_claimed m now code_id user_id db).1.codes
  mark_claimed-Evolves = λ now code_id user_id db. elim (mark_claimed_lem now code_id user_id db) [
    | inl (there, answer, codes) ↦ rw codes (
        step rest (
          AllMove-change_first (copied_by code_id user_id) (declare_claimed user_id now)
            (λ d p. (refl, inr (claim_step user_id now code_id d p))) db.codes))
    | inr (nobody, answer, same) ↦ rw same rest
  ]

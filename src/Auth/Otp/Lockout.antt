-- ===== src/Auth/Otp/Lockout.antt =====
-- Which calls the lockout refuses, what a failure counts, and what a success uses up.
use cashfb_backend.Prelude.{
  ℕ, ◌≡◌, ◌≢◌, ◌≤◌, ◌<◌, suc, ◌⊎◌, inl, inr, Bool, true, false, Option, none, some, List, [], ◌∷◌,
  All, keep, change_first, is_some, or_default, ltb, arith, Option-cases, Bool-cases, if◌then◌else◌,
}
use cashfb_backend.Shared.Errors.{AppError, otp_locked}
use cashfb_backend.Shared.Exec.{ok, err}
use cashfb_backend.Shared.Mongo.{Mongo, IsMongo, Mongo-eq, driver}
use cashfb_backend.Auth.Otp.{
  Store, Otp, send, verify, is_locked, is_active, last, otp_has_id, check_row, find_active,
  record_fail_and_maybe_lock,
}

-- the phone has a lock that has not run out
abbrev pub locked_at : ℕ → ℕ → Store → Bool
locked_at now phone db = elim (db.locks phone) [ none ↦ false | some until ↦ ltb now until ]

-- the failures that count at a time
abbrev pub fails_at : ℕ → ℕ → Store → ℕ
fails_at now phone db = elim (db.fails phone) [
  | none ↦ 0
  | some f ↦ if ltb now f.expires_at then f.count else 0
]

abbrev pub HasHash : Otp → Type 0
HasHash o = is_some o.otp_hash ≡ true

abbrev pub consume : ℕ → Otp → Otp
consume now o = record o { consumed_at = some now }

last-HasHash :
    (p : Otp → Bool) (os : List Otp) (found : Option Otp) (r : Otp)
    → All HasHash os
    → ((o : Otp) → found ≡ some o → HasHash o)
    → last (keep p os) found ≡ some r
    → HasHash r
last-HasHash p [] found r h k e = k r e
last-HasHash p (o ∷ os) found r (h, hs) k e = elim (Bool-cases (p o)) [
  | inl hit ↦ last-HasHash p os (some o) r hs (λ x same. ground arith) (rw hit at e)
  | inr miss ↦ last-HasHash p os found r hs k (rw miss at e)
]

module _ (hash : ℕ → ℕ → ℕ) (now phone otp : ℕ) (db : Store) where
  locked_verify :
      locked_at now phone db ≡ true
      → verify driver hash now phone otp db ≡ (err (AppError.conflict otp_locked), db)
  unfolding verify is_locked
  locked_verify shut = ground arith

  recorded :
      let r = record_fail_and_maybe_lock now phone db in
      ((r.0 ≡ ok tt)
        × (fails_at now phone r.1 ≡ suc (fails_at now phone db))
        × (fails_at now phone r.1 < 3))
      ⊎ ((r.0 ≡ err (AppError.conflict otp_locked)) × (locked_at now phone r.1 ≡ true))
  unfolding record_fail_and_maybe_lock
  recorded = ground arith

  row_checked :
      (r : Otp)
      → HasHash r
      → (check_row driver hash now phone otp r db).0 ≡ err AppError.unauthorized
      → let db' = (check_row driver hash now phone otp r db).1 in
        (fails_at now phone db' ≡ suc (fails_at now phone db)) × (fails_at now phone db' < 3)
  unfolding check_row record_fail_and_maybe_lock
  row_checked r hashed e = ground arith

  row_locked :
      (r : Otp)
      → (check_row driver hash now phone otp r db).0 ≡ err (AppError.conflict otp_locked)
      → locked_at now phone (check_row driver hash now phone otp r db).1 ≡ true
  unfolding check_row record_fail_and_maybe_lock
  row_locked r e = ground arith

  row_matched :
      (r : Otp)
      → (check_row driver hash now phone otp r db).0 ≡ ok tt
      → let db' = (check_row driver hash now phone otp r db).1 in
        (r.otp_hash ≡ some (hash otp (or_default r.salt 0)))
        × (db'.otps ≡ change_first (otp_has_id r.id) (consume now) db.otps)
        × (fails_at now phone db' ≡ 0)
  unfolding check_row record_fail_and_maybe_lock
  row_matched r e = ground arith

module _ (hash : ℕ → ℕ → ℕ) (now phone otp : ℕ) (db : Store) where
  -- the store after `isLocked` has looked at an unlocked phone
  abbrev unlocked : Store
  unlocked = (is_locked now phone db).1

  looked_up :
      locked_at now phone db ≡ false
      → (unlocked.otps ≡ db.otps) × (fails_at now phone unlocked ≡ fails_at now phone db)
  unfolding is_locked
  looked_up open_ = ground arith

  open_verify :
      locked_at now phone db ≡ false
      → let row = last (keep (is_active now phone) db.otps) none in
        let answer = verify driver hash now phone otp db in
        ((row ≡ none)
          × (answer.0 ≢ ok tt)
          × ((answer.0 ≡ err (AppError.conflict otp_locked)) × (locked_at now phone answer.1 ≡ true)
              ⊎ ((answer.0 ≡ err AppError.unauthorized)
                  × (fails_at now phone answer.1 ≡ suc (fails_at now phone db))
                  × (fails_at now phone answer.1 < 3))))
        ⊎ ((r : Otp) × (row ≡ some r) × (answer ≡ check_row driver hash now phone otp r unlocked))
  unfolding verify is_locked find_active record_fail_and_maybe_lock
  open_verify open_ = elim (Option-cases (last (keep (is_active now phone) db.otps) none)) [
    | inl nothing ↦ inl (nothing, ground arith, ground arith)
    | inr (r, here) ↦ inr (r, here, ground arith)
  ]

  wrong :
      All HasHash db.otps
      → (verify driver hash now phone otp db).0 ≡ err AppError.unauthorized
      → let db' = (verify driver hash now phone otp db).1 in
        (fails_at now phone db' ≡ suc (fails_at now phone db)) × (fails_at now phone db' < 3)
  wrong hashed e = elim (Bool-cases (locked_at now phone db)) [
    | inl shut ↦ absurd (ground (arith, e, locked_verify hash now phone otp db shut))
    | inr open_ ↦ elim (open_verify open_) [
      | inl (_, _, inl (locked_, _)) ↦ absurd (ground (arith, e, locked_))
      | inl (_, _, inr (_, more, few)) ↦ (more, few)
      | inr (r, here, same) ↦
          let mine =
            last-HasHash (is_active now phone) db.otps none r hashed
              (λ o nothing. absurd (ground arith)) here in
          let counted = row_checked hash now phone otp unlocked r mine (ground (arith, e, same)) in
          rw same (rw (← (looked_up open_).1) counted)
    ]
  ]

  shut_out :
      (verify driver hash now phone otp db).0 ≡ err (AppError.conflict otp_locked)
      → locked_at now phone (verify driver hash now phone otp db).1 ≡ true
  shut_out e = elim (Bool-cases (locked_at now phone db)) [
    | inl shut ↦ rw (locked_verify hash now phone otp db shut) shut
    | inr open_ ↦ elim (open_verify open_) [
      | inl (_, _, inl (_, shut)) ↦ shut
      | inl (_, _, inr (plain, _, _)) ↦ absurd (ground (arith, e, plain))
      | inr (r, here, same) ↦
          rw same (row_locked hash now phone otp unlocked r (ground (arith, e, same)))
    ]
  ]

  right :
      (verify driver hash now phone otp db).0 ≡ ok tt
      → let db' = (verify driver hash now phone otp db).1 in
        (r : Otp) × (last (keep (is_active now phone) db.otps) none ≡ some r)
        × (r.otp_hash ≡ some (hash otp (or_default r.salt 0)))
        × (db'.otps ≡ change_first (otp_has_id r.id) (consume now) db.otps)
        × (fails_at now phone db' ≡ 0)
  right e = elim (Bool-cases (locked_at now phone db)) [
    | inl shut ↦ absurd (ground (arith, e, locked_verify hash now phone otp db shut))
    | inr open_ ↦ elim (open_verify open_) [
      | inl (_, refuses, _) ↦ absurd (refuses e)
      | inr (r, here, same) ↦
          let matched = row_matched hash now phone otp unlocked r (ground (arith, e, same)) in
          (
            r,
            here,
            matched.0,
            ground (arith, same, matched.1, (looked_up open_).0),
            rw same matched.2,
          )
    ]
  ]

locked_both :
    (hash : ℕ → ℕ → ℕ) (now phone otp fresh new_otp salt : ℕ) (delivers : Bool) (db : Store)
    → locked_at now phone db ≡ true
    → (verify driver hash now phone otp db ≡ (err (AppError.conflict otp_locked), db))
      × (send driver hash now fresh new_otp salt delivers phone db
          ≡ (err (AppError.conflict otp_locked), db))
unfolding send is_locked
locked_both hash now phone otp fresh new_otp salt delivers db shut =
    (locked_verify hash now phone otp db shut, ground arith)

module _ (hash : ℕ → ℕ → ℕ) (now phone otp : ℕ) (db : Store) where
  ended :
      ((verify driver hash now phone otp db).0 ≡ ok tt)
      ⊎ (((verify driver hash now phone otp db).0 ≡ err AppError.unauthorized)
          ⊎ ((verify driver hash now phone otp db).0 ≡ err (AppError.conflict otp_locked)))
  unfolding verify check_row record_fail_and_maybe_lock
  ended = ground arith

third :
    (hash : ℕ → ℕ → ℕ) (now phone otp : ℕ) (db : Store)
    → All HasHash db.otps
    → 2 ≤ fails_at now phone db
    → (verify driver hash now phone otp db).0 ≢ ok tt
    → locked_at now phone (verify driver hash now phone otp db).1 ≡ true
third hash now phone otp db hashed two fails = elim (ended hash now phone otp db) [
  | inl fine ↦ absurd (fails fine)
  | inr (inl plain) ↦ absurd (ground (arith, two, wrong hash now phone otp db hashed plain))
  | inr (inr shut) ↦ shut_out hash now phone otp db shut
]

module _ {m : Mongo} (h : IsMongo m) (hash : ℕ → ℕ → ℕ) where
  -- While a phone is locked, `send` and `verify` answer OTP_LOCKED and change nothing, whatever the
  -- OTP.
  pub locked_phone_is_refused :
      (now phone otp fresh new_otp salt : ℕ) (delivers : Bool) (db : Store)
      → locked_at now phone db ≡ true
      → (verify m hash now phone otp db ≡ (err (AppError.conflict otp_locked), db))
        × (send m hash now fresh new_otp salt delivers phone db
            ≡ (err (AppError.conflict otp_locked), db))
  locked_phone_is_refused = rw (Mongo-eq h) (locked_both hash)

  -- A `verify` that answers "Invalid OTP" has counted one failure more for the phone, and there are
  -- then fewer than three; rows whose hash is missing, which `send` never writes, are left out.
  pub wrong_otp_is_counted :
      (now phone otp : ℕ) (db : Store)
      → All HasHash db.otps
      → (verify m hash now phone otp db).0 ≡ err AppError.unauthorized
      → let db' = (verify m hash now phone otp db).1 in
        (fails_at now phone db' ≡ suc (fails_at now phone db)) × (fails_at now phone db' < 3)
  wrong_otp_is_counted = rw (Mongo-eq h) (wrong hash)

  -- A phone with two counted failures is locked after the next `verify` that does not succeed, if every
  -- row has its hash.
  pub third_failure_locks :
      (now phone otp : ℕ) (db : Store)
      → All HasHash db.otps
      → 2 ≤ fails_at now phone db
      → (verify m hash now phone otp db).0 ≢ ok tt
      → locked_at now phone (verify m hash now phone otp db).1 ≡ true
  third_failure_locks = rw (Mongo-eq h) (third hash)

  -- A `verify` that succeeds met the phone's latest active row, whose hash is that of the OTP; it
  -- consumes that row, changes no other, and clears the count of failures.
  pub right_otp_is_consumed :
      (now phone otp : ℕ) (db : Store)
      → (verify m hash now phone otp db).0 ≡ ok tt
      → let db' = (verify m hash now phone otp db).1 in
        (r : Otp) × (last (keep (is_active now phone) db.otps) none ≡ some r)
        × (r.otp_hash ≡ some (hash otp (or_default r.salt 0)))
        × (db'.otps ≡ change_first (otp_has_id r.id) (consume now) db.otps)
        × (fails_at now phone db' ≡ 0)
  right_otp_is_consumed = rw (Mongo-eq h) (right hash)

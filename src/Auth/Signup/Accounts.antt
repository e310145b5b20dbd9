-- ===== src/Auth/Signup/Accounts.antt =====
-- What sign-up and login promise about the accounts.
use cashfb_backend.Prelude.{
  ℕ, ◌≡◌, ◌⊎◌, inl, inr, true, false, Option, some, none, List, [], ◌∷◌, ◌++◌, any, arith, refl,
  first, change_first,
}
use cashfb_backend.Prelude.Int.{pos, leb_ℤ}
use cashfb_backend.Shared.Age.{age_in_years_ist}
use cashfb_backend.Shared.Errors.{AppError}
use cashfb_backend.Shared.Exec.{ok, err, Result-cases}
use cashfb_backend.Shared.Mongo.{Mongo, IsMongo, Mongo-eq, driver}
use cashfb_backend.Shared.User.{User}
use cashfb_backend.Wallet.{has_id}
use cashfb_backend.Wallet.Ledger.{ledger, UniqueIds, AllBalanced, UniqueIds-append, AllBalanced-new}
use cashfb_backend.Auth.{Store, LoginSession}
use cashfb_backend.Auth.Otp.{Store as OtpStore, verify}
use cashfb_backend.Auth.Sessions.{RefreshClaims, AuthTokens, session_document}
use cashfb_backend.Auth.Signup.{
  Draws, SignupInput, LoginInput, AuthedUserDto, verify_signup_otp, verify_login_otp,
  device_is_blocked, should_bypass_signup_otp, new_user, bonus_tx, has_phone, same_user, mark_login,
}
use cashfb_backend.Auth.Signup.Opening.{IsClear, Opened, device_is_blocked-IsClear, Created-Opened}
use cashfb_backend.Auth.Signup.Outcomes.{
  Created, Verified, signup_session, login_session, signed_up_after, failed_after, asked_otp,
  wrong_otp, logged_in,
}

-- Each user's balance is the sum of their transactions, and no two share an id.
abbrev pub IsAccounted : Store → Type 0
IsAccounted db = UniqueIds db.users × AllBalanced db.coin_txs db.users

same_id : (u : User) (us : List User) → any (same_user u) us ≡ false → any (has_id u.id) us ≡ false
same_id u [] h = refl
same_id u (v ∷ us) h = ground (arith, same_id u us)

Created-IsAccounted :
    (d : Draws) (input : SignupInput) (code : ℕ) (referrer : Option ℕ) (session : LoginSession)
    (db db' : Store)
    → ledger d.user_id db.coin_txs ≡ pos 0
    → IsAccounted db
    → Created (new_user d input code referrer) d session db db'
    → IsAccounted db'
Created-IsAccounted d input code referrer session db db' empty h w =
    let u = new_user d input code referrer in
    let new = same_id u db.users w.0 in
    rw (w.1, w.2)
      (
        UniqueIds-append db.users u new h.0,
        AllBalanced-new db.coin_txs (bonus_tx d) db.users u new refl refl empty h.1,
      )

module _ (hash_otp : ℕ → ℕ → ℕ) (sign : RefreshClaims → ℕ) (verified : ℕ → Option RefreshClaims)
    (hash_token : ℕ → ℕ) (between : Store → Store) (d : Draws) (input : SignupInput)
    (db : Store) where
  signup :
      (r : AuthedUserDto × AuthTokens)
      → (verify_signup_otp driver hash_otp sign verified hash_token between d input db).0 ≡ ok r
      → (otp' : OtpStore) × Verified
          (should_bypass_signup_otp d.development input)
          (verify driver hash_otp d.now input.phone input.otp db.otp)
          db.otp
          otp'
        × (code : ℕ) × (referrer : Option ℕ) × (leb_ℤ (pos 18) (age_in_years_ist d.today input.dob)
            ≡ true)
        × (device_is_blocked driver hash_otp sign verified hash_token input.device_fingerprint db
            ≡ false)
        × Created
            (new_user d input code referrer)
            d
            (session_document driver sign verified hash_token d.now d.jti (signup_session d input))
            (between (record db { otp = otp' }))
            (verify_signup_otp driver hash_otp sign verified hash_token between d input db).1
  signup r e = elim (asked_otp hash_otp sign verified hash_token between d input db) [
    | inl (otp', v) ↦
        let a = signed_up_after hash_otp sign verified hash_token between d input db otp' r v e in
        (otp', v, a.0, a.1, a.2, a.3, a.4)
    | inr (normal, (x, bad)) ↦
        let w = wrong_otp hash_otp sign verified hash_token between d input db x normal bad in
        absurd (ground (arith, w.0.1))
  ]

  no_signup :
      (x : AppError)
      → (verify_signup_otp driver hash_otp sign verified hash_token between d input db).0 ≡ err x
      → let db' =
          (verify_signup_otp driver hash_otp sign verified hash_token between d input db).1 in
        (otp' : OtpStore) × ((db' ≡ record db { otp = otp' })
          ⊎ (db' ≡ between (record db { otp = otp' })))
  no_signup x e = elim (asked_otp hash_otp sign verified hash_token between d input db) [
    | inl (otp', v) ↦
        elim (failed_after hash_otp sign verified hash_token between d input db otp' x v e) [
          | inl same ↦ (db.otp, inl same)
          | inr (inl own) ↦ (otp', inl own)
          | inr (inr other) ↦ (otp', inr other)
        ]
    | inr (normal, (y, bad)) ↦
        elim ((wrong_otp hash_otp sign verified hash_token between d input db y normal bad).1) [
          | inl same ↦ (db.otp, inl same)
          | inr own ↦ (_, inl own)
        ]
  ]

signup-IsAccounted :
    (hash_otp : ℕ → ℕ → ℕ) (sign : RefreshClaims → ℕ) (verified : ℕ → Option RefreshClaims)
    (hash_token : ℕ → ℕ) (d : Draws) (input : SignupInput) (db : Store)
    → ledger d.user_id db.coin_txs ≡ pos 0
    → IsAccounted db
    → IsAccounted (verify_signup_otp driver hash_otp sign verified hash_token (λ s. s) d input db).1
signup-IsAccounted hash_otp sign verified hash_token d input db empty h =
    elim (Result-cases
      (verify_signup_otp driver hash_otp sign verified hash_token (λ s. s) d input db).0) [
        | inl (r, e) ↦
            let (otp', v, code, referrer, grown, free, w) =
              signup hash_otp sign verified hash_token (λ s. s) d input db r e in
            Created-IsAccounted d input code referrer
              (session_document driver sign verified hash_token d.now d.jti
                (signup_session d input))
              (record db { otp = otp' })
              (verify_signup_otp driver hash_otp sign verified hash_token (λ s. s) d input db).1
              empty h w
        | inr (x, e) ↦
            elim (no_signup hash_otp sign verified hash_token (λ s. s) d input db x e).1 [
              | inl same ↦ rw same h
              | inr other ↦ rw other h
            ]
      ]

module _ {m : Mongo} (h : IsMongo m) (hash_otp : ℕ → ℕ → ℕ) (sign : RefreshClaims → ℕ)
    (verified : ℕ → Option RefreshClaims) (hash_token : ℕ → ℕ) where
  -- If a sign-up succeeds then the user is 18 or older in IST, the device was not known, or neither it
  -- nor any user linked to it was blocked, and the OTP service accepted the OTP or the load-test
  -- bypass applied. To the store that the transaction met, in which nobody had the id, the phone or
  -- the referral code, it adds the user, not blocked and with 3 coins, a bonus transaction of 3 coins,
  -- and a session of the user's.
  pub successful_signup :
      (between : Store → Store) (d : Draws) (input : SignupInput) (db : Store)
      (r : AuthedUserDto × AuthTokens)
      → (verify_signup_otp m hash_otp sign verified hash_token between d input db).0 ≡ ok r
      → let db' = (verify_signup_otp m hash_otp sign verified hash_token between d input db).1 in
        (otp' : OtpStore) × Verified
          (should_bypass_signup_otp d.development input)
          (verify m hash_otp d.now input.phone input.otp db.otp)
          db.otp
          otp'
        × (leb_ℤ (pos 18) (age_in_years_ist d.today input.dob) ≡ true)
        × IsClear input.device_fingerprint db
        × Opened d input (between (record db { otp = otp' })) db'
        × (code : ℕ) × (referrer : Option ℕ) × Created
            (new_user d input code referrer)
            d
            (session_document m sign verified hash_token d.now d.jti (signup_session d input))
            (between (record db { otp = otp' }))
            db'
  successful_signup = rw (Mongo-eq h) λ between d input db r e.
      let (otp', v, code, referrer, grown, free, w) =
        signup hash_otp sign verified hash_token between d input db r e in
      (
        otp',
        v,
        grown,
        device_is_blocked-IsClear hash_otp sign verified hash_token input.device_fingerprint db
            free,
        Created-Opened hash_otp sign verified hash_token d input code referrer
            (between (record db { otp = otp' }))
            (verify_signup_otp driver hash_otp sign verified hash_token between d input db).1 w,
        code,
        referrer,
        w,
      )

  -- A sign-up that fails has written nothing but to the OTP service's store: no user, no
  -- transaction, no device and no session.
  pub failed_signup_creates_nothing :
      (between : Store → Store) (d : Draws) (input : SignupInput) (db : Store) (x : AppError)
      → (verify_signup_otp m hash_otp sign verified hash_token between d input db).0 ≡ err x
      → let db' = (verify_signup_otp m hash_otp sign verified hash_token between d input db).1 in
        (otp' : OtpStore) × ((db' ≡ record db { otp = otp' })
          ⊎ (db' ≡ between (record db { otp = otp' })))
  failed_signup_creates_nothing = rw (Mongo-eq h) (no_signup hash_otp sign verified hash_token)

  -- Where each balance is the sum of the user's transactions, ids are unique and the new id has no
  -- transaction, a sign-up that no other request interrupts keeps this so, however it ends.
  pub signup_keeps_balances :
      (d : Draws) (input : SignupInput) (db : Store)
      → ledger d.user_id db.coin_txs ≡ pos 0
      → IsAccounted db
      → IsAccounted (verify_signup_otp m hash_otp sign verified hash_token (λ s. s) d input db).1
  signup_keeps_balances = rw (Mongo-eq h) (signup-IsAccounted hash_otp sign verified hash_token)

  -- If a login succeeds then the OTP service accepted the OTP and the phone's user is neither erased
  -- nor blocked; besides the OTP service's store and
  -- the user's marks of the last login, only one session of that user is added.
  pub successful_login :
      (d : Draws) (input : LoginInput) (db : Store) (r : AuthedUserDto × AuthTokens)
      → (verify_login_otp m hash_otp sign verified hash_token d input db).0 ≡ ok r
      → let db' = (verify_login_otp m hash_otp sign verified hash_token d input db).1 in
        (u : User) × (first (has_phone input.phone) db.users ≡ some u)
        × (u.anonymized_at ≡ none)
        × (u.is_blocked ≡ false)
        × ((verify m hash_otp d.now input.phone input.otp db.otp).0 ≡ ok tt)
        × (db' ≡ record db {
          users = change_first (has_id u.id) (mark_login d.now input.ip_address) db.users;
          otp = (verify m hash_otp d.now input.phone input.otp db.otp).1;
          sessions =
              db.sessions
              ++ session_document m sign verified hash_token d.now d.jti (login_session d input u)
                ∷ [];
        })
  successful_login = rw (Mongo-eq h) (logged_in hash_otp sign verified hash_token)

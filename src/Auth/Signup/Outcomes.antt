-- ===== src/Auth/Signup/Outcomes.antt =====
-- How sign-up and login end.
use cashfb_backend.Prelude.{
  ℕ, zero, suc, ◌≡◌, ◌⊎◌, inl, inr, Bool, true, false, Option, none, some, List, [], ◌∷◌, ◌++◌, any,
  is_some-first, arith, refl, first, change_first, Option-cases, Bool-cases,
}
use cashfb_backend.Prelude.Int.{pos, leb_ℤ}
use cashfb_backend.Shared.Age.{age_in_years_ist}
use cashfb_backend.Shared.Errors.{AppError, underage, device_blocked}
use cashfb_backend.Shared.Exec.{Result, ok, err, Result-cases}
use cashfb_backend.Shared.Mongo.{driver}
use cashfb_backend.Shared.User.{User}
use cashfb_backend.Wallet.{has_id}
use cashfb_backend.Auth.{Store, LoginSession}
use cashfb_backend.Auth.Otp.{Store as OtpStore, verify}
use cashfb_backend.Auth.Sessions.{RefreshClaims, AuthTokens, IssueInput, session_document, same_jti}
use cashfb_backend.Auth.Signup.{
  Draws, SignupInput, LoginInput, AuthedUserDto, verify_signup_otp, verify_login_otp,
  device_is_blocked, should_bypass_signup_otp, pick_unique_referral_code, same_user, new_user,
  bonus_tx, has_referral_code, has_phone, resolve_referrer, mark_login,
}

abbrev pub signup_session : Draws → SignupInput → IssueInput
signup_session d input = record {
  user_id = d.user_id;
  token_version = 1;
  device_id = input.device_id;
  device_fingerprint = some input.device_fingerprint;
  family = d.family;
}

abbrev pub login_session : Draws → LoginInput → User → IssueInput
login_session d input u = record {
  user_id = u.id;
  token_version = u.token_version;
  device_id = input.device_id;
  device_fingerprint = some input.device_fingerprint;
  family = d.family;
}

-- What a sign-up adds to the store that its transaction met.
abbrev pub Created : User → Draws → LoginSession → Store → Store → Type 0
Created user d session db db' =
    (any (same_user user) db.users ≡ false)
    × (db'.users ≡ db.users ++ user ∷ [])
    × (db'.coin_txs ≡ db.coin_txs ++ bonus_tx d ∷ [])
    × (any (same_jti session) db.sessions ≡ false)
    × (db'.sessions ≡ db.sessions ++ session ∷ [])

-- The OTP service's answer, and its store: it is not asked where the OTP is bypassed.
abbrev pub Verified : Bool → Result (Unit {0}) × OtpStore → OtpStore → OtpStore → Type 0
Verified bypass answer otp otp' =
    ((bypass ≡ true) × (otp' ≡ otp)) ⊎ ((bypass ≡ false) × (answer ≡ (ok tt, otp')))

module _ (hash_otp : ℕ → ℕ → ℕ) (sign : RefreshClaims → ℕ) (verified : ℕ → Option RefreshClaims)
    (hash_token : ℕ → ℕ) where
  picked_code :
      (fuel attempt : ℕ) (candidate : ℕ → ℕ) (users : List User) (code : ℕ)
      → pick_unique_referral_code driver hash_otp sign verified hash_token fuel attempt candidate
          users
        ≡ some code
      → any (has_referral_code code) users ≡ false
  unfolding pick_unique_referral_code
  picked_code zero attempt candidate users code e = absurd (ground arith)
  picked_code (suc fuel) attempt candidate users code e =
      elim (Option-cases (first (has_referral_code (candidate attempt)) users)) [
        | inl unused ↦
            ground (arith, unused, is_some-first (has_referral_code (candidate attempt)) users)
        | inr (u, used) ↦ picked_code fuel (suc attempt) candidate users code (ground (arith, used))
      ]

  module _ (between : Store → Store) (d : Draws) (input : SignupInput) (db : Store) where
    -- from the OTP on
    pub signed_up_after :
        (otp' : OtpStore) (r : AuthedUserDto × AuthTokens)
        → Verified
            (should_bypass_signup_otp d.development input)
            (verify driver hash_otp d.now input.phone input.otp db.otp)
            db.otp
            otp'
        → (verify_signup_otp driver hash_otp sign verified hash_token between d input db).0 ≡ ok r
        → (code : ℕ) × (referrer : Option ℕ) × (leb_ℤ (pos 18) (age_in_years_ist d.today input.dob)
            ≡ true)
          × (device_is_blocked driver hash_otp sign verified hash_token input.device_fingerprint db
              ≡ false)
          × Created
              (new_user d input code referrer)
              d
              (session_document driver sign verified hash_token d.now d.jti
                (signup_session d input))
              (between (record db { otp = otp' }))
              (verify_signup_otp driver hash_otp sign verified hash_token between d input db).1
    unfolding verify_signup_otp
    signed_up_after otp' r asked e =
        elim (Bool-cases (leb_ℤ (pos 18) (age_in_years_ist d.today input.dob))) [
          | inr young ↦ absurd (ground arith)
          | inl grown ↦
              elim (Bool-cases (
                device_is_blocked driver hash_otp sign verified hash_token input.device_fingerprint
                  db)) [
                    | inl shut ↦ absurd (ground arith)
                    | inr free ↦
                        elim (Option-cases (
                          pick_unique_referral_code driver hash_otp sign verified hash_token 5 0
                            d.candidate db.users)) [
                              | inl exhausted ↦ absurd (ground arith)
                              | inr (code, picked) ↦ (
                                code,
                                resolve_referrer driver hash_otp sign verified hash_token
                                    input.referral_code db,
                                grown,
                                free,
                                elim asked [
                                  | inl (bypass, same) ↦ (
                                    ground arith,
                                    ground arith,
                                    ground arith,
                                    ground arith,
                                    ground arith,
                                  )
                                  | inr (normal, answer) ↦ (
                                    ground arith,
                                    ground arith,
                                    ground arith,
                                    ground arith,
                                    ground arith,
                                  )
                                ],
                              )
                            ]
                  ]
        ]

    -- what is left if it throws
    pub failed_after :
        (otp' : OtpStore) (x : AppError)
        → Verified
            (should_bypass_signup_otp d.development input)
            (verify driver hash_otp d.now input.phone input.otp db.otp)
            db.otp
            otp'
        → (verify_signup_otp driver hash_otp sign verified hash_token between d input db).0 ≡ err x
        → let db' =
            (verify_signup_otp driver hash_otp sign verified hash_token between d input db).1 in
          (db' ≡ db)
          ⊎ ((db' ≡ record db { otp = otp' }) ⊎ (db' ≡ between (record db { otp = otp' })))
    unfolding verify_signup_otp
    failed_after otp' x asked e =
        elim (Bool-cases (leb_ℤ (pos 18) (age_in_years_ist d.today input.dob))) [
          | inr young ↦ inl (ground arith)
          | inl grown ↦
              elim (Bool-cases (
                device_is_blocked driver hash_otp sign verified hash_token input.device_fingerprint
                  db)) [
                    | inl shut ↦ inl (ground arith)
                    | inr free ↦
                        elim (Option-cases (
                          pick_unique_referral_code driver hash_otp sign verified hash_token 5 0
                            d.candidate db.users)) [
                              | inl exhausted ↦ inr (
                                  inl (elim asked [
                                    | inl (bypass, same) ↦ ground arith
                                    | inr (normal, answer) ↦ ground arith
                                  ]))
                              | inr (code, picked) ↦ inr (
                                  inr (elim asked [
                                    | inl (bypass, same) ↦ ground arith
                                    | inr (normal, answer) ↦ ground arith
                                  ]))
                            ]
                  ]
        ]

    -- what the OTP service answers
    pub asked_otp :
        ((otp' : OtpStore) × Verified
            (should_bypass_signup_otp d.development input)
            (verify driver hash_otp d.now input.phone input.otp db.otp)
            db.otp
            otp')
        ⊎ ((should_bypass_signup_otp d.development input ≡ false)
            × ((x : AppError) × ((verify driver hash_otp d.now input.phone input.otp db.otp).0
                  ≡ err x)))
    asked_otp = elim (Bool-cases (should_bypass_signup_otp d.development input)) [
      | inl bypass ↦ inl (db.otp, inl (bypass, refl))
      | inr normal ↦
          elim (Result-cases (verify driver hash_otp d.now input.phone input.otp db.otp).0) [
            | inl (t, good) ↦ inl (
              (verify driver hash_otp d.now input.phone input.otp db.otp).1,
              inr (
                normal,
                λ i. (good i, (verify driver hash_otp d.now input.phone input.otp db.otp).1),
              ),
            )
            | inr (x, bad) ↦ inr (normal, (x, bad))
          ]
    ]

    pub wrong_otp :
        (x : AppError)
        → should_bypass_signup_otp d.development input ≡ false
        → (verify driver hash_otp d.now input.phone input.otp db.otp).0 ≡ err x
        → let r = verify_signup_otp driver hash_otp sign verified hash_token between d input db in
          ((y : AppError) × (r.0 ≡ err y))
          × ((r.1 ≡ db)
              ⊎ (r.1 ≡ record db {
                otp = (verify driver hash_otp d.now input.phone input.otp db.otp).1;
              }))
    unfolding verify_signup_otp
    wrong_otp x normal bad =
        elim (Bool-cases (leb_ℤ (pos 18) (age_in_years_ist d.today input.dob))) [
          | inr young ↦ ((AppError.forbidden underage, ground arith), inl (ground arith))
          | inl grown ↦
              elim (Bool-cases (
                device_is_blocked driver hash_otp sign verified hash_token input.device_fingerprint
                  db)) [
                    | inl shut ↦
                        ((AppError.forbidden device_blocked, ground arith), inl (ground arith))
                    | inr free ↦ ((x, ground arith), inr (ground arith))
                  ]
        ]

module _ (hash_otp : ℕ → ℕ → ℕ) (sign : RefreshClaims → ℕ) (verified : ℕ → Option RefreshClaims)
    (hash_token : ℕ → ℕ) where
  pub logged_in :
      (d : Draws) (input : LoginInput) (db : Store) (r : AuthedUserDto × AuthTokens)
      → (verify_login_otp driver hash_otp sign verified hash_token d input db).0 ≡ ok r
      → let db' = (verify_login_otp driver hash_otp sign verified hash_token d input db).1 in
        (u : User) × (first (has_phone input.phone) db.users ≡ some u)
        × (u.anonymized_at ≡ none)
        × (u.is_blocked ≡ false)
        × ((verify driver hash_otp d.now input.phone input.otp db.otp).0 ≡ ok tt)
        × (db' ≡ record db {
          users = change_first (has_id u.id) (mark_login d.now input.ip_address) db.users;
          otp = (verify driver hash_otp d.now input.phone input.otp db.otp).1;
          sessions =
              db.sessions
              ++ session_document driver sign verified hash_token d.now d.jti
                  (login_session d input u)
                ∷ [];
        })
  unfolding verify_login_otp
  logged_in d input db r e =
      elim (Result-cases (verify driver hash_otp d.now input.phone input.otp db.otp).0) [
        | inr (x, bad) ↦ absurd (ground arith)
        | inl (t, good) ↦ elim (Option-cases (first (has_phone input.phone) db.users)) [
          | inl nobody ↦ absurd (ground arith)
          | inr (u, there) ↦ (u, there, ground arith, ground arith, good, ground arith)
        ]
      ]

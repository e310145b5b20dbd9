-- ===== src/Auth/Signup/Tests.antt =====
-- A sign-up, one that fails and a login, and the theorems applied to them.
use cashfb_backend.Prelude.{
  ℕ, ◌≡◌, ◌⊎◌, ◌+◌, ◌*◌, ◌↔◌, true, false, Option, some, none, [], ◌∷◌, refl,
}
use cashfb_backend.Prelude.Int.{pos, leb_ℤ}
use cashfb_backend.Shared.Age.{age_in_years_ist, age_in_years_ist_lem, Reached}
use cashfb_backend.Shared.Errors.{AppError, underage}
use cashfb_backend.Shared.Exec.{ok, err}
use cashfb_backend.Shared.Mongo.{driver, driver-IsMongo}
use cashfb_backend.Wallet.Ledger.{ledger}
use cashfb_backend.Auth.{Store}
use cashfb_backend.Auth.Otp.{Store as OtpStore, Otp, verify}
use cashfb_backend.Auth.Sessions.{RefreshClaims, AuthTokens, session_document}
use cashfb_backend.Auth.Signup.{
  Draws, SignupInput, LoginInput, AuthedUserDto, verify_signup_otp, verify_login_otp, new_user,
  pick_unique_referral_code,
}
use cashfb_backend.Auth.Signup.Opening.{IsClear, Opened}
use cashfb_backend.Auth.Signup.Outcomes.{Created, Verified, signup_session}
use cashfb_backend.Auth.Signup.Accounts.{
  IsAccounted, successful_signup, failed_signup_creates_nothing, signup_keeps_balances,
}

abbrev otp : Otp
otp = record {
  id = 1;
  destination = 900;
  otp_hash = some 1007;
  salt = some 7;
  attempts = some 0;
  max_attempts = some 5;
  expires_at = 300000;
  consumed_at = none;
}

abbrev hash_otp : ℕ → ℕ → ℕ
hash_otp code salt = code * 10 + salt

abbrev sign : RefreshClaims → ℕ
sign c = c.jti

abbrev verified : ℕ → Option RefreshClaims
verified n = none

abbrev store : Store
store = record {
  users = [];
  sessions = [];
  devices = [];
  coin_txs = [];
  otp = record { otps = otp ∷ []; locks = λ _. none; fails = λ _. none; sent = [] };
  cutoffs = λ _. none;
}

abbrev draws : Draws
draws = record {
  now = 100;
  today = record { year = 2025; month = 3; date = 7 };
  development = false;
  otp_id = 2;
  otp = 101;
  salt = 8;
  user_id = 1;
  jti = 4;
  family = 7;
  candidate = λ n. 50 + n;
}

abbrev born : ℕ → SignupInput
born year = record {
  phone = 900;
  otp = 100;
  dob = record { year = year; month = 3; date = 7 };
  referral_code = none;
  device_id = 5;
  device_fingerprint = 6;
  ip_address = 3;
  dev_bypass_otp = false;
}

abbrev account : AuthedUserDto
account = record { id = 1; phone = 900; coin_balance = pos 3 }

abbrev tokens : AuthTokens
tokens = record { refresh = 4; access_expires_in = 900 }

signs_up :
    (verify_signup_otp driver hash_otp sign verified (λ n. n) (λ s. s) draws (born 2007) store).0
    ≡ ok (account, tokens)
unfolding verify_signup_otp age_in_years_ist verify pick_unique_referral_code
signs_up = refl

age_in_years_ist_lem_example :
    (leb_ℤ (pos 18) (age_in_years_ist draws.today (born 2007).dob) ≡ true)
    ↔ Reached draws.today (2007 + 18) (born 2007).dob
age_in_years_ist_lem_example = age_in_years_ist_lem draws.today (born 2007).dob 18

successful_signup_example :
    let db' =
      (verify_signup_otp driver hash_otp sign verified
        (λ n. n)
        (λ s. s)
        draws
        (born 2007)
        store).1 in
    (otp' : OtpStore) × Verified false (verify driver hash_otp 100 900 100 store.otp) store.otp otp'
    × (leb_ℤ (pos 18) (age_in_years_ist draws.today (born 2007).dob) ≡ true)
    × IsClear 6 store
    × Opened draws (born 2007) (record store { otp = otp' }) db'
    × (code : ℕ) × (referrer : Option ℕ) × Created
        (new_user draws (born 2007) code referrer)
        draws
        (session_document driver sign verified (λ n. n) 100 4 (signup_session draws (born 2007)))
        (record store { otp = otp' })
        db'
successful_signup_example =
    successful_signup driver-IsMongo hash_otp sign verified (λ n. n) (λ s. s) draws (born 2007)
      store (account, tokens) signs_up

too_young :
    (verify_signup_otp driver hash_otp sign verified (λ n. n) (λ s. s) draws (born 2008) store).0
    ≡ err (AppError.forbidden underage)
unfolding verify_signup_otp age_in_years_ist
too_young = refl

failed_signup_creates_nothing_example :
    let db' =
      (verify_signup_otp driver hash_otp sign verified
        (λ n. n)
        (λ s. s)
        draws
        (born 2008)
        store).1 in
    (otp' : OtpStore) × ((db' ≡ record store { otp = otp' }) ⊎ (db' ≡ record store { otp = otp' }))
failed_signup_creates_nothing_example =
    failed_signup_creates_nothing driver-IsMongo hash_otp sign verified (λ n. n) (λ s. s) draws
      (born 2008) store (AppError.forbidden underage) too_young

signup_keeps_balances_example :
    IsAccounted
      (verify_signup_otp driver hash_otp sign verified (λ n. n) (λ s. s) draws (born 2007) store).1
unfolding ledger
signup_keeps_balances_example =
    signup_keeps_balances driver-IsMongo hash_otp sign verified (λ n. n) draws (born 2007) store
      refl (tt, tt)

-- the account is there, with another OTP for its phone
abbrev known : Store
known = record store { users = new_user draws (born 2007) 50 none ∷ [] }

abbrev login : LoginInput
login = record { phone = 900; otp = 100; device_id = 5; device_fingerprint = 6; ip_address = 3 }

logs_in :
    (verify_login_otp driver hash_otp sign verified (λ n. n) draws login known).0
    ≡ ok (account, tokens)
unfolding verify_login_otp verify
logs_in = refl

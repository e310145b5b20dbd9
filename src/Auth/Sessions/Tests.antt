-- ===== src/Auth/Sessions/Tests.antt =====
-- Two devices' sessions, and the theorems on refreshes applied to them.
use cashfb_backend.Prelude.{ℕ, ◌≡◌, ◌≢◌, false, Option, none, some, [], ◌∷◌, refl, arith}
use cashfb_backend.Prelude.Int.{pos}
use cashfb_backend.Shared.Errors.{AppError}
use cashfb_backend.Shared.Exec.{ok, err}
use cashfb_backend.Shared.Mongo.{driver, driver-IsMongo}
use cashfb_backend.Shared.User.{User, KycStatus}
use cashfb_backend.Auth.{Store, LoginSession}
use cashfb_backend.Auth.Otp.{Store as OtpStore}
use cashfb_backend.Auth.Sessions.{RefreshClaims, RefreshInput, AuthTokens, refresh}
use cashfb_backend.Auth.Sessions.Rotation.{Dead, reused_token_ends_its_family}
use cashfb_backend.Auth.Sessions.SingleUse.{
  IsRotating, refresh_keeps_one_active_session, raced_refresh_fails,
}

abbrev ann : User
ann = record {
  id = 1;
  phone = 9;
  coin_balance = pos 10;
  total_coins_earned = pos 10;
  total_votes_cast = 0;
  token_version = 0;
  kyc_status = KycStatus.none;
  pan_last4 = none;
  is_blocked = false;
  last_vote_date = none;
  subscriptions = [];
  anonymized_at = none;
  referral_code = 0;
  referred_by = none;
  deleted_at = none;
  erasure_held = false;
  last_login_ip = none;
  last_login_at = none;
}

abbrev session_of : ℕ → ℕ → ℕ → LoginSession
session_of jti hash family = record {
  user_id = 1;
  jti = jti;
  device_id = some 5;
  device_fingerprint = none;
  refresh_token_hash = some hash;
  family = some family;
  revoked_at = none;
  expires_at = 9000000;
}

-- the token `n` is that of the session `n` in the family 7
abbrev claims : ℕ → RefreshClaims
claims n = record { sub = 1; jti = n; family = 7; token_version = 0; iat = 1 }

abbrev sign : RefreshClaims → ℕ
sign c = c.jti

abbrev verified : ℕ → Option RefreshClaims
verified n = some (claims n)

abbrev no_otps : OtpStore
no_otps = record { otps = []; locks = λ _. none; fails = λ _. none; sent = [] }

abbrev store : Store
store = record {
  users = ann ∷ [];
  sessions = session_of 2 2 7 ∷ session_of 3 3 8 ∷ [];
  devices = [];
  coin_txs = [];
  otp = no_otps;
  cutoffs = λ _. none;
}

abbrev use_token : ℕ → RefreshInput
use_token n = record { refresh_token = n; device_id = 5 }

abbrev tokens : AuthTokens
tokens = record { refresh = 4; access_expires_in = 900 }

rotates : (refresh driver sign verified (λ n. n) (λ d. d) 5000 4 (use_token 2) store).0 ≡ ok tokens
unfolding refresh
rotates = refl

abbrev kept : Store
kept = (refresh driver sign verified (λ n. n) (λ d. d) 5000 4 (use_token 6) store).1

reuse_fails :
    (refresh driver sign verified (λ n. n) (λ d. d) 5000 4 (use_token 6) store).0
    ≡ err AppError.unauthorized
unfolding refresh
reuse_fails = refl

reused_token_ends_its_family_example :
    ((refresh driver sign verified (λ n. n) (λ d. d) 5000 4 (use_token 6) store).0
      ≡ err AppError.unauthorized)
    × Dead 7 (refresh driver sign verified (λ n. n) (λ d. d) 5000 4 (use_token 6) store).1
reused_token_ends_its_family_example =
    reused_token_ends_its_family driver-IsMongo sign verified (λ n. n) (λ d. d) 5000 4 (use_token 6)
      store (claims 6) refl refl refl

store-IsRotating : IsRotating store.sessions
store-IsRotating = (λ jti. ground arith, λ f. ground arith)

refresh_keeps_one_active_session_example :
    IsRotating
      (refresh driver sign verified (λ n. n) (λ d. d) 5000 4 (use_token 2) store).1.sessions
refresh_keeps_one_active_session_example =
    refresh_keeps_one_active_session driver-IsMongo sign verified (λ n. n) 5000 4 (use_token 2)
      store store-IsRotating

raced_refresh_fails_example :
    (refresh driver sign verified
      (λ n. n)
      (λ _. (refresh driver sign verified (λ n. n) (λ d. d) 5000 4 (use_token 2) store).1)
      5001
      6
      (use_token 2)
      store).0
    ≢ ok tokens
raced_refresh_fails_example =
    raced_refresh_fails driver-IsMongo sign verified (λ n. n) 5000 4 5001 6 (use_token 2)
      (use_token 2) store store-IsRotating.0 refl tokens tokens rotates

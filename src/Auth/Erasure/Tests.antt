-- ===== src/Auth/Erasure/Tests.antt =====
-- A user with one session asks to be erased, and cancels.
use cashfb_backend.Prelude.{◌≡◌, false, none, some, [], ◌∷◌, any, refl, arith}
use cashfb_backend.Prelude.Int.{pos}
use cashfb_backend.Shared.Errors.{AppError}
use cashfb_backend.Shared.Exec.{err}
use cashfb_backend.Shared.Mongo.{driver, driver-IsMongo}
use cashfb_backend.Shared.User.{User, KycStatus}
use cashfb_backend.Auth.{Store, LoginSession}
use cashfb_backend.Auth.Sessions.{RefreshClaims, refresh, active_of_user}
use cashfb_backend.Auth.Erasure.{request, cancel}
use cashfb_backend.Auth.Erasure.Sessions.{
  erasure_locks_old_tokens_out, cancelled_erasure_restores_the_user,
}

abbrev ann : User
ann = record {
  id = 1;
  phone = 9;
  coin_balance = pos 10;
  total_coins_earned = pos 10;
  total_votes_cast = 0;
  token_version = 1;
  kyc_status = KycStatus.none;
  pan_last4 = none;
  is_blocked = false;
  last_vote_date = none;
  subscriptions = [];
  anonymized_at = none;
  referral_code = 0;
  referred_by = none;
  deleted_at = none;
  erasure_held = false;
  last_login_ip = none;
  last_login_at = none;
}

abbrev session : LoginSession
session = record {
  user_id = 1;
  jti = 2;
  device_id = some 5;
  device_fingerprint = none;
  refresh_token_hash = some 2;
  family = some 7;
  revoked_at = none;
  expires_at = 9000000;
}

abbrev claims : RefreshClaims
claims = record { sub = 1; jti = 2; family = 7; token_version = 1; iat = 1 }

abbrev store : Store
store = record {
  users = ann ∷ [];
  sessions = session ∷ [];
  devices = [];
  coin_txs = [];
  otp = record { otps = []; locks = λ _. none; fails = λ _. none; sent = [] };
  cutoffs = λ _. none;
}

erasure_locks_old_tokens_out_example :
    let db' = (request driver 1500 1 store).1 in
    (any (active_of_user 1) db'.sessions ≡ false)
    × ((refresh driver
          (λ c. c.jti)
          (λ n. some claims)
          (λ n. n)
          (λ d. d)
          1600
          3
          (record { refresh_token = 2; device_id = 5 })
          db').0
        ≡ err AppError.unauthorized)
erasure_locks_old_tokens_out_example =
    erasure_locks_old_tokens_out driver-IsMongo (λ c. c.jti) (λ n. some claims) (λ n. n) 1500 1
      store ann refl refl refl (λ d. d) 1600 3 (record { refresh_token = 2; device_id = 5 }) claims
      refl refl (omega arith)

cancelled_erasure_restores_the_user_example :
    let db' = (request driver 1500 1 store).1 in
    ((cancel driver 1 db').1.users ≡ store.users)
    × ((cancel driver 1 db').1.cutoffs 1 ≡ none)
    × (any (active_of_user 1) (cancel driver 1 db').1.sessions ≡ false)
cancelled_erasure_restores_the_user_example =
    cancelled_erasure_restores_the_user driver-IsMongo 1500 1 store ann refl refl refl refl

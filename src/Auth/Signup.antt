-- ===== src/Auth/Signup.antt =====
-- The OTP request, sign-up and login of src/modules/auth/auth.service.ts. A phone is the number that
-- its digits are.
pub mod Outcomes
pub mod Opening
pub mod Accounts
mod Tests
use cashfb_backend.Prelude.{
  ℕ, zero, suc, Bool, true, false, Option, none, some, List, [], ◌∷◌, ◌++◌, ◌+◌, ◌*◌, ◌/◌, ◌==◌,
  ◌&&◌, ◌||◌, not, ltb, is_some, any, length, first, if◌then◌else◌,
}
use cashfb_backend.Prelude.Int.{ℤ, pos, leb_ℤ}
use cashfb_backend.Shared.Age.{IstDate, age_in_years_ist}
use cashfb_backend.Shared.Errors.{
  AppError, underage, device_blocked, user_blocked, phone_already_registered,
  referral_code_exhausted,
}
use cashfb_backend.Shared.Exec.{
  Exec, Result, ok, err, pure, throw, gets, or_throw, update, modify, throw_if, ◌>>=◌, ◌>>◌,
}
use cashfb_backend.Shared.Mongo.{Mongo, update_one}
use cashfb_backend.Shared.User.{User, KycStatus}
use cashfb_backend.Wallet.{CoinTransaction, CoinTransactionType, has_id}
use cashfb_backend.Auth.{Store, LoginSession, Device}
use cashfb_backend.Auth.Otp.{Store as OtpStore, send, verify}
use cashfb_backend.Auth.Sessions.{RefreshClaims, AuthTokens, IssueInput, issue_tokens_and_session}

abbrev pub otp_resend_min_interval_ms : ℕ
otp_resend_min_interval_ms = 60 * 1000

abbrev pub signup_bonus_coins : ℕ
signup_bonus_coins = 3

abbrev pub referral_code_max_retries : ℕ
referral_code_max_retries = 5

abbrev pub linked_users_suspicious_threshold : ℕ
linked_users_suspicious_threshold = 3

abbrev pub suspicious_score_bump : ℕ
suspicious_score_bump = 10

pub record RequestOtpResult : Type 0 where
  pub requested_at : ℕ
  pub resend_allowed_at : ℕ

pub record SignupInput : Type 0 where
  pub phone : ℕ
  pub otp : ℕ
  pub dob : IstDate
  pub referral_code : Option ℕ
  pub device_id : ℕ
  pub device_fingerprint : ℕ
  pub ip_address : ℕ
  pub dev_bypass_otp : Bool

pub record LoginInput : Type 0 where
  pub phone : ℕ
  pub otp : ℕ
  pub device_id : ℕ
  pub device_fingerprint : ℕ
  pub ip_address : ℕ

abbrev pub mark_login : ℕ → ℕ → User → User
mark_login now ip_address u = record u { last_login_ip = some ip_address; last_login_at = some now }

pub record AuthedUserDto : Type 0 where
  pub id : ℕ
  pub phone : ℕ
  pub coin_balance : ℤ

-- What the run time gives a call: the time, the date in IST, whether `NODE_ENV` is development, the
-- random ids and the candidates that `generateReferralCode` would draw.
pub record Draws : Type 0 where
  pub now : ℕ
  pub today : IstDate
  pub development : Bool
  pub otp_id : ℕ
  pub otp : ℕ
  pub salt : ℕ
  pub user_id : ℕ
  pub jti : ℕ
  pub family : ℕ
  pub candidate : ℕ → ℕ

abbrev pub has_phone : ℕ → User → Bool
has_phone phone u = u.phone == phone

abbrev pub has_referral_code : ℕ → User → Bool
has_referral_code code u = u.referral_code == code

-- the unique keys of a user
abbrev pub same_user : User → User → Bool
same_user a b = has_id a.id b || (has_phone a.phone b || has_referral_code a.referral_code b)

abbrev pub has_fingerprint : ℕ → Device → Bool
has_fingerprint fingerprint d = d.fingerprint == fingerprint

-- `/^\+919999990\d{3}$/`
abbrev pub load_test_phone : ℕ → Bool
load_test_phone phone = phone / 1000 == 919999990

abbrev pub should_bypass_signup_otp : Bool → SignupInput → Bool
should_bypass_signup_otp development input =
    development && (load_test_phone input.phone && input.dev_bypass_otp)

-- a call of the OTP service
abbrev pub on_otp : {A : Type 0} → Exec OtpStore A → Exec Store A
on_otp f db = let (r, otp') = f db.otp in (r, record db { otp = otp' })

abbrev pub new_user : Draws → SignupInput → ℕ → Option ℕ → User
new_user d input referral_code referred_by = record {
  id = d.user_id;
  phone = input.phone;
  coin_balance = pos signup_bonus_coins;
  total_coins_earned = pos signup_bonus_coins;
  total_votes_cast = 0;
  token_version = 1;
  kyc_status = KycStatus.none;
  pan_last4 = none;
  is_blocked = false;
  last_vote_date = none;
  subscriptions = [];
  anonymized_at = none;
  referral_code = referral_code;
  referred_by = referred_by;
  deleted_at = none;
  erasure_held = false;
  last_login_ip = some input.ip_address;
  last_login_at = some d.now;
}

abbrev pub bonus_tx : Draws → CoinTransaction
bonus_tx d = record {
  user_id = d.user_id;
  type = CoinTransactionType.signup_bonus;
  amount = pos signup_bonus_coins;
  balance_after = pos signup_bonus_coins;
  reference = 0;
}

-- `$addToSet`
abbrev pub add_to_set : ℕ → List ℕ → List ℕ
add_to_set k ks = if any (λ j. j == k) ks then ks else ks ++ k ∷ []

abbrev pub link_user : ℕ → Device → Device
link_user user_id d = record d { linked_user_ids = add_to_set user_id d.linked_user_ids }

abbrev pub new_device : ℕ → ℕ → Device
new_device fingerprint user_id = record {
  fingerprint = fingerprint;
  first_seen_user_id = some user_id;
  linked_user_ids = user_id ∷ [];
  suspicious_score = 0;
  blocked = false;
}

-- `u?.blocked?.isBlocked`
abbrev pub blocked_user : Option User → Bool
blocked_user none = false
blocked_user (some u) = u.is_blocked

-- `sign` and `hash_token` stand for `signRefreshToken` and `hashRefreshToken`, `hash_otp` for the
-- SHA-256 of salt and OTP.
module _ (m : Mongo) (hash_otp : ℕ → ℕ → ℕ) (sign : RefreshClaims → ℕ)
    (verified : ℕ → Option RefreshClaims) (hash_token : ℕ → ℕ) where
  find_by_phone : ℕ → Store → Option User
  find_by_phone phone db = m.find_one User (has_phone phone) db.users

  -- whether the device is blocked, or linked to a blocked user
  unfoldable pub device_is_blocked : ℕ → Store → Bool
  device_is_blocked fingerprint db =
      elim (m.find_one Device (has_fingerprint fingerprint) db.devices) [
        | none ↦ false
        | some device ↦
            device.blocked
            || any (λ id. blocked_user (m.find_one User (has_id id) db.users))
                device.linked_user_ids
      ]

  enforce_device_not_blocked : ℕ → Exec Store (Unit {0})
  unfolding device_is_blocked
  enforce_device_not_blocked fingerprint = do
    blocked ← gets (device_is_blocked fingerprint)
    throw_if blocked (AppError.forbidden device_blocked)

  -- `delivers` tells whether the SMS sender succeeds
  pub request_signup_otp : Draws → Bool → ℕ → ℕ → Exec Store RequestOtpResult
  unfolding enforce_device_not_blocked find_by_phone
  request_signup_otp d delivers phone fingerprint = do
    enforce_device_not_blocked fingerprint
    existing ← gets (find_by_phone phone)
    elim existing [
      | some _ ↦ pure tt
      | none ↦ on_otp (send m hash_otp d.now d.otp_id d.otp d.salt delivers phone)
    ]
    pure (record { requested_at = d.now; resend_allowed_at = d.now + otp_resend_min_interval_ms })

  pub request_login_otp : Draws → Bool → ℕ → Exec Store RequestOtpResult
  unfolding find_by_phone
  request_login_otp d delivers phone = do
    user ← gets (find_by_phone phone)
    elim user [
      | none ↦ pure tt
      | some u ↦
          if u.is_blocked
          then pure tt
          else on_otp (send m hash_otp d.now d.otp_id d.otp d.salt delivers phone)
    ]
    pure (record { requested_at = d.now; resend_allowed_at = d.now + otp_resend_min_interval_ms })

  -- the loop with `fuel` attempts left, of which `attempt` is the first
  pub pick_unique_referral_code : ℕ → ℕ → (ℕ → ℕ) → List User → Option ℕ
  pick_unique_referral_code zero attempt candidate users = none
  pick_unique_referral_code (suc fuel) attempt candidate users =
      let rest = pick_unique_referral_code fuel (suc attempt) candidate users in
      if is_some (m.find_one User (has_referral_code (candidate attempt)) users)
      then rest
      else some (candidate attempt)

  link_device : ℕ → ℕ → Store → Store
  link_device fingerprint user_id db = record db {
    devices =
        m.upsert Device (has_fingerprint fingerprint) (link_user user_id)
          (new_device fingerprint user_id) db.devices;
  }

  -- the referrer, if the code is known
  pub resolve_referrer : Option ℕ → Store → Option ℕ
  resolve_referrer none db = none
  resolve_referrer (some code) db = elim (m.find_one User (has_referral_code code) db.users) [
    | none ↦ none
    | some referrer ↦ some referrer.id
  ]

  do_signup : Draws → SignupInput → ℕ → Option ℕ → Exec Store (AuthedUserDto × AuthTokens)
  unfolding link_device issue_tokens_and_session
  do_signup d input referral_code referred_by = do
    inserted ← gets (λ (db : Store).
        m.insert User same_user (new_user d input referral_code referred_by) db.users)
    users' ← or_throw (AppError.conflict phone_already_registered) inserted
    modify (λ (db : Store). record db { users = users' })
    modify (λ (db : Store). record db { coin_txs = db.coin_txs ++ bonus_tx d ∷ [] })
    modify (link_device input.device_fingerprint d.user_id)
    tokens ← issue_tokens_and_session m sign verified hash_token d.now d.jti (record {
      user_id = d.user_id;
      token_version = (new_user d input referral_code referred_by).token_version;
      device_id = input.device_id;
      device_fingerprint = some input.device_fingerprint;
      family = d.family;
    })
    pure (
      record { id = d.user_id; phone = input.phone; coin_balance = pos signup_bonus_coins },
      tokens,
    )

  maybe_bump_suspicion : ℕ → Store → Store
  maybe_bump_suspicion fingerprint db =
      elim (m.find_one Device (has_fingerprint fingerprint) db.devices) [
        | none ↦ db
        | some device ↦
            if ltb linked_users_suspicious_threshold (length device.linked_user_ids)
            then (let (found, devices') =
                  update_one m (has_fingerprint fingerprint)
                    (λ (x : Device). record x {
                      suspicious_score = x.suspicious_score + suspicious_score_bump;
                    })
                    db.devices in
                record db { devices = devices' })
            else db
      ]

  -- `between` is what other requests commit before the transaction
  pub verify_signup_otp :
      (Store → Store) → Draws → SignupInput → Exec Store (AuthedUserDto × AuthTokens)
  unfolding enforce_device_not_blocked resolve_referrer do_signup maybe_bump_suspicion
  verify_signup_otp between d input = do
    throw_if (not (leb_ℤ (pos 18) (age_in_years_ist d.today input.dob)))
        (AppError.forbidden underage)
    enforce_device_not_blocked input.device_fingerprint
    if should_bypass_signup_otp d.development input
        then pure tt
        else on_otp (verify m hash_otp d.now input.phone input.otp)
    referred_by ← gets (resolve_referrer input.referral_code)
    picked ←
        gets (λ (db : Store).
          pick_unique_referral_code referral_code_max_retries 0 d.candidate db.users)
    referral_code ← or_throw (AppError.internal referral_code_exhausted) picked
    modify between
    created ←
        m.with_transaction Store (AuthedUserDto × AuthTokens)
          (do_signup d input referral_code referred_by)
    modify (maybe_bump_suspicion input.device_fingerprint)
    pure created

  pub verify_login_otp : Draws → LoginInput → Exec Store (AuthedUserDto × AuthTokens)
  unfolding find_by_phone issue_tokens_and_session
  verify_login_otp d input = do
    on_otp (verify m hash_otp d.now input.phone input.otp)
    known ← gets (find_by_phone input.phone)
    user ← or_throw AppError.unauthorized known
    throw_if (is_some user.anonymized_at) AppError.unauthorized
    throw_if user.is_blocked (AppError.forbidden user_blocked)
    tokens ← issue_tokens_and_session m sign verified hash_token d.now d.jti (record {
      user_id = user.id;
      token_version = user.token_version;
      device_id = input.device_id;
      device_fingerprint = some input.device_fingerprint;
      family = d.family;
    })
    modify (λ (db : Store).
        let (found, users') =
          update_one m (has_id user.id) (mark_login d.now input.ip_address) db.users in
        record db { users = users' })
    pure (record { id = user.id; phone = user.phone; coin_balance = user.coin_balance }, tokens)

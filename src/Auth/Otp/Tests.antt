-- ===== src/Auth/Otp/Tests.antt =====
-- A phone with one OTP, before and after two wrong guesses.
use cashfb_backend.Prelude.{ℕ, ◌≡◌, ◌≢◌, ◌+◌, ◌*◌, refl, true, Option, none, some, [], ◌∷◌, arith}
use cashfb_backend.Shared.Errors.{AppError}
use cashfb_backend.Shared.Exec.{ok, err}
use cashfb_backend.Shared.Mongo.{driver, driver-IsMongo}
use cashfb_backend.Auth.Otp.{Store, Otp, FailCount, verify}
use cashfb_backend.Auth.Otp.Lockout.{locked_at, third_failure_locks}

abbrev otp : Otp
otp = record {
  id = 1;
  destination = 900;
  otp_hash = some 1007;
  salt = some 7;
  attempts = some 0;
  max_attempts = some 5;
  expires_at = 300000;
  consumed_at = none;
}

abbrev hash : ℕ → ℕ → ℕ
hash code salt = code * 10 + salt

abbrev no_fails : ℕ → Option FailCount
no_fails phone = none

abbrev two_fails : ℕ → Option FailCount
two_fails phone = some (record { count = 2; expires_at = 1800000 })

abbrev no_locks : ℕ → Option ℕ
no_locks phone = none

abbrev lock_all : ℕ → Option ℕ
lock_all phone = some 1800000

abbrev fresh_store : Store
fresh_store = record { otps = otp ∷ []; locks = no_locks; fails = no_fails; sent = [] }

abbrev suspect_store : Store
suspect_store = record { otps = otp ∷ []; locks = no_locks; fails = two_fails; sent = [] }

abbrev locked_store : Store
locked_store = record { otps = otp ∷ []; locks = lock_all; fails = two_fails; sent = [] }

accepted : (verify driver hash 100 900 100 fresh_store).0 ≡ ok tt
unfolding verify
accepted = refl

rejected : (verify driver hash 100 900 55 fresh_store).0 ≡ err AppError.unauthorized
unfolding verify
rejected = refl

shut : (verify driver hash 100 900 55 suspect_store).0 ≢ ok tt
unfolding verify
shut same = absurd (ground arith)

third_failure_locks_example :
    locked_at 100 900 (verify driver hash 100 900 55 suspect_store).1 ≡ true
third_failure_locks_example =
    third_failure_locks driver-IsMongo hash 100 900 55 suspect_store (refl, tt) (omega arith) shut

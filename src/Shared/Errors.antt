-- ===== src/Shared/Errors.antt =====
-- src/shared/errors/AppError.ts: the error classes, each with its `code`. Messages and `details`
-- are for people and are left out.
use cashfb_backend.Prelude.{ℕ}

-- the machine-readable codes that the services pass to the constructors
pub data Code : Type 0 where
  user_blocked tier_not_accessible insufficient_coins vote_already_cast : Code
  post_not_live post_not_completed invariant complete_failed : Code
  code_taken code_not_owned : Code
  otp_locked underage device_blocked device_mismatch phone_already_registered : Code
  room_state_invalid room_full register_failed result_already_entered feature_disabled : Code
  plan_not_configured invalid_signature invalid_cursor forbidden_owner referral_code_exhausted
        already_anonymized :
      Code

pub data AppError : Type 0 where
  validation unauthorized not_found rate_limited geo_blocked kyc_required : AppError
  bad_request payment_required forbidden conflict unprocessable internal : Code → AppError
  -- an error that is no `AppError`: a driver's or a provider's
  thrown : AppError

unfoldable pub http_status : AppError → ℕ
http_status AppError.validation = 400
http_status (AppError.bad_request c) = 400
http_status AppError.unauthorized = 401
http_status (AppError.payment_required c) = 402
http_status (AppError.forbidden c) = 403
http_status AppError.not_found = 404
http_status (AppError.conflict c) = 409
http_status (AppError.unprocessable c) = 422
http_status AppError.rate_limited = 429
http_status AppError.geo_blocked = 451
http_status AppError.kyc_required = 451
http_status (AppError.internal c) = 500
http_status AppError.thrown = 500

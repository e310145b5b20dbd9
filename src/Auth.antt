-- ===== src/Auth.antt =====
-- Sign-in: what the services of src/modules/auth share. A token, a hash, an id and any other string
-- that is only compared is a number; times are milliseconds, those of tokens and cutoffs seconds.
pub mod Otp
pub mod Sessions
pub mod Signup
pub mod Erasure
use cashfb_backend.Prelude.{ℕ, Bool, Option, List, ◌==◌, ◌&&◌, not, is_some}
use cashfb_backend.Shared.User.{User}
use cashfb_backend.Wallet.{CoinTransaction}
use cashfb_backend.Auth.Otp.{Store as OtpStore}

-- LoginSession.model.ts, less the user agent and the address, which only the views read
pub record LoginSession : Type 0 where
  pub user_id : ℕ
  pub jti : ℕ
  pub device_id : Option ℕ
  pub device_fingerprint : Option ℕ
  pub refresh_token_hash : Option ℕ
  pub family : Option ℕ
  pub revoked_at : Option ℕ
  pub expires_at : ℕ

-- DeviceFingerprint.model.ts
pub record Device : Type 0 where
  pub fingerprint : ℕ
  pub first_seen_user_id : Option ℕ
  pub linked_user_ids : List ℕ
  pub suspicious_score : ℕ
  pub blocked : Bool

pub record Store : Type 0 where
  pub users : List User
  pub sessions : List LoginSession
  pub devices : List Device
  pub coin_txs : List CoinTransaction
  -- the one-time passwords and the lockout store
  pub otp : OtpStore
  -- the force-logout denylist: the cutoff of a user, in seconds
  pub cutoffs : ℕ → Option ℕ

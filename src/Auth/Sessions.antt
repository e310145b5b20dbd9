-- ===== src/Auth/Sessions.antt =====
-- The login sessions of src/modules/auth/auth.service.ts: `issueTokensAndSession`, `refresh`, `logout`
-- and `logoutAll`, over LoginSession.repository.ts.
pub mod Rotation
pub mod SingleUse
mod Tests
use cashfb_backend.Prelude.{
  ℕ, Bool, true, false, Option, none, some, List, [], ◌∷◌, ◌++◌, ◌+◌, ◌*◌, ◌/◌, ◌==◌, ◌&&◌, not,
  leb, is_some, any, if◌then◌else◌,
}
use cashfb_backend.Shared.Errors.{AppError, invariant, device_mismatch, user_blocked}
use cashfb_backend.Shared.Exec.{
  Exec, Result, ok, err, pure, throw, gets, or_throw, update, modify, throw_if, ◌>>=◌, ◌>>◌,
}
use cashfb_backend.Shared.Mongo.{Mongo, update_one}
use cashfb_backend.Shared.User.{User}
use cashfb_backend.Wallet.{has_id}
use cashfb_backend.Redeem.{holds}
use cashfb_backend.Auth.{Store, LoginSession}

-- `RefreshClaims` of shared/jwt/signer.ts
pub record RefreshClaims : Type 0 where
  pub sub : ℕ
  pub jti : ℕ
  pub family : ℕ
  pub token_version : ℕ
  pub iat : ℕ

-- the access token, which no modelled service reads, is left out
pub record AuthTokens : Type 0 where
  pub refresh : ℕ
  pub access_expires_in : ℕ

-- `ACCESS_TTL_SEC` and `REFRESH_TTL_SEC`
abbrev pub access_ttl_sec : ℕ
access_ttl_sec = 15 * 60

abbrev pub refresh_ttl_sec : ℕ
refresh_ttl_sec = 30 * 24 * 60 * 60

pub record RefreshInput : Type 0 where
  pub refresh_token : ℕ
  pub device_id : ℕ

pub record IssueInput : Type 0 where
  pub user_id : ℕ
  pub token_version : ℕ
  pub device_id : ℕ
  pub device_fingerprint : Option ℕ
  pub family : ℕ

-- `revokedAt: { $exists: false }`
abbrev pub is_active : LoginSession → Bool
is_active s = not (is_some s.revoked_at)

abbrev pub in_family : ℕ → LoginSession → Bool
in_family family s = holds s.family family

abbrev pub active_in : ℕ → LoginSession → Bool
active_in family s = in_family family s && is_active s

abbrev pub with_hash : ℕ → LoginSession → Bool
with_hash hash s = holds s.refresh_token_hash hash

abbrev pub active_hash : ℕ → LoginSession → Bool
active_hash hash s = with_hash hash s && is_active s

abbrev pub active_jti : ℕ → LoginSession → Bool
active_jti jti s = (s.jti == jti) && is_active s

abbrev pub active_of_user : ℕ → LoginSession → Bool
active_of_user user_id s = (s.user_id == user_id) && is_active s

abbrev pub revoke : ℕ → LoginSession → LoginSession
revoke now s = record s { revoked_at = some now }

-- `cutoff !== null && claims.iat <= cutoff`
abbrev pub cut_off : ℕ → Option ℕ → Bool
cut_off iat none = false
cut_off iat (some cutoff) = leb iat cutoff

-- the unique index on `jti`
abbrev pub same_jti : LoginSession → LoginSession → Bool
same_jti a b = b.jti == a.jti

-- `sign` stands for `signRefreshToken`, `verified` for `verifyRefreshToken` (`none` if it throws),
-- `hash` for `hashRefreshToken`.
module _ (m : Mongo) (sign : RefreshClaims → ℕ) (verified : ℕ → Option RefreshClaims)
    (hash : ℕ → ℕ) where
  -- `LoginSessionRepository.revokeFamily`
  abbrev pub revoke_family : ℕ → ℕ → Store → Store
  revoke_family now family db = record db {
    sessions = m.update_many LoginSession (active_in family) (revoke now) db.sessions;
  }

  abbrev pub claims_of : ℕ → ℕ → IssueInput → RefreshClaims
  claims_of now jti input = record {
    sub = input.user_id;
    jti = jti;
    family = input.family;
    token_version = input.token_version;
    iat = now / 1000;
  }

  abbrev pub session_document : ℕ → ℕ → IssueInput → LoginSession
  session_document now jti input = record {
    user_id = input.user_id;
    jti = jti;
    device_id = some input.device_id;
    device_fingerprint = input.device_fingerprint;
    refresh_token_hash = some (hash (sign (claims_of now jti input)));
    family = some input.family;
    revoked_at = none;
    expires_at = now + refresh_ttl_sec * 1000;
  }

  -- `jti` is the new random id; so is `input.family` where the source draws one
  unfoldable pub issue_tokens_and_session : ℕ → ℕ → IssueInput → Exec Store AuthTokens
  issue_tokens_and_session now jti input = do
    inserted ←
        gets (λ db. m.insert LoginSession same_jti (session_document now jti input) db.sessions)
    sessions' ← or_throw AppError.thrown inserted
    modify (λ (db : Store). record db { sessions = sessions' })
    pure (record { refresh = sign (claims_of now jti input); access_expires_in = access_ttl_sec })

  -- the branches that revoke the family before they throw
  abbrev pub refuse : {A : Type 0} → ℕ → ℕ → AppError → Exec Store A
  refuse now family e = modify (revoke_family now family) >> throw e

  revoke_session : ℕ → ℕ → Store → Bool × Store
  revoke_session now jti db =
      let (found, sessions') = update_one m (active_jti jti) (revoke now) db.sessions in
      (found, record db { sessions = sessions' })

  -- the callback of `withTransaction`; `none` is `raceDetected`
  rotate : ℕ → ℕ → LoginSession → IssueInput → Exec Store (Option AuthTokens)
  unfolding revoke_session issue_tokens_and_session
  rotate now jti session input = do
    won ← update (revoke_session now session.jti)
    elim won [
      | false ↦ pure none
      | true ↦ do tokens ← issue_tokens_and_session now jti input; pure (some tokens)
    ]

  -- from the user's look-up on; `between` is what other requests commit before the transaction
  refresh_for_user :
      (Store → Store)
      → ℕ
      → ℕ
      → RefreshInput
      → RefreshClaims
      → LoginSession
      → ℕ
      → Exec Store AuthTokens
  unfolding rotate
  refresh_for_user between now jti input claims session family = do
    known ← gets (λ db. m.find_one User (has_id claims.sub) db.users)
    user ← or_throw AppError.unauthorized known
    if is_some user.anonymized_at
        then refuse now claims.family AppError.unauthorized
        else if user.is_blocked
        then throw (AppError.forbidden user_blocked)
        else if not (claims.token_version == user.token_version)
        then refuse now claims.family AppError.unauthorized
        else (do
          modify between
          rotated ← m.with_transaction Store (Option AuthTokens) (
              rotate now jti session (record {
                user_id = user.id;
                token_version = user.token_version;
                device_id = input.device_id;
                device_fingerprint = session.device_fingerprint;
                family = family;
              }))
          elim rotated [
            | none ↦ refuse now family AppError.unauthorized
            | some tokens ↦ pure tokens
          ])

  refresh_session :
      (Store → Store)
      → ℕ
      → ℕ
      → RefreshInput
      → RefreshClaims
      → Option LoginSession
      → Exec Store AuthTokens
  unfolding refresh_for_user
  refresh_session between now jti input claims none = do
    family_has_any ←
        gets (λ db. is_some (m.find_one LoginSession (in_family claims.family) db.sessions))
    if family_has_any
        then refuse now claims.family AppError.unauthorized
        else throw AppError.unauthorized
  refresh_session between now jti input claims (some session) = do
    family ← or_throw (AppError.internal invariant) session.family
    if not (holds session.device_id input.device_id)
        then refuse now family (AppError.forbidden device_mismatch)
        else refresh_for_user between now jti input claims session family

  pub refresh : (Store → Store) → ℕ → ℕ → RefreshInput → Exec Store AuthTokens
  unfolding refresh_session
  refresh between now jti input = do
    claims ← or_throw AppError.unauthorized (verified input.refresh_token)
    cutoff ← gets (λ db. db.cutoffs claims.sub)
    if cut_off claims.iat cutoff then refuse now claims.family AppError.unauthorized else (do
      found ←
          gets (λ db. m.find_one LoginSession (active_hash (hash input.refresh_token)) db.sessions)
      refresh_session between now jti input claims found)

  pub logout : ℕ → ℕ → ℕ → Store → Store
  logout now refresh_token user_id db =
      let (found, sessions') =
        update_one m (λ s. with_hash (hash refresh_token) s && (s.user_id == user_id)) (revoke now)
          db.sessions in
      record db { sessions = sessions' }

  -- how many were revoked, and the store
  pub logout_all : ℕ → ℕ → Store → ℕ × Store
  logout_all now user_id db = (
    m.count LoginSession (active_of_user user_id) db.sessions,
    record db {
      sessions = m.update_many LoginSession (active_of_user user_id) (revoke now) db.sessions;
    },
  )

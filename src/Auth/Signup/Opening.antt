-- ===== src/Auth/Signup/Opening.antt =====
-- The device that a sign-up comes from, and the account that it opens.
use cashfb_backend.Prelude.{
  ℕ, ◌≡◌, ◌≢◌, ◌⊎◌, inl, inr, false, Option, some, none, List, [], ◌∷◌, ◌++◌, any, arith, refl,
  first, All, Option-cases,
}
use cashfb_backend.Prelude.Int.{pos}
use cashfb_backend.Shared.Mongo.{driver}
use cashfb_backend.Shared.User.{User}
use cashfb_backend.Wallet.{CoinTransaction, CoinTransactionType, has_id}
use cashfb_backend.Auth.{Store, LoginSession, Device}
use cashfb_backend.Auth.Sessions.{RefreshClaims, session_document, same_jti}
use cashfb_backend.Auth.Signup.{
  Draws, SignupInput, device_is_blocked, blocked_user, new_user, bonus_tx, same_user,
  has_fingerprint,
}
use cashfb_backend.Auth.Signup.Outcomes.{Created, signup_session}

-- The users' document with that id is missing, or not blocked.
abbrev pub IsWelcome : List User → ℕ → Type 0
IsWelcome users id =
    (first (has_id id) users ≡ none)
    ⊎ ((u : User) × (first (has_id id) users ≡ some u) × (u.is_blocked ≡ false))

-- The device is not known, or it is not blocked and neither is any user linked to it.
abbrev pub IsClear : ℕ → Store → Type 0
IsClear fingerprint db =
    (first (has_fingerprint fingerprint) db.devices ≡ none)
    ⊎ ((device : Device) × (first (has_fingerprint fingerprint) db.devices ≡ some device)
        × (device.blocked ≡ false)
        × All (IsWelcome db.users) device.linked_user_ids)

-- What a sign-up adds: a user with 3 coins, whose id, phone and referral code nobody else has, a
-- transaction of these coins, and a session that is not revoked.
abbrev pub Opened : Draws → SignupInput → Store → Store → Type 0
Opened d input db db' =
    (user : User) × (tx : CoinTransaction) × (session : LoginSession) × (db'.users
      ≡ db.users ++ user ∷ [])
    × (db'.coin_txs ≡ db.coin_txs ++ tx ∷ [])
    × (db'.sessions ≡ db.sessions ++ session ∷ [])
    × All (λ v. (v.id ≢ user.id) × (v.phone ≢ user.phone) × (v.referral_code ≢ user.referral_code))
        db.users
    × All (λ s. s.jti ≢ session.jti) db.sessions
    × (user.id ≡ d.user_id)
    × (user.phone ≡ input.phone)
    × (user.coin_balance ≡ pos 3)
    × (user.total_coins_earned ≡ pos 3)
    × (user.token_version ≡ 1)
    × (user.is_blocked ≡ false)
    × (tx.user_id ≡ d.user_id)
    × (tx.type ≡ CoinTransactionType.signup_bonus)
    × (tx.amount ≡ pos 3)
    × (tx.balance_after ≡ pos 3)
    × (session.user_id ≡ d.user_id)
    × (session.jti ≡ d.jti)
    × (session.revoked_at ≡ none)

all_let_in :
    (users : List User) (ids : List ℕ)
    → any (λ id. blocked_user (first (has_id id) users)) ids ≡ false
    → All (IsWelcome users) ids
all_let_in users [] h = tt
all_let_in users (id ∷ ids) h = (
  elim (Option-cases (first (has_id id) users)) [
    | inl nobody ↦ inl nobody
    | inr (u, there) ↦ inr (u, there, ground (arith, there))
  ],
  all_let_in users ids (ground arith),
)

others_differ :
    (user : User) (users : List User)
    → any (same_user user) users ≡ false
    → All
        (λ v. (v.id ≢ user.id) × (v.phone ≢ user.phone) × (v.referral_code ≢ user.referral_code))
        users
others_differ user [] h = tt
others_differ user (v ∷ vs) h = (
  (λ same. ground (arith, same), λ same. ground (arith, same), λ same. ground (arith, same)),
  others_differ user vs (ground arith),
)

new_jti :
    (session : LoginSession) (sessions : List LoginSession)
    → any (same_jti session) sessions ≡ false
    → All (λ s. s.jti ≢ session.jti) sessions
new_jti session [] h = tt
new_jti session (s ∷ ss) h = (λ same. ground (arith, same), new_jti session ss (ground arith))

module _ (hash_otp : ℕ → ℕ → ℕ) (sign : RefreshClaims → ℕ) (verified : ℕ → Option RefreshClaims)
    (hash_token : ℕ → ℕ) where
  pub device_is_blocked-IsClear :
      (fingerprint : ℕ) (db : Store)
      → device_is_blocked driver hash_otp sign verified hash_token fingerprint db ≡ false
      → IsClear fingerprint db
  unfolding device_is_blocked
  device_is_blocked-IsClear fingerprint db h =
      elim (Option-cases (first (has_fingerprint fingerprint) db.devices)) [
        | inl unknown_ ↦ inl unknown_
        | inr (device, there) ↦ inr (
          device,
          there,
          ground (arith, there),
          all_let_in db.users device.linked_user_ids (ground (arith, there)),
        )
      ]

  pub Created-Opened :
      (d : Draws) (input : SignupInput) (code : ℕ) (referrer : Option ℕ) (db db' : Store)
      → Created
          (new_user d input code referrer)
          d
          (session_document driver sign verified hash_token d.now d.jti (signup_session d input))
          db
          db'
      → Opened d input db db'
  Created-Opened d input code referrer db db' (fresh, users, txs, unused, sessions) =
      let user = new_user d input code referrer in
      let session =
        session_document driver sign verified hash_token d.now d.jti (signup_session d input) in
      (
        user,
        bonus_tx d,
        session,
        users,
        txs,
        sessions,
        others_differ user db.users fresh,
        new_jti session db.sessions unused,
        refl,
        refl,
        refl,
        refl,
        refl,
        refl,
        refl,
        refl,
        refl,
        refl,
        refl,
        refl,
        refl,
      )

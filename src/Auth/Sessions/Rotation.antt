-- ===== src/Auth/Sessions/Rotation.antt =====
-- The rotation of refresh tokens: what a refresh that succeeds leaves, and what one that fails does.
use cashfb_backend.Prelude.{
  ℕ, ◌≡◌, ◌⊎◌, inl, inr, true, false, ◌==◌, Option, none, some, List, [], ◌∷◌, ◌++◌, any, first,
  change_first, change_all, change_first-absent, is_some-first, arith, refl, Option-cases,
  Bool-cases,
}
use cashfb_backend.Shared.Errors.{AppError}
use cashfb_backend.Shared.Exec.{ok, err}
use cashfb_backend.Shared.Mongo.{Mongo, IsMongo, Mongo-eq, driver}
use cashfb_backend.Shared.User.{User}
use cashfb_backend.Wallet.{has_id}
use cashfb_backend.Redeem.{holds}
use cashfb_backend.Auth.{Store, LoginSession}
use cashfb_backend.Auth.Sessions.{
  RefreshClaims, RefreshInput, IssueInput, AuthTokens, refresh, in_family, active_in, active_hash,
  active_jti, active_of_user, revoke, session_document, same_jti, cut_off,
}

-- no session of the family is active
abbrev pub Dead : ℕ → Store → Type 0
Dead family db = any (active_in family) db.sessions ≡ false

-- the store with every active session of the family revoked
abbrev pub family_revoked : ℕ → ℕ → Store → Store
family_revoked now family db = record db {
  sessions = change_all (active_in family) (revoke now) db.sessions;
}

pub revoked_family :
    (now family : ℕ) (ss : List LoginSession)
    → any (active_in family) (change_all (active_in family) (revoke now) ss) ≡ false
revoked_family now family [] = refl
revoked_family now family (s ∷ ss) = ground (arith, revoked_family now family ss)

pub revoked_user :
    (now user_id : ℕ) (ss : List LoginSession)
    → any (active_of_user user_id) (change_all (active_of_user user_id) (revoke now) ss) ≡ false
revoked_user now user_id [] = refl
revoked_user now user_id (s ∷ ss) = ground (arith, revoked_user now user_id ss)

-- What the code requires of a refresh: the claims of the token, its session, the session's family
-- and the user.
abbrev pub Admitted :
    (ℕ → Option RefreshClaims)
    → (ℕ → ℕ)
    → RefreshInput
    → RefreshClaims
    → LoginSession
    → ℕ
    → User
    → Store
    → Type 0
Admitted verified hash input c s family u db =
    (verified input.refresh_token ≡ some c)
    × (cut_off c.iat (db.cutoffs c.sub) ≡ false)
    × (first (active_hash (hash input.refresh_token)) db.sessions ≡ some s)
    × (s.family ≡ some family)
    × (holds s.device_id input.device_id ≡ true)
    × (first (has_id c.sub) db.users ≡ some u)
    × (u.anonymized_at ≡ none)
    × (u.is_blocked ≡ false)
    × (c.token_version ≡ u.token_version)

-- What a rotation does to the sessions: the session `s` is revoked and `doc` is added.
abbrev pub Rotated :
    ℕ → LoginSession → LoginSession → List LoginSession → List LoginSession → Type 0
Rotated now s doc ss ss' =
    (any (active_jti s.jti) ss ≡ true)
    × (any (same_jti doc) (change_first (active_jti s.jti) (revoke now) ss) ≡ false)
    × (ss' ≡ change_first (active_jti s.jti) (revoke now) ss ++ doc ∷ [])

abbrev pub rotation_input : RefreshInput → LoginSession → ℕ → User → IssueInput
rotation_input input s family u = record {
  user_id = u.id;
  token_version = u.token_version;
  device_id = input.device_id;
  device_fingerprint = s.device_fingerprint;
  family = family;
}

module _ (sign : RefreshClaims → ℕ) (verified : ℕ → Option RefreshClaims) (hash : ℕ → ℕ)
    (between : Store → Store) (now jti : ℕ) (input : RefreshInput) (db : Store) where
  pub refresh-Rotated :
      (t : AuthTokens)
      → (refresh driver sign verified hash between now jti input db).0 ≡ ok t
      → (c : RefreshClaims) × (s : LoginSession) × (family : ℕ) × (u : User) × Admitted verified
          hash input c s family u db
        × Rotated now s
            (session_document driver sign verified hash now jti (rotation_input input s family u))
            (between db).sessions
            (refresh driver sign verified hash between now jti input db).1.sessions
  unfolding refresh
  refresh-Rotated t r = elim (Option-cases (verified input.refresh_token)) [
    | inl bad ↦ absurd (ground arith)
    | inr (c, good) ↦
        elim (Option-cases (first (active_hash (hash input.refresh_token)) db.sessions)) [
          | inl bad ↦ absurd (ground arith)
          | inr (s, found) ↦ elim (Option-cases s.family) [
            | inl bad ↦ absurd (ground arith)
            | inr (family, known) ↦ elim (Option-cases (first (has_id c.sub) db.users)) [
              | inl bad ↦ absurd (ground arith)
              | inr (u, there) ↦ (
                c,
                s,
                family,
                u,
                (
                  good,
                  ground arith,
                  found,
                  known,
                  ground arith,
                  there,
                  ground arith,
                  ground arith,
                  ground arith,
                ),
                (
                  ground (arith, is_some-first (active_jti s.jti) (between db).sessions),
                  ground arith,
                  ground arith,
                ),
              )
            ]
          ]
        ]
  ]

  pub refused :
      (e : AppError)
      → (refresh driver sign verified hash between now jti input db).0 ≡ err e
      → let db' = (refresh driver sign verified hash between now jti input db).1 in
        (db' ≡ db)
        ⊎ ((db' ≡ between db)
            ⊎ ((family : ℕ) × ((db' ≡ family_revoked now family db)
                  ⊎ (db' ≡ family_revoked now family (between db)))))
  unfolding refresh
  refused e r = elim (Option-cases (verified input.refresh_token)) [
    | inl bad ↦ ground arith
    | inr (c, good) ↦ elim (Bool-cases (cut_off c.iat (db.cutoffs c.sub))) [
      | inl cut ↦ inr (inr (c.family, inl (ground arith)))
      | inr uncut ↦
          elim (Option-cases (first (active_hash (hash input.refresh_token)) db.sessions)) [
            | inl bad ↦ elim (Bool-cases (any (in_family c.family) db.sessions)) [
              | inl known ↦ inr (
                  inr (
                    c.family,
                    inl (ground (arith, is_some-first (in_family c.family) db.sessions)),
                  ))
              | inr unknown ↦ ground (arith, is_some-first (in_family c.family) db.sessions)
            ]
            | inr (s, found) ↦ elim (Option-cases s.family) [
              | inl bad ↦ ground arith
              | inr (family, known) ↦ elim (Bool-cases (holds s.device_id input.device_id)) [
                | inr other ↦ inr (inr (family, inl (ground arith)))
                | inl mine ↦ elim (Option-cases (first (has_id c.sub) db.users)) [
                  | inl nobody ↦ ground arith
                  | inr (u, there) ↦ elim (Option-cases u.anonymized_at) [
                    | inr (t, erased) ↦ inr (inr (c.family, inl (ground arith)))
                    | inl present ↦ elim (Bool-cases u.is_blocked) [
                      | inl blocked ↦ ground arith
                      | inr welcome ↦ elim (Bool-cases (c.token_version == u.token_version)) [
                        | inr old ↦ inr (inr (c.family, inl (ground arith)))
                        | inl current ↦
                            elim (Option-cases (first (active_jti s.jti) (between db).sessions)) [
                              | inl raced ↦ inr (
                                  inr (
                                    family,
                                    inr (
                                        ground (
                                          arith,
                                          change_first-absent (active_jti s.jti) (revoke now)
                                              (between db).sessions raced,
                                        )),
                                  ))
                              | inr (s', still) ↦ ground arith
                            ]
                      ]
                    ]
                  ]
                ]
              ]
            ]
          ]
    ]
  ]

  -- a token that is as old as the cutoff, or older
  pub cut_off_refresh :
      (c : RefreshClaims)
      → verified input.refresh_token ≡ some c
      → cut_off c.iat (db.cutoffs c.sub) ≡ true
      → (refresh driver sign verified hash between now jti input db).0 ≡ err AppError.unauthorized
  unfolding refresh
  cut_off_refresh c good cut = ground arith

  pub reused :
      (c : RefreshClaims)
      → verified input.refresh_token ≡ some c
      → any (active_hash (hash input.refresh_token)) db.sessions ≡ false
      → any (in_family c.family) db.sessions ≡ true
      → ((refresh driver sign verified hash between now jti input db).0 ≡ err AppError.unauthorized)
        × Dead c.family (refresh driver sign verified hash between now jti input db).1
  unfolding refresh
  reused c good gone known = ground (
    arith,
    is_some-first (active_hash (hash input.refresh_token)) db.sessions,
    is_some-first (in_family c.family) db.sessions,
    revoked_family now c.family db.sessions,
  )

module _ {m : Mongo} (h : IsMongo m) (sign : RefreshClaims → ℕ)
    (verified : ℕ → Option RefreshClaims) (hash : ℕ → ℕ) where
  -- A refresh that fails leaves the store as it found it, or as other requests left it, or one of
  -- these with every active session of one family revoked.
  pub failed_refresh :
      (between : Store → Store) (now jti : ℕ) (input : RefreshInput) (db : Store) (e : AppError)
      → (refresh m sign verified hash between now jti input db).0 ≡ err e
      → let db' = (refresh m sign verified hash between now jti input db).1 in
        (db' ≡ db)
        ⊎ ((db' ≡ between db)
            ⊎ ((family : ℕ) × ((db' ≡ family_revoked now family db)
                  ⊎ (db' ≡ family_revoked now family (between db)))))
  failed_refresh = rw (Mongo-eq h) (refused sign verified hash)

  -- A token that verifies, of a family that is known, but whose session is no longer active, is
  -- refused, and no session of the family stays active.
  pub reused_token_ends_its_family :
      (between : Store → Store) (now jti : ℕ) (input : RefreshInput) (db : Store)
      (c : RefreshClaims)
      → verified input.refresh_token ≡ some c
      → any (active_hash (hash input.refresh_token)) db.sessions ≡ false
      → any (in_family c.family) db.sessions ≡ true
      → ((refresh m sign verified hash between now jti input db).0 ≡ err AppError.unauthorized)
        × Dead c.family (refresh m sign verified hash between now jti input db).1
  reused_token_ends_its_family = rw (Mongo-eq h) (reused sign verified hash)

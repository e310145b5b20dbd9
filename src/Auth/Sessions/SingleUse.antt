-- ===== src/Auth/Sessions/SingleUse.antt =====
-- Refreshes and the number of active sessions: one refresh, and two that race.
use cashfb_backend.Prelude.{
  ℕ, ◌≡◌, ◌≢◌, ◌≤◌, ◌+◌, inl, inr, Bool, false, ◌==◌, Option, some, List, [], ◌∷◌, any, any-append,
  tally, tally-append, first, change_first, change_all, arith, refl, sym, ap, ◌∙◌, subst, ==_iff,
  Bool-cases, if◌then◌else◌,
}
use cashfb_backend.Shared.Exec.{ok, Result-cases}
use cashfb_backend.Shared.Mongo.{Mongo, IsMongo, Mongo-eq, driver}
use cashfb_backend.Auth.{Store, LoginSession}
use cashfb_backend.Auth.Sessions.{
  RefreshClaims, RefreshInput, AuthTokens, refresh, active_in, active_hash, active_jti, revoke,
  same_jti, session_document,
}
use cashfb_backend.Auth.Sessions.Rotation.{
  Rotated, refresh-Rotated, refused, family_revoked, rotation_input,
}

abbrev pub has_jti : ℕ → LoginSession → Bool
has_jti jti s = s.jti == jti

-- What the unique index on `jti` keeps.
abbrev pub UniqueJti : List LoginSession → Type 0
UniqueJti ss = (jti : ℕ) → tally (has_jti jti) ss ≤ 1

-- a session that a token finds is there under its jti
found_jti :
    (h : ℕ) (ss : List LoginSession) (s : LoginSession)
    → first (active_hash h) ss ≡ some s
    → 1 ≤ tally (has_jti s.jti) ss
found_jti h [] s e = absurd (ground arith)
found_jti h (x ∷ ss) s e = elim (Bool-cases (active_hash h x)) [
  | inl hit ↦ ground arith
  | inr miss ↦ ground (arith, found_jti h ss s (rw miss at e))
]

absent_jti :
    (jti : ℕ) (ss : List LoginSession)
    → tally (has_jti jti) ss ≡ 0
    → any (active_jti jti) ss ≡ false
absent_jti jti [] e = refl
absent_jti jti (x ∷ ss) e = elim (Bool-cases (has_jti jti x)) [
  | inl hit ↦ absurd (ground arith)
  | inr miss ↦ ground (arith, absent_jti jti ss (ground arith))
]

module _ (now h : ℕ) where
  -- the revocation takes the session that the token found out of its family's active ones
  revoked_found :
      (ss : List LoginSession) (s : LoginSession) (family : ℕ)
      → tally (has_jti s.jti) ss ≤ 1
      → first (active_hash h) ss ≡ some s
      → s.family ≡ some family
      → (f : ℕ)
      → tally (active_in f) (change_first (active_jti s.jti) (revoke now) ss)
          + (if family == f then 1 else 0)
        ≡ tally (active_in f) ss
  revoked_found [] s family unique found known f = absurd (ground arith)
  revoked_found (x ∷ ss) s family unique found known f = elim (Bool-cases (active_hash h x)) [
    | inl hit ↦ ground arith
    | inr miss ↦ elim (Bool-cases (has_jti s.jti x)) [
      | inl twice ↦ absurd (ground (arith, found_jti h ss s (rw miss at found)))
      | inr other ↦
          ground (arith, revoked_found ss s family (ground arith) (rw miss at found) known f)
    ]
  ]

tally-revoked :
    (now family f : ℕ) (ss : List LoginSession)
    → tally (active_in f) (change_all (active_in family) (revoke now) ss) ≤ tally (active_in f) ss
tally-revoked now family f [] = omega arith
tally-revoked now family f (x ∷ ss) = ground (arith, tally-revoked now family f ss)

jti-revoked :
    (now family jti : ℕ) (ss : List LoginSession)
    → tally (has_jti jti) (change_all (active_in family) (revoke now) ss) ≡ tally (has_jti jti) ss
jti-revoked now family jti [] = refl
jti-revoked now family jti (x ∷ ss) = ground (arith, jti-revoked now family jti ss)

jti-changed :
    (now j jti : ℕ) (ss : List LoginSession)
    → tally (has_jti jti) (change_first (active_jti j) (revoke now) ss) ≡ tally (has_jti jti) ss
jti-changed now j jti [] = refl
jti-changed now j jti (x ∷ ss) = ground (arith, jti-changed now j jti ss)

unclashed :
    (d : LoginSession) (ss : List LoginSession)
    → any (same_jti d) ss ≡ false
    → tally (has_jti d.jti) ss ≡ 0
unclashed d [] e = refl
unclashed d (x ∷ ss) e = ground (arith, unclashed d ss)

-- At most one active session in a family, and one session per jti.
abbrev pub IsRotating : List LoginSession → Type 0
IsRotating ss = UniqueJti ss × ((family : ℕ) → tally (active_in family) ss ≤ 1)

module _ (sign : RefreshClaims → ℕ) (verified : ℕ → Option RefreshClaims) (hash : ℕ → ℕ) where
  revoked-IsRotating :
      (now family : ℕ) (db : Store)
      → IsRotating db.sessions
      → IsRotating (family_revoked now family db).sessions
  revoked-IsRotating now family db h = (
    λ jti. omega (arith, h.0 jti, jti-revoked now family jti db.sessions),
    λ f. omega (arith, h.1 f, tally-revoked now family f db.sessions),
  )

  refresh-IsRotating :
      (now jti : ℕ) (input : RefreshInput) (db : Store)
      → IsRotating db.sessions
      → IsRotating (refresh driver sign verified hash (λ d. d) now jti input db).1.sessions
  refresh-IsRotating now jti input db h =
      elim (Result-cases (refresh driver sign verified hash (λ d. d) now jti input db).0) [
        | inl (t, r) ↦
            let (c, s, family, u, a, w) =
              refresh-Rotated sign verified hash (λ d. d) now jti input db t r in
            let doc =
              session_document driver sign verified hash now jti
                (rotation_input input s family u) in
            let ss' = change_first (active_jti s.jti) (revoke now) db.sessions in
            (
              λ k. rw w.2 (
                  ground (
                    arith,
                    h.0 k,
                    tally-append (has_jti k) ss' (doc ∷ []),
                    jti-changed now s.jti k db.sessions,
                    unclashed doc ss' w.1,
                  )),
              λ f. rw w.2 (
                  ground (
                    arith,
                    h.1 f,
                    tally-append (active_in f) ss' (doc ∷ []),
                    revoked_found now (hash input.refresh_token) db.sessions s family (h.0 s.jti)
                        a.2 a.3 f,
                  )),
            )
        | inr (e, r) ↦ elim (refused sign verified hash (λ d. d) now jti input db e r) [
          | inl same ↦ rw same h
          | inr (inl same) ↦ rw same h
          | inr (inr (family, inl dead)) ↦ rw dead (revoked-IsRotating now family db h)
          | inr (inr (family, inr dead)) ↦ rw dead (revoked-IsRotating now family db h)
        ]
      ]

-- the revocation leaves no active session with the jti
revoked_jti :
    (now h : ℕ) (ss : List LoginSession) (s : LoginSession)
    → tally (has_jti s.jti) ss ≤ 1
    → first (active_hash h) ss ≡ some s
    → any (active_jti s.jti) (change_first (active_jti s.jti) (revoke now) ss) ≡ false
revoked_jti now h [] s unique found = refl
revoked_jti now h (x ∷ ss) s unique found = elim (Bool-cases (active_hash h x)) [
  | inl hit ↦ ground (arith, absent_jti s.jti ss (ground arith))
  | inr miss ↦ elim (Bool-cases (has_jti s.jti x)) [
    | inl twice ↦ absurd (ground (arith, found_jti h ss s (rw miss at found)))
    | inr other ↦ ground (arith, revoked_jti now h ss s (ground arith) (rw miss at found))
  ]
]

-- so a rotation leaves none either
spent :
    (now h : ℕ) (ss ss' : List LoginSession) (s doc : LoginSession)
    → tally (has_jti s.jti) ss ≤ 1
    → first (active_hash h) ss ≡ some s
    → Rotated now s doc ss ss'
    → any (active_jti s.jti) ss' ≡ false
spent now h ss ss' s doc unique found w =
    let left = change_first (active_jti s.jti) (revoke now) ss in
    let absent : tally (has_jti doc.jti) ss ≡ 0 =
      omega (arith, unclashed doc left w.1, jti-changed now s.jti doc.jti ss) in
    let fresh : (doc.jti == s.jti) ≡ false = elim (Bool-cases (doc.jti == s.jti)) [
      | inl clash ↦ absurd (
          omega (
            arith,
            found_jti h ss s found,
            subst (λ j. tally (has_jti j) ss ≡ 0) ((==_iff doc.jti s.jti).0 clash) absent,
          ))
      | inr no_clash ↦ no_clash
    ] in
    rw
      (
        w.2,
        any-append (active_jti s.jti) left (doc ∷ []),
        revoked_jti now h ss s unique found,
        fresh,
      )
      refl

module _ (sign : RefreshClaims → ℕ) (verified : ℕ → Option RefreshClaims) (hash : ℕ → ℕ) where
  raced_refresh :
      (now jti now' jti' : ℕ) (input input' : RefreshInput) (db : Store)
      → UniqueJti db.sessions
      → input.refresh_token ≡ input'.refresh_token
      → (t t' : AuthTokens) → (refresh driver sign verified hash (λ d. d) now jti input db).0 ≡ ok t
      → (refresh driver sign verified hash
          (λ _. (refresh driver sign verified hash (λ d. d) now jti input db).1)
          now'
          jti'
          input'
          db).0
        ≢ ok t'
  raced_refresh now jti now' jti' input input' db unique same t t' r r' =
      let (c, s, family, u, a, w) =
        refresh-Rotated sign verified hash (λ d. d) now jti input db t r in
      let (c', s', family', u', a', w') =
        refresh-Rotated sign verified hash
          (λ _. (refresh driver sign verified hash (λ d. d) now jti input db).1) now' jti' input' db
          t' r' in
      let one : some s' ≡ some s =
        sym a'.2 ∙ (ap (λ token. first (active_hash (hash token)) db.sessions) (sym same) ∙ a.2) in
      let gone = spent now (hash input.refresh_token) db.sessions _ s _ (unique s.jti) a.2 w in
      ground (arith, one, gone, w'.0)

module _ {m : Mongo} (h : IsMongo m) (sign : RefreshClaims → ℕ)
    (verified : ℕ → Option RefreshClaims) (hash : ℕ → ℕ) where
  -- However a refresh that no other request interrupts ends, with sessions that have one active one
  -- per family at most and a jti each, it leaves them so.
  pub refresh_keeps_one_active_session :
      (now jti : ℕ) (input : RefreshInput) (db : Store)
      → IsRotating db.sessions
      → IsRotating (refresh m sign verified hash (λ d. d) now jti input db).1.sessions
  refresh_keeps_one_active_session = rw (Mongo-eq h) (refresh-IsRotating sign verified hash)

  -- Of two refreshes with one token, the second of which looked its session up before the first
  -- committed, the second fails if the first succeeded: sessions have a jti each.
  pub raced_refresh_fails :
      (now jti now' jti' : ℕ) (input input' : RefreshInput) (db : Store)
      → UniqueJti db.sessions
      → input.refresh_token ≡ input'.refresh_token
      → (t t' : AuthTokens) → (refresh m sign verified hash (λ d. d) now jti input db).0 ≡ ok t
      → (refresh m sign verified hash
          (λ _. (refresh m sign verified hash (λ d. d) now jti input db).1)
          now'
          jti'
          input'
          db).0
        ≢ ok t'
  raced_refresh_fails = rw (Mongo-eq h) (raced_refresh sign verified hash)

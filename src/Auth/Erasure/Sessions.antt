-- ===== src/Auth/Erasure/Sessions.antt =====
-- The effect of an erasure request, and of its cancellation, on the sessions and the account.
use cashfb_backend.Prelude.{
  ℕ, ◌/◌, ◌≡◌, ◌≤◌, inl, inr, true, false, Option, none, some, List, [], ◌∷◌, any, first,
  change_first, first-change_first, change_all, is_some, arith, refl, ap, ◌∙◌, Bool-cases,
}
use cashfb_backend.Shared.Errors.{AppError}
use cashfb_backend.Shared.Exec.{err}
use cashfb_backend.Shared.Mongo.{Mongo, IsMongo, Mongo-eq, driver}
use cashfb_backend.Shared.User.{User}
use cashfb_backend.Wallet.{has_id}
use cashfb_backend.Auth.{Store}
use cashfb_backend.Auth.Otp.{put}
use cashfb_backend.Auth.Sessions.{
  RefreshClaims, RefreshInput, refresh, active_of_user, revoke, cut_off,
}
use cashfb_backend.Auth.Sessions.Rotation.{revoked_user, cut_off_refresh}
use cashfb_backend.Auth.Erasure.{request, cancel, mark_deleted, unmark_deleted}

-- What the first request does.
abbrev pub Erased : ℕ → ℕ → Store → Store → Type 0
Erased now user_id db db' =
    (db'.users ≡ change_first (has_id user_id) (mark_deleted now) db.users)
    × (db'.sessions ≡ change_all (active_of_user user_id) (revoke now) db.sessions)
    × (db'.cutoffs ≡ put user_id (some (now / 1000)) db.cutoffs)

module _ (now user_id : ℕ) (db : Store) (u : User) where
  requested :
      first (has_id user_id) db.users ≡ some u
      → u.anonymized_at ≡ none
      → u.deleted_at ≡ none
      → Erased now user_id db (request driver now user_id db).1
  unfolding request
  requested there present fresh = (ground arith, ground arith, ground arith)

  cancelled :
      first (has_id user_id) db.users ≡ some u
      → u.anonymized_at ≡ none
      → is_some u.deleted_at ≡ true
      → ((cancel driver user_id db).1.users ≡ change_first (has_id user_id) unmark_deleted db.users)
        × ((cancel driver user_id db).1.sessions ≡ db.sessions)
        × ((cancel driver user_id db).1.cutoffs ≡ put user_id none db.cutoffs)
  unfolding cancel
  cancelled there present marked = (ground arith, ground arith, ground arith)

unmarked :
    (now user_id : ℕ) (us : List User) (u : User)
    → first (has_id user_id) us ≡ some u
    → u.deleted_at ≡ none
    → u.erasure_held ≡ false
    → change_first
        (has_id user_id)
        unmark_deleted
        (change_first (has_id user_id) (mark_deleted now) us)
      ≡ us
unmarked now user_id [] u there fresh free = refl
unmarked now user_id (v ∷ us) u there fresh free = elim (Bool-cases (has_id user_id v)) [
  | inl hit ↦ ground (arith, hit)
  | inr miss ↦ ground (arith, miss, unmarked now user_id us u (rw miss at there) fresh free)
]

own_cutoff :
    (user_id t : ℕ) (cutoffs : ℕ → Option ℕ) → put user_id (some t) cutoffs user_id ≡ some t
own_cutoff user_id t cutoffs = ground arith

no_cutoff : (user_id : ℕ) (cutoffs : ℕ → Option ℕ) → put user_id none cutoffs user_id ≡ none
no_cutoff user_id cutoffs = ground arith

at_cutoff : (iat t : ℕ) → iat ≤ t → cut_off iat (some t) ≡ true
at_cutoff iat t old = ground arith

module _ (sign : RefreshClaims → ℕ) (verified : ℕ → Option RefreshClaims) (hash : ℕ → ℕ) where
  locked_out :
      (now user_id : ℕ) (db : Store) (u : User)
      → first (has_id user_id) db.users ≡ some u
      → u.anonymized_at ≡ none
      → u.deleted_at ≡ none
      → (between : Store → Store) (at jti : ℕ) (input : RefreshInput) (c : RefreshClaims)
      → verified input.refresh_token ≡ some c
      → c.sub ≡ user_id
      → c.iat ≤ now / 1000
      → let db' = (request driver now user_id db).1 in
        (any (active_of_user user_id) db'.sessions ≡ false)
        × ((refresh driver sign verified hash between at jti input db').0
            ≡ err AppError.unauthorized)
  locked_out now user_id db u there present fresh between at jti input c good mine old =
      let w = requested now user_id db u there present fresh in
      let cut : cut_off c.iat ((request driver now user_id db).1.cutoffs c.sub) ≡ true =
        ap (λ (f : ℕ → Option ℕ). cut_off c.iat (f c.sub)) w.2
        ∙ (ap (λ (k : ℕ). cut_off c.iat (put user_id (some (now / 1000)) db.cutoffs k)) mine
            ∙ (ap (λ (t : Option ℕ). cut_off c.iat t) (own_cutoff user_id (now / 1000) db.cutoffs)
                ∙ at_cutoff c.iat (now / 1000) old)) in
      (
        rw w.1 (revoked_user now user_id db.sessions),
        cut_off_refresh sign verified hash between at jti input (request driver now user_id db).1 c
            good cut,
      )

restored :
    (now user_id : ℕ) (db : Store) (u : User)
    → first (has_id user_id) db.users ≡ some u
    → u.anonymized_at ≡ none
    → u.deleted_at ≡ none
    → u.erasure_held ≡ false
    → let db' = (request driver now user_id db).1 in
      ((cancel driver user_id db').1.users ≡ db.users)
      × ((cancel driver user_id db').1.cutoffs user_id ≡ none)
      × (any (active_of_user user_id) (cancel driver user_id db').1.sessions ≡ false)
restored now user_id db u there present fresh free =
    let w = requested now user_id db u there present fresh in
    let db' = (request driver now user_id db).1 in
    let marked : first (has_id user_id) db'.users ≡ some (mark_deleted now u) =
      rw w.0
        (first-change_first (has_id user_id) (mark_deleted now) (λ x hit. hit) db.users u there) in
    let c = cancelled now user_id db' (mark_deleted now u) marked present refl in
    (
      c.0
          ∙ (ap (change_first (has_id user_id) unmark_deleted) w.0
              ∙ unmarked now user_id db.users u there fresh free),
      ap (λ (f : ℕ → Option ℕ). f user_id) c.2 ∙ no_cutoff user_id db'.cutoffs,
      rw c.1 (rw w.1 (revoked_user now user_id db.sessions)),
    )

module _ {m : Mongo} (h : IsMongo m) where
  -- After a first erasure request of a user who is not yet erased, none of their sessions is active,
  -- and a refresh with a token of theirs that was issued by then, in seconds, is refused.
  pub erasure_locks_old_tokens_out :
      (sign : RefreshClaims → ℕ) (verified : ℕ → Option RefreshClaims) (hash : ℕ → ℕ)
      (now user_id : ℕ) (db : Store) (u : User)
      → first (has_id user_id) db.users ≡ some u
      → u.anonymized_at ≡ none
      → u.deleted_at ≡ none
      → (between : Store → Store) (at jti : ℕ) (input : RefreshInput) (c : RefreshClaims)
      → verified input.refresh_token ≡ some c
      → c.sub ≡ user_id
      → c.iat ≤ now / 1000
      → let db' = (request m now user_id db).1 in
        (any (active_of_user user_id) db'.sessions ≡ false)
        × ((refresh m sign verified hash between at jti input db').0 ≡ err AppError.unauthorized)
  erasure_locks_old_tokens_out = rw (Mongo-eq h) locked_out

  -- An erasure request that is cancelled leaves the users as they were and no cutoff for the user,
  -- who was neither erased nor had a request or a hold; their sessions stay revoked.
  pub cancelled_erasure_restores_the_user :
      (now user_id : ℕ) (db : Store) (u : User)
      → first (has_id user_id) db.users ≡ some u
      → u.anonymized_at ≡ none
      → u.deleted_at ≡ none
      → u.erasure_held ≡ false
      → let db' = (request m now user_id db).1 in
        ((cancel m user_id db').1.users ≡ db.users)
        × ((cancel m user_id db').1.cutoffs user_id ≡ none)
        × (any (active_of_user user_id) (cancel m user_id db').1.sessions ≡ false)
  cancelled_erasure_restores_the_user = rw (Mongo-eq h) restored

-- ===== src/Auth/Erasure.antt =====
-- src/modules/users/users.erasure.service.ts: the request to erase an account, with the store of
-- src/shared/services/force-logout.ts. The entry of that store outlives every token that it stops.
pub mod Sessions
mod Tests
use cashfb_backend.Prelude.{
  ℕ, ◌+◌, ◌-◌, ◌*◌, ◌/◌, Bool, true, false, Option, none, some, List, ◌==◌, is_some, not,
  if◌then◌else◌,
}
use cashfb_backend.Shared.Errors.{AppError, already_anonymized}
use cashfb_backend.Shared.Exec.{
  Exec, Result, ok, err, pure, throw, gets, or_throw, modify, throw_if, ◌>>=◌, ◌>>◌,
}
use cashfb_backend.Shared.Mongo.{Mongo, update_one}
use cashfb_backend.Shared.User.{User}
use cashfb_backend.Wallet.{has_id}
use cashfb_backend.Auth.{Store, LoginSession}
use cashfb_backend.Auth.Otp.{put}
use cashfb_backend.Auth.Sessions.{active_of_user, revoke, cut_off}

pub record ErasureStatus : Type 0 where
  pub requested : Bool
  pub deleted_at : Option ℕ
  pub anonymized_at : Option ℕ
  pub held : Bool
  pub days_remaining : Option ℕ

abbrev pub grace_period_days : ℕ
grace_period_days = 30

abbrev pub ms_per_day : ℕ
ms_per_day = 24 * 60 * 60 * 1000

-- `Math.max(0, Math.ceil((GRACE - elapsed) / MS_PER_DAY))`: subtraction stops at 0 where the grace
-- period is over
unfoldable pub days_left : ℕ → ℕ → ℕ
days_left now deleted_at =
    (grace_period_days * ms_per_day + deleted_at - now + (ms_per_day - 1)) / ms_per_day

unfoldable pub to_status : ℕ → Option ℕ → Bool → Option ℕ → ErasureStatus
unfolding days_left
to_status now deleted_at held anonymized_at =
    if is_some anonymized_at
    then record {
      requested = true;
      deleted_at = deleted_at;
      anonymized_at = anonymized_at;
      held = held;
      days_remaining = none;
    }
    else elim deleted_at [
      | none ↦ record {
        requested = false;
        deleted_at = none;
        anonymized_at = none;
        held = false;
        days_remaining = none;
      }
      | some t ↦ record {
        requested = true;
        deleted_at = some t;
        anonymized_at = none;
        held = held;
        days_remaining = if held then none else some (days_left now t);
      }
    ]

abbrev pub mark_deleted : ℕ → User → User
mark_deleted now u = record u { deleted_at = some now }

abbrev pub unmark_deleted : User → User
unmark_deleted u = record u { deleted_at = none; erasure_held = false }

-- `forceLogout`, `clear` and `assertNotForceLoggedOut`
abbrev pub force_logout : ℕ → ℕ → Store → Store
force_logout now user_id db = record db { cutoffs = put user_id (some (now / 1000)) db.cutoffs }

abbrev pub clear_cutoff : ℕ → Store → Store
clear_cutoff user_id db = record db { cutoffs = put user_id none db.cutoffs }

pub assert_not_force_logged_out : ℕ → ℕ → Exec Store (Unit {0})
assert_not_force_logged_out user_id iat db =
    throw_if (cut_off iat (db.cutoffs user_id)) AppError.unauthorized db

module _ (m : Mongo) where
  abbrev find_user : ℕ → Store → Option User
  find_user user_id db = m.find_one User (has_id user_id) db.users

  write_user : ℕ → (User → User) → Store → Store
  write_user user_id f db =
      let (found, users') = update_one m (has_id user_id) f db.users in record db { users = users' }

  -- `revokeAllForUser`
  revoke_all_for_user : ℕ → ℕ → Store → Store
  revoke_all_for_user now user_id db = record db {
    sessions = m.update_many LoginSession (active_of_user user_id) (revoke now) db.sessions;
  }

  unfoldable pub request : ℕ → ℕ → Exec Store ErasureStatus
  unfolding to_status write_user revoke_all_for_user
  request now user_id = do
    found ← gets (find_user user_id)
    user ← or_throw AppError.unauthorized found
    throw_if (is_some user.anonymized_at) (AppError.bad_request already_anonymized)
    if is_some user.deleted_at
        then pure (to_status now user.deleted_at user.erasure_held user.anonymized_at)
        else (do
          modify (write_user user_id (mark_deleted now))
          modify (revoke_all_for_user now user_id)
          modify (force_logout now user_id)
          pure (to_status now (some now) false none))

  unfoldable pub cancel : ℕ → Exec Store ErasureStatus
  unfolding write_user
  cancel user_id = do
    found ← gets (find_user user_id)
    user ← or_throw AppError.unauthorized found
    throw_if (is_some user.anonymized_at) (AppError.bad_request already_anonymized)
    throw_if (not (is_some user.deleted_at)) AppError.not_found
    modify (write_user user_id unmark_deleted)
    modify (clear_cutoff user_id)
    pure (record {
      requested = false;
      deleted_at = none;
      anonymized_at = none;
      held = false;
      days_remaining = none;
    })

  pub status : ℕ → ℕ → Exec Store ErasureStatus
  unfolding to_status
  status now user_id = do
    found ← gets (find_user user_id)
    user ← or_throw AppError.unauthorized found
    pure (to_status now user.deleted_at user.erasure_held user.anonymized_at)

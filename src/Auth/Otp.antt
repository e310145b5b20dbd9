-- ===== src/Auth/Otp.antt =====
-- src/modules/auth/otp.service.ts over the store of lockout.store.ts. A phone, a salt, a hash and an
-- OTP are numbers; times are milliseconds.
pub mod Lockout
mod Tests
use cashfb_backend.Prelude.{
  ℕ, Bool, true, false, Option, none, some, List, [], ◌∷◌, ◌++◌, ◌+◌, ◌*◌, ◌==◌, ◌&&◌, not, leb,
  ltb, is_some, or_default, if◌then◌else◌,
}
use cashfb_backend.Shared.Errors.{AppError, otp_locked}
use cashfb_backend.Shared.Exec.{
  Exec, Result, ok, err, pure, throw, gets, or_throw, update, modify, throw_if, ◌>>=◌, ◌>>◌,
}
use cashfb_backend.Shared.Mongo.{Mongo, update_one}

-- OtpVerification.model.ts
pub record Otp : Type 0 where
  pub id : ℕ
  pub destination : ℕ
  pub otp_hash : Option ℕ
  pub salt : Option ℕ
  pub attempts : Option ℕ
  pub max_attempts : Option ℕ
  pub expires_at : ℕ
  pub consumed_at : Option ℕ

pub record FailCount : Type 0 where
  pub count : ℕ
  pub expires_at : ℕ

pub record Store : Type 0 where
  -- the natural order is the order of creation
  pub otps : List Otp
  -- the two maps of the lockout store, by phone
  pub locks : ℕ → Option ℕ
  pub fails : ℕ → Option FailCount
  -- what the SMS sender was given
  pub sent : List (ℕ × ℕ)

abbrev pub max_attempts_default : ℕ
max_attempts_default = 5

abbrev pub lockout_trigger_fails : ℕ
lockout_trigger_fails = 3

abbrev pub lockout_window_sec : ℕ
lockout_window_sec = 30 * 60

abbrev pub otp_ttl_sec : ℕ
otp_ttl_sec = 5 * 60

-- `map.set(phone, x)` and `map.delete(phone)`
abbrev pub put : {A : Type 0} → ℕ → Option A → (ℕ → Option A) → ℕ → Option A
put phone x map k = if k == phone then x else map k

-- `InMemoryLockoutStore.isLocked`, which forgets a lock that ran out
pub is_locked : ℕ → ℕ → Store → Bool × Store
is_locked now phone db = elim (db.locks phone) [
  | none ↦ (false, db)
  | some until ↦
      if leb until now then (false, record db { locks = put phone none db.locks }) else (true, db)
]

pub lock : ℕ → ℕ → ℕ → Store → Store
lock now phone ttl_sec db = record db { locks = put phone (some (now + ttl_sec * 1000)) db.locks }

pub increment_fails : ℕ → ℕ → ℕ → Store → ℕ × Store
increment_fails now phone window_sec db =
    let fresh : FailCount = record { count = 1; expires_at = now + window_sec * 1000 } in
    elim (db.fails phone) [
      | none ↦ (1, record db { fails = put phone (some fresh) db.fails })
      | some existing ↦
          if ltb now existing.expires_at
          then (
            existing.count + 1,
            record db {
              fails = put phone (some (record existing { count = existing.count + 1 })) db.fails;
            },
          )
          else (1, record db { fails = put phone (some fresh) db.fails })
    ]

pub clear_fails : ℕ → Store → Store
clear_fails phone db = record db { fails = put phone none db.fails }

record_fail_and_maybe_lock : ℕ → ℕ → Exec Store (Unit {0})
unfolding increment_fails lock
record_fail_and_maybe_lock now phone = do
  fails ← update (increment_fails now phone lockout_window_sec)
  modify (λ (db : Store).
      if leb lockout_trigger_fails fails then lock now phone lockout_window_sec db else db)
  throw_if (leb lockout_trigger_fails fails) (AppError.conflict otp_locked)

-- `findActive`: the latest row that is neither consumed nor expired
abbrev pub is_active : ℕ → ℕ → Otp → Bool
is_active now phone o =
    (o.destination == phone) && (not (is_some o.consumed_at) && ltb now o.expires_at)

abbrev pub last : List Otp → Option Otp → Option Otp
last [] found = found
last (o ∷ os) found = last os (some o)

abbrev pub otp_has_id : ℕ → Otp → Bool
otp_has_id k o = o.id == k

-- `hash` stands for the SHA-256 of salt and OTP.
module _ (m : Mongo) (hash : ℕ → ℕ → ℕ) where
  -- `fresh`, `otp` and `salt` are the new document's id and what the random generator gives;
  -- `delivers` tells whether the sender succeeds
  pub send : ℕ → ℕ → ℕ → ℕ → Bool → ℕ → Exec Store (Unit {0})
  unfolding is_locked
  send now fresh otp salt delivers phone = do
    locked ← update (is_locked now phone)
    throw_if locked (AppError.conflict otp_locked)
    modify (λ (db : Store). record db {
      otps =
          db.otps
          ++ record {
            id = fresh;
            destination = phone;
            otp_hash = some (hash otp salt);
            salt = some salt;
            attempts = some 0;
            max_attempts = some max_attempts_default;
            expires_at = now + otp_ttl_sec * 1000;
            consumed_at = none;
          }
            ∷ [];
    })
    throw_if (not delivers) AppError.thrown
    modify (λ (db : Store). record db { sent = db.sent ++ (phone, otp) ∷ [] })

  find_active : ℕ → ℕ → Store → Option Otp
  find_active now phone db = last (m.find Otp (is_active now phone) db.otps) none

  update_otp : ℕ → (Otp → Otp) → Store → Store
  update_otp id f db =
      let (found, otps') = update_one m (otp_has_id id) f db.otps in record db { otps = otps' }

  -- what `verify` does with the row that it found
  check_row : ℕ → ℕ → ℕ → Otp → Exec Store (Unit {0})
  unfolding update_otp record_fail_and_maybe_lock clear_fails
  check_row now phone otp row =
      if leb (or_default row.max_attempts max_attempts_default) (or_default row.attempts 0)
      then (do record_fail_and_maybe_lock now phone; throw AppError.unauthorized)
      else elim row.otp_hash [
        | none ↦ throw AppError.unauthorized
        | some expected ↦
            if hash otp (or_default row.salt 0) == expected
            then (do
              modify (update_otp row.id (λ (o : Otp). record o { consumed_at = some now }))
              modify (clear_fails phone))
            else (do
              modify (
                  update_otp row.id
                    (λ (o : Otp). record o { attempts = some (or_default o.attempts 0 + 1) }))
              record_fail_and_maybe_lock now phone
              throw AppError.unauthorized)
      ]

  unfoldable pub verify : ℕ → ℕ → ℕ → Exec Store (Unit {0})
  unfolding is_locked find_active check_row record_fail_and_maybe_lock
  verify now phone otp = do
    locked ← update (is_locked now phone)
    throw_if locked (AppError.conflict otp_locked)
    row ← gets (find_active now phone)
    elim row [
      | none ↦ do record_fail_and_maybe_lock now phone; throw AppError.unauthorized
      | some r ↦ check_row now phone otp r
    ]

-- ===== src/Rooms/Registration.antt =====
-- `register` of src/modules/custom-rooms/custom-rooms.service.ts.
pub mod Outcomes
pub mod Joining
use cashfb_backend.Prelude.{
  ℕ, suc, ◌+◌, Bool, true, false, Option, none, some, List, [], ◌∷◌, ◌++◌, ◌&&◌, ◌||◌, not, ltb,
  leb, any, length, or_default, if◌then◌else◌, ◌==◌,
}
use cashfb_backend.Shared.Errors.{
  AppError, feature_disabled, tier_not_accessible, room_state_invalid, room_full, register_failed,
}
use cashfb_backend.Shared.Exec.{
  Exec, Result, ok, err, pure, throw, gets, or_throw, update, modify, throw_if, ◌>>=◌, ◌>>◌,
}
use cashfb_backend.Shared.Mongo.{Mongo, update_one}
use cashfb_backend.Shared.Tier.{SubscriptionEntry, user_can_access_tier}
use cashfb_backend.Rooms.{Store, CustomRoom, is_scheduled, is_live, room_has_id, contains}

abbrev pub participant_cap : ℕ
participant_cap = 100

-- `requireTournamentsEnabled`
abbrev pub require_tournaments_enabled : Exec Store (Unit {0})
require_tournaments_enabled db =
    throw_if (not (or_default db.tournaments false)) (AppError.forbidden feature_disabled) db

abbrev pub is_open : CustomRoom → Bool
is_open r = is_scheduled r.status || is_live r.status

-- the filter of the update; `registeredParticipants.99` exists from a length of 100 on
abbrev pub admits : ℕ → CustomRoom → Bool
admits id r =
    room_has_id id r && (is_open r && ltb (length r.registered_participants) participant_cap)

-- `$addToSet`
abbrev pub add_to_set : ℕ → List ℕ → List ℕ
add_to_set k ks = if any (contains k) ks then ks else ks ++ k ∷ []

abbrev pub add_participant : ℕ → CustomRoom → CustomRoom
add_participant user_id r = record r {
  registered_participants = add_to_set user_id r.registered_participants;
}

abbrev pub bump_count : CustomRoom → CustomRoom
bump_count r = record r { participant_count = r.participant_count + 1 }

module _ (m : Mongo) where
  -- the room as it was
  enlist : ℕ → ℕ → Store → Option CustomRoom × Store
  enlist id user_id db =
      let (pre, rooms') =
        m.find_one_and_update CustomRoom (admits id) (add_participant user_id) db.rooms in
      (pre, record db { rooms = rooms' })

  count_participant : ℕ → Store → Store
  count_participant id db =
      let (found, rooms') = update_one m (room_has_id id) bump_count db.rooms in
      record db { rooms = rooms' }

  -- why no room was updated
  not_enlisted : ℕ → ℕ → Exec Store Bool
  not_enlisted id user_id = do
    found ← gets (λ (db : Store). m.find_one CustomRoom (room_has_id id) db.rooms)
    now_doc ← or_throw AppError.not_found found
    if any (contains user_id) now_doc.registered_participants
        then pure true
        else if not (is_open now_doc)
        then throw (AppError.conflict room_state_invalid)
        else if leb participant_cap (length now_doc.registered_participants)
        then throw (AppError.unprocessable room_full)
        else throw (AppError.internal register_failed)

  -- `between` is what other requests commit before the update; the answer is `alreadyRegistered`
  unfoldable pub register : (Store → Store) → ℕ → ℕ → List SubscriptionEntry → ℕ → Exec Store Bool
  unfolding enlist not_enlisted count_participant
  register between id user_id subscriptions now = do
    require_tournaments_enabled
    found ← gets (λ (db : Store). m.find_one CustomRoom (room_has_id id) db.rooms)
    room ← or_throw AppError.not_found found
    throw_if (not (user_can_access_tier subscriptions room.tier now))
        (AppError.forbidden tier_not_accessible)
    modify between
    updated ← update (enlist id user_id)
    elim updated [
      | none ↦ not_enlisted id user_id
      | some pre ↦
          if any (contains user_id) pre.registered_participants
          then pure true
          else (do modify (count_participant id); pure false)
    ]

-- ===== src/Rooms/Admin.antt =====
-- src/modules/custom-rooms/custom-rooms.admin.service.ts: the life of a room and its results.
pub mod Outcomes
use cashfb_backend.Prelude.{
  ℕ, ◌+◌, ◌-◌, ◌*◌, Bool, true, false, Option, none, some, List, [], ◌∷◌, ◌++◌, ◌&&◌, ltb, take,
  or_default, if◌then◌else◌, ◌==◌,
}
use cashfb_backend.Shared.Errors.{AppError, room_state_invalid, result_already_entered}
use cashfb_backend.Shared.Exec.{
  Exec, Result, ok, err, pure, throw, gets, or_throw, update, modify, ◌>>=◌, ◌>>◌,
}
use cashfb_backend.Shared.Mongo.{Mongo, find_and_update, update_one}
use cashfb_backend.Shared.Tier.{Tier}
use cashfb_backend.Rooms.{
  Store, CustomRoom, CustomRoomResult, ResultBucket, RoomStatus, Game, EncryptedField, StoredField,
  eq_game, is_scheduled, is_live, is_completed, room_has_id,
}

pub record AdminCreateRoomInput : Type 0 where
  pub game : Game
  pub day_key : ℕ
  pub scheduled_at : ℕ
  pub visible_from_at : Option ℕ
  pub result_enabled_at : Option ℕ
  pub tier : Option Tier
  pub page_number : Option ℕ
  pub notice : Option ℕ

pub record AdminSetCredentialsInput : Type 0 where
  pub room_id : ℕ
  pub plaintext_room_id : ℕ
  pub plaintext_room_pwd : ℕ

pub record AdminEnterResultsInput : Type 0 where
  pub room_id : ℕ
  pub in_room_image_url : Option ℕ
  pub top1 : Option ResultBucket
  pub top2 : Option ResultBucket
  pub top3 : Option ResultBucket
  pub extra : Option ResultBucket

pub record AdminListRoomsFilter : Type 0 where
  pub game : Option Game
  pub status : Option RoomStatus
  pub day_key : Option ℕ

abbrev pub no_field : StoredField
no_field = record { ct = none; iv = none; tag = none; dek_enc = none }

abbrev pub stored : EncryptedField → StoredField
stored f = record { ct = some f.ct; iv = some f.iv; tag = some f.tag; dek_enc = some f.dek_enc }

-- `scheduledAt` is 5 minutes or more after the epoch
abbrev pub room_document : ℕ → ℕ → AdminCreateRoomInput → CustomRoom
room_document id actor input = record {
  id = id;
  game = input.game;
  day_key = input.day_key;
  scheduled_at = input.scheduled_at;
  room_id = no_field;
  room_pwd = no_field;
  visible_from_at = some (or_default input.visible_from_at (input.scheduled_at - 5 * 60000));
  result_enabled_at = some (or_default input.result_enabled_at (input.scheduled_at + 30 * 60000));
  status = RoomStatus.scheduled;
  page_number = input.page_number;
  notice = input.notice;
  tier = or_default input.tier Tier.public_tier;
  participant_count = 0;
  registered_participants = [];
  created_by = actor;
}

-- the unique `_id`
abbrev pub same_room : CustomRoom → CustomRoom → Bool
same_room a b = room_has_id a.id b

abbrev pub set_status : RoomStatus → CustomRoom → CustomRoom
set_status status r = record r { status = status }

abbrev pub set_fields : EncryptedField → EncryptedField → CustomRoom → CustomRoom
set_fields id pwd r = record r { room_id = stored id; room_pwd = stored pwd }

-- the unique index on `roomId`
abbrev pub same_result : CustomRoomResult → CustomRoomResult → Bool
same_result a b = b.room_id == a.room_id

abbrev pub result_document : ℕ → ℕ → Option ℕ → AdminEnterResultsInput → CustomRoomResult
result_document now actor result_enabled_at input = record {
  room_id = input.room_id;
  in_room_image_url = input.in_room_image_url;
  top1 = input.top1;
  top2 = input.top2;
  top3 = input.top3;
  extra = input.extra;
  published_at = now;
  visible_from_at = result_enabled_at;
  published_by = actor;
}

abbrev pub eq_status : RoomStatus → RoomStatus → Bool
eq_status RoomStatus.scheduled RoomStatus.scheduled = true
eq_status RoomStatus.live RoomStatus.live = true
eq_status RoomStatus.completed RoomStatus.completed = true
eq_status RoomStatus.cancelled RoomStatus.cancelled = true
eq_status _ _ = false

-- a filter's field, which counts only if it is there
abbrev pub if_given : {A : Type 0} → (A → Bool) → Option A → Bool
if_given test none = true
if_given test (some a) = test a

abbrev pub matches_filter : AdminListRoomsFilter → CustomRoom → Bool
matches_filter f r =
    if_given (eq_game r.game) f.game
    && (if_given (eq_status r.status) f.status && if_given (λ (d : ℕ). r.day_key == d) f.day_key)

-- `Math.max(1, Math.min(200, limit))`
abbrev pub clamp_limit : ℕ → ℕ
clamp_limit limit = if ltb limit 1 then 1 else if ltb 200 limit then 200 else limit

-- `encrypt` stands for `encryptField`; `latest_first` for the driver's sort by `scheduledAt` and id.
module _ (m : Mongo) (encrypt : ℕ → EncryptedField)
    (latest_first : List CustomRoom → List CustomRoom) where
  -- `id` is the new document's
  pub create : ℕ → ℕ → AdminCreateRoomInput → Exec Store CustomRoom
  create id actor input = do
    inserted ←
        gets (λ (db : Store). m.insert CustomRoom same_room (room_document id actor input) db.rooms)
    rooms' ← or_throw AppError.thrown inserted
    modify (λ (db : Store). record db { rooms = rooms' })
    pure (room_document id actor input)

  pub set_credentials : AdminSetCredentialsInput → Exec Store (Unit {0})
  set_credentials input = do
    found ← gets (λ (db : Store). m.find_one CustomRoom (room_has_id input.room_id) db.rooms)
    room ← or_throw AppError.not_found found
    modify (λ (db : Store).
        let (hit, rooms') =
          update_one m (room_has_id input.room_id)
            (set_fields (encrypt input.plaintext_room_id) (encrypt input.plaintext_room_pwd))
            db.rooms in
        record db { rooms = rooms' })

  -- the room's status moves on if it is what the predicate says
  move_room : (RoomStatus → Bool) → RoomStatus → ℕ → Store → Option CustomRoom × Store
  move_room from to id db =
      let (updated, rooms') =
        find_and_update m (λ (r : CustomRoom). room_has_id id r && from r.status) (set_status to)
          db.rooms in
      (updated, record db { rooms = rooms' })

  pub start_match : ℕ → Exec Store (Unit {0})
  unfolding move_room
  start_match id = do
    updated ← update (move_room is_scheduled RoomStatus.live id)
    room ← or_throw (AppError.conflict room_state_invalid) updated
    pure tt

  pub end_match : ℕ → Exec Store (Unit {0})
  unfolding move_room
  end_match id = do
    updated ← update (move_room is_live RoomStatus.completed id)
    room ← or_throw (AppError.conflict room_state_invalid) updated
    pure tt

  pub enter_results : ℕ → ℕ → AdminEnterResultsInput → Exec Store (Unit {0})
  enter_results now actor input = do
    found ← gets (λ (db : Store).
        m.find_one CustomRoom (λ r. room_has_id input.room_id r && is_completed r.status) db.rooms)
    room ← or_throw (AppError.conflict room_state_invalid) found
    inserted ← gets (λ (db : Store).
        m.insert CustomRoomResult same_result
          (result_document now actor room.result_enabled_at input) db.results)
    results' ← or_throw (AppError.conflict result_already_entered) inserted
    modify (λ (db : Store). record db { results = results' })

  pub list_all : AdminListRoomsFilter → ℕ → Store → List CustomRoom
  list_all filter limit db =
      take (clamp_limit limit) (latest_first (m.find CustomRoom (matches_filter filter) db.rooms))

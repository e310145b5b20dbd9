-- ===== src/Rooms/Viewing.antt =====
-- What a user sees of rooms: `listForDay` and `getResult` of
-- src/modules/custom-rooms/custom-rooms.service.ts, over CustomRoom.repository.ts.
pub mod Secrecy
use cashfb_backend.Prelude.{
  ℕ, zero, suc, ◌-◌, ◌*◌, Bool, true, false, Option, none, some, List, [], ◌∷◌, ◌++◌, ◌&&◌, not,
  ltb, any, length, take, drop, is_some, if◌then◌else◌, ◌==◌,
}
use cashfb_backend.Shared.Errors.{AppError, feature_disabled}
use cashfb_backend.Shared.Exec.{
  Exec, Result, ok, err, pure, throw, gets, or_throw, throw_if, ◌>>=◌, ◌>>◌,
}
use cashfb_backend.Shared.Mongo.{Mongo}
use cashfb_backend.Shared.Tier.{Tier, SubscriptionEntry, user_can_access_tier}
use cashfb_backend.Wallet.Votes.{eq_tier}
use cashfb_backend.Rooms.{
  Store, CustomRoom, CustomRoomResult, ResultBucket, RoomStatus, Game, EncryptedField, StoredField,
  eq_game, room_has_id, contains,
}
use cashfb_backend.Rooms.Registration.{require_tournaments_enabled}

pub record ListRoomsInput : Type 0 where
  pub user_id : ℕ
  pub subscriptions : List SubscriptionEntry
  pub tier : Tier
  pub game : Game
  pub page : ℕ
  pub day_key : ℕ
  pub now : ℕ

pub record Credentials : Type 0 where
  pub room_id : ℕ
  pub room_pwd : ℕ

pub record ListRoomsItem : Type 0 where
  pub id : ℕ
  pub game : Game
  pub scheduled_at : ℕ
  pub status : RoomStatus
  pub visible_from_at : Option ℕ
  pub result_enabled_at : Option ℕ
  pub tier : Tier
  pub page_number : Option ℕ
  pub notice : Option ℕ
  pub participant_count : ℕ
  pub is_registered : Bool
  pub credentials : Option Credentials

pub data Rank : Type 0 where
  top1 top2 top3 extra : Rank

pub record GetResultTile : Type 0 where
  pub rank : Rank
  pub bucket : ResultBucket

pub record GetResultResult : Type 0 where
  pub room_id : ℕ
  pub game : Game
  pub scheduled_at : ℕ
  pub day_key : ℕ
  pub in_room_image_url : Option ℕ
  pub tiles : List GetResultTile

abbrev pub page_size : ℕ
page_size = 8

-- the envelope, if each of its four parts is there
abbrev pub complete_field : StoredField → Option EncryptedField
complete_field f = elim f.ct [
  | none ↦ none
  | some ct ↦ elim f.iv [
    | none ↦ none
    | some iv ↦ elim f.tag [
      | none ↦ none
      | some tag ↦ elim f.dek_enc [
        | none ↦ none
        | some dek_enc ↦ some (record { ct = ct; iv = iv; tag = tag; dek_enc = dek_enc })
      ]
    ]
  ]
]

abbrev pub in_section : ℕ → Tier → Game → CustomRoom → Bool
in_section day_key tier game r =
    eq_tier r.tier tier && ((r.day_key == day_key) && eq_game r.game game)

-- `!at || now < at`
abbrev pub not_yet : Option ℕ → ℕ → Bool
not_yet none now = true
not_yet (some t) now = ltb now t

abbrev pub tile : Rank → Option ResultBucket → List GetResultTile
tile rank none = []
tile rank (some bucket) = record { rank = rank; bucket = bucket } ∷ []

abbrev pub tiles_of : CustomRoomResult → List GetResultTile
tiles_of r =
    tile Rank.top1 r.top1
    ++ (tile Rank.top2 r.top2 ++ (tile Rank.top3 r.top3 ++ tile Rank.extra r.extra))

abbrev pub result_of : ℕ → CustomRoomResult → Bool
result_of id r = r.room_id == id

-- `decrypt` stands for `decryptField` (`none` if it throws), `by_start` for the driver's sort by
-- `scheduledAt`.
module _ (m : Mongo) (decrypt : EncryptedField → Option ℕ)
    (by_start : List CustomRoom → List CustomRoom) where
  -- `none` where a decryption throws
  unfoldable pub maybe_decrypt_creds :
      CustomRoom → List SubscriptionEntry → Bool → ℕ → Option (Option Credentials)
  maybe_decrypt_creds room subscriptions is_registered now =
      if not is_registered
      then some none
      else if not (user_can_access_tier subscriptions room.tier now)
      then some none
      else if not_yet room.visible_from_at now
      then some none
      else elim (complete_field room.room_id) [
        | none ↦ some none
        | some id_field ↦ elim (complete_field room.room_pwd) [
          | none ↦ some none
          | some pwd_field ↦ elim (decrypt id_field) [
            | none ↦ none
            | some id ↦ elim (decrypt pwd_field) [
              | none ↦ none
              | some pwd ↦ some (some (record { room_id = id; room_pwd = pwd }))
            ]
          ]
        ]
      ]

  abbrev pub item_of : CustomRoom → Bool → Option Credentials → ListRoomsItem
  item_of room is_registered credentials = record {
    id = room.id;
    game = room.game;
    scheduled_at = room.scheduled_at;
    status = room.status;
    visible_from_at = room.visible_from_at;
    result_enabled_at = room.result_enabled_at;
    tier = room.tier;
    page_number = room.page_number;
    notice = room.notice;
    participant_count = length room.registered_participants;
    is_registered = is_registered;
    credentials = credentials;
  }

  -- the loop of `listForDay`
  items : ListRoomsInput → List CustomRoom → Option (List ListRoomsItem)
  unfolding maybe_decrypt_creds
  items input [] = some []
  items input (room ∷ rooms) =
      let is_registered = any (contains input.user_id) room.registered_participants in
      let rest = items input rooms in
      elim (maybe_decrypt_creds room input.subscriptions is_registered input.now) [
        | none ↦ none
        | some credentials ↦ elim rest [
          | none ↦ none
          | some out ↦ some (item_of room is_registered credentials ∷ out)
        ]
      ]

  -- `listForDayAndTier`
  abbrev pub page_of : ListRoomsInput → Store → List CustomRoom
  page_of input db = take page_size (
      drop ((input.page - 1) * page_size)
        (by_start (m.find CustomRoom (in_section input.day_key input.tier input.game) db.rooms)))

  unfoldable pub list_for_day : ListRoomsInput → Exec Store (List ListRoomsItem)
  unfolding items
  list_for_day input = do
    require_tournaments_enabled
    listed ← gets (λ (db : Store). items input (page_of input db))
    or_throw AppError.thrown listed

  pub get_result : ℕ → ℕ → Exec Store GetResultResult
  get_result id now = do
    found ← gets (λ (db : Store). m.find_one CustomRoom (room_has_id id) db.rooms)
    room ← or_throw AppError.not_found found
    throw_if (not_yet room.result_enabled_at now) AppError.not_found
    entered ← gets (λ (db : Store). m.find_one CustomRoomResult (result_of id) db.results)
    pure (record {
      room_id = room.id;
      game = room.game;
      scheduled_at = room.scheduled_at;
      day_key = room.day_key;
      in_room_image_url = elim entered [ none ↦ none | some r ↦ r.in_room_image_url ];
      tiles = elim entered [ none ↦ [] | some r ↦ tiles_of r ];
    })

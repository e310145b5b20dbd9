-- ===== src/Rooms.antt =====
-- Custom rooms: the collections that the services of src/modules/custom-rooms share. An id, a key of
-- an object in storage, a ciphertext and any other string that is only compared or copied is a
-- number; a time is milliseconds, an amount paise.
pub mod Registration
pub mod Viewing
pub mod Admin
pub mod Winners
pub mod Lifecycle
pub mod Reachable
mod Tests
use cashfb_backend.Prelude.{ℕ, Bool, true, false, Option, List, ◌==◌, ◌&&◌}
use cashfb_backend.Shared.Tier.{Tier}
use cashfb_backend.Redeem.{PrizePoolWinner}

pub data Game : Type 0 where
  bgmi ff : Game

pub data RoomStatus : Type 0 where
  scheduled live completed cancelled : RoomStatus

-- `EncryptedField` of shared/encryption/envelope.ts
pub record EncryptedField : Type 0 where
  pub ct : ℕ
  pub iv : ℕ
  pub tag : ℕ
  pub dek_enc : ℕ

-- the four fields `roomId{Ct,Iv,Tag,DekEnc}` of a room, or those of `roomPwd`
pub record StoredField : Type 0 where
  pub ct : Option ℕ
  pub iv : Option ℕ
  pub tag : Option ℕ
  pub dek_enc : Option ℕ

-- CustomRoom.model.ts
pub record CustomRoom : Type 0 where
  pub id : ℕ
  pub game : Game
  pub day_key : ℕ
  pub scheduled_at : ℕ
  pub room_id : StoredField
  pub room_pwd : StoredField
  pub visible_from_at : Option ℕ
  pub result_enabled_at : Option ℕ
  pub status : RoomStatus
  pub page_number : Option ℕ
  pub notice : Option ℕ
  pub tier : Tier
  pub participant_count : ℕ
  pub registered_participants : List ℕ
  pub created_by : ℕ

-- CustomRoomResult.model.ts
pub record ResultWinner : Type 0 where
  pub user_id : Option ℕ
  pub prize : Option ℕ

pub record ResultBucket : Type 0 where
  pub image_url : Option ℕ
  pub squad_name : Option ℕ
  pub winners : List ResultWinner

pub record CustomRoomResult : Type 0 where
  pub room_id : ℕ
  pub in_room_image_url : Option ℕ
  pub top1 : Option ResultBucket
  pub top2 : Option ResultBucket
  pub top3 : Option ResultBucket
  pub extra : Option ResultBucket
  pub published_at : ℕ
  pub visible_from_at : Option ℕ
  pub published_by : ℕ

pub record Store : Type 0 where
  pub rooms : List CustomRoom
  pub results : List CustomRoomResult
  pub winners : List PrizePoolWinner
  -- of the default config: `featureFlags.tournaments`, `proMultiplier`, `proMaxMultiplier`
  pub tournaments : Option Bool
  pub pro_multiplier : Option ℕ
  pub pro_max_multiplier : Option ℕ

abbrev pub eq_game : Game → Game → Bool
eq_game Game.bgmi Game.bgmi = true
eq_game Game.ff Game.ff = true
eq_game _ _ = false

abbrev pub is_scheduled : RoomStatus → Bool
is_scheduled RoomStatus.scheduled = true
is_scheduled _ = false

abbrev pub is_live : RoomStatus → Bool
is_live RoomStatus.live = true
is_live _ = false

abbrev pub is_completed : RoomStatus → Bool
is_completed RoomStatus.completed = true
is_completed _ = false

abbrev pub room_has_id : ℕ → CustomRoom → Bool
room_has_id k r = r.id == k

-- `xs.some((id) => String(id) === String(userId))`
abbrev pub contains : ℕ → ℕ → Bool
contains k j = j == k

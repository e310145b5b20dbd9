-- ===== src/Rooms/Admin/Outcomes.antt =====
-- What each call of the admin's service does to the store.
use cashfb_backend.Prelude.{
  ℕ, ◌≡◌, ◌⊎◌, inl, inr, true, false, ◌&&◌, some, List, [], ◌∷◌, ◌++◌, any, arith, first,
  is_some-first, change_first, Option-cases, Bool-cases,
}
use cashfb_backend.Shared.Exec.{ok}
use cashfb_backend.Shared.Mongo.{driver}
use cashfb_backend.Rooms.{
  Store, CustomRoom, RoomStatus, EncryptedField, room_has_id, is_scheduled, is_live,
}
use cashfb_backend.Rooms.Admin.{
  AdminCreateRoomInput, AdminSetCredentialsInput, AdminEnterResultsInput, create, set_credentials,
  start_match, end_match, enter_results, same_room, same_result, room_document, result_document,
  set_status, set_fields,
}
use cashfb_backend.Rooms.Lifecycle.{done}

module _ (encrypt : ℕ → EncryptedField) (by : List CustomRoom → List CustomRoom) where
  pub started :
      (id : ℕ) (db : Store)
      → (start_match driver encrypt by id db).1 ≡ record db {
        rooms =
            change_first
              (λ r. room_has_id id r && is_scheduled r.status)
              (set_status RoomStatus.live)
              db.rooms;
      }
  unfolding start_match
  started id db = ground arith

  pub ended :
      (id : ℕ) (db : Store)
      → (end_match driver encrypt by id db).1 ≡ record db {
        rooms =
            change_first
              (λ r. room_has_id id r && is_live r.status)
              (set_status RoomStatus.completed)
              db.rooms;
      }
  unfolding end_match
  ended id db = ground arith

  pub credentials_set :
      (input : AdminSetCredentialsInput) (db : Store)
      → ((set_credentials driver encrypt by input db).1 ≡ db)
        ⊎ ((set_credentials driver encrypt by input db).1 ≡ record db {
          rooms =
              change_first
                (room_has_id input.room_id)
                (set_fields (encrypt input.plaintext_room_id) (encrypt input.plaintext_room_pwd))
                db.rooms;
        })
  unfolding set_credentials
  credentials_set input db = ground arith

  pub created :
      (id actor : ℕ) (input : AdminCreateRoomInput) (db : Store)
      → ((create driver encrypt by id actor input db).1 ≡ db)
        ⊎ ((any (same_room (room_document id actor input)) db.rooms ≡ false)
            × ((create driver encrypt by id actor input db).1
                ≡ record db { rooms = db.rooms ++ room_document id actor input ∷ [] }))
  unfolding create
  created id actor input db = ground arith

  pub entered :
      (now actor : ℕ) (input : AdminEnterResultsInput) (db : Store)
      → ((enter_results driver encrypt by now actor input db).1 ≡ db)
        ⊎ ((room : CustomRoom) × (any (done input.room_id) db.rooms ≡ true)
            × (any (same_result (result_document now actor room.result_enabled_at input)) db.results
                ≡ false)
            × ((enter_results driver encrypt by now actor input db).1 ≡ record db {
              results = db.results ++ result_document now actor room.result_enabled_at input ∷ [];
            }))
  unfolding enter_results
  entered now actor input db = elim (Option-cases (first (done input.room_id) db.rooms)) [
    | inl nothing ↦ inl (ground arith)
    | inr (room, there) ↦
        elim (Bool-cases
          (any (same_result (result_document now actor room.result_enabled_at input)) db.results)) [
            | inl twice ↦ inl (ground arith)
            | inr new ↦ inr (
              room,
              ground (arith, is_some-first (done input.room_id) db.rooms),
              new,
              ground arith,
            )
          ]
  ]

  pub credentials_found :
      (input : AdminSetCredentialsInput) (db : Store) (room : CustomRoom)
      → first (room_has_id input.room_id) db.rooms ≡ some room
      → ((set_credentials driver encrypt by input db).0 ≡ ok tt)
        × ((set_credentials driver encrypt by input db).1 ≡ record db {
          rooms =
              change_first
                (room_has_id input.room_id)
                (set_fields (encrypt input.plaintext_room_id) (encrypt input.plaintext_room_pwd))
                db.rooms;
        })
  unfolding set_credentials
  credentials_found input db room there = ground (arith, there)

-- ===== src/Rooms/Tests.antt =====
-- A live room with one participant and two awards, and the theorems applied to them.
use cashfb_backend.Prelude.{
  ℕ, ◌≡◌, ◌⊎◌, true, false, Option, some, none, List, [], ◌∷◌, refl, first, any, map, arith,
}
use cashfb_backend.Shared.Errors.{AppError, room_state_invalid}
use cashfb_backend.Shared.Exec.{ok, err}
use cashfb_backend.Shared.Mongo.{driver, driver-IsMongo}
use cashfb_backend.Shared.Tier.{Tier, user_can_access_tier}
use cashfb_backend.Redeem.{WinnerType}
use cashfb_backend.Rooms.{Store, CustomRoom, RoomStatus, Game, EncryptedField, room_has_id}
use cashfb_backend.Rooms.Registration.{register}
use cashfb_backend.Rooms.Registration.Outcomes.{Enlisted, Entitled, is_in}
use cashfb_backend.Rooms.Registration.Joining.{Joined, answered_registration}
use cashfb_backend.Rooms.Viewing.{
  ListRoomsInput, ListRoomsItem, list_for_day, maybe_decrypt_creds, item_of,
}
use cashfb_backend.Rooms.Viewing.Secrecy.{
  AreGuarded, credentials_stay_secret, set_credentials_are_shown,
}
use cashfb_backend.Rooms.Admin.{no_field, set_fields, set_credentials, end_match}
use cashfb_backend.Rooms.Winners.{AssignWinnersInputItem, AssignWinnersResult, assign_winners}
use cashfb_backend.Rooms.Winners.Awards.{assigning_again_skips_all}
use cashfb_backend.Rooms.Lifecycle.{IsSound}
use cashfb_backend.Rooms.Reachable.{
  Step, Reach, Moved, reachable_rooms_keep_the_rules, rooms_refine_the_match_machine,
}

abbrev room : CustomRoom
room = record {
  id = 1;
  game = Game.bgmi;
  day_key = 20250110;
  scheduled_at = 400000;
  room_id = no_field;
  room_pwd = no_field;
  visible_from_at = some 100000;
  result_enabled_at = some 2200000;
  status = RoomStatus.live;
  page_number = none;
  notice = none;
  tier = Tier.public_tier;
  participant_count = 1;
  registered_participants = 8 ∷ [];
  created_by = 3;
}

abbrev store : Store
store = record {
  rooms = room ∷ [];
  results = [];
  winners = [];
  tournaments = some true;
  pro_multiplier = none;
  pro_max_multiplier = none;
}

abbrev encrypt : ℕ → EncryptedField
encrypt n = record { ct = n; iv = 0; tag = 0; dek_enc = 0 }

abbrev decrypt : EncryptedField → Option ℕ
decrypt f = some f.ct

abbrev order : List CustomRoom → List CustomRoom
order rooms = rooms

joins : (register driver (λ d. d) 1 9 [] 0 store).0 ≡ ok false
unfolding register user_can_access_tier
joins = refl

answered_registration_example :
    Entitled 1 [] 0 store
    × (((false ≡ false)
          × Enlisted 1 9 store (register driver (λ d. d) 1 9 [] 0 store).1
          × Joined 1 9 store (register driver (λ d. d) 1 9 [] 0 store).1)
        ⊎ ((false ≡ true)
            × ((register driver (λ d. d) 1 9 [] 0 store).1 ≡ store)
            × (any (is_in 1 9) store.rooms ≡ true)))
answered_registration_example =
    answered_registration driver-IsMongo (λ d. d) 1 9 [] 0 store false (omega arith) joins

abbrev ended_store : Store
ended_store = record store { rooms = record room { status = RoomStatus.completed } ∷ [] }

comes_late :
    (register driver (λ d. d) 1 9 [] 0 ended_store).0 ≡ err (AppError.conflict room_state_invalid)
unfolding register user_can_access_tier
comes_late = refl

store-IsSound : IsSound store
store-IsSound = record {
  unique_ids = λ k. ground arith;
  rooms = ((omega arith, refl, (refl, tt)), tt);
  unique_results = λ k. omega arith;
  completed = tt;
}

reachable_rooms_keep_the_rules_example :
    IsSound (end_match driver encrypt order 1 (register driver (λ d. d) 1 9 [] 0 store).1).1
reachable_rooms_keep_the_rules_example =
    reachable_rooms_keep_the_rules driver-IsMongo encrypt order store
      (end_match driver encrypt order 1 (register driver (λ d. d) 1 9 [] 0 store).1).1
      (Reach.next (Reach.next Reach.begin (Step.registering 1 9 [] 0)) (Step.ending 1))
      store-IsSound

rooms_refine_the_match_machine_example : Moved 1 room (end_match driver encrypt order 1 store).1
rooms_refine_the_match_machine_example =
    rooms_refine_the_match_machine driver-IsMongo encrypt order store
      (end_match driver encrypt order 1 store).1 1 room (Step.ending 1) refl

abbrev prize_of : ℕ → AssignWinnersInputItem
prize_of id = record {
  id = id;
  user_id = 8;
  type = WinnerType.custom_room;
  base_amount = 100;
  tier = Tier.pro;
  redeem_code_id = none;
  custom_room_id = some 1;
}

abbrev prizes : List AssignWinnersInputItem
prizes = prize_of 50 ∷ prize_of 51 ∷ []

abbrev one_each : AssignWinnersResult
one_each = record { assigned = 1; skipped = 8 ∷ [] }

assigns : (assign_winners driver 5 20250110 prizes store).0 ≡ ok one_each
unfolding assign_winners
assigns = refl

assigning_again_skips_all_example :
    let db' = (assign_winners driver 5 20250110 prizes store).1 in
    assign_winners driver 6 20250110 prizes db' ≡ (
      ok (record {
        assigned = 0;
        skipped = map (λ (w : AssignWinnersInputItem). w.user_id) prizes;
      }),
      db',
    )
assigning_again_skips_all_example =
    assigning_again_skips_all driver-IsMongo 5 6 20250110 prizes store one_each assigns

abbrev query : ListRoomsInput
query = record {
  user_id = 8;
  subscriptions = [];
  tier = Tier.public_tier;
  game = Game.bgmi;
  page = 1;
  day_key = 20250110;
  now = 100000;
}

-- the user is in the first room, and not in the second, which has credentials too
abbrev keyed_room : CustomRoom
keyed_room = set_fields (encrypt 77) (encrypt 88) room

abbrev other_room : CustomRoom
other_room = record keyed_room { id = 2; registered_participants = 9 ∷ [] }

abbrev keyed_store : Store
keyed_store = record store { rooms = keyed_room ∷ other_room ∷ [] }

abbrev shown : List ListRoomsItem
shown =
    item_of driver decrypt order keyed_room true (some (record { room_id = 77; room_pwd = 88 }))
    ∷ item_of driver decrypt order other_room false none
    ∷ []

lists : (list_for_day driver decrypt order query keyed_store).0 ≡ ok shown
unfolding list_for_day user_can_access_tier maybe_decrypt_creds
lists = refl

credentials_stay_secret_example : AreGuarded query (keyed_room ∷ other_room ∷ []) shown
credentials_stay_secret_example =
    credentials_stay_secret driver-IsMongo encrypt decrypt order query keyed_store shown lists

accessible : user_can_access_tier [] Tier.public_tier 100000 ≡ true
unfolding user_can_access_tier
accessible = refl

set_credentials_are_shown_example :
    let r =
      set_credentials driver encrypt order
        (record { room_id = 1; plaintext_room_id = 77; plaintext_room_pwd = 88 })
        store in
    (r.0 ≡ ok tt)
    × (room' : CustomRoom) × (first (room_has_id 1) r.1.rooms ≡ some room')
    × (maybe_decrypt_creds driver decrypt order room' [] true 100000
        ≡ some (some (record { room_id = 77; room_pwd = 88 })))
set_credentials_are_shown_example =
    set_credentials_are_shown driver-IsMongo encrypt decrypt order
      (record { room_id = 1; plaintext_room_id = 77; plaintext_room_pwd = 88 }) room [] 100000 store
      (λ text. refl) refl accessible refl

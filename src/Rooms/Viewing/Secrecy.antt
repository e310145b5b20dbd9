-- ===== src/Rooms/Viewing/Secrecy.antt =====
-- Who is shown the credentials of a room, and which.
use cashfb_backend.Prelude.{
  ℕ, ◌≡◌, ◌⊎◌, inl, inr, true, false, Option, none, some, List, [], ◌∷◌, any, arith, refl, first,
  first-change_first, ◌==◌, ◌≤◌, Option-cases, Bool-cases,
}
use cashfb_backend.Shared.Exec.{ok}
use cashfb_backend.Shared.Mongo.{Mongo, IsMongo, Mongo-eq, driver}
use cashfb_backend.Shared.Tier.{SubscriptionEntry, user_can_access_tier}
use cashfb_backend.Rooms.{Store, CustomRoom, EncryptedField, room_has_id, contains}
use cashfb_backend.Rooms.Admin.{AdminSetCredentialsInput, set_credentials, set_fields}
use cashfb_backend.Rooms.Admin.Outcomes.{credentials_found}
use cashfb_backend.Rooms.Viewing.{
  ListRoomsInput, ListRoomsItem, Credentials, maybe_decrypt_creds, items, page_of, list_for_day,
  not_yet, item_of,
}

-- An item of a room's shows no credentials, or the user is among the room's participants, may enter
-- its tier and is not before the time from which they are visible.
abbrev pub IsGuarded : ListRoomsInput → CustomRoom → ListRoomsItem → Type 0
IsGuarded input room item =
    (item.id ≡ room.id)
    × ((item.credentials ≡ none)
        ⊎ ((any (λ k. k == input.user_id) room.registered_participants ≡ true)
            × (user_can_access_tier input.subscriptions room.tier input.now ≡ true)
            × (visible_from : ℕ) × (room.visible_from_at ≡ some visible_from)
            × (visible_from ≤ input.now)))

-- each room has its item, in that order
pub AreGuarded : ListRoomsInput → List CustomRoom → List ListRoomsItem → Type 0
AreGuarded input [] [] = Unit
AreGuarded input [] (item ∷ out) = ⊥
AreGuarded input (room ∷ rooms) [] = ⊥
AreGuarded input (room ∷ rooms) (item ∷ out) =
    IsGuarded input room item × AreGuarded input rooms out

visible_then :
    (at : Option ℕ) (now : ℕ)
    → not_yet at now ≡ false
    → (visible_from : ℕ) × (at ≡ some visible_from) × (visible_from ≤ now)
visible_then none now e = absurd (ground arith)
visible_then (some t) now e = (t, refl, ground arith)

module _ (decrypt : EncryptedField → Option ℕ) (by : List CustomRoom → List CustomRoom) where
  item-IsGuarded :
      (input : ListRoomsInput) (room : CustomRoom) (c : Option Credentials)
      → let is_registered = any (contains input.user_id) room.registered_participants in
        maybe_decrypt_creds driver decrypt by room input.subscriptions is_registered input.now
          ≡ some c
        → IsGuarded input room (item_of driver decrypt by room is_registered c)
  unfolding maybe_decrypt_creds
  item-IsGuarded input room c e =
      elim (Bool-cases (any (contains input.user_id) room.registered_participants)) [
        | inr outside ↦ (refl, inl (ground (arith, outside)))
        | inl inside ↦
            elim (Bool-cases (user_can_access_tier input.subscriptions room.tier input.now)) [
              | inr shut ↦ (refl, inl (ground (arith, inside)))
              | inl access ↦ elim (Bool-cases (not_yet room.visible_from_at input.now)) [
                | inl early ↦ (refl, inl (ground (arith, inside)))
                | inr visible ↦
                    let (t, from, reached) = visible_then room.visible_from_at input.now visible in
                    (refl, inr (inside, access, t, from, reached))
              ]
            ]
      ]

  items-AreGuarded :
      (input : ListRoomsInput) (rooms : List CustomRoom) (out : List ListRoomsItem)
      → items driver decrypt by input rooms ≡ some out
      → AreGuarded input rooms out
  unfolding items AreGuarded
  items-AreGuarded input [] [] e = tt
  items-AreGuarded input [] (x ∷ out) e = absurd (ground arith)
  items-AreGuarded input (room ∷ rooms) out e =
      let is_registered = any (contains input.user_id) room.registered_participants in
      elim (Option-cases
        (maybe_decrypt_creds driver decrypt by room input.subscriptions is_registered input.now)) [
          | inl unreadable ↦ absurd (ground arith)
          | inr (c, shown) ↦ elim (Option-cases (items driver decrypt by input rooms)) [
            | inl unreadable ↦ absurd (ground arith)
            | inr (rest, more) ↦
                let whole : out ≡ item_of driver decrypt by room is_registered c ∷ rest =
                  ground arith in
                rw whole (item-IsGuarded input room c shown, items-AreGuarded input rooms rest more)
          ]
        ]

  listed-AreGuarded :
      (input : ListRoomsInput) (db : Store) (out : List ListRoomsItem)
      → (list_for_day driver decrypt by input db).0 ≡ ok out
      → AreGuarded input (page_of driver decrypt by input db) out
  unfolding list_for_day
  listed-AreGuarded input db out e =
      elim (Option-cases (items driver decrypt by input (page_of driver decrypt by input db))) [
        | inl unreadable ↦ absurd (ground arith)
        | inr (out', shown) ↦
            items-AreGuarded input (page_of driver decrypt by input db) out (ground arith)
      ]

  shown_again :
      (encrypt : ℕ → EncryptedField) (room : CustomRoom) (subs : List SubscriptionEntry)
      (now id pwd : ℕ)
      → decrypt (encrypt id) ≡ some id
      → decrypt (encrypt pwd) ≡ some pwd
      → user_can_access_tier subs room.tier now ≡ true
      → not_yet room.visible_from_at now ≡ false
      → maybe_decrypt_creds driver decrypt by
          (set_fields (encrypt id) (encrypt pwd) room)
          subs
          true
          now
        ≡ some (some (record { room_id = id; room_pwd = pwd }))
  unfolding maybe_decrypt_creds
  shown_again encrypt room subs now id pwd one two access visible =
      rw access (rw visible (rw one (rw two refl)))

module _ {m : Mongo} (h : IsMongo m) (encrypt : ℕ → EncryptedField)
    (decrypt : EncryptedField → Option ℕ) (by : List CustomRoom → List CustomRoom) where
  -- A listing has one item for each room of its page, in that order, with the room's id; the item
  -- shows no credentials, unless the user is among that room's registered participants, may enter its
  -- tier at that time, and the time is at or past the one from which they are visible.
  pub credentials_stay_secret :
      (input : ListRoomsInput) (db : Store) (out : List ListRoomsItem)
      → (list_for_day m decrypt by input db).0 ≡ ok out
      → AreGuarded input (page_of m decrypt by input db) out
  credentials_stay_secret = rw (Mongo-eq h) (listed-AreGuarded decrypt by)

  -- Where decryption undoes encryption, a room whose credentials are set is there with credentials
  -- that decrypt to them for a registered user who may enter its tier and is not too early.
  pub set_credentials_are_shown :
      (input : AdminSetCredentialsInput) (room : CustomRoom) (subs : List SubscriptionEntry)
      (now : ℕ) (db : Store)
      → ((text : ℕ) → decrypt (encrypt text) ≡ some text)
      → first (room_has_id input.room_id) db.rooms ≡ some room
      → user_can_access_tier subs room.tier now ≡ true
      → not_yet room.visible_from_at now ≡ false
      → let r = set_credentials m encrypt by input db in
        (r.0 ≡ ok tt)
        × (room' : CustomRoom) × (first (room_has_id input.room_id) r.1.rooms ≡ some room')
        × (maybe_decrypt_creds m decrypt by room' subs true now
            ≡ some (
                some (record {
                  room_id = input.plaintext_room_id;
                  room_pwd = input.plaintext_room_pwd;
                })))
  set_credentials_are_shown = rw (Mongo-eq h) λ input room subs now db law there access visible.
      let set = credentials_found encrypt by input db room there in
      let text = set_fields (encrypt input.plaintext_room_id) (encrypt input.plaintext_room_pwd) in
      (
        set.0,
        text room,
        rw set.1 (
            first-change_first (room_has_id input.room_id) text (λ x hit. hit) db.rooms room there),
        shown_again decrypt by encrypt room subs now input.plaintext_room_id
            input.plaintext_room_pwd (law _) (law _) access visible,
      )

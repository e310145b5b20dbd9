-- ===== src/Rooms/Registration/Outcomes.antt =====
-- How a call of `register` ends.
use cashfb_backend.Prelude.{
  ℕ, ◌≡◌, ◌≢◌, ◌⊎◌, inl, inr, Bool, true, false, ◌&&◌, none, some, List, [], ◌∷◌, any, or_default,
  ltb, length, arith, refl, first, change_first, change_first-same, change_first-absent,
  Option-cases, Bool-cases,
}
use cashfb_backend.Shared.Errors.{AppError, register_failed}
use cashfb_backend.Shared.Exec.{ok, err}
use cashfb_backend.Shared.Mongo.{Mongo, IsMongo, Mongo-eq, driver}
use cashfb_backend.Shared.Tier.{SubscriptionEntry, user_can_access_tier}
use cashfb_backend.Rooms.{Store, CustomRoom, room_has_id, contains}
use cashfb_backend.Rooms.Registration.{
  register, admits, add_participant, bump_count, is_open, participant_cap,
}

-- What a new registration does to the store that its update met.
abbrev pub Enlisted : ℕ → ℕ → Store → Store → Type 0
Enlisted id user_id db db' =
    (pre : CustomRoom) × (first (admits id) db.rooms ≡ some pre)
    × (any (contains user_id) pre.registered_participants ≡ false)
    × (db' ≡ record db {
      rooms =
          change_first (room_has_id id) bump_count
            (change_first (admits id) (add_participant user_id) db.rooms);
    })

-- there is a room with the id in which the user is registered
abbrev pub is_in : ℕ → ℕ → CustomRoom → Bool
is_in id user_id r = room_has_id id r && any (contains user_id) r.registered_participants

found_in :
    (id user_id : ℕ) (p : CustomRoom → Bool) (rs : List CustomRoom) (r : CustomRoom)
    → ((x : CustomRoom) → p x ≡ true → room_has_id id x ≡ true)
    → first p rs ≡ some r
    → any (contains user_id) r.registered_participants ≡ true
    → any (is_in id user_id) rs ≡ true
found_in id user_id p [] r at e here = absurd (ground arith)
found_in id user_id p (x ∷ rs) r at e here = elim (Bool-cases (p x)) [
  | inl hit ↦ ground (arith, hit, at x hit)
  | inr miss ↦ ground (arith, found_in id user_id p rs r at (rw miss at e) here)
]

no_room :
    (id : ℕ) (rs : List CustomRoom) (r : CustomRoom)
    → first (room_has_id id) rs ≡ some r
    → first (admits id) rs ≡ none
    → is_open r ≡ true
    → ltb (length r.registered_participants) participant_cap ≡ true
    → ⊥
no_room id [] r there shut open_room free = ground arith
no_room id (x ∷ rs) r there shut open_room free = elim (Bool-cases (room_has_id id x)) [
  | inl hit ↦ ground (arith, hit)
  | inr miss ↦ no_room id rs r (rw miss at there) (ground (arith, miss)) open_room free
]

-- a participant is not added twice
known :
    (user_id : ℕ) (r : CustomRoom)
    → any (contains user_id) r.registered_participants ≡ true
    → add_participant user_id r ≡ r
known user_id r here = rw here refl

module _ (between : Store → Store) (id user_id : ℕ) (subs : List SubscriptionEntry) (now : ℕ)
    (db : Store) where
  -- a new registration
  pub registered :
      (register driver between id user_id subs now db).0 ≡ ok false
      → Enlisted id user_id (between db) (register driver between id user_id subs now db).1
  unfolding register
  registered e = elim (Option-cases (first (room_has_id id) db.rooms)) [
    | inl nothing ↦ absurd (ground arith)
    | inr (room, there) ↦ elim (Option-cases (first (admits id) (between db).rooms)) [
      | inl full ↦ absurd (ground arith)
      | inr (pre, admitted) ↦ (pre, admitted, ground arith, ground arith)
    ]
  ]

  -- the gates that every answer has passed
  pub gated :
      (answer : Bool)
      → (register driver between id user_id subs now db).0 ≡ ok answer
      → (or_default db.tournaments false ≡ true)
        × (room : CustomRoom) × (first (room_has_id id) db.rooms ≡ some room)
        × (user_can_access_tier subs room.tier now ≡ true)
  unfolding register
  gated answer e = elim (Option-cases (first (room_has_id id) db.rooms)) [
    | inl nothing ↦ absurd (ground arith)
    | inr (room, there) ↦ (ground arith, room, there, ground arith)
  ]

  pub repeated :
      (register driver between id user_id subs now db).0 ≡ ok true
      → ((register driver between id user_id subs now db).1 ≡ between db)
        × (any (is_in id user_id) (between db).rooms ≡ true)
  unfolding register
  repeated e = elim (Option-cases (first (room_has_id id) db.rooms)) [
    | inl nothing ↦ absurd (ground arith)
    | inr (room, there) ↦ elim (Option-cases (first (admits id) (between db).rooms)) [
      | inl full ↦
          let same =
            change_first-absent (admits id) (add_participant user_id) (between db).rooms full in
          elim (Option-cases (
            first (room_has_id id)
              (change_first (admits id) (add_participant user_id) (between db).rooms))) [
                | inl gone ↦ absurd (ground arith)
                | inr (r, still) ↦ (
                  ground (arith, same),
                  found_in id user_id (room_has_id id) (between db).rooms r (λ x h. h)
                      (rw same at still) (ground arith),
                )
              ]
      | inr (pre, admitted) ↦
          elim (Bool-cases (any (contains user_id) pre.registered_participants)) [
            | inr new ↦ absurd (ground arith)
            | inl here ↦ (
              ground (
                arith,
                change_first-same (admits id) (add_participant user_id) (between db).rooms pre
                    admitted (known user_id pre here),
              ),
              found_in id user_id (admits id) (between db).rooms pre (λ x h. ground arith) admitted
                  here,
            )
          ]
    ]
  ]

  pub rejected :
      (x : AppError)
      → (register driver between id user_id subs now db).0 ≡ err x
      → (x ≢ AppError.internal register_failed)
        × (((register driver between id user_id subs now db).1 ≡ db)
            ⊎ ((register driver between id user_id subs now db).1 ≡ between db))
  unfolding register
  rejected x e = elim (Option-cases (first (room_has_id id) db.rooms)) [
    | inl nothing ↦ (λ q. ground arith, ground arith)
    | inr (room, there) ↦ elim (Option-cases (first (admits id) (between db).rooms)) [
      | inl full ↦
          let same =
            change_first-absent (admits id) (add_participant user_id) (between db).rooms full in
          elim (Option-cases (
            first (room_has_id id)
              (change_first (admits id) (add_participant user_id) (between db).rooms))) [
                | inl gone ↦ (λ q. ground arith, ground (arith, same))
                | inr (r, still) ↦ (
                  λ q. ground (arith, no_room id (between db).rooms r (rw same at still) full),
                  ground (arith, same),
                )
              ]
      | inr (pre, admitted) ↦ (λ q. ground arith, ground arith)
    ]
  ]

-- What the code requires of a registration: the feature, the room and access to its tier.
abbrev pub Entitled : ℕ → List SubscriptionEntry → ℕ → Store → Type 0
Entitled id subs now db =
    (or_default db.tournaments false ≡ true)
    × (room : CustomRoom) × (first (room_has_id id) db.rooms ≡ some room)
    × (user_can_access_tier subs room.tier now ≡ true)

module _ {m : Mongo} (h : IsMongo m) where
  -- A registration that fails has written nothing, and it knows why: where nothing comes between its
  -- update and its second look at the room, it never fails with REGISTER_FAILED.
  pub failed_registration_writes_nothing :
      (between : Store → Store) (id user_id : ℕ) (subs : List SubscriptionEntry) (now : ℕ)
      (db : Store) (x : AppError)
      → (register m between id user_id subs now db).0 ≡ err x
      → (x ≢ AppError.internal register_failed)
        × (((register m between id user_id subs now db).1 ≡ db)
            ⊎ ((register m between id user_id subs now db).1 ≡ between db))
  failed_registration_writes_nothing = rw (Mongo-eq h) rejected

-- ===== src/Rooms/Reachable.antt =====
-- The operations on rooms as steps of the store, and the states that they reach.
use cashfb_backend.Prelude.{
  ℕ, ◌≡◌, inl, inr, Bool, true, false, some, List, arith, refl, first, change_first, first-changed,
  first-append, sym, subst,
}
use cashfb_backend.Shared.Exec.{Result-cases}
use cashfb_backend.Shared.Mongo.{Mongo, IsMongo, Mongo-eq, driver}
use cashfb_backend.Shared.Tier.{SubscriptionEntry}
use cashfb_backend.Rooms.{
  Store, CustomRoom, RoomStatus, EncryptedField, room_has_id, is_scheduled, is_live,
}
use cashfb_backend.Rooms.Registration.{register, admits, add_participant, bump_count}
use cashfb_backend.Rooms.Registration.Outcomes.{Enlisted, registered, repeated, rejected}
use cashfb_backend.Rooms.Admin.{
  AdminCreateRoomInput, AdminSetCredentialsInput, AdminEnterResultsInput, create, set_credentials,
  start_match, end_match, enter_results, set_status,
}
use cashfb_backend.Rooms.Admin.Outcomes.{started, ended, credentials_set, created, entered}
use cashfb_backend.Rooms.Lifecycle.{
  IsSound, changed-IsSound, register-IsSound, created-IsSound, entered-IsSound,
}

-- One call of a service, however it ends.
pub data Step (m : Mongo) (encrypt : ℕ → EncryptedField) (by : List CustomRoom → List CustomRoom)
    (db : Store) : Store → Type 0 where
  registering :
      (id user_id : ℕ) (subs : List SubscriptionEntry) (now : ℕ)
      → Step m encrypt by db (register m (λ d. d) id user_id subs now db).1
  creating :
      (id actor : ℕ) (input : AdminCreateRoomInput)
      → Step m encrypt by db (create m encrypt by id actor input db).1
  setting_credentials :
      (input : AdminSetCredentialsInput)
      → Step m encrypt by db (set_credentials m encrypt by input db).1
  starting : (id : ℕ) → Step m encrypt by db (start_match m encrypt by id db).1
  ending : (id : ℕ) → Step m encrypt by db (end_match m encrypt by id db).1
  entering_results :
      (now actor : ℕ) (input : AdminEnterResultsInput)
      → Step m encrypt by db (enter_results m encrypt by now actor input db).1

-- The stores that calls lead to from one without rooms and results.
pub data Reach (m : Mongo) (encrypt : ℕ → EncryptedField) (by : List CustomRoom → List CustomRoom)
    (start : Store) : Store → Type 0 where
  begin : Reach m encrypt by start start
  next :
      {db db' : Store}
      → Reach m encrypt by start db
      → Step m encrypt by db db'
      → Reach m encrypt by start db'

module _ (encrypt : ℕ → EncryptedField) (by : List CustomRoom → List CustomRoom) where
  pub Step-IsSound : (db db' : Store) → Step driver encrypt by db db' → IsSound db → IsSound db'
  Step-IsSound db db' (Step.registering id user_id subs now) h =
      register-IsSound id user_id subs now db h
  Step-IsSound db db' (Step.creating id actor input) h =
      elim (created encrypt by id actor input db) [
        | inl same ↦ rw same h
        | inr (new, w) ↦ rw w (created-IsSound id actor input db new h)
      ]
  Step-IsSound db db' (Step.setting_credentials input) h =
      elim (credentials_set encrypt by input db) [
        | inl same ↦ rw same h
        | inr w ↦ rw w (changed-IsSound _ _ db (λ x. refl) (λ x w. w) (λ x hit c. c) h)
      ]
  Step-IsSound db db' (Step.starting id) h =
      rw (started encrypt by id db)
        (changed-IsSound _ _ db (λ x. refl) (λ x w. w) (λ x hit c. ground arith) h)
  Step-IsSound db db' (Step.ending id) h =
      rw (ended encrypt by id db)
        (changed-IsSound _ _ db (λ x. refl) (λ x w. w) (λ x hit c. refl) h)
  Step-IsSound db db' (Step.entering_results now actor input) h =
      elim (entered encrypt by now actor input db) [
        | inl same ↦ rw same h
        | inr (room, complete, new, w) ↦ rw w (entered-IsSound _ db new complete h)
      ]

  Reach-IsSound : (start db : Store) → Reach driver encrypt by start db → IsSound start → IsSound db
  Reach-IsSound start db Reach.begin h = h
  Reach-IsSound start db (Reach.next r s) h = Step-IsSound _ db s (Reach-IsSound start _ r h)

-- How the status of a room may change: the machine that the admin's methods describe.
pub data Moves : RoomStatus → RoomStatus → Type 0 where
  stay : {s : RoomStatus} → Moves s s
  start : Moves RoomStatus.scheduled RoomStatus.live
  finish : Moves RoomStatus.live RoomStatus.completed

-- The room with an id is still there, in a status that it may move to.
abbrev pub Moved : ℕ → CustomRoom → Store → Type 0
Moved k r db =
    (r' : CustomRoom) × (first (room_has_id k) db.rooms ≡ some r') × Moves r.status r'.status

moved_start :
    (r : CustomRoom)
    → is_scheduled r.status ≡ true
    → Moves r.status (set_status RoomStatus.live r).status
moved_start r h = subst (λ s. Moves s RoomStatus.live) (sym (only r.status h)) Moves.start
  where
    only : (s : RoomStatus) → is_scheduled s ≡ true → s ≡ RoomStatus.scheduled
    only s h = ground arith

moved_finish :
    (r : CustomRoom)
    → is_live r.status ≡ true
    → Moves r.status (set_status RoomStatus.completed r).status
moved_finish r h = subst (λ s. Moves s RoomStatus.completed) (sym (only r.status h)) Moves.finish
  where
    only : (s : RoomStatus) → is_live s ≡ true → s ≡ RoomStatus.live
    only s h = ground arith

-- a change of a room that is itself a move
changed-Moved :
    (p : CustomRoom → Bool) (f : CustomRoom → CustomRoom) (k : ℕ) (r : CustomRoom) (db : Store)
    → ((x : CustomRoom) → (f x).id ≡ x.id)
    → (p r ≡ true → Moves r.status (f r).status)
    → first (room_has_id k) db.rooms ≡ some r
    → Moved k r (record db { rooms = change_first p f db.rooms })
changed-Moved p f k r db same move h =
    elim (first-changed (room_has_id k) p f (λ x. rw (same x) refl) db.rooms r h) [
      | inl kept ↦ (r, kept, Moves.stay)
      | inr (hit, changed) ↦ (f r, changed, move hit)
    ]

Enlisted-Moved :
    (id user_id k : ℕ) (r : CustomRoom) (db db' : Store)
    → Enlisted id user_id db db'
    → first (room_has_id k) db.rooms ≡ some r
    → Moved k r db'
Enlisted-Moved id user_id k r db db' (pre, e, new, w) h =
    rw w
      (elim (first-changed (room_has_id k) (admits id) (add_participant user_id) (λ x. refl)
        db.rooms r h) [
          | inl kept ↦
              changed-Moved (room_has_id id) bump_count k r
                (record db { rooms = change_first (admits id) (add_participant user_id) db.rooms })
                (λ x. refl) (λ hit. Moves.stay) kept
          | inr (hit, joined) ↦
              changed-Moved (room_has_id id) bump_count k (add_participant user_id r)
                (record db { rooms = change_first (admits id) (add_participant user_id) db.rooms })
                (λ x. refl) (λ hit. Moves.stay) joined
        ])

register-Moved :
    (id user_id : ℕ) (subs : List SubscriptionEntry) (now k : ℕ) (r : CustomRoom) (db : Store)
    → first (room_has_id k) db.rooms ≡ some r
    → Moved k r (register driver (λ d. d) id user_id subs now db).1
register-Moved id user_id subs now k r db h =
    elim (Result-cases (register driver (λ d. d) id user_id subs now db).0) [
      | inl (false, e) ↦
          Enlisted-Moved id user_id k r db (register driver (λ d. d) id user_id subs now db).1
            (registered (λ d. d) id user_id subs now db e) h
      | inl (true, e) ↦ rw ((repeated (λ d. d) id user_id subs now db e).0) (r, h, Moves.stay)
      | inr (x, e) ↦ elim ((rejected (λ d. d) id user_id subs now db x e).1) [
        | inl same ↦ rw same (r, h, Moves.stay)
        | inr same ↦ rw same (r, h, Moves.stay)
      ]
    ]

module _ (encrypt : ℕ → EncryptedField) (by : List CustomRoom → List CustomRoom) where
  Step-Moved :
      (db db' : Store) (k : ℕ) (r : CustomRoom)
      → Step driver encrypt by db db'
      → first (room_has_id k) db.rooms ≡ some r
      → Moved k r db'
  Step-Moved db db' k r (Step.registering id user_id subs now) h =
      register-Moved id user_id subs now k r db h
  Step-Moved db db' k r (Step.creating id actor input) h =
      elim (created encrypt by id actor input db) [
        | inl same ↦ rw same (r, h, Moves.stay)
        | inr (new, w) ↦ rw w (r, first-append (room_has_id k) db.rooms _ r h, Moves.stay)
      ]
  Step-Moved db db' k r (Step.setting_credentials input) h =
      elim (credentials_set encrypt by input db) [
        | inl same ↦ rw same (r, h, Moves.stay)
        | inr w ↦ rw w (changed-Moved _ _ k r db (λ x. refl) (λ hit. Moves.stay) h)
      ]
  Step-Moved db db' k r (Step.starting id) h =
      rw (started encrypt by id db)
        (changed-Moved _ _ k r db (λ x. refl) (λ hit. moved_start r (ground arith)) h)
  Step-Moved db db' k r (Step.ending id) h =
      rw (ended encrypt by id db)
        (changed-Moved _ _ k r db (λ x. refl) (λ hit. moved_finish r (ground arith)) h)
  Step-Moved db db' k r (Step.entering_results now actor input) h =
      elim (entered encrypt by now actor input db) [
        | inl same ↦ rw same (r, h, Moves.stay)
        | inr (room, complete, new, w) ↦ rw w (r, h, Moves.stay)
      ]

module _ {m : Mongo} (h : IsMongo m) (encrypt : ℕ → EncryptedField)
    (by : List CustomRoom → List CustomRoom) where
  -- In every store that uninterrupted calls of the services reach from a sound one, room ids are
  -- unique, each room has at most 100 participants, all different and rightly counted, and a result is
  -- of a completed room and the only one of it.
  pub reachable_rooms_keep_the_rules :
      (start db : Store) → Reach m encrypt by start db → IsSound start → IsSound db
  reachable_rooms_keep_the_rules = rw (Mongo-eq h) (Reach-IsSound encrypt by)

  -- No call removes a room, and a call moves a room's status, if at all, from scheduled to live or
  -- from live to completed.
  pub rooms_refine_the_match_machine :
      (db db' : Store) (k : ℕ) (r : CustomRoom)
      → Step m encrypt by db db'
      → first (room_has_id k) db.rooms ≡ some r
      → Moved k r db'
  rooms_refine_the_match_machine = rw (Mongo-eq h) (Step-Moved encrypt by)

-- ===== src/Rooms/Lifecycle.antt =====
-- The invariant of rooms and their results, and what the changes of the services do to it.
use cashfb_backend.Prelude.{
  ℕ, ◌≡◌, ◌≤◌, inl, inr, Bool, true, false, ◌==◌, ◌&&◌, some, List, [], ◌∷◌, ◌++◌, any, any-append,
  any-kept, tally, tally-append, tally-change_first, tally-none, length, length-append, ltb, arith,
  refl, first, change_first, All, All-append, All-map, All-change_first, Bool-cases,
}
use cashfb_backend.Shared.Exec.{Result-cases}
use cashfb_backend.Shared.Mongo.{driver}
use cashfb_backend.Shared.Tier.{SubscriptionEntry}
use cashfb_backend.Rooms.{Store, CustomRoom, CustomRoomResult, room_has_id, contains, is_completed}
use cashfb_backend.Rooms.Registration.{
  register, admits, add_participant, bump_count, participant_cap,
}
use cashfb_backend.Rooms.Registration.Outcomes.{Enlisted, registered, repeated, rejected}
use cashfb_backend.Rooms.Admin.{AdminCreateRoomInput, same_room, same_result, room_document}

abbrev pub Distinct : List ℕ → Type 0
Distinct [] = Unit
Distinct (k ∷ ks) = (any (contains k) ks ≡ false) × Distinct ks

abbrev pub IsRoom : CustomRoom → Type 0
IsRoom r =
    (length r.registered_participants ≤ participant_cap)
    × (r.participant_count ≡ length r.registered_participants)
    × Distinct r.registered_participants

abbrev pub done : ℕ → CustomRoom → Bool
done k r = room_has_id k r && is_completed r.status

abbrev pub of_room : ℕ → CustomRoomResult → Bool
of_room k x = x.room_id == k

pub record IsSound (db : Store) : Type 0 where
  pub unique_ids : (k : ℕ) → tally (room_has_id k) db.rooms ≤ 1
  pub rooms : All IsRoom db.rooms
  pub unique_results : (k : ℕ) → tally (of_room k) db.results ≤ 1
  pub completed : All (λ x. any (done x.room_id) db.rooms ≡ true) db.results

add_Distinct :
    (k : ℕ) (ks : List ℕ) → any (contains k) ks ≡ false → Distinct ks → Distinct (ks ++ k ∷ [])
add_Distinct k [] new h = (refl, tt)
add_Distinct k (j ∷ ks) new h = (
  rw (any-append (contains j) ks (k ∷ [])) (ground (arith, h.0)),
  add_Distinct k ks (ground (arith, new)) h.1,
)

joined-IsRoom :
    (user_id : ℕ) (r : CustomRoom)
    → any (contains user_id) r.registered_participants ≡ false
    → ltb (length r.registered_participants) participant_cap ≡ true
    → IsRoom r
    → IsRoom (bump_count (add_participant user_id r))
joined-IsRoom user_id r new free h = rw new (
  ground (arith, length-append r.registered_participants (user_id ∷ [])),
  ground (arith, length-append r.registered_participants (user_id ∷ [])),
  add_Distinct user_id r.registered_participants new h.2,
)

admitted_id :
    (id : ℕ) (rs : List CustomRoom) (r : CustomRoom)
    → first (admits id) rs ≡ some r
    → 1 ≤ tally (room_has_id id) rs
admitted_id id [] r e = absurd (ground arith)
admitted_id id (x ∷ rs) r e = elim (Bool-cases (admits id x)) [
  | inl hit ↦ ground arith
  | inr miss ↦ ground (arith, admitted_id id rs r (rw miss at e))
]

-- both writes of a registration reach the one room with the id
enlisted-rooms :
    (id user_id : ℕ) (rs : List CustomRoom) (pre : CustomRoom)
    → tally (room_has_id id) rs ≤ 1
    → first (admits id) rs ≡ some pre
    → any (contains user_id) pre.registered_participants ≡ false
    → All IsRoom rs
    → All IsRoom (
        change_first
          (room_has_id id)
          bump_count
          (change_first (admits id) (add_participant user_id) rs))
enlisted-rooms id user_id [] pre one e new h = absurd (ground arith)
enlisted-rooms id user_id (x ∷ rs) pre one e new h = elim (Bool-cases (admits id x)) [
  | inl hit ↦
      let here : room_has_id id x ≡ true = ground arith in
      let free : ltb (length x.registered_participants) participant_cap ≡ true = ground arith in
      let fresh : any (contains user_id) x.registered_participants ≡ false = ground arith in
      rw hit (rw here (joined-IsRoom user_id x fresh free h.0, h.1))
  | inr miss ↦ elim (Bool-cases (room_has_id id x)) [
    | inl twice ↦ absurd (ground (arith, admitted_id id rs pre (rw miss at e)))
    | inr other ↦
        rw miss
          (rw other (h.0, enlisted-rooms id user_id rs pre (ground arith) (rw miss at e) new h.1))
  ]
]

-- a change of one room that keeps ids, well-formed rooms and completion keeps the whole
pub changed-IsSound :
    (p : CustomRoom → Bool) (f : CustomRoom → CustomRoom) (db : Store)
    → ((x : CustomRoom) → (f x).id ≡ x.id)
    → ((x : CustomRoom) → IsRoom x → IsRoom (f x))
    → ((x : CustomRoom)
        → p x ≡ true
        → is_completed x.status ≡ true
        → is_completed (f x).status ≡ true)
    → IsSound db
    → IsSound (record db { rooms = change_first p f db.rooms })
changed-IsSound p f db same room finished h = record {
  unique_ids = λ k. omega (
    arith,
    h.unique_ids k,
    tally-change_first (room_has_id k) p f (λ x. rw (same x) refl) db.rooms,
  );
  rooms = All-change_first IsRoom p f db.rooms (λ x hit w. room x w) h.rooms;
  unique_results = h.unique_results;
  completed =
      All-map (λ (x : CustomRoomResult). any (done x.room_id) db.rooms ≡ true)
        (λ x. any (done x.room_id) (change_first p f db.rooms) ≡ true)
        (λ x w.
          any-kept (done x.room_id) p f (λ r hit is_done. ground (arith, same r, finished r hit))
            db.rooms w)
        db.results h.completed;
}

Enlisted-IsSound :
    (id user_id : ℕ) (db db' : Store) → Enlisted id user_id db db' → IsSound db → IsSound db'
Enlisted-IsSound id user_id db db' (pre, e, new, w) h =
    let rs' = change_first (admits id) (add_participant user_id) db.rooms in
    rw w (record {
      unique_ids = λ k. omega (
        arith,
        h.unique_ids k,
        tally-change_first (room_has_id k) (admits id) (add_participant user_id) (λ x. refl)
            db.rooms,
        tally-change_first (room_has_id k) (room_has_id id) bump_count (λ x. refl) rs',
      );
      rooms = enlisted-rooms id user_id db.rooms pre (h.unique_ids id) e new h.rooms;
      unique_results = h.unique_results;
      completed =
          All-map (λ (x : CustomRoomResult). any (done x.room_id) db.rooms ≡ true)
            (λ x. any (done x.room_id) (change_first (room_has_id id) bump_count rs') ≡ true)
            (λ x w.
              any-kept (done x.room_id) (room_has_id id) bump_count (λ r hit d. d) rs'
                (any-kept (done x.room_id) (admits id) (add_participant user_id) (λ r hit d. d)
                  db.rooms w))
            db.results h.completed;
    })

pub register-IsSound :
    (id user_id : ℕ) (subs : List SubscriptionEntry) (now : ℕ) (db : Store)
    → IsSound db
    → IsSound (register driver (λ d. d) id user_id subs now db).1
register-IsSound id user_id subs now db h =
    elim (Result-cases (register driver (λ d. d) id user_id subs now db).0) [
      | inl (false, e) ↦
          Enlisted-IsSound id user_id db (register driver (λ d. d) id user_id subs now db).1
            (registered (λ d. d) id user_id subs now db e) h
      | inl (true, e) ↦ rw ((repeated (λ d. d) id user_id subs now db e).0) h
      | inr (x, e) ↦ elim ((rejected (λ d. d) id user_id subs now db x e).1) [
        | inl same ↦ rw same h
        | inr same ↦ rw same h
      ]
    ]

unclashed_room :
    (r : CustomRoom) (rs : List CustomRoom)
    → any (same_room r) rs ≡ false
    → tally (room_has_id r.id) rs ≡ 0
unclashed_room r rs h = tally-none (room_has_id r.id) rs h

pub created-IsSound :
    (id actor : ℕ) (input : AdminCreateRoomInput) (db : Store)
    → any (same_room (room_document id actor input)) db.rooms ≡ false
    → IsSound db
    → IsSound (record db { rooms = db.rooms ++ room_document id actor input ∷ [] })
created-IsSound id actor input db new h = record {
  unique_ids = λ k. ground (
    arith,
    h.unique_ids k,
    tally-append (room_has_id k) db.rooms (room_document id actor input ∷ []),
    unclashed_room (room_document id actor input) db.rooms new,
  );
  rooms =
      All-append IsRoom db.rooms (room_document id actor input ∷ []) h.rooms
        ((omega arith, refl, tt), tt);
  unique_results = h.unique_results;
  completed =
      All-map (λ (x : CustomRoomResult). any (done x.room_id) db.rooms ≡ true)
        (λ x. any (done x.room_id) (db.rooms ++ room_document id actor input ∷ []) ≡ true)
        (λ x w.
          rw (any-append (done x.room_id) db.rooms (room_document id actor input ∷ []))
            (ground (arith, w)))
        db.results h.completed;
}

pub entered-IsSound :
    (x : CustomRoomResult) (db : Store)
    → any (same_result x) db.results ≡ false
    → any (done x.room_id) db.rooms ≡ true
    → IsSound db
    → IsSound (record db { results = db.results ++ x ∷ [] })
entered-IsSound x db new complete h = record {
  unique_ids = h.unique_ids;
  rooms = h.rooms;
  unique_results = λ k. ground (
    arith,
    h.unique_results k,
    tally-append (of_room k) db.results (x ∷ []),
    tally-none (of_room x.room_id) db.results new,
  );
  completed =
      All-append (λ (y : CustomRoomResult). any (done y.room_id) db.rooms ≡ true) db.results
        (x ∷ []) h.completed (complete, tt);
}

-- ===== src/Rooms/Registration/Joining.antt =====
-- Whom a call of `register` enlists, and in which room.
use cashfb_backend.Prelude.{
  ℕ, ◌≡◌, ◌⊎◌, inl, inr, Bool, true, false, List, [], ◌∷◌, any, length, arith, refl, tally, ◌≤◌,
  ◌<◌, ◌+◌, ◌==◌, ◌||◌, ◌++◌, ◌∙◌, Differ, first-passes, change_first-Differ, change_first-only,
}
use cashfb_backend.Shared.Exec.{ok}
use cashfb_backend.Shared.Mongo.{Mongo, IsMongo, Mongo-eq, driver}
use cashfb_backend.Shared.Tier.{SubscriptionEntry}
use cashfb_backend.Rooms.{Store, CustomRoom, RoomStatus, is_scheduled, is_live, room_has_id}
use cashfb_backend.Rooms.Registration.{register, admits, add_participant, bump_count}
use cashfb_backend.Rooms.Registration.Outcomes.{
  Enlisted, Entitled, is_in, registered, repeated, gated,
}

open_then :
    (s : RoomStatus)
    → is_scheduled s || is_live s ≡ true
    → (s ≡ RoomStatus.scheduled) ⊎ (s ≡ RoomStatus.live)
open_then RoomStatus.scheduled e = inl refl
open_then RoomStatus.live e = inr refl
open_then RoomStatus.completed e = absurd (ground arith)
open_then RoomStatus.cancelled e = absurd (ground arith)

-- The room that took the user was SCHEDULED or LIVE and had a free place, and the user was not in; it
-- differs now in that the user is its last participant and counted, and no other room differs.
abbrev pub Joined : ℕ → ℕ → Store → Store → Type 0
Joined id user_id db db' =
    (pre : CustomRoom) × (pre.id ≡ id)
    × ((pre.status ≡ RoomStatus.scheduled) ⊎ (pre.status ≡ RoomStatus.live))
    × (length pre.registered_participants < 100)
    × (any (λ k. k == user_id) pre.registered_participants ≡ false)
    × Differ pre
        (record pre {
          registered_participants = pre.registered_participants ++ user_id ∷ [];
          participant_count = pre.participant_count + 1;
        })
        db.rooms db'.rooms

Enlisted-Joined :
    (id user_id : ℕ) (db db' : Store)
    → tally (room_has_id id) db.rooms ≤ 1
    → Enlisted id user_id db db'
    → Joined id user_id db db'
Enlisted-Joined id user_id db db' once (pre, admitted, new, whole) =
    let passes = first-passes (admits id) db.rooms pre admitted in
    let (before, after_, was, is) =
      change_first-Differ (admits id) (add_participant user_id) db.rooms pre admitted in
    let mine : room_has_id id pre ≡ true = ground (arith, passes) in
    (
      pre,
      ground (arith, passes),
      open_then pre.status (ground (arith, passes)),
      ground (arith, passes),
      new,
      (
        before,
        after_,
        was,
        rw whole (
            rw is (
              change_first-only (room_has_id id) bump_count before pre (add_participant user_id pre)
                after_ (rw was at once) mine mine
              ∙ rw new refl)),
      ),
    )

module _ (between : Store → Store) (id user_id : ℕ) (subs : List SubscriptionEntry) (now : ℕ)
    (db : Store) where
  answered :
      (already : Bool)
      → (register driver between id user_id subs now db).0 ≡ ok already
      → Entitled id subs now db
        × (((already ≡ false)
              × Enlisted id user_id (between db) (register driver between id user_id subs now db).1)
            ⊎ ((already ≡ true)
                × ((register driver between id user_id subs now db).1 ≡ between db)
                × (any (is_in id user_id) (between db).rooms ≡ true)))
  answered false e = (
    gated between id user_id subs now db false e,
    inl (refl, registered between id user_id subs now db e),
  )
  answered true e =
      let w = repeated between id user_id subs now db e in
      (gated between id user_id subs now db true e, inr (refl, w.0, w.1))

module _ {m : Mongo} (h : IsMongo m) where
  -- If a registration answers, where the room's id is unique in the store that its update met, then
  -- tournaments are enabled, the room is there and the user may enter its tier. Either it adds the
  -- user, who was not in, as the last participant of the room, which was SCHEDULED or LIVE and had
  -- fewer than 100 participants, counts them and changes no other room; or it changes nothing and the
  -- user is in.
  pub answered_registration :
      (between : Store → Store) (id user_id : ℕ) (subs : List SubscriptionEntry) (now : ℕ)
      (db : Store) (already : Bool)
      → tally (room_has_id id) (between db).rooms ≤ 1
      → (register m between id user_id subs now db).0 ≡ ok already
      → Entitled id subs now db
        × (((already ≡ false)
              × Enlisted id user_id (between db) (register m between id user_id subs now db).1
              × Joined id user_id (between db) (register m between id user_id subs now db).1)
            ⊎ ((already ≡ true)
                × ((register m between id user_id subs now db).1 ≡ between db)
                × (any (is_in id user_id) (between db).rooms ≡ true)))
  answered_registration = rw (Mongo-eq h) λ between id user_id subs now db already once e.
      let (entitled_, how) = answered between id user_id subs now db already e in
      (
        entitled_,
        elim how [
          | inl (new, enlisted_) ↦ inl (
            new,
            enlisted_,
            Enlisted-Joined id user_id (between db)
                (register driver between id user_id subs now db).1 once enlisted_,
          )
          | inr old ↦ inr old
        ],
      )

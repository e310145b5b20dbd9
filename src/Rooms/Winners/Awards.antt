-- ===== src/Rooms/Winners/Awards.antt =====
-- The awards of `assignWinners`, after one run and after two.
use cashfb_backend.Prelude.{
  ℕ, suc, ◌≡◌, ◌+◌, inl, inr, Bool, true, false, Option, none, some, List, [], ◌∷◌, ◌++◌, any,
  any-append, length, length-append, arith, refl, ap, sym, subst, ◌∙◌, map, All, or_default,
  Bool-cases,
}
use cashfb_backend.Shared.Errors.{AppError}
use cashfb_backend.Shared.Exec.{Result, ok, err}
use cashfb_backend.Shared.Mongo.{Mongo, IsMongo, Mongo-eq, driver}
use cashfb_backend.Redeem.{PrizePoolWinner}
use cashfb_backend.Rooms.{Store}
use cashfb_backend.Rooms.Winners.{
  AssignWinnersInputItem, AssignWinnersResult, assign, assign_winners, same_award, award_document,
  lacks_reference, same_option,
}

same_option_refl : (o : Option ℕ) → same_option o o ≡ true
same_option_refl none = refl
same_option_refl (some a) = ground arith

same_award_refl : (a : PrizePoolWinner) → same_award a a ≡ true
same_award_refl a =
    ground (arith, same_option_refl a.redeem_code_id, same_option_refl a.custom_room_id)

append-[] : (xs : List ℕ) → xs ++ [] ≡ xs
append-[] [] = refl
append-[] (x ∷ xs) = ap (λ (ys : List ℕ). x ∷ ys) (append-[] xs)

append-step : (xs : List ℕ) (x : ℕ) (ys : List ℕ) → (xs ++ x ∷ []) ++ ys ≡ xs ++ x ∷ ys
append-step [] x ys = refl
append-step (z ∷ zs) x ys = ap (λ (ws : List ℕ). z ∷ ws) (append-step zs x ys)

ap2 : {A B C : Type 0} (f : A → B → C) {a a' : A} {b b' : B} → a ≡ a' → b ≡ b' → f a b ≡ f a' b'
ap2 f p q = λ i. f (p i) (q i)

module _ (now day_key pro pro_max : ℕ) where
  -- a winner who has the award
  abbrev pub has_award : AssignWinnersInputItem → List PrizePoolWinner → Bool
  has_award w ps = any (same_award (award_document now day_key pro pro_max w)) ps

  -- what one pass of the loop adds to the awards: every award is there after it
  counted :
      (ws : List AssignWinnersInputItem) (assigned : ℕ) (skipped : List ℕ) (db : Store)
      (r : AssignWinnersResult)
      → (assign driver now day_key pro pro_max assigned skipped ws db).0 ≡ ok r
      → let db' = (assign driver now day_key pro pro_max assigned skipped ws db).1 in
        (r.assigned + length r.skipped ≡ assigned + length skipped + length ws)
        × (length db'.winners + assigned ≡ length db.winners + r.assigned)
  unfolding assign
  counted [] assigned skipped db r e = ground arith
  counted (w ∷ ws) assigned skipped db r e = elim (Bool-cases (lacks_reference w)) [
    | inl bad ↦ absurd (ground arith)
    | inr good ↦ elim (Bool-cases (has_award w db.winners)) [
      | inl twice ↦ ground (
        arith,
        good,
        twice,
        counted ws assigned (skipped ++ w.user_id ∷ []) db r,
        length-append skipped (w.user_id ∷ []),
      )
      | inr new ↦
          let db' = record db {
            winners = db.winners ++ award_document now day_key pro pro_max w ∷ [];
          } in
          ground (
            arith,
            good,
            new,
            counted ws (suc assigned) skipped db' r,
            length-append db.winners (award_document now day_key pro pro_max w ∷ []),
          )
    ]
  ]

  grows :
      (q : PrizePoolWinner → Bool) (ws : List AssignWinnersInputItem) (assigned : ℕ)
      (skipped : List ℕ) (db : Store)
      → any q db.winners ≡ true
      → any q (assign driver now day_key pro pro_max assigned skipped ws db).1.winners ≡ true
  unfolding assign
  grows q [] assigned skipped db h = h
  grows q (w ∷ ws) assigned skipped db h = elim (Bool-cases (lacks_reference w)) [
    | inl bad ↦ ground (arith, bad)
    | inr good ↦ elim (Bool-cases (has_award w db.winners)) [
      | inl twice ↦ ground (arith, good, twice, grows q ws assigned (skipped ++ w.user_id ∷ []) db)
      | inr new ↦
          let db' = record db {
            winners = db.winners ++ award_document now day_key pro pro_max w ∷ [];
          } in
          ground (
            arith,
            good,
            new,
            grows q ws (suc assigned) skipped db',
            any-append q db.winners (award_document now day_key pro pro_max w ∷ []),
          )
    ]
  ]

  -- a complete item whose award is there
  abbrev pub Done : List PrizePoolWinner → AssignWinnersInputItem → Type 0
  Done ps w = (lacks_reference w ≡ false) × (has_award w ps ≡ true)

  step_skips :
      (w : AssignWinnersInputItem) (ws : List AssignWinnersInputItem) (assigned : ℕ)
      (skipped : List ℕ) (db : Store)
      → Done db.winners w
      → assign driver now day_key pro pro_max assigned skipped (w ∷ ws) db
        ≡ assign driver now day_key pro pro_max assigned (skipped ++ w.user_id ∷ []) ws db
  unfolding assign
  step_skips w ws assigned skipped db h = ground (arith, h.0, h.1)

  step_adds :
      (w : AssignWinnersInputItem) (ws : List AssignWinnersInputItem) (assigned : ℕ)
      (skipped : List ℕ) (db : Store)
      → lacks_reference w ≡ false
      → has_award w db.winners ≡ false
      → assign driver now day_key pro pro_max assigned skipped (w ∷ ws) db
        ≡ assign driver now day_key pro pro_max
            (suc assigned)
            skipped
            ws
            (record db { winners = db.winners ++ award_document now day_key pro pro_max w ∷ [] })
  unfolding assign
  step_adds w ws assigned skipped db good new = ground (arith, good, new)

  step_fails :
      (w : AssignWinnersInputItem) (ws : List AssignWinnersInputItem) (assigned : ℕ)
      (skipped : List ℕ) (db : Store)
      → lacks_reference w ≡ true
      → assign driver now day_key pro pro_max assigned skipped (w ∷ ws) db
        ≡ (err AppError.validation, db)
  unfolding assign
  step_fails w ws assigned skipped db bad = ground (arith, bad)

  all-Done :
      (ws : List AssignWinnersInputItem) (assigned : ℕ) (skipped : List ℕ) (db : Store)
      (r : AssignWinnersResult)
      → (assign driver now day_key pro pro_max assigned skipped ws db).0 ≡ ok r
      → All (Done (assign driver now day_key pro pro_max assigned skipped ws db).1.winners) ws
  all-Done [] assigned skipped db r e = tt
  all-Done (w ∷ ws) assigned skipped db r e = elim (Bool-cases (lacks_reference w)) [
    | inl bad ↦
        let stop = step_fails w ws assigned skipped db bad in absurd (ground (arith, stop, e))
    | inr good ↦ elim (Bool-cases (has_award w db.winners)) [
      | inl twice ↦
          let go = step_skips w ws assigned skipped db (good, twice) in
          subst (λ (x : Result AssignWinnersResult × Store). All (Done x.1.winners) (w ∷ ws))
            (sym go)
            (
              (
                good,
                grows (same_award (award_document now day_key pro pro_max w)) ws assigned
                    (skipped ++ w.user_id ∷ []) db twice,
              ),
              all-Done ws assigned (skipped ++ w.user_id ∷ []) db r (rw go at e),
            )
      | inr new ↦
          let doc = award_document now day_key pro pro_max w in
          let db' = record db { winners = db.winners ++ doc ∷ [] } in
          let go = step_adds w ws assigned skipped db good new in
          subst (λ (x : Result AssignWinnersResult × Store). All (Done x.1.winners) (w ∷ ws))
            (sym go)
            (
              (
                good,
                grows (same_award doc) ws (suc assigned) skipped db' (
                    rw (any-append (same_award doc) db.winners (doc ∷ []))
                      (ground (arith, same_award_refl doc))),
              ),
              all-Done ws (suc assigned) skipped db' r (rw go at e),
            )
    ]
  ]

  -- the loop writes awards only
  settings_kept :
      (ws : List AssignWinnersInputItem) (assigned : ℕ) (skipped : List ℕ) (db : Store)
      → let db' = (assign driver now day_key pro pro_max assigned skipped ws db).1 in
        (db'.pro_multiplier ≡ db.pro_multiplier) × (db'.pro_max_multiplier ≡ db.pro_max_multiplier)
  unfolding assign
  settings_kept [] assigned skipped db = (refl, refl)
  settings_kept (w ∷ ws) assigned skipped db = elim (Bool-cases (lacks_reference w)) [
    | inl bad ↦ ground (arith, bad)
    | inr good ↦ elim (Bool-cases (has_award w db.winners)) [
      | inl twice ↦
          ground (arith, good, twice, settings_kept ws assigned (skipped ++ w.user_id ∷ []) db)
      | inr new ↦
          let db' = record db {
            winners = db.winners ++ award_document now day_key pro pro_max w ∷ [];
          } in
          ground (arith, good, new, settings_kept ws (suc assigned) skipped db')
    ]
  ]

  nothing_left :
      (ws : List AssignWinnersInputItem) (assigned : ℕ) (skipped : List ℕ) (db : Store)
      → All (Done db.winners) ws
      → assign driver now day_key pro pro_max assigned skipped ws db
        ≡ (ok (record { assigned = assigned; skipped = skipped ++ map (λ w. w.user_id) ws }), db)
  unfolding assign
  nothing_left [] assigned skipped db h = rw (append-[] skipped) refl
  nothing_left (w ∷ ws) assigned skipped db h =
      step_skips w ws assigned skipped db h.0
      ∙ (nothing_left ws assigned (skipped ++ w.user_id ∷ []) db h.1
          ∙ ap (λ (s : List ℕ). (ok (record { assigned = assigned; skipped = s }), db))
              (append-step skipped w.user_id (map (λ v. v.user_id) ws)))

again :
    (now later_on day_key : ℕ) (ws : List AssignWinnersInputItem) (db : Store)
    (r : AssignWinnersResult)
    → (assign_winners driver now day_key ws db).0 ≡ ok r
    → let db' = (assign_winners driver now day_key ws db).1 in
      assign_winners driver later_on day_key ws db'
      ≡ (ok (record { assigned = 0; skipped = map (λ w. w.user_id) ws }), db')
unfolding assign_winners
again now later_on day_key ws db r e =
    let pro = or_default db.pro_multiplier 5 in
    let pro_max = or_default db.pro_max_multiplier 10 in
    let db' = (assign driver now day_key pro pro_max 0 [] ws db).1 in
    let kept = settings_kept now day_key pro pro_max ws 0 [] db in
    let left =
      nothing_left later_on day_key pro pro_max ws 0 [] db'
        (all-Done now day_key pro pro_max ws 0 [] db r e) in
    ap2
      (λ (a b : Option ℕ).
        assign driver later_on day_key (or_default a 5) (or_default b 10) 0 [] ws db')
      kept.0 kept.1
    ∙ left

module _ {m : Mongo} (h : IsMongo m) where
  -- If winners are assigned then each of them was either assigned or skipped, and as many awards were
  -- added as were assigned.
  pub every_winner_is_counted :
      (now day_key : ℕ) (ws : List AssignWinnersInputItem) (db : Store) (r : AssignWinnersResult)
      → (assign_winners m now day_key ws db).0 ≡ ok r
      → (r.assigned + length r.skipped ≡ length ws)
        × (length (assign_winners m now day_key ws db).1.winners ≡ length db.winners + r.assigned)
  unfolding assign_winners
  every_winner_is_counted = rw (Mongo-eq h) λ now day_key ws db r e. ground (
    arith,
    counted now day_key (or_default db.pro_multiplier 5) (or_default db.pro_max_multiplier 10) ws 0
        [] db r e,
  )

  -- After winners were assigned, the same call again, at any time, assigns none, skips all of them in
  -- their order and leaves the store as it is.
  pub assigning_again_skips_all :
      (now later_on day_key : ℕ) (ws : List AssignWinnersInputItem) (db : Store)
      (r : AssignWinnersResult)
      → (assign_winners m now day_key ws db).0 ≡ ok r
      → let db' = (assign_winners m now day_key ws db).1 in
        assign_winners m later_on day_key ws db'
        ≡ (ok (record { assigned = 0; skipped = map (λ w. w.user_id) ws }), db')
  assigning_again_skips_all = rw (Mongo-eq h) again

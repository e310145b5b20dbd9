-- ===== src/Pools/Daily.antt =====
-- The daily pool: its fund, its budgets and its row.
use cashfb_backend.Prelude.{
  ℕ, ◌≡◌, ◌≤◌, ◌<◌, ◌+◌, ◌*◌, ◌/◌, ◌^◌, ◌⊎◌, inl, inr, Bool, true, false, none, some, List, [], ◌∷◌,
  ◌++◌, keep, sum_by, tally, first, or_default, arith, refl, sym, ◌≢◌, ◌∙◌, Option-cases,
  Bool-cases,
}
use cashfb_backend.Prelude.Int.{pos, ◌+ℤ◌, ◌-ℤ◌}
use cashfb_backend.Shared.Double.{floor_times, seven_tenths}
use cashfb_backend.Shared.Double.Bounds.{floor_seven_tenths}
use cashfb_backend.Shared.Mongo.{Mongo, IsMongo, Mongo-eq, driver}
use cashfb_backend.Shared.Tier.{Tier}
use cashfb_backend.Pools.{
  Store, PrizePool, Donation, ComputeAndPublishInput, ComputeAndPublishResult,
  compute_and_publish_pool, get_today_for_tier, seed, pool_of, voted_on, captured_within,
  donations_for, aggregate_captured_donations_for_day, stored_result,
}

-- What a pool is made of, from the votes, the donations and the multipliers of a store.
abbrev pub fund : (ℕ → ℕ × ℕ) → ComputeAndPublishInput → Store → ℕ
fund ist_day input db =
    let votes = tally (voted_on input.yesterday_day_key input.tier) db.votes in
    let rate = or_default db.config.base_rate_per_vote 100 in
    let given =
      sum_by (λ (d : Donation). d.amount)
        (keep (captured_within (ist_day input.yesterday_day_key)) db.donations) in
    elim input.tier [
      | Tier.public_tier ↦ votes * rate + given
      | Tier.pro ↦ votes * rate * or_default db.config.pro_multiplier 5
      | Tier.pro_max ↦ votes * rate * or_default db.config.pro_max_multiplier 10
    ]

first-appended :
    (p : PrizePool → Bool) (ps : List PrizePool) (q : PrizePool)
    → first p ps ≡ none
    → p q ≡ true
    → first p (ps ++ q ∷ []) ≡ some q
first-appended p [] q h mine = ground arith
first-appended p (r ∷ rs) q h mine = elim (Bool-cases (p r)) [
  | inl hit ↦ absurd (ground arith)
  | inr miss ↦ ground (arith, miss, first-appended p rs q (rw miss at h) mine)
]

fund-seed :
    (ist_day : ℕ → ℕ × ℕ) (now day yesterday : ℕ) (tier : Tier) (db : Store)
    → let input : ComputeAndPublishInput = record {
      day_key = day;
      yesterday_day_key = yesterday;
      tier = tier;
    } in
      (seed driver ist_day now input db).total_pool ≡ fund ist_day input db
unfolding seed donations_for aggregate_captured_donations_for_day
fund-seed ist_day now day yesterday Tier.public_tier db = omega arith
fund-seed ist_day now day yesterday Tier.pro db = omega arith
fund-seed ist_day now day yesterday Tier.pro_max db = omega arith

own_pool :
    (ist_day : ℕ → ℕ × ℕ) (now day yesterday : ℕ) (tier : Tier) (db : Store)
    → pool_of tier day (
        seed driver ist_day now
          (record { day_key = day; yesterday_day_key = yesterday; tier = tier })
          db)
      ≡ true
unfolding seed
own_pool ist_day now day yesterday Tier.public_tier db = ground arith
own_pool ist_day now day yesterday Tier.pro db = ground arith
own_pool ist_day now day yesterday Tier.pro_max db = ground arith

abbrev pub created_result :
    (ℕ → ℕ × ℕ) → ComputeAndPublishInput → Store → PrizePool → ComputeAndPublishResult
created_result ist_day input db new = record (stored_result new) {
  created = true;
  donation_contribution = pos (donations_for driver ist_day input.tier input.yesterday_day_key db);
}

back_together : (a b : ℕ) → pos b +ℤ (pos a -ℤ pos b) ≡ pos a
unfolding ◌+ℤ◌ ◌-ℤ◌
back_together a b = ground arith

row_shown :
    (ist_day : ℕ → ℕ × ℕ) (day : ℕ) (tier : Tier) (db : Store) (row : PrizePool)
    → first (pool_of tier day) db.pools ≡ some row
    → let today = get_today_for_tier driver ist_day day tier db in
      let answer = stored_result row in
      (today.total_pool ≡ answer.total_pool)
      × (today.gift_code_budget ≡ answer.gift_code_budget)
      × (today.custom_room_budget ≡ answer.custom_room_budget)
      × (today.vote_count ≡ answer.vote_count)
unfolding get_today_for_tier
row_shown ist_day day tier db row here = rw (get_today_for_tier, here) (refl, refl, refl, refl)

seed_budgets :
    (ist_day : ℕ → ℕ × ℕ) (now : ℕ) (input : ComputeAndPublishInput) (db : Store)
    → let new = stored_result (seed driver ist_day now input db) in
      (pos new.gift_code_budget +ℤ new.custom_room_budget ≡ pos new.total_pool)
      × (new.gift_code_budget ≡ floor_times seven_tenths 53 new.total_pool)
unfolding seed
seed_budgets ist_day now input db = (back_together _ _, refl)

module _ (ist_day : ℕ → ℕ × ℕ) (between : Store → Store) (now : ℕ) (input : ComputeAndPublishInput)
    (db : Store) where
  -- the row of the day after a call: the one that was there, or the computed one
  computed :
      let new = seed driver ist_day now input db in
      let answer = compute_and_publish_pool driver ist_day between now input db in
      ((first (pool_of input.tier input.day_key) (between db).pools ≡ none)
        × (answer.0.created ≡ true)
        × (answer.0 ≡ created_result ist_day input db new)
        × (first (pool_of input.tier input.day_key) answer.1.pools ≡ some new))
      ⊎ ((prev : PrizePool) × (first (pool_of input.tier input.day_key) (between db).pools
            ≡ some prev)
          × (answer.0 ≡ stored_result prev)
          × (answer.1 ≡ between db))
  unfolding compute_and_publish_pool
  computed =
      let new = seed driver ist_day now input db in
      let mine = own_pool ist_day now input.day_key input.yesterday_day_key input.tier db in
      elim (Option-cases (first (pool_of input.tier input.day_key) (between db).pools)) [
        | inl nothing ↦ inl (
          nothing,
          ground (arith, nothing),
          ground (arith, nothing),
          ground (
            arith,
            nothing,
            first-appended (pool_of input.tier input.day_key) (between db).pools new nothing mine,
          ),
        )
        | inr (prev, found) ↦ inr (prev, found, ground (arith, found), ground (arith, found))
      ]

  row_absent :
      first
        (pool_of input.tier input.day_key)
        (compute_and_publish_pool driver ist_day between now input db).1.pools
      ≢ none
  row_absent gone = elim computed [
    | inl (_, _, _, there) ↦ absurd (ground (arith, there, gone))
    | inr (prev, found, _, unchanged) ↦ absurd (ground (arith, found, rw unchanged at gone))
  ]

  row_total :
      (row : PrizePool)
      → first
          (pool_of input.tier input.day_key)
          (compute_and_publish_pool driver ist_day between now input db).1.pools
        ≡ some row
      → row.total_pool ≡ (compute_and_publish_pool driver ist_day between now input db).0.total_pool
  row_total row here = elim computed [
    | inl (_, _, same, there) ↦ ground (arith, same, there, here)
    | inr (prev, found, same, unchanged) ↦ ground (arith, same, found, rw unchanged at here)
  ]

  budgets :
      let answer = (compute_and_publish_pool driver ist_day between now input db).0 in
      answer.created ≡ true
      → answer.total_pool < 2 ^ 48
      → (pos answer.gift_code_budget +ℤ answer.custom_room_budget ≡ pos answer.total_pool)
        × (answer.gift_code_budget ≤ 7 * answer.total_pool / 10)
        × (7 * answer.total_pool / 10 ≤ answer.gift_code_budget + 1)
  budgets new small = elim computed [
    | inl (_, _, same, _) ↦
        let (sum, share) = seed_budgets ist_day now input db in
        let total = (seed driver ist_day now input db).total_pool in
        let near = floor_seven_tenths total (rw same at small) in
        rw same (sum, rw share near.0, rw share near.1)
    | inr (prev, _, same, _) ↦ absurd (ground (arith, same))
  ]

  shown_again :
      let answer = compute_and_publish_pool driver ist_day between now input db in
      let today = get_today_for_tier driver ist_day input.day_key input.tier answer.1 in
      (today.total_pool ≡ answer.0.total_pool)
      × (today.gift_code_budget ≡ answer.0.gift_code_budget)
      × (today.custom_room_budget ≡ answer.0.custom_room_budget)
      × (today.vote_count ≡ answer.0.vote_count)
  shown_again =
      let day = input.day_key in
      let db' = (compute_and_publish_pool driver ist_day between now input db).1 in
      elim computed [
        | inl (_, _, same, there) ↦ rw same (row_shown ist_day day input.tier db' _ there)
        | inr (prev, found, same, unchanged) ↦
            rw same (row_shown ist_day day input.tier db' prev (rw (sym unchanged) at found))
      ]

recomputed :
    (ist_day : ℕ → ℕ × ℕ) (between between' : Store → Store) (now now' : ℕ)
    (input input' : ComputeAndPublishInput) (db db' : Store)
    → input'.tier ≡ input.tier
    → input'.day_key ≡ input.day_key
    → first (pool_of input.tier input.day_key) (between' db').pools
      ≡ first
          (pool_of input.tier input.day_key)
          (compute_and_publish_pool driver ist_day between now input db).1.pools
    → let again = compute_and_publish_pool driver ist_day between' now' input' db' in
      (again.0.created ≡ false)
      × (again.0.total_pool
          ≡ (compute_and_publish_pool driver ist_day between now input db).0.total_pool)
      × (again.1 ≡ between' db')
recomputed ist_day between between' now now' input input' db db' same_tier same_day same_row =
    elim (computed ist_day between' now' input' db') [
      | inl (nothing, _, _, _) ↦ absurd (
          row_absent ist_day between now input db
            (sym same_row ∙ rw (same_tier, same_day) at nothing))
      | inr (prev, found, same, unchanged) ↦
          let row =
            row_total ist_day between now input db prev
              (sym same_row ∙ rw (same_tier, same_day) at found) in
          (ground (arith, same), ground (arith, same, row), unchanged)
    ]

module _ {m : Mongo} (h : IsMongo m) (ist_day : ℕ → ℕ × ℕ) where
  -- A pool that a call creates is worth the votes of its tier on the day before, each at the base
  -- rate times the tier's multiplier, and for PUBLIC the donations captured on that day; the defaults
  -- are 100 paise, 5 and 10.
  pub created_pool_is_funded :
      (between : Store → Store) (now : ℕ) (input : ComputeAndPublishInput) (db : Store)
      → let answer = compute_and_publish_pool m ist_day between now input db in
        answer.0.created ≡ true → answer.0.total_pool ≡ fund ist_day input db
  created_pool_is_funded = rw (Mongo-eq h) λ between now input db new.
      elim (computed ist_day between now input db) [
        | inl (_, _, total, _) ↦
            ground (arith, total)
            ∙ fund-seed ist_day now input.day_key input.yesterday_day_key input.tier db
        | inr (prev, _, same, _) ↦ absurd (ground (arith, same))
      ]

  -- The gift-code budget and the custom-room budget of a created pool of less than 2 ^ 48 paise add up
  -- to the total, and the gift-code budget is seven tenths of the total rounded down, or a paisa less.
  pub created_budgets_add_up :
      (between : Store → Store) (now : ℕ) (input : ComputeAndPublishInput) (db : Store)
      → let answer = (compute_and_publish_pool m ist_day between now input db).0 in
        answer.created ≡ true
        → answer.total_pool < 2 ^ 48
        → (pos answer.gift_code_budget +ℤ answer.custom_room_budget ≡ pos answer.total_pool)
          × (answer.gift_code_budget ≤ 7 * answer.total_pool / 10)
          × (7 * answer.total_pool / 10 ≤ answer.gift_code_budget + 1)
  created_budgets_add_up = rw (Mongo-eq h) (budgets ist_day)

  -- The pool of a tier and a day is computed once: whatever has changed since, and whatever other
  -- requests do that leaves the row of that day alone, a later call for the same tier and day creates
  -- nothing, writes nothing, and answers the first call's total.
  pub second_computation_writes_nothing :
      (between between' : Store → Store) (now now' : ℕ) (input input' : ComputeAndPublishInput)
      (db db' : Store)
      → input'.tier ≡ input.tier
      → input'.day_key ≡ input.day_key
      → first (pool_of input.tier input.day_key) (between' db').pools
        ≡ first
            (pool_of input.tier input.day_key)
            (compute_and_publish_pool m ist_day between now input db).1.pools
      → let again = compute_and_publish_pool m ist_day between' now' input' db' in
        (again.0.created ≡ false)
        × (again.0.total_pool
            ≡ (compute_and_publish_pool m ist_day between now input db).0.total_pool)
        × (again.1 ≡ between' db')
  second_computation_writes_nothing = rw (Mongo-eq h) (recomputed ist_day)

  -- What a call answers is what the day's pool then shows: the same total and budgets.
  pub computed_pool_is_shown :
      (between : Store → Store) (now : ℕ) (input : ComputeAndPublishInput) (db : Store)
      → let answer = compute_and_publish_pool m ist_day between now input db in
        let today = get_today_for_tier m ist_day input.day_key input.tier answer.1 in
        (today.total_pool ≡ answer.0.total_pool)
        × (today.gift_code_budget ≡ answer.0.gift_code_budget)
        × (today.custom_room_budget ≡ answer.0.custom_room_budget)
        × (today.vote_count ≡ answer.0.vote_count)
  computed_pool_is_shown = rw (Mongo-eq h) (shown_again ist_day)

-- ===== src/Billing/Sweep.antt =====
-- src/modules/subscriptions/sweep.service.ts and _subscriptions.pipelines.ts: expired entries are
-- removed in batches.
use cashfb_backend.Prelude.{
  ℕ, zero, suc, ◌⊎◌, All-map, ◌≡◌, ◌≤◌, inl, inr, Bool, true, false, ◌==◌, Option, none, some, List,
  [], ◌∷◌, any, keep, change_all, take, length, map, leb, ltb, or_default, All, arith, refl,
  if◌then◌else◌, Bool-cases,
}
use cashfb_backend.Shared.Mongo.{Mongo, IsMongo, Mongo-eq}
use cashfb_backend.Shared.Tier.{SubscriptionEntry}
use cashfb_backend.Shared.User.{User}
use cashfb_backend.Wallet.{has_id}
use cashfb_backend.Billing.{Store}
use cashfb_backend.Billing.Subscriptions.{with_entries}

abbrev pub default_batch_size : ℕ
default_batch_size = 500

-- `Math.max(1, Math.min(10_000, n))`
abbrev pub clamp : ℕ → ℕ
clamp n = if n == 0 then 1 else if ltb 10000 n then 10000 else n

-- `$lt: now, $exists: true, $ne: null`
abbrev pub is_expired : ℕ → SubscriptionEntry → Bool
is_expired now e = elim e.expires_at [ none ↦ false | some t ↦ ltb t now ]

-- the condition of `buildSweepFilterPipelineExpr`. In an aggregation a missing field is not equal to
-- null and it sorts before every date, so an entry without an expiry does not pass.
abbrev pub sweep_keeps : ℕ → SubscriptionEntry → Bool
sweep_keeps now e = elim e.expires_at [ none ↦ false | some t ↦ leb now t ]

abbrev pub is_candidate : ℕ → User → Bool
is_candidate now u = any (is_expired now) u.subscriptions

abbrev pub in_ids : List User → User → Bool
in_ids candidates u = any (has_id u.id) candidates

abbrev pub sweep_entries : ℕ → List SubscriptionEntry → List SubscriptionEntry
sweep_entries now es = keep (sweep_keeps now) es

-- `modified` stands for the driver's `modifiedCount`; `between` is what other requests commit after
-- the scan.
module _ (m : Mongo) (modified : List User → List User → ℕ) where
  pub sweep_expired_tiers : (Store → Store) → ℕ → Option ℕ → Store → ℕ × Store
  sweep_expired_tiers between now batch_size db =
      let candidates =
        take (clamp (or_default batch_size default_batch_size))
          (m.find User (is_candidate now) db.users) in
      if length candidates == 0
      then (0, db)
      else let db' = between db in
        let users' =
          m.update_many User (in_ids candidates) (with_entries (sweep_entries now)) db'.users in
        (modified db'.users users', record db' { users = users' })

sweep_entries-fresh :
    (now : ℕ) (es : List SubscriptionEntry) → any (is_expired now) (sweep_entries now es) ≡ false
sweep_entries-fresh now [] = refl
sweep_entries-fresh now (e ∷ es) = ground (arith, sweep_entries-fresh now es)

sweep_entries-idempotent :
    (now : ℕ) (es : List SubscriptionEntry)
    → sweep_entries now (sweep_entries now es) ≡ sweep_entries now es
sweep_entries-idempotent now [] = refl
sweep_entries-idempotent now (e ∷ es) = ground (arith, sweep_entries-idempotent now es)

take-all : (n : ℕ) (us : List User) → length us ≤ n → take n us ≡ us
take-all zero [] h = refl
take-all zero (u ∷ us) h = absurd (ground arith)
take-all (suc n) [] h = refl
take-all (suc n) (u ∷ us) h = ground (arith, take-all n us)

-- the users of a list whose candidates are all among the ids, after the update
swept_candidates :
    (now : ℕ) (ids us : List User)
    → All (λ u. is_candidate now u ≡ true → in_ids ids u ≡ true) us
    → All
        (λ u. is_candidate now u ≡ false)
        (change_all (in_ids ids) (with_entries (sweep_entries now)) us)
swept_candidates now ids [] h = tt
swept_candidates now ids (u ∷ us) (h, hs) = elim (Bool-cases (in_ids ids u)) [
  | inl hit ↦ rw hit (sweep_entries-fresh now u.subscriptions, swept_candidates now ids us hs)
  | inr miss ↦ rw miss (ground arith, swept_candidates now ids us hs)
]

in_own_ids :
    (now : ℕ) (us : List User)
    → All (λ u. is_candidate now u ≡ true → in_ids (keep (is_candidate now) us) u ≡ true) us
in_own_ids now [] = tt
in_own_ids now (u ∷ us) = (
  λ mine. ground arith,
  All-map (λ v. is_candidate now v ≡ true → in_ids (keep (is_candidate now) us) v ≡ true)
      (λ v. is_candidate now v ≡ true → in_ids (keep (is_candidate now) (u ∷ us)) v ≡ true)
      (λ v old mine. ground (arith, old mine)) us (in_own_ids now us),
)

-- what the sweep keeps of each user
abbrev pub fresh_entries : ℕ → List User → List (List SubscriptionEntry)
fresh_entries now us = map (λ u. sweep_entries now u.subscriptions) us

fresh_kept :
    (now : ℕ) (ids us : List User)
    → fresh_entries now (change_all (in_ids ids) (with_entries (sweep_entries now)) us)
      ≡ fresh_entries now us
fresh_kept now ids [] = refl
fresh_kept now ids (u ∷ us) = elim (Bool-cases (in_ids ids u)) [
  | inl hit ↦
      rw hit (ground (arith, sweep_entries-idempotent now u.subscriptions, fresh_kept now ids us))
  | inr miss ↦ rw miss (ground (arith, fresh_kept now ids us))
]

none_left :
    (now : ℕ) (us : List User)
    → (length (keep (is_candidate now) us) == 0) ≡ true
    → All (λ u. is_candidate now u ≡ false) us
none_left now [] h = tt
none_left now (u ∷ us) h = (ground arith, none_left now us (ground arith))

module _ {m : Mongo} (h : IsMongo m) (modified : List User → List User → ℕ) where
  -- The sweep removes no entry that expires at its instant or later, from any user, whatever other
  -- requests wrote after the scan.
  pub sweep_keeps_fresh_entries :
      (between : Store → Store) (now : ℕ) (batch_size : Option ℕ) (db : Store)
      → let db' = (sweep_expired_tiers m modified between now batch_size db).1 in
        (db' ≡ db) ⊎ (fresh_entries now db'.users ≡ fresh_entries now (between db).users)
  unfolding sweep_expired_tiers
  sweep_keeps_fresh_entries = rw (Mongo-eq h) λ between now batch_size db.
      let ids =
        take (clamp (or_default batch_size default_batch_size))
          (keep (is_candidate now) db.users) in
      elim (Bool-cases (length ids == 0)) [
        | inl nobody ↦ inl (rw nobody)
        | inr some_ ↦ inr (rw some_ (fresh_kept now ids (between db).users))
      ]

  -- Undisturbed, a sweep whose batch has room for every user with an expired entry leaves no user
  -- with one.
  pub sweep_is_complete :
      (now : ℕ) (batch_size : Option ℕ) (db : Store)
      → length (keep (is_candidate now) db.users) ≤ clamp (or_default batch_size default_batch_size)
      → All
          (λ u. is_candidate now u ≡ false)
          (sweep_expired_tiers m modified (λ s. s) now batch_size db).1.users
  unfolding sweep_expired_tiers
  sweep_is_complete = rw (Mongo-eq h) λ now batch_size db room.
      let candidates = keep (is_candidate now) db.users in
      rw (take-all (clamp (or_default batch_size default_batch_size)) candidates room)
        (elim (Bool-cases (length candidates == 0)) [
          | inl nobody ↦ rw nobody (none_left now db.users nobody)
          | inr some_ ↦
              rw some_ (swept_candidates now candidates db.users (in_own_ids now db.users))
        ])

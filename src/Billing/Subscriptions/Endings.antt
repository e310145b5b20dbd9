-- ===== src/Billing/Subscriptions/Endings.antt =====
-- `onHalted` and `onCancelled`: what is left of an entry.
use cashfb_backend.Prelude.{
  ℕ, ◌≡◌, ◌≤◌, ◌⊎◌, inl, inr, true, false, none, some, List, [], ◌∷◌, All, All-change_first, first,
  change_first, ltb, arith, refl, sym, Option-cases, Bool-cases, if◌then◌else◌,
}
use cashfb_backend.Shared.Mongo.{Mongo, IsMongo, Mongo-eq, driver}
use cashfb_backend.Shared.Tier.{
  Tier, SubscriptionEntry, is_active_for_derivation, has_active_entry, user_can_access_tier,
}
use cashfb_backend.Shared.User.{User}
use cashfb_backend.Wallet.{has_id}
use cashfb_backend.Billing.{Store, Subscription}
use cashfb_backend.Billing.Subscriptions.{
  RazorpaySubEntity, on_halted, on_cancelled, has_razorpay_id, cancel_entry, expire_entry, entry_of,
  with_entries,
}
use cashfb_backend.Billing.Subscriptions.Charges.{first-changed}
use cashfb_backend.Billing.Subscriptions.Entries.{
  OnePerTier, cancel_entry-OnePerTier, expire_entry-OnePerTier,
}

-- no entry of the subscription gives access at that time
abbrev pub Silent : ℕ → ℕ → SubscriptionEntry → Type 0
Silent sub_id now e = entry_of sub_id e ≡ true → is_active_for_derivation e now ≡ false

pub expire_entry-Silent :
    (sub_id now later : ℕ) (es : List SubscriptionEntry)
    → now ≤ later
    → All (Silent sub_id later) (expire_entry sub_id now es)
unfolding is_active_for_derivation
expire_entry-Silent sub_id now later [] h = tt
expire_entry-Silent sub_id now later (e ∷ es) h = elim (Bool-cases (entry_of sub_id e)) [
  | inl hit ↦ rw hit (λ mine. ground arith, expire_entry-Silent sub_id now later es h)
  | inr miss ↦ rw miss (λ mine. absurd (ground arith), expire_entry-Silent sub_id now later es h)
]

-- there is an expiry and it lies ahead
abbrev pub ExpiresLater : ℕ → SubscriptionEntry → Type 0
ExpiresLater later e = (end_ : ℕ) × (e.expires_at ≡ some end_) × (ltb later end_ ≡ true)

-- The end of a cycle: what a cancelled entry gives access to before its expiry.
pub cancel_entry-grace :
    (sub_id later : ℕ) (tier : Tier) (es : List SubscriptionEntry)
    → All (ExpiresLater later) es
    → has_active_entry es tier later ≡ true
    → has_active_entry (cancel_entry sub_id es) tier later ≡ true
unfolding has_active_entry is_active_for_derivation
cancel_entry-grace sub_id later tier [] h live = live
cancel_entry-grace sub_id later tier (e ∷ es) (h, hs) live =
    let rest = cancel_entry-grace sub_id later tier es hs in
    let end_ = h.0 in let at_ = h.1 in let ahead = h.2 in ground (arith, rest)

grace :
    (sub_id later : ℕ) (tier : Tier) (es : List SubscriptionEntry)
    → All (ExpiresLater later) es
    → user_can_access_tier es tier later ≡ true
    → user_can_access_tier (cancel_entry sub_id es) tier later ≡ true
unfolding user_can_access_tier
grace sub_id later Tier.public_tier es h live = refl
grace sub_id later Tier.pro es h live = cancel_entry-grace sub_id later Tier.pro es h live
grace sub_id later Tier.pro_max es h live = cancel_entry-grace sub_id later Tier.pro_max es h live

first-expired :
    (user_id sub_id now later : ℕ) (us : List User) (u : User)
    → now ≤ later
    → first
        (has_id user_id)
        (change_first (has_id user_id) (with_entries (expire_entry sub_id now)) us)
      ≡ some u
    → All (Silent sub_id later) u.subscriptions
first-expired user_id sub_id now later [] u ahead h = absurd (ground arith)
first-expired user_id sub_id now later (v ∷ vs) u ahead h = elim (Bool-cases (has_id user_id v)) [
  | inl hit ↦
      let same : with_entries (expire_entry sub_id now) v ≡ u = ground arith in
      rw (sym same) (expire_entry-Silent sub_id now later v.subscriptions ahead)
  | inr miss ↦ first-expired user_id sub_id now later vs u ahead (ground arith)
]

module _ (now : ℕ) (entity : RazorpaySubEntity) (db : Store) where
  -- the entity's subscription is unknown, or its user's entry expires
  halted :
      let db' = (on_halted driver now entity db).1 in
      ((first (has_razorpay_id entity.id) db.subscriptions ≡ none) × (db' ≡ db))
      ⊎ ((sub : Subscription) × (first (has_razorpay_id entity.id) db.subscriptions ≡ some sub)
          × (db'.users
              ≡ change_first
                  (has_id sub.user_id)
                  (with_entries (expire_entry sub.id now))
                  db.users))
  unfolding on_halted
  halted = elim (Option-cases (first (has_razorpay_id entity.id) db.subscriptions)) [
    | inl nothing ↦ inl (nothing, ground arith)
    | inr (sub, known) ↦ inr (sub, known, ground arith)
  ]

  halted_users :
      (sub : Subscription)
      → first (has_razorpay_id entity.id) db.subscriptions ≡ some sub
      → (on_halted driver now entity db).1.users
        ≡ change_first (has_id sub.user_id) (with_entries (expire_entry sub.id now)) db.users
  unfolding on_halted
  halted_users sub known = ground arith

  cancelled :
      let db' = (on_cancelled driver now entity db).1 in
      (db' ≡ db)
      ⊎ ((sub : Subscription) × (first (has_razorpay_id entity.id) db.subscriptions ≡ some sub)
          × (db'.users
              ≡ change_first
                  (has_id sub.user_id)
                  (with_entries (
                    if entity.cancel_at_cycle_end
                    then cancel_entry sub.id
                    else expire_entry sub.id now))
                  db.users))
  unfolding on_cancelled
  cancelled = elim (Option-cases (first (has_razorpay_id entity.id) db.subscriptions)) [
    | inl nothing ↦ inl (ground arith)
    | inr (sub, known) ↦ elim (Bool-cases entity.cancel_at_cycle_end) [
      | inl late ↦ inr (sub, known, ground arith)
      | inr at_once ↦ inr (sub, known, ground arith)
    ]
  ]

  cancelled_late :
      (sub : Subscription) (u : User)
      → entity.cancel_at_cycle_end ≡ true
      → first (has_razorpay_id entity.id) db.subscriptions ≡ some sub
      → first (has_id sub.user_id) db.users ≡ some u
      → first (has_id sub.user_id) (on_cancelled driver now entity db).1.users
        ≡ some (with_entries (cancel_entry sub.id) u)
  unfolding on_cancelled
  cancelled_late sub u late known here = ground (
    arith,
    first-changed sub.user_id (with_entries (cancel_entry sub.id)) db.users u (λ v. refl) here,
  )

module _ {m : Mongo} (h : IsMongo m) where
  -- After `onHalted` the subscription's user has no entry of it that gives access, now or later.
  pub on_halted_ends_access :
      (now later : ℕ) (entity : RazorpaySubEntity) (db : Store) (sub : Subscription) (u : User)
      → now ≤ later
      → first (has_razorpay_id entity.id) db.subscriptions ≡ some sub
      → first (has_id sub.user_id) (on_halted m now entity db).1.users ≡ some u
      → All (Silent sub.id later) u.subscriptions
  on_halted_ends_access = rw (Mongo-eq h) λ now later entity db sub u ahead known here.
      first-expired sub.user_id sub.id now later db.users u ahead
        (rw (halted_users now entity db sub known) at here)

  -- `onHalted` leaves each user at most one entry for each tier.
  pub on_halted-OnePerTier :
      (now : ℕ) (entity : RazorpaySubEntity) (db : Store)
      → All OnePerTier db.users
      → All OnePerTier (on_halted m now entity db).1.users
  on_halted-OnePerTier = rw (Mongo-eq h) λ now entity db one. elim (halted now entity db) [
    | inl (_, same) ↦ rw same one
    | inr (sub, known, users) ↦ rw users (
        All-change_first OnePerTier (has_id sub.user_id) _ db.users
          (λ u p. expire_entry-OnePerTier sub.id now u) one)
  ]

  -- So does `onCancelled`.
  pub on_cancelled-OnePerTier :
      (now : ℕ) (entity : RazorpaySubEntity) (db : Store)
      → All OnePerTier db.users
      → All OnePerTier (on_cancelled m now entity db).1.users
  on_cancelled-OnePerTier = rw (Mongo-eq h) λ now entity db one. elim (cancelled now entity db) [
    | inl same ↦ rw same one
    | inr (sub, known, users) ↦ rw users (elim (Bool-cases entity.cancel_at_cycle_end) [
      | inl late ↦ rw late (
          All-change_first OnePerTier (has_id sub.user_id) _ db.users
            (λ u p. cancel_entry-OnePerTier sub.id u) one)
      | inr at_once ↦ rw at_once (
          All-change_first OnePerTier (has_id sub.user_id) _ db.users
            (λ u p. expire_entry-OnePerTier sub.id now u) one)
    ])
  ]

  -- Cancelled at the end of the cycle, a user whose entries all expire later keeps the access that
  -- they have at that time.
  pub cancelled_at_cycle_end_keeps_access :
      (now later : ℕ) (entity : RazorpaySubEntity) (db : Store) (sub : Subscription) (u : User)
      (tier : Tier)
      → entity.cancel_at_cycle_end ≡ true
      → first (has_razorpay_id entity.id) db.subscriptions ≡ some sub
      → first (has_id sub.user_id) db.users ≡ some u
      → All (ExpiresLater later) u.subscriptions
      → user_can_access_tier u.subscriptions tier later ≡ true
      → (v : User) × (first (has_id sub.user_id) (on_cancelled m now entity db).1.users ≡ some v)
        × (user_can_access_tier v.subscriptions tier later ≡ true)
  cancelled_at_cycle_end_keeps_access =
      rw (Mongo-eq h) λ now later entity db sub u tier late known here ahead live. (
        with_entries (cancel_entry sub.id) u,
        cancelled_late now entity db sub u late known here,
        grace sub.id later tier u.subscriptions ahead live,
      )

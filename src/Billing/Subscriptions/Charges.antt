-- ===== src/Billing/Subscriptions/Charges.antt =====
-- `onCharged`: recorded payments and the entry of the tier.
use cashfb_backend.Prelude.{
  ℕ, ◌≡◌, ◌⊎◌, inl, inr, Bool, true, false, Option, none, some, List, [], ◌∷◌, ◌++◌, All,
  All-change_first, any, any-append, is_some-first, first, change_first, arith, refl, Option-cases,
  Bool-cases,
}
use cashfb_backend.Shared.Exec.{ok}
use cashfb_backend.Shared.Mongo.{Mongo, IsMongo, Mongo-eq, driver}
use cashfb_backend.Shared.Tier.{
  Tier, SubscribableTier, SubscriptionEntry, SubscriptionStatus, same_tier, has_active_entry,
  is_active_for_derivation, user_can_access_tier,
}
use cashfb_backend.Shared.User.{User}
use cashfb_backend.Wallet.{has_id}
use cashfb_backend.Billing.{Store, Subscription, SubscriptionPayment}
use cashfb_backend.Billing.Subscriptions.{
  RazorpaySubEntity, RazorpayPayEntity, on_charged, pays, has_razorpay_id, sub_has_id, charged,
  replace_entry, with_entries, to_date,
}
use cashfb_backend.Billing.Subscriptions.Entries.{OnePerTier, replace_entry-OnePerTier}

abbrev pub payment_document : ℕ → ℕ → RazorpayPayEntity → Subscription → SubscriptionPayment
payment_document payment_id now payment sub = record {
  id = payment_id;
  subscription_id = sub.id;
  user_id = sub.user_id;
  razorpay_payment_id = payment.id;
  amount = payment.amount;
  captured_at = now;
  invoice = none;
}

recorded_payment :
    (payment_id now : ℕ) (payment : RazorpayPayEntity) (sub : Subscription)
    (ps : List SubscriptionPayment)
    → any (pays payment.id) (ps ++ payment_document payment_id now payment sub ∷ []) ≡ true
recorded_payment payment_id now payment sub ps =
    ground
      (arith, any-append (pays payment.id) ps (payment_document payment_id now payment sub ∷ []))

-- What a new payment does to the store that its transaction met, for the subscription it is for.
abbrev pub Charged :
    ℕ → RazorpaySubEntity → RazorpayPayEntity → Subscription → Store → Store → Type 0
Charged now entity payment sub db db' =
    (any (pays payment.id) db.payments ≡ false)
    × (any (pays payment.id) db'.payments ≡ true)
    × (db'.subscriptions ≡ change_first (sub_has_id sub.id) (charged entity) db.subscriptions)
    × (db'.users
        ≡ change_first (has_id sub.user_id)
            (with_entries (
              replace_entry sub.tier SubscriptionStatus.active (to_date entity.current_end) sub.id))
            db.users)

module _ (between : Store → Store) (payment_id now : ℕ) (enqueues : Bool)
    (entity : RazorpaySubEntity) (payment : RazorpayPayEntity) (db : Store) where
  repeated_charge :
      any (pays payment.id) (between db).payments ≡ true
      → let answer = on_charged driver between payment_id now enqueues entity payment db in
        (answer.0 ≡ ok tt) × ((answer.1 ≡ db) ⊎ (answer.1 ≡ between db))
  unfolding on_charged
  repeated_charge old =
      let found = is_some-first (pays payment.id) (between db).payments in
      elim (Option-cases (first (pays payment.id) (between db).payments)) [
        | inl nothing ↦ absurd (ground arith)
        | inr (p, here) ↦ (ground arith, ground arith)
      ]

  pub charge_cases :
      let db' = (on_charged driver between payment_id now enqueues entity payment db).1 in
      (db' ≡ db)
      ⊎ ((db' ≡ between db)
          ⊎ ((sub : Subscription) × (first (has_razorpay_id entity.id) db.subscriptions ≡ some sub)
              × Charged now entity payment sub (between db) db'))
  unfolding on_charged
  charge_cases =
      let found = is_some-first (pays payment.id) (between db).payments in
      elim (Option-cases (first (has_razorpay_id entity.id) db.subscriptions)) [
        | inl nothing ↦ inl (ground arith)
        | inr (sub, known) ↦ elim (Option-cases (first (has_id sub.user_id) db.users)) [
          | inl nobody ↦ inl (ground arith)
          | inr (u, here) ↦ elim (Option-cases (first (pays payment.id) (between db).payments)) [
            | inl fresh ↦ inr (
                inr (
                  sub,
                  known,
                  (
                    ground arith,
                    ground
                        (arith, recorded_payment payment_id now payment sub (between db).payments),
                    ground arith,
                    ground arith,
                  ),
                ))
            | inr (p, old) ↦ inr (inl (ground arith))
          ]
        ]
      ]

  new_charge :
      (sub : Subscription) (seen : User)
      → first (has_razorpay_id entity.id) db.subscriptions ≡ some sub
      → first (has_id sub.user_id) db.users ≡ some seen
      → any (pays payment.id) (between db).payments ≡ false
      → let db' = (on_charged driver between payment_id now enqueues entity payment db).1 in
        (any (pays payment.id) db'.payments ≡ true)
        × (db'.users
            ≡ change_first
                (has_id sub.user_id)
                (with_entries (
                  replace_entry sub.tier SubscriptionStatus.active
                    (to_date entity.current_end)
                    sub.id))
                (between db).users)
  unfolding on_charged
  new_charge sub seen known there new =
      let found = is_some-first (pays payment.id) (between db).payments in
      (
        ground (arith, recorded_payment payment_id now payment sub (between db).payments),
        ground arith,
      )

-- the section of a subscribable tier
abbrev pub section_of : SubscribableTier → Tier
section_of SubscribableTier.pro = Tier.pro
section_of SubscribableTier.pro_max = Tier.pro_max

has_active_entry-last :
    (es : List SubscriptionEntry) (e : SubscriptionEntry) (tier : Tier) (now : ℕ)
    → same_tier e.tier tier ≡ true
    → is_active_for_derivation e now ≡ true
    → has_active_entry (es ++ e ∷ []) tier now ≡ true
unfolding has_active_entry
has_active_entry-last [] e tier now mine live = ground arith
has_active_entry-last (d ∷ ds) e tier now mine live =
    ground (arith, has_active_entry-last ds e tier now mine live)

replace_entry-access :
    (tier : SubscribableTier) (expires_at : Option ℕ) (sub_id later : ℕ)
    (es : List SubscriptionEntry)
    → user_can_access_tier
        (replace_entry tier SubscriptionStatus.active expires_at sub_id es)
        (section_of tier)
        later
      ≡ true
unfolding user_can_access_tier is_active_for_derivation
replace_entry-access SubscribableTier.pro expires_at sub_id later es =
    has_active_entry-last _ _ Tier.pro later refl refl
replace_entry-access SubscribableTier.pro_max expires_at sub_id later es =
    has_active_entry-last _ _ Tier.pro_max later refl refl

pub first-changed :
    (user_id : ℕ) (f : User → User) (us : List User) (u : User)
    → ((v : User) → (f v).id ≡ v.id)
    → first (has_id user_id) us ≡ some u
    → first (has_id user_id) (change_first (has_id user_id) f us) ≡ some (f u)
first-changed user_id f [] u same h = absurd (ground arith)
first-changed user_id f (v ∷ vs) u same h = elim (Bool-cases (has_id user_id v)) [
  | inl hit ↦ ground (arith, hit, same v)
  | inr miss ↦ ground (arith, miss, first-changed user_id f vs u same (rw miss at h))
]

module _ {m : Mongo} (h : IsMongo m) where
  -- A redelivered charge changes nothing: if the payment is recorded when the transaction runs, the
  -- handler succeeds and writes nothing, and schedules no second invoice.
  pub repeated_charge_writes_nothing :
      (between : Store → Store) (payment_id now : ℕ) (enqueues : Bool) (entity : RazorpaySubEntity)
      (payment : RazorpayPayEntity) (db : Store)
      → any (pays payment.id) (between db).payments ≡ true
      → let answer = on_charged m between payment_id now enqueues entity payment db in
        (answer.0 ≡ ok tt) × ((answer.1 ≡ db) ⊎ (answer.1 ≡ between db))
  repeated_charge_writes_nothing = rw (Mongo-eq h) repeated_charge

  -- A new payment for a known subscription is recorded, and if its user is there when the
  -- transaction runs, the user may enter the section of the subscription's tier afterwards.
  pub new_charge_gives_access :
      (between : Store → Store) (payment_id now : ℕ) (enqueues : Bool) (entity : RazorpaySubEntity)
      (payment : RazorpayPayEntity) (db : Store) (sub : Subscription) (seen u : User) (later : ℕ)
      → first (has_razorpay_id entity.id) db.subscriptions ≡ some sub
      → first (has_id sub.user_id) db.users ≡ some seen
      → first (has_id sub.user_id) (between db).users ≡ some u
      → any (pays payment.id) (between db).payments ≡ false
      → let db' = (on_charged m between payment_id now enqueues entity payment db).1 in
        (any (pays payment.id) db'.payments ≡ true)
        × ((v : User) × (first (has_id sub.user_id) db'.users ≡ some v)
            × (user_can_access_tier v.subscriptions (section_of sub.tier) later ≡ true))
  new_charge_gives_access =
      rw (Mongo-eq h)
        λ between payment_id now enqueues entity payment db sub seen u later known there here new.
          let (recorded, users) =
            new_charge between payment_id now enqueues entity payment db sub seen known there new in
          let entries =
            replace_entry sub.tier SubscriptionStatus.active (to_date entity.current_end) sub.id in
          (
            recorded,
            (
              with_entries entries u,
              rw users (
                  first-changed sub.user_id (with_entries entries) (between db).users u (λ v. refl)
                    here),
              replace_entry-access sub.tier (to_date entity.current_end) sub.id later
                  u.subscriptions,
            ),
          )

  -- A charge leaves each user at most one entry for each tier, if other requests do.
  pub on_charged-OnePerTier :
      (between : Store → Store) (payment_id now : ℕ) (enqueues : Bool) (entity : RazorpaySubEntity)
      (payment : RazorpayPayEntity) (db : Store)
      → ((s : Store) → All OnePerTier s.users → All OnePerTier (between s).users)
      → All OnePerTier db.users
      → All OnePerTier (on_charged m between payment_id now enqueues entity payment db).1.users
  on_charged-OnePerTier =
      rw (Mongo-eq h) λ between payment_id now enqueues entity payment db others one.
        elim (charge_cases between payment_id now enqueues entity payment db) [
          | inl same ↦ rw same one
          | inr (inl other) ↦ rw other (others db one)
          | inr (inr (sub, known, c)) ↦ rw c.3 (
              All-change_first OnePerTier (has_id sub.user_id) _ (between db).users
                (λ u p.
                  replace_entry-OnePerTier sub.tier SubscriptionStatus.active
                    (to_date entity.current_end) sub.id u)
                (others db one))
        ]

-- ===== src/Billing/Subscriptions.antt =====
-- src/modules/subscriptions/subscriptions.service.ts: plans, creation, cancellation, and the
-- handlers of the provider's webhooks. An id 0 of the provider's stands for the empty one.
pub mod Entries
pub mod Charges
pub mod Endings
use cashfb_backend.Prelude.{
  ℕ, Bool, true, false, Option, none, some, List, [], ◌∷◌, ◌++◌, ◌+◌, ◌*◌, ◌==◌, not, keep, map,
  is_some, or_default, change_all, if◌then◌else◌,
}
use cashfb_backend.Shared.Errors.{AppError, plan_not_configured, forbidden_owner, invalid_signature}
use cashfb_backend.Shared.Exec.{
  Exec, Result, ok, err, pure, throw, gets, or_throw, update, modify, throw_if, ◌>>=◌, ◌>>◌,
}
use cashfb_backend.Shared.Mongo.{Mongo, update_one}
use cashfb_backend.Shared.Tier.{SubscribableTier, SubscriptionEntry, SubscriptionStatus}
use cashfb_backend.Shared.User.{User}
use cashfb_backend.Wallet.{has_id}
use cashfb_backend.Billing.{Store, Subscription, BillingStatus, SubscriptionPayment}

pub record Price : Type 0 where
  pub total : ℕ
  pub base : ℕ
  pub gst : ℕ

-- `PLAN_PRICING`
abbrev pub plan_pricing : SubscribableTier → Price
plan_pricing SubscribableTier.pro = record { total = 5900; base = 5000; gst = 900 }
plan_pricing SubscribableTier.pro_max = record { total = 11800; base = 10000; gst = 1800 }

pub record PlanSummary : Type 0 where
  pub tier : SubscribableTier
  pub razorpay_plan_id : ℕ
  pub base_amount : ℕ
  pub gst_amount : ℕ
  pub total_amount : ℕ

abbrev pub plan_id : SubscribableTier → Store → Option ℕ
plan_id SubscribableTier.pro db = db.plan_pro
plan_id SubscribableTier.pro_max db = db.plan_pro_max

-- a turn of the loop of `listPlans`
abbrev summary : SubscribableTier → Option ℕ → List PlanSummary
summary tier none = []
summary tier (some id) =
    record {
      tier = tier;
      razorpay_plan_id = id;
      base_amount = (plan_pricing tier).base;
      gst_amount = (plan_pricing tier).gst;
      total_amount = (plan_pricing tier).total;
    }
    ∷ []

unfoldable pub list_plans : Store → List PlanSummary
list_plans db =
    summary SubscribableTier.pro db.plan_pro ++ summary SubscribableTier.pro_max db.plan_pro_max

-- the entity of a webhook; a count or a time that is missing is `none`
pub record RazorpaySubEntity : Type 0 where
  pub id : ℕ
  pub current_start : Option ℕ
  pub current_end : Option ℕ
  pub paid_count : Option ℕ
  pub remaining_count : Option ℕ
  pub charge_at : Option ℕ
  -- `notes?.cancel_at_cycle_end` is 1 or '1'
  pub cancel_at_cycle_end : Bool

pub record RazorpayPayEntity : Type 0 where
  pub id : ℕ
  pub amount : ℕ

abbrev pub sub_has_id : ℕ → Subscription → Bool
sub_has_id k s = s.id == k

abbrev pub has_razorpay_id : ℕ → Subscription → Bool
has_razorpay_id k s = s.razorpay_subscription_id == k

abbrev pub pays : ℕ → SubscriptionPayment → Bool
pays k p = p.razorpay_payment_id == k

abbrev pub same_subscribable : SubscribableTier → SubscribableTier → Bool
same_subscribable SubscribableTier.pro SubscribableTier.pro = true
same_subscribable SubscribableTier.pro_max SubscribableTier.pro_max = true
same_subscribable _ _ = false

abbrev pub other_tier : SubscribableTier → SubscriptionEntry → Bool
other_tier tier e = not (same_subscribable e.tier tier)

-- the `$filter` and `$concatArrays` of `upsertSubscriptionEntry`
abbrev pub replace_entry :
    SubscribableTier
    → SubscriptionStatus
    → Option ℕ
    → ℕ
    → List SubscriptionEntry
    → List SubscriptionEntry
replace_entry tier status expires_at subscription_id subs =
    keep (other_tier tier) subs
    ++ record {
      tier = tier;
      status = status;
      expires_at = expires_at;
      subscription_id = some subscription_id;
    }
      ∷ []

-- `$eq: ['$$this.subscriptionId', subscriptionId]`
abbrev pub entry_of : ℕ → SubscriptionEntry → Bool
entry_of k e = elim e.subscription_id [ none ↦ false | some j ↦ j == k ]

abbrev pub as_cancelled : SubscriptionEntry → SubscriptionEntry
as_cancelled e = record e { status = SubscriptionStatus.cancelled }

abbrev pub as_expired : ℕ → SubscriptionEntry → SubscriptionEntry
as_expired now e = record e { status = SubscriptionStatus.cancelled; expires_at = some now }

-- the `$map` of `markEntryCancelledBySubId`
abbrev pub cancel_entry : ℕ → List SubscriptionEntry → List SubscriptionEntry
cancel_entry subscription_id subs = change_all (entry_of subscription_id) as_cancelled subs

-- the `$map` of `markEntryExpiredImmediatelyBySubId`
abbrev pub expire_entry : ℕ → ℕ → List SubscriptionEntry → List SubscriptionEntry
expire_entry subscription_id now subs = change_all (entry_of subscription_id) (as_expired now) subs

abbrev pub with_entries : (List SubscriptionEntry → List SubscriptionEntry) → User → User
with_entries f u = record u { subscriptions = f u.subscriptions }

-- `if (t) set[...] = new Date(t * 1000)`: 0 does not count as a time
abbrev pub to_date : Option ℕ → Option ℕ
to_date none = none
to_date (some t) = if t == 0 then none else some (t * 1000)

abbrev date_or_kept : Option ℕ → Option ℕ → Option ℕ
date_or_kept t old = elim (to_date t) [ none ↦ old | some d ↦ some d ]

-- the `$set` and `$inc` of `onCharged`
abbrev pub charged : RazorpaySubEntity → Subscription → Subscription
charged entity s = record s {
  status = BillingStatus.active;
  current_start = date_or_kept entity.current_start s.current_start;
  current_end = date_or_kept entity.current_end s.current_end;
  charge_at = date_or_kept entity.charge_at s.charge_at;
  remaining_count = elim entity.remaining_count [ none ↦ s.remaining_count | some n ↦ some n ];
  paid_count = or_default entity.paid_count (s.paid_count + 1);
}

module _ (m : Mongo) where
  abbrev update_user : ℕ → (User → User) → Store → Store
  update_user user_id f db =
      let (found, users') = update_one m (has_id user_id) f db.users in record db { users = users' }

  abbrev update_sub : (Subscription → Bool) → (Subscription → Subscription) → Store → Store
  update_sub p f db =
      let (found, subs') = update_one m p f db.subscriptions in record db { subscriptions = subs' }

  pub upsert_subscription_entry :
      ℕ → SubscribableTier → SubscriptionStatus → Option ℕ → ℕ → Store → Store
  upsert_subscription_entry user_id tier status expires_at subscription_id db =
      update_user user_id (with_entries (replace_entry tier status expires_at subscription_id)) db

  pub mark_entry_cancelled_by_sub_id : ℕ → ℕ → Store → Store
  mark_entry_cancelled_by_sub_id user_id subscription_id db =
      update_user user_id (with_entries (cancel_entry subscription_id)) db

  pub mark_entry_expired_immediately_by_sub_id : ℕ → ℕ → ℕ → Store → Store
  mark_entry_expired_immediately_by_sub_id user_id subscription_id now db =
      update_user user_id (with_entries (expire_entry subscription_id now)) db

  -- `SubscriptionPaymentModel.updateOne` with `upsert`: whether a document was inserted
  insert_payment : SubscriptionPayment → Store → Bool × Store
  insert_payment payment db =
      let (old, payments') =
        m.find_or_insert SubscriptionPayment (pays payment.razorpay_payment_id) payment
          db.payments in
      (not (is_some old), record db { payments = payments' })

  -- the callback of `withTransaction` in `onCharged`: whether the payment is new
  charge : RazorpaySubEntity → Subscription → SubscriptionPayment → Exec Store Bool
  unfolding insert_payment upsert_subscription_entry
  charge entity sub payment = do
    upserted ← update (insert_payment payment)
    elim upserted [
      | false ↦ pure false
      | true ↦ do
        modify (update_sub (sub_has_id sub.id) (charged entity))
        modify (
            upsert_subscription_entry sub.user_id sub.tier SubscriptionStatus.active
              (to_date entity.current_end) sub.id)
        pure true
    ]

  -- `payment_id` is the id of a new payment. `enqueues` tells whether the queue takes the job; if it
  -- does not, the error is logged only. `between` is what other requests commit after the look-ups.
  pub on_charged :
      (Store → Store) → ℕ → ℕ → Bool → RazorpaySubEntity → RazorpayPayEntity → Exec Store (Unit {0})
  unfolding charge
  on_charged between payment_id now enqueues entity payment = do
    found ← gets (λ db. m.find_one Subscription (has_razorpay_id entity.id) db.subscriptions)
    elim found [
      | none ↦ pure tt
      | some sub ↦ do
        known ← gets (λ db. m.find_one User (has_id sub.user_id) db.users)
        elim known [
          | none ↦ pure tt
          | some user ↦ do
            modify between
            created ← m.with_transaction Store Bool (
                charge entity sub (record {
                  id = payment_id;
                  subscription_id = sub.id;
                  user_id = sub.user_id;
                  razorpay_payment_id = payment.id;
                  amount = payment.amount;
                  captured_at = now;
                  invoice = none;
                }))
            modify (λ (db : Store).
                if (if created then enqueues else false)
                then record db { invoice_jobs = db.invoice_jobs ++ payment_id ∷ [] }
                else db)
        ]
    ]

  -- `status` is HALTED, or CANCELLED with a date
  abbrev ended : BillingStatus → Option ℕ → Subscription → Subscription
  ended status cancelled_at s = record s {
    status = status;
    cancelled_at = elim cancelled_at [ none ↦ s.cancelled_at | some t ↦ some t ];
  }

  unfoldable pub on_halted : ℕ → RazorpaySubEntity → Exec Store (Unit {0})
  unfolding mark_entry_expired_immediately_by_sub_id
  on_halted now entity = do
    found ← gets (λ db. m.find_one Subscription (has_razorpay_id entity.id) db.subscriptions)
    elim found [
      | none ↦ pure tt
      | some sub ↦ m.with_transaction Store (Unit {0}) (do
        modify (update_sub (sub_has_id sub.id) (ended BillingStatus.halted none))
        modify (mark_entry_expired_immediately_by_sub_id sub.user_id sub.id now))
    ]

  pub on_cancelled : ℕ → RazorpaySubEntity → Exec Store (Unit {0})
  unfolding mark_entry_expired_immediately_by_sub_id mark_entry_cancelled_by_sub_id
  on_cancelled now entity = do
    found ← gets (λ db. m.find_one Subscription (has_razorpay_id entity.id) db.subscriptions)
    elim found [
      | none ↦ pure tt
      | some sub ↦ m.with_transaction Store (Unit {0}) (do
        modify (update_sub (sub_has_id sub.id) (ended BillingStatus.cancelled (some now)))
        modify (λ (db : Store).
            if entity.cancel_at_cycle_end
            then mark_entry_cancelled_by_sub_id sub.user_id sub.id db
            else mark_entry_expired_immediately_by_sub_id sub.user_id sub.id now db))
    ]

  -- `applySubStatus`, which `onAuthenticated`, `onActivated`, `onPending`, `onPaused`, `onResumed`
  -- and `onCompleted` call
  pub apply_sub_status : RazorpaySubEntity → BillingStatus → Store → Store
  apply_sub_status entity status db =
      update_sub (has_razorpay_id entity.id) (λ (s : Subscription). record s { status = status }) db

  -- `razorpay_create` stands for the provider's answer to `subscriptions.create`, `none` if it throws
  pub create : (ℕ → Option ℕ) → ℕ → ℕ → SubscribableTier → Exec Store ℕ
  create razorpay_create fresh user_id tier = do
    plan ← gets (plan_id tier)
    id ← or_throw (AppError.bad_request plan_not_configured) plan
    remote ← or_throw AppError.thrown (razorpay_create id)
    inserted ← gets (λ db.
        m.insert Subscription (λ s t. s.razorpay_subscription_id == t.razorpay_subscription_id)
          (record {
            id = fresh;
            user_id = user_id;
            tier = tier;
            razorpay_subscription_id = remote;
            razorpay_plan_id = id;
            status = BillingStatus.created;
            base_amount = (plan_pricing tier).base;
            gst_amount = (plan_pricing tier).gst;
            total_amount = (plan_pricing tier).total;
            current_start = none;
            current_end = none;
            charge_at = none;
            paid_count = 0;
            remaining_count = none;
            cancelled_at = none;
          })
          db.subscriptions)
    subs ← or_throw AppError.thrown inserted
    modify (λ (db : Store). record db { subscriptions = subs })
    pure remote

  -- `razorpay_cancel` tells whether the provider's `subscriptions.cancel` succeeds
  pub cancel : (ℕ → Bool → Bool) → ℕ → ℕ → ℕ → Bool → Exec Store (Unit {0})
  cancel razorpay_cancel now user_id subscription_id at_cycle_end = do
    found ← gets (λ db. m.find_one Subscription (sub_has_id subscription_id) db.subscriptions)
    sub ← or_throw AppError.not_found found
    throw_if (not (sub.user_id == user_id)) (AppError.forbidden forbidden_owner)
    throw_if (not (razorpay_cancel sub.razorpay_subscription_id at_cycle_end)) AppError.thrown
    modify (
        update_sub (sub_has_id sub.id) (λ (s : Subscription). record s {
          cancelled_at = some now;
          status = if at_cycle_end then s.status else BillingStatus.cancelled;
        }))

-- `verify`: the provider's signature over the payment and the subscription must be the HMAC
unfoldable pub verify : (ℕ → ℕ → ℕ) → ℕ → ℕ → ℕ → Result (Unit {0})
verify hmac payment_id subscription_id signature =
    if signature == hmac payment_id subscription_id
    then ok tt
    else err (AppError.bad_request invalid_signature)

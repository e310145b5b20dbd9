-- ===== src/Shared/Tier.antt =====
-- src/shared/models/_tier.ts: which tier sections a user may enter, and the tier that is shown.
pub mod Access
pub mod Expiry
mod Tests
use cashfb_backend.Prelude.{
  ℕ, Bool, true, false, ◌&&◌, Option, none, some, List, [], ◌∷◌, keep, ltb, if◌then◌else◌,
}

pub data Tier : Type 0 where
  public_tier pro pro_max : Tier

pub data SubscriptionStatus : Type 0 where
  active cancelled expired : SubscriptionStatus

-- `SubscribableTier` excludes PUBLIC
pub data SubscribableTier : Type 0 where
  pro pro_max : SubscribableTier

-- an element of `User.subscriptions[]`; times are milliseconds
pub record SubscriptionEntry : Type 0 where
  pub tier : SubscribableTier
  pub status : SubscriptionStatus
  pub expires_at : Option ℕ
  pub subscription_id : Option ℕ

-- `entry.tier === requestedTier`
abbrev pub same_tier : SubscribableTier → Tier → Bool
same_tier SubscribableTier.pro Tier.pro = true
same_tier SubscribableTier.pro_max Tier.pro_max = true
same_tier _ _ = false

-- `expiresAt && expiresAt.getTime() > now.getTime()`
abbrev pub in_future : Option ℕ → ℕ → Bool
in_future none now = false
in_future (some t) now = ltb now t

abbrev pub active_when : SubscriptionStatus → Option ℕ → ℕ → Bool
active_when SubscriptionStatus.active e now = true
active_when SubscriptionStatus.cancelled e now = in_future e now
active_when SubscriptionStatus.expired e now = false

unfoldable pub is_active_for_derivation : SubscriptionEntry → ℕ → Bool
is_active_for_derivation entry now = active_when entry.status entry.expires_at now

-- the loop of `userCanAccessTier`
unfoldable pub has_active_entry : List SubscriptionEntry → Tier → ℕ → Bool
has_active_entry [] requested now = false
has_active_entry (entry ∷ rest) requested now =
    let others = has_active_entry rest requested now in
    if same_tier entry.tier requested
    then (if is_active_for_derivation entry now then true else others)
    else others

unfoldable pub user_can_access_tier : List SubscriptionEntry → Tier → ℕ → Bool
user_can_access_tier subscriptions Tier.public_tier now = true
user_can_access_tier subscriptions Tier.pro now = has_active_entry subscriptions Tier.pro now
user_can_access_tier subscriptions Tier.pro_max now =
    has_active_entry subscriptions Tier.pro_max now

-- the two flags of `deriveCurrentTier`, after its loop
derive_flags : List SubscriptionEntry → ℕ → Bool → Bool → Bool × Bool
derive_flags [] now has_pro has_pro_max = (has_pro, has_pro_max)
derive_flags (entry ∷ rest) now has_pro has_pro_max =
    let live = is_active_for_derivation entry now in
    let max_flag = live && same_tier entry.tier Tier.pro_max in
    let pro_flag = live && same_tier entry.tier Tier.pro in
    derive_flags rest now (if pro_flag then true else has_pro)
      (if max_flag then true else has_pro_max)

unfoldable pub derive_current_tier : List SubscriptionEntry → ℕ → Tier
unfolding derive_flags
derive_current_tier subs now =
    let (has_pro, has_pro_max) = derive_flags subs now false false in
    if has_pro_max then Tier.pro_max else if has_pro then Tier.pro else Tier.public_tier

-- `if (!max || e.expiresAt > max) max = e.expiresAt`
abbrev later : Option ℕ → Option ℕ → Option ℕ
later none best = best
later (some t) none = some t
later (some t) (some b) = if ltb b t then some t else some b

max_from : Option ℕ → List SubscriptionEntry → Option ℕ
max_from best [] = best
max_from best (e ∷ rest) = max_from (later e.expires_at best) rest

unfoldable pub max_expires_at : List SubscriptionEntry → Option ℕ
unfolding max_from
max_expires_at entries = max_from none entries

-- the filter of `deriveTierExpiresAt` for one tier
abbrev pub active_of : Tier → ℕ → List SubscriptionEntry → List SubscriptionEntry
active_of tier now subs = keep (λ s. same_tier s.tier tier && is_active_for_derivation s now) subs

abbrev max_or : List SubscriptionEntry → Option ℕ → Option ℕ
max_or [] other = other
max_or (e ∷ es) other = max_expires_at (e ∷ es)

unfoldable pub derive_tier_expires_at : List SubscriptionEntry → ℕ → Option ℕ
unfolding max_expires_at
derive_tier_expires_at subs now =
    max_or (active_of Tier.pro_max now subs) (max_or (active_of Tier.pro now subs) none)

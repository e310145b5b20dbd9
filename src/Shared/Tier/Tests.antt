-- ===== src/Shared/Tier/Tests.antt =====
-- A user whose PRO entry is cancelled with time left.
use cashfb_backend.Prelude.{◌≡◌, ◌↔◌, ◌⊎◌, true, some, List, [], ◌∷◌}
use cashfb_backend.Shared.Tier.{
  Tier, SubscribableTier, SubscriptionEntry, SubscriptionStatus, user_can_access_tier,
}
use cashfb_backend.Shared.Tier.Access.{Somewhere, Grants, user_can_access_tier_iff}

abbrev entries : List SubscriptionEntry
entries =
    record {
      tier = SubscribableTier.pro;
      status = SubscriptionStatus.cancelled;
      expires_at = some 500;
      subscription_id = some 3;
    }
    ∷ []

user_can_access_tier_iff_example :
    (user_can_access_tier entries Tier.pro 300 ≡ true)
    ↔ ((Tier.pro ≡ Tier.public_tier) ⊎ Somewhere (Grants Tier.pro 300) entries)
user_can_access_tier_iff_example = user_can_access_tier_iff entries Tier.pro 300

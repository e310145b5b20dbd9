-- ===== src/Billing/Subscriptions/Entries.antt =====
-- The entries of a user's `subscriptions[]`, by tier.
use cashfb_backend.Prelude.{
  ℕ, ◌≡◌, ◌≤◌, inl, inr, Bool, true, Option, List, [], ◌∷◌, keep, tally, tally-append, change_all,
  arith, refl, Bool-cases,
}
use cashfb_backend.Shared.Tier.{SubscribableTier, SubscriptionEntry, SubscriptionStatus}
use cashfb_backend.Shared.User.{User}
use cashfb_backend.Billing.Subscriptions.{
  replace_entry, as_cancelled, as_expired, other_tier, cancel_entry, expire_entry, entry_of,
  same_subscribable, with_entries,
}

-- the test of an entry for one tier
abbrev pub of_tier : SubscribableTier → SubscriptionEntry → Bool
of_tier tier e = same_subscribable e.tier tier

-- one entry at most for each tier
abbrev pub OnePerTier : User → Type 0
OnePerTier u = (tier : SubscribableTier) → tally (of_tier tier) u.subscriptions ≤ 1

none-of_tier :
    (tier : SubscribableTier) (es : List SubscriptionEntry)
    → tally (of_tier tier) (keep (other_tier tier) es) ≡ 0
none-of_tier tier [] = refl
none-of_tier tier (e ∷ es) = ground (arith, none-of_tier tier es)

tally-keep :
    (p q : SubscriptionEntry → Bool) (es : List SubscriptionEntry)
    → tally p (keep q es) ≤ tally p es
tally-keep p q [] = omega arith
tally-keep p q (e ∷ es) = ground (arith, tally-keep p q es)

same_subscribable-eq : (a b : SubscribableTier) → same_subscribable a b ≡ true → a ≡ b
same_subscribable-eq SubscribableTier.pro SubscribableTier.pro h = refl
same_subscribable-eq SubscribableTier.pro SubscribableTier.pro_max h = absurd (ground arith)
same_subscribable-eq SubscribableTier.pro_max SubscribableTier.pro h = absurd (ground arith)
same_subscribable-eq SubscribableTier.pro_max SubscribableTier.pro_max h = refl

pub replace_entry-OnePerTier :
    (tier : SubscribableTier) (status : SubscriptionStatus) (expires_at : Option ℕ) (sub_id : ℕ)
    (u : User)
    → OnePerTier u
    → OnePerTier (with_entries (replace_entry tier status expires_at sub_id) u)
replace_entry-OnePerTier tier status expires_at sub_id u h other =
    let others = keep (other_tier tier) u.subscriptions in
    rw (tally-append (of_tier other) others _) (elim (Bool-cases (same_subscribable tier other)) [
      | inl hit ↦ ground (
        arith,
        hit,
        rw (same_subscribable-eq tier other hit) at (none-of_tier tier u.subscriptions),
      )
      | inr miss ↦
          ground
            (arith, miss, tally-keep (of_tier other) (other_tier tier) u.subscriptions, h other)
    ])

module _ (p : SubscriptionEntry → Bool) (f : SubscriptionEntry → SubscriptionEntry) where
  pub tally-change_all :
      (q : SubscriptionEntry → Bool)
      → ((e : SubscriptionEntry) → q (f e) ≡ q e)
      → (es : List SubscriptionEntry) → tally q (change_all p f es) ≡ tally q es
  tally-change_all q same [] = refl
  tally-change_all q same (e ∷ es) = ground (arith, same e, tally-change_all q same es)

pub cancel_entry-OnePerTier :
    (sub_id : ℕ) (u : User) → OnePerTier u → OnePerTier (with_entries (cancel_entry sub_id) u)
cancel_entry-OnePerTier sub_id u h tier =
    rw (tally-change_all (entry_of sub_id) as_cancelled (of_tier tier) (λ e. refl) u.subscriptions)
      (h tier)

pub expire_entry-OnePerTier :
    (sub_id now : ℕ) (u : User)
    → OnePerTier u
    → OnePerTier (with_entries (expire_entry sub_id now) u)
expire_entry-OnePerTier sub_id now u h tier =
    rw
      (tally-change_all (entry_of sub_id) (as_expired now) (of_tier tier) (λ e. refl)
        u.subscriptions)
      (h tier)

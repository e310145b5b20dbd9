-- ===== src/Shared/Tier/Access.antt =====
-- The access predicate and the derived tier of shared/models/_tier.ts.
use cashfb_backend.Prelude.{
  ℕ, ◌<◌, ◌≡◌, ◌↔◌, ◌⊎◌, inl, inr, Bool, true, false, Option, none, some, List, [], ◌∷◌, refl,
  arith, if◌then◌else◌,
}
use cashfb_backend.Shared.Tier.{
  Tier, SubscriptionEntry, SubscriptionStatus, same_tier, is_active_for_derivation,
  has_active_entry, user_can_access_tier, derive_flags, derive_current_tier,
}

-- there is an expiry, and it lies ahead
abbrev pub ExpiresAfter : ℕ → Option ℕ → Type 0
ExpiresAfter now none = ⊥
ExpiresAfter now (some t) = now < t

-- What the doc comment calls an active entry of a tier.
abbrev pub Grants : Tier → ℕ → SubscriptionEntry → Type 0
Grants tier now e =
    (same_tier e.tier tier ≡ true)
    × ((e.status ≡ SubscriptionStatus.active)
        ⊎ ((e.status ≡ SubscriptionStatus.cancelled) × ExpiresAfter now e.expires_at))

-- there is an entry with the property
abbrev pub Somewhere : (SubscriptionEntry → Type 0) → List SubscriptionEntry → Type 0
Somewhere P [] = ⊥
Somewhere P (e ∷ es) = P e ⊎ Somewhere P es

has_active_entry_sound :
    (subs : List SubscriptionEntry) (tier : Tier) (now : ℕ)
    → has_active_entry subs tier now ≡ true
    → Somewhere (Grants tier now) subs
unfolding has_active_entry is_active_for_derivation
has_active_entry_sound [] tier now h = cc
has_active_entry_sound (e ∷ es) tier now h = ground (arith, has_active_entry_sound es tier now)

has_active_entry_complete :
    (subs : List SubscriptionEntry) (tier : Tier) (now : ℕ)
    → Somewhere (Grants tier now) subs
    → has_active_entry subs tier now ≡ true
unfolding has_active_entry is_active_for_derivation
has_active_entry_complete [] tier now h = absurd h
has_active_entry_complete (e ∷ es) tier now (inl h) = ground arith
has_active_entry_complete (e ∷ es) tier now (inr h) =
    ground (arith, has_active_entry_complete es tier now h)

-- Access is granted exactly for PUBLIC, or where an entry of that very tier is ACTIVE, or is
-- CANCELLED and expires after now. A PRO_MAX entry gives no access to PRO.
pub user_can_access_tier_iff :
    (subs : List SubscriptionEntry) (tier : Tier) (now : ℕ)
    → (user_can_access_tier subs tier now ≡ true)
      ↔ ((tier ≡ Tier.public_tier) ⊎ Somewhere (Grants tier now) subs)
unfolding user_can_access_tier
user_can_access_tier_iff subs Tier.public_tier now = (λ _. inl refl, λ _. refl)
user_can_access_tier_iff subs Tier.pro now = (
  λ h. inr (has_active_entry_sound subs Tier.pro now h),
  λ h. elim h [ inl e ↦ cc | inr w ↦ has_active_entry_complete subs Tier.pro now w ],
)
user_can_access_tier_iff subs Tier.pro_max now = (
  λ h. inr (has_active_entry_sound subs Tier.pro_max now h),
  λ h. elim h [ inl e ↦ cc | inr w ↦ has_active_entry_complete subs Tier.pro_max now w ],
)

derive_flags_lem :
    (subs : List SubscriptionEntry) (now : ℕ) (p q : Bool)
    → derive_flags subs now p q ≡ (
      if has_active_entry subs Tier.pro now then true else p,
      if has_active_entry subs Tier.pro_max now then true else q,
    )
unfolding derive_flags has_active_entry
derive_flags_lem [] now p q = refl
derive_flags_lem (e ∷ es) now p q = rw (derive_flags_lem es now _ _) (ground arith)

-- The derived tier is the highest section that the user may enter.
pub derive_current_tier_highest :
    (subs : List SubscriptionEntry) (now : ℕ)
    → derive_current_tier subs now ≡ (
        if user_can_access_tier subs Tier.pro_max now
        then Tier.pro_max
        else if user_can_access_tier subs Tier.pro now
        then Tier.pro
        else Tier.public_tier)
unfolding derive_current_tier user_can_access_tier
derive_current_tier_highest subs now = ground (arith, derive_flags_lem subs now false false)

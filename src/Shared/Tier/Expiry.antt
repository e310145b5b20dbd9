-- ===== src/Shared/Tier/Expiry.antt =====
-- The expiry that is shown beside the derived tier (`deriveTierExpiresAt`, `maxExpiresAt`).
use cashfb_backend.Prelude.{
  ℕ, ◌≤◌, ◌≡◌, ◌⊎◌, inl, inr, true, false, Option, none, some, List, [], ◌∷◌, All, arith, refl,
  if◌then◌else◌, Bool-cases, ◌≢◌,
}
use cashfb_backend.Shared.Tier.{
  Tier, SubscriptionEntry, later, max_from, max_expires_at, active_of, max_or,
  derive_tier_expires_at, user_can_access_tier, has_active_entry, derive_current_tier,
}
use cashfb_backend.Shared.Tier.Access.{Somewhere, derive_current_tier_highest}

-- an expiry that is there does not pass the bound
abbrev pub NotAfter : Option ℕ → Option ℕ → Type 0
NotAfter none m = Unit
NotAfter (some t) none = ⊥
NotAfter (some t) (some m) = t ≤ m

NotAfter-trans : (a b c : Option ℕ) → NotAfter a b → NotAfter b c → NotAfter a c
NotAfter-trans none b c h k = tt
NotAfter-trans (some a) none c h k = absurd h
NotAfter-trans (some a) (some b) none h k = absurd k
NotAfter-trans (some a) (some b) (some c) h k = omega arith

later_bounds : (a b : Option ℕ) → NotAfter a (later a b) × NotAfter b (later a b)
later_bounds none none = (tt, tt)
later_bounds none (some b) = (tt, omega arith)
later_bounds (some a) none = (omega arith, tt)
later_bounds (some a) (some b) = ground arith

max_from_bounds :
    (best : Option ℕ) (es : List SubscriptionEntry)
    → NotAfter best (max_from best es) × All (λ e. NotAfter e.expires_at (max_from best es)) es
unfolding max_from
max_from_bounds none [] = (tt, tt)
max_from_bounds (some b) [] = (omega arith, tt)
max_from_bounds best (e ∷ es) =
    let (high, rest) = max_from_bounds (later e.expires_at best) es in
    let (mine, before) = later_bounds e.expires_at best in
    (NotAfter-trans best _ _ before high, (NotAfter-trans e.expires_at _ _ mine high, rest))

later_attained : (a b : Option ℕ) {m : ℕ} → later a b ≡ some m → (a ≡ some m) ⊎ (b ≡ some m)
later_attained none b h = inr h
later_attained (some a) none h = inl h
later_attained (some a) (some b) h = ground arith

max_from_attained :
    (best : Option ℕ) (es : List SubscriptionEntry) {m : ℕ}
    → max_from best es ≡ some m
    → (best ≡ some m) ⊎ Somewhere (λ e. e.expires_at ≡ some m) es
unfolding max_from
max_from_attained best [] h = inl h
max_from_attained best (e ∷ es) h = elim (max_from_attained (later e.expires_at best) es h) [
  | inl here ↦ elim (later_attained e.expires_at best here) [
    | inl mine ↦ inr (inl mine)
    | inr before ↦ inl before
  ]
  | inr there ↦ inr (inr there)
]

-- The maximum bounds every expiry in the list, and it is an expiry of the list.
pub max_expires_at_lem :
    (es : List SubscriptionEntry)
    → All (λ e. NotAfter e.expires_at (max_expires_at es)) es
      × ((m : ℕ) → max_expires_at es ≡ some m → Somewhere (λ e. e.expires_at ≡ some m) es)
unfolding max_expires_at
max_expires_at_lem es = (
  (max_from_bounds none es).1,
  λ m h. elim (max_from_attained none es h) [ inl absent ↦ cc | inr w ↦ w ],
)

active_of_nil :
    (tier : Tier) (now : ℕ) (subs : List SubscriptionEntry)
    → has_active_entry subs tier now ≡ false
    → active_of tier now subs ≡ []
unfolding has_active_entry
active_of_nil tier now [] h = refl
active_of_nil tier now (e ∷ es) h = ground (arith, active_of_nil tier now es)

active_of-ne-nil :
    (tier : Tier) (now : ℕ) (subs : List SubscriptionEntry)
    → has_active_entry subs tier now ≡ true
    → active_of tier now subs ≢ []
unfolding has_active_entry
active_of-ne-nil tier now [] h = cc
active_of-ne-nil tier now (e ∷ es) h = ground (arith, active_of-ne-nil tier now es)

max_or_cons :
    (l : List SubscriptionEntry) (other : Option ℕ) → l ≢ [] → max_or l other ≡ max_expires_at l
max_or_cons [] other h = absurd (h refl)
max_or_cons (e ∷ es) other h = refl

max_or-active_of :
    (tier : Tier) (now : ℕ) (subs : List SubscriptionEntry) (other : Option ℕ)
    → max_or (active_of tier now subs) other
      ≡ (if has_active_entry subs tier now then max_expires_at (active_of tier now subs) else other)
max_or-active_of tier now subs other = elim (Bool-cases (has_active_entry subs tier now)) [
  | inl h ↦ rw h (max_or_cons _ other (active_of-ne-nil tier now subs h))
  | inr h ↦ rw (h, active_of_nil tier now subs h)
]

-- The expiry that is shown is that of the derived tier: null for PUBLIC, and else the latest
-- expiry among the active entries of exactly the tier that `deriveCurrentTier` shows.
pub derive_tier_expires_at_lem :
    (subs : List SubscriptionEntry) (now : ℕ)
    → derive_tier_expires_at subs now ≡ elim (derive_current_tier subs now) [
      | Tier.public_tier ↦ none
      | shown ↦ max_expires_at (active_of shown now subs)
    ]
unfolding derive_tier_expires_at user_can_access_tier
derive_tier_expires_at_lem subs now = ground (
  arith,
  max_or-active_of Tier.pro_max now subs (max_or (active_of Tier.pro now subs) none),
  max_or-active_of Tier.pro now subs none,
  derive_current_tier_highest subs now,
)

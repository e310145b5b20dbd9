-- ===== src/Shared/Double/Bounds.antt =====
-- How far a rounded product lies from the exact one.
use native.Mathlib.Nat.{div-add-mod, mod-lt, pow-suc, pow-zero}
use cashfb_backend.Prelude.{
  ℕ, zero, suc, ◌+◌, ◌*◌, ◌/◌, ◌^◌, ◌≤◌, ◌<◌, ◌≡◌, ◌⊎◌, inl, inr, refl, arith, ltb, Bool-cases,
}
use cashfb_backend.Shared.Double.{
  excess, round_to, round53, floor_times, round_times, seven_tenths, three_tenths,
}

-- The rounded value is off by half a unit in the last place at most.
round_to_error : (w p : ℕ) → 0 < w → (2 * round_to w p ≤ 2 * p + w) × (2 * p ≤ 2 * round_to w p + w)
unfolding round_to
round_to_error w p h = grind (arith, div-add-mod p w, mod-lt p {m = w} h)

abbrev Fits : ℕ → ℕ → Type 0
Fits w p = (p < 2 ^ 53 * w) × ((w ≡ 1) ⊎ (2 ^ 52 * w ≤ p)) × (0 < w)

-- The unit is as small as 53 bits allow.
excess_bound : (fuel p : ℕ) → p < 2 ^ 53 * 2 ^ fuel → Fits (2 ^ excess fuel p) p
unfolding excess
excess_bound zero p h = (omega (arith, pow-zero 2), inl refl, omega arith)
excess_bound (suc fuel) p h = elim (Bool-cases (ltb p (2 ^ 53))) [
  | inl small ↦ rw small (ground arith, inl refl, omega arith)
  | inr large ↦ rw large (
      let below : p / 2 < 2 ^ 53 * 2 ^ fuel = omega (arith, pow-suc 2 fuel, h) in
      let (fits, tight, positive) = excess_bound fuel (p / 2) below in
      let double = pow-suc 2 (excess fuel (p / 2)) in
      (
        omega (arith, double, fits),
        inr (elim tight [
          | inl one ↦ ground (arith, double, one, large)
          | inr more ↦ omega (arith, double, more)
        ]),
        omega (arith, double, positive),
      ))
]

-- A product of fewer than 117 bits is rounded by half a unit at most, and the unit is at most
-- 2 ^ -52 of it, or there is no rounding.
pub round53_error :
    (p : ℕ)
    → p < 2 ^ 53 * 2 ^ 64
    → (2 * 2 ^ 53 * round53 p ≤ 2 * 2 ^ 53 * p + 2 * p)
      × (2 * 2 ^ 53 * p ≤ 2 * 2 ^ 53 * round53 p + 2 * p)
unfolding round53
round53_error p h =
    let (fits, tight, positive) = excess_bound 64 p h in
    let (low, high) = round_to_error (2 ^ excess 64 p) p positive in
    elim tight [
      | inl one ↦ (omega (arith, low, high, one), omega (arith, low, high, one))
      | inr more ↦ (omega (arith, low, high, more), omega (arith, low, high, more))
    ]

-- `Math.floor(0.7 * n)` is the floor of seven tenths of `n`, or one less.
pub floor_seven_tenths :
    (n : ℕ)
    → n < 2 ^ 48
    → (floor_times seven_tenths 53 n ≤ 7 * n / 10)
      × (7 * n / 10 ≤ floor_times seven_tenths 53 n + 1)
unfolding floor_times
floor_seven_tenths n h =
    let (low, high) = round53_error (seven_tenths * n) (omega arith) in
    (omega (arith, low, high), omega (arith, low, high))

-- It is one less for an amount as small as 90.
pub floor_seven_tenths_of_90 : floor_times seven_tenths 53 90 + 1 ≡ 7 * 90 / 10
unfolding floor_times
floor_seven_tenths_of_90 = refl

-- `Math.round(n * 0.3)` is off from three tenths of `n` by no more than a half.
pub round_three_tenths :
    (n : ℕ)
    → n < 2 ^ 48
    → (10 * round_times three_tenths 54 n ≤ 3 * n + 5)
      × (3 * n ≤ 10 * round_times three_tenths 54 n + 5)
unfolding round_times
round_three_tenths n h =
    let (low, high) = round53_error (three_tenths * n) (omega arith) in
    (omega (arith, low, high), omega (arith, low, high))

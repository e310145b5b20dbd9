-- ===== src/Shared/Double.antt =====
-- JavaScript numbers where the program leaves the integers: a product of a natural number and a
-- fraction such as 0.7, which is a double of 53 significant bits, rounded to nearest with ties to
-- even (IEEE 754). A double `c / 2 ^ k` is its numerator `c`; so is the product's.
pub mod Bounds
use cashfb_backend.Prelude.{
  ℕ, zero, suc, ◌+◌, ◌-◌, ◌*◌, ◌/◌, ◌%◌, ◌^◌, Bool, ltb, leb, ◌==◌, ◌&&◌, ◌||◌, if◌then◌else◌,
}

-- how many low bits of `p` do not fit into 53; the fuel is a bound on them
unfoldable pub excess : ℕ → ℕ → ℕ
excess zero p = 0
excess (suc fuel) p = let rest = suc (excess fuel (p / 2)) in if ltb p (2 ^ 53) then 0 else rest

-- `p` rounded to a multiple of `w`, ties to an even quotient
unfoldable pub round_to : ℕ → ℕ → ℕ
round_to w p =
    let q = p / w in
    let r = p % w in if ltb w (2 * r) || (2 * r == w && q % 2 == 1) then (q + 1) * w else q * w

-- the numerator of the double nearest to `p / 2 ^ k`, for `p` of at most 117 bits
unfoldable pub round53 : ℕ → ℕ
unfolding round_to excess
round53 p = round_to (2 ^ excess 64 p) p

-- `Math.floor(f * n)` for the double `f = c / 2 ^ k`
unfoldable pub floor_times : ℕ → ℕ → ℕ → ℕ
unfolding round53
floor_times c k n = round53 (c * n) / 2 ^ k

-- `Math.round(n * f)`: the nearest integer, ties upwards
unfoldable pub round_times : ℕ → ℕ → ℕ → ℕ
unfolding round53
round_times c k n = (2 * round53 (c * n) + 2 ^ k) / 2 ^ (k + 1)

-- the doubles nearest to 0.7 and to 0.3
abbrev pub seven_tenths : ℕ
seven_tenths = 6305039478318694

abbrev pub three_tenths : ℕ
three_tenths = 5404319552844595

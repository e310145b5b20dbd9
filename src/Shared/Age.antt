-- ===== src/Shared/Age.antt =====
-- `ageInYearsIst` of src/shared/utils/date.ts: the age in completed years. A date is what dayjs reads
-- off the wall clock in IST; months are numbered from 0.
use cashfb_backend.Prelude.{
  ℕ, ◌+◌, ◌<◌, ◌≤◌, ◌≡◌, ◌⊎◌, ◌↔◌, true, arith, ltb, leb, ◌==◌, ◌&&◌, ◌||◌, not, if◌then◌else◌,
}
use cashfb_backend.Prelude.Int.{ℤ, pos, sub_ℕ, leb_ℤ, ◌-ℤ◌}

pub record IstDate : Type 0 where
  pub year : ℕ
  pub month : ℕ
  pub date : ℕ

unfoldable pub age_in_years_ist : IstDate → IstDate → ℤ
unfolding ◌-ℤ◌
age_in_years_ist today born =
    let age = sub_ℕ today.year born.year in
    let has_had_birthday_this_year =
      ltb born.month today.month || ((today.month == born.month) && leb born.date today.date) in
    if not has_had_birthday_this_year then age -ℤ pos 1 else age

-- `today` is not before the day with the month and date of `born` in the year `y`.
abbrev pub Reached : IstDate → ℕ → IstDate → Type 0
Reached today y born =
    (y < today.year)
    ⊎ ((y ≡ today.year)
        × ((born.month < today.month) ⊎ ((born.month ≡ today.month) × (born.date ≤ today.date))))

-- Someone is at least `n` years old exactly if the birthday `n` years after the birth has come.
pub age_in_years_ist_lem :
    (today born : IstDate) (n : ℕ)
    → (leb_ℤ (pos n) (age_in_years_ist today born) ≡ true) ↔ Reached today (born.year + n) born
unfolding age_in_years_ist
age_in_years_ist_lem today born n = ground arith

-- ===== src/Calendar.antt =====
-- JavaScript's `Date` in UTC, as apps/core-api/src/recurring-tasks/recurrence-policy.ts uses it. An
-- instant is a number of milliseconds and a day a number of days, both from Sunday 1 January 1967;
-- what is earlier is not modelled. A month is named by its number from January 1967, so that
-- `Date.UTC` takes a month index of 12 or more as a later year's month.
pub mod Months
use atlaspm.Base.{
  ℕ, zero, suc, ◌+◌, ◌*◌, ◌-◌, ◌/◌, ◌%◌, ◌==◌, ltb, Bool, not, ◌&&◌, ◌||◌, if◌then◌else◌,
}

abbrev pub one_day_ms : ℕ
one_day_ms = 86400000

-- the day of the month, and the month from January 1967
pub record Civil : Type 0 where
  pub month : ℕ
  pub day : ℕ

-- getUTCFullYear
abbrev pub full_year : Civil → ℕ
full_year date = 1967 + date.month / 12

-- getUTCMonth
abbrev pub month_index : Civil → ℕ
month_index date = date.month % 12

abbrev pub is_leap : ℕ → Bool
is_leap year = (year % 4 == 0) && (not (year % 100 == 0) || (year % 400 == 0))

abbrev pub length_in : (leap : Bool) (month_index : ℕ) → ℕ
length_in leap i =
    if i == 1
    then if leap then 29 else 28
    else if (i == 3) || (i == 5) || (i == 8) || (i == 10)
    then 30
    else 31

unfoldable pub month_length : ℕ → ℕ
month_length m = length_in (is_leap (1967 + m / 12)) (m % 12)

-- the first day of a month
abbrev pub month_start : ℕ → ℕ
month_start zero = zero
month_start (suc m) = month_start m + month_length m

abbrev pub next_day : Civil → Civil
next_day date =
    if ltb date.day (month_length date.month)
    then record date { day = suc date.day }
    else record { month = suc date.month; day = 1 }

-- the calendar date of a day
unfoldable pub civil : ℕ → Civil
civil zero = record { month = 0; day = 1 }
civil (suc n) = next_day (civil n)

-- Date.UTC(year, monthIndex, day) from 1967 on
unfoldable pub date_utc : (year month_index day : ℕ) → ℕ
date_utc year i day = month_start ((year - 1967) * 12 + i) + day - 1

-- getUTCDay
unfoldable pub week_day : ℕ → ℕ
week_day n = n % 7

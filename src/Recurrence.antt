-- ===== src/Recurrence.antt =====
-- apps/core-api/src/recurring-tasks/recurrence-policy.ts: the days on which a recurring task is due,
-- and the calendar days of packages/domain/src/services/date-only.ts.
-- A `Date` that comes from outside is an instant, a `Date` at midnight is its day (see Calendar). The
-- two `while` loops run on fuel, and an answer is `none` when the fuel is used up, which two rounds
-- never do. `Math.max(0, …)` of a difference is the subtraction that stops at 0.
pub mod Steps
pub mod Schedule
pub mod Rounds
pub mod Monthly
pub mod Next
pub mod Due
pub mod Examples
use atlaspm.Base.{
  ℕ, zero, suc, ◌+◌, ◌*◌, ◌-◌, ◌/◌, ◌%◌, min, max, ◌==◌, ltb, leb, Bool, true, false, ◌||◌, Option,
  none, some, List, [], ◌∷◌, if◌then◌else◌, or_default, mem,
}
use atlaspm.Calendar.{
  Civil, civil, date_utc, full_year, month_index, month_length, one_day_ms, week_day,
}

infixl 5 ◌>>=◌
abbrev ◌>>=◌ {ℓ κ} : {A : Type ℓ} {B : Type κ} (first : Option A) (rest : A → Option B) → Option B
none >>= rest = none
some value >>= rest = rest value

-- RecurringFrequency of apps/core-api/prisma/schema.prisma
pub data Frequency : Type 0 where
  daily weekly monthly : Frequency

pub record Config : Type 0 where
  pub frequency : Frequency
  pub interval : Option ℕ
  pub days_of_week : Option (List ℕ)
  pub day_of_month : Option ℕ
  pub start_date : ℕ

pub record DueConfig : Type 0 where
  pub config : Config
  pub next_scheduled_at : Option ℕ
  pub end_date : Option ℕ

-- getDateOnlyParts of a `Date` that is a time
abbrev pub get_date_only_parts : ℕ → Civil
get_date_only_parts instant = civil (instant / one_day_ms)

-- normalizeDateOnlyUtcIso, read back by `new Date`
abbrev pub to_date_only : ℕ → ℕ
to_date_only instant =
    let parts = get_date_only_parts instant in
    date_utc (full_year parts) (month_index parts) parts.day

-- normalizeRecurringDate
unfoldable pub normalize_recurring_date : ℕ → ℕ
normalize_recurring_date instant = to_date_only instant

-- the instant of a day's midnight
abbrev pub midnight : ℕ → ℕ
midnight day = day * one_day_ms

-- diffUtcMonths, for a left date that is not the earlier one
abbrev pub diff_utc_months : ℕ → ℕ → ℕ
diff_utc_months left right =
    full_year (civil left) * 12
    + month_index (civil left)
    - (full_year (civil right) * 12 + month_index (civil right))

-- lastDayOfUtcMonth: day 0 of the month that follows
unfoldable pub last_day_of_utc_month : ℕ → ℕ → ℕ
last_day_of_utc_month year i = (civil (date_utc year (i + 1) 0)).day

-- startOfUtcWeek
abbrev pub start_of_utc_week : ℕ → ℕ
start_of_utc_week date = date - week_day date

-- getEffectiveInterval
abbrev pub get_effective_interval : Option ℕ → ℕ
get_effective_interval interval = max 1 (or_default interval 1)

-- the insertion of a day of the week into a sorted list, unless it is there
abbrev pub insert_day : ℕ → List ℕ → List ℕ
insert_day d [] = d ∷ []
insert_day d (x ∷ xs) =
    if ltb d x then d ∷ x ∷ xs else if x == d then x ∷ xs else x ∷ insert_day d xs

abbrev pub sorted_set : List ℕ → List ℕ
sorted_set [] = []
sorted_set (d ∷ ds) = insert_day d (sorted_set ds)

-- getSortedDaysOfWeek
abbrev pub get_sorted_days_of_week : Option (List ℕ) → List ℕ
get_sorted_days_of_week days = sorted_set (or_default days [])

-- buildMonthlyCandidate
abbrev pub build_monthly_candidate : (start_date month_offset day_of_month : ℕ) → ℕ
build_monthly_candidate start_date month_offset day_of_month =
    let year = full_year (civil start_date) in
    let i = month_index (civil start_date) + month_offset in
    let candidate_year = year + i / 12 in
    let candidate_month_index = i % 12 in
    let effective_day =
      min day_of_month (last_day_of_utc_month candidate_year candidate_month_index) in
    date_utc candidate_year candidate_month_index effective_day

-- `Math.ceil(a / b)`
abbrev pub ceil_div : ℕ → ℕ → ℕ
ceil_div a b = (a + (b - 1)) / b

-- nextDailyScheduledAt
unfoldable pub next_daily_scheduled_at : Config → ℕ → ℕ
next_daily_scheduled_at config from_date =
    let start_date = normalize_recurring_date config.start_date in
    let from = max from_date start_date in
    let interval = get_effective_interval config.interval in
    let steps = ceil_div (from - start_date) interval in start_date + steps * interval

-- the `for` of nextWeeklyScheduledAt
abbrev pub first_candidate : (cycle_week_start start_date from : ℕ) → List ℕ → Option ℕ
first_candidate week start_date from [] = none
first_candidate week start_date from (d ∷ ds) =
    let candidate = week + d in
    if ltb candidate start_date || ltb candidate from
    then first_candidate week start_date from ds
    else some candidate

-- the `while` of nextWeeklyScheduledAt
abbrev pub find_week :
    (fuel cycle_week_diff : ℕ) (start_week interval start_date from : ℕ) → List ℕ → Option ℕ
find_week zero cycle start_week interval start_date from days = none
find_week (suc fuel) cycle start_week interval start_date from days =
    elim (first_candidate (start_week + cycle * 7) start_date from days) [
      | none ↦ find_week fuel (cycle + interval) start_week interval start_date from days
      | some candidate ↦ some candidate
    ]

-- the least multiple of the interval from a number on, as the weekly and the monthly rule find it
abbrev pub round_up : ℕ → ℕ → ℕ
round_up base interval =
    let remainder = base % interval in
    if remainder == 0 then base else base + (interval - remainder)

-- nextWeeklyScheduledAt once it has its numbers
abbrev pub next_weekly_from : List ℕ → (interval start_date from : ℕ) → Option ℕ
next_weekly_from [] interval start_date from =
    let steps = ceil_div (from - start_date) (interval * 7) in
    some (start_date + steps * interval * 7)
next_weekly_from (d ∷ ds) interval start_date from =
    let start_week = start_of_utc_week start_date in
    let from_week = start_of_utc_week from in
    let base_week_diff = (from_week - start_week) / 7 in
    find_week 2 (round_up base_week_diff interval) start_week interval start_date from (d ∷ ds)

-- nextWeeklyScheduledAt
unfoldable pub next_weekly_scheduled_at : Config → ℕ → Option ℕ
next_weekly_scheduled_at config from_date =
    let start_date = normalize_recurring_date config.start_date in
    let from = max from_date start_date in
    let interval = get_effective_interval config.interval in
    next_weekly_from (get_sorted_days_of_week config.days_of_week) interval start_date from

-- the `while` of nextMonthlyScheduledAt
abbrev pub find_month :
    (fuel month_offset : ℕ) (start_date interval day_of_month from : ℕ) → Option ℕ
find_month zero offset start_date interval day_of_month from = none
find_month (suc fuel) offset start_date interval day_of_month from =
    let rest = find_month fuel (offset + interval) start_date interval day_of_month from in
    let candidate = build_monthly_candidate start_date offset day_of_month in
    if ltb candidate from then rest else some candidate

-- nextMonthlyScheduledAt
unfoldable pub next_monthly_scheduled_at : Config → ℕ → Option ℕ
next_monthly_scheduled_at config from_date =
    let start_date = normalize_recurring_date config.start_date in
    let from = max from_date start_date in
    let interval = get_effective_interval config.interval in
    let day_of_month = or_default config.day_of_month (civil start_date).day in
    let month_offset = round_up (diff_utc_months from start_date) interval in
    find_month 2 month_offset start_date interval day_of_month from

-- the `switch` of nextScheduledAtOrAfter
unfoldable pub next_by : Frequency → Config → ℕ → Option ℕ
next_by daily config from_date = some (next_daily_scheduled_at config from_date)
next_by weekly config from_date = next_weekly_scheduled_at config from_date
next_by monthly config from_date = next_monthly_scheduled_at config from_date

-- nextScheduledAtOrAfter
abbrev pub next_scheduled_at_or_after : Config → ℕ → Option ℕ
next_scheduled_at_or_after config = next_by config.frequency config

-- calculateInitialNextScheduledAt, at an instant
abbrev pub calculate_initial_next_scheduled_at : Config → ℕ → Option ℕ
calculate_initial_next_scheduled_at config now =
    next_scheduled_at_or_after config (normalize_recurring_date now)

-- calculateNextScheduledAtAfter
unfoldable pub calculate_next_scheduled_at_after : Config → ℕ → Option ℕ
calculate_next_scheduled_at_after config previous_scheduled_at =
    next_scheduled_at_or_after config (normalize_recurring_date previous_scheduled_at + 1)

-- the `for` of collectDueScheduledAtTimes
abbrev pub collect_from : (max_iterations : ℕ) → Config → (due_until cursor : ℕ) → Option (List ℕ)
collect_from zero config due_until cursor = some []
collect_from (suc count) config due_until cursor = elim (leb cursor due_until) [
  | false ↦ some []
  | true ↦ do
    next ← calculate_next_scheduled_at_after config (midnight cursor)
    due ← collect_from count config due_until next
    some (cursor ∷ due)
]

-- `dueUntil` of collectDueScheduledAtTimes
unfoldable pub due_until : DueConfig → ℕ → ℕ
due_until due now =
    let today = normalize_recurring_date now in
    elim due.end_date [
      | none ↦ today
      | some end_date ↦
          let end = normalize_recurring_date end_date in if ltb end today then end else today
    ]

-- `cursor` of collectDueScheduledAtTimes, before its loop
abbrev pub cursor_of : (next_scheduled_at : Option ℕ) → Config → (until : ℕ) → Option ℕ
cursor_of (some scheduled_at) config until = some (normalize_recurring_date scheduled_at)
cursor_of none config until = do
  first ← calculate_initial_next_scheduled_at config (midnight until)
  some (normalize_recurring_date (midnight first))

abbrev pub first_cursor : DueConfig → ℕ → Option ℕ
first_cursor due now = cursor_of due.next_scheduled_at due.config (due_until due now)

-- collectDueScheduledAtTimes
unfoldable pub collect_due_scheduled_at_times : DueConfig → ℕ → Option (List ℕ)
collect_due_scheduled_at_times due now = do
  cursor ← first_cursor due now
  let until = due_until due now
  if ltb until cursor
      then some []
      else collect_from (max 1 (until - cursor + 1)) due.config until cursor

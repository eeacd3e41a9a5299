-- ===== src/Recurrence/Examples.antt =====
-- Recurrence: tests and runs at concrete rules.
use atlaspm.Base.{ℕ, none, some, List, [], ◌∷◌, ◌≡◌, refl, ◌+◌, arith}
use atlaspm.Calendar.{civil, date_utc, month_length, week_day}
use atlaspm.Recurrence.{
  Config, DueConfig, weekly, monthly, next_by, calculate_next_scheduled_at_after,
  next_weekly_scheduled_at, next_monthly_scheduled_at, next_scheduled_at_or_after,
  normalize_recurring_date, last_day_of_utc_month, midnight, collect_due_scheduled_at_times,
  due_until, first_cursor,
}
use atlaspm.Recurrence.Schedule.{Occurs, IsNext, IsRule}
use atlaspm.Recurrence.Next.{next_scheduled_at_or_after-IsNext}
use atlaspm.Recurrence.Due.{IsDue, collect_due_scheduled_at_times-IsDue}

-- every other week on Tuesday and Thursday, from Wednesday 4 January 1967
abbrev fortnightly : Config
fortnightly = record {
  frequency = weekly;
  interval = some 2;
  days_of_week = some (4 ∷ 2 ∷ 4 ∷ []);
  day_of_month = none;
  start_date = midnight 3;
}

-- the last day of each month, from 31 January 1967
abbrev last_of_month : Config
last_of_month = record {
  frequency = monthly;
  interval = none;
  days_of_week = none;
  day_of_month = some 31;
  start_date = midnight 30;
}

days_from_fortnightly : next_scheduled_at_or_after fortnightly 3 ≡ some 4
unfolding next_by next_weekly_scheduled_at date_utc civil month_length normalize_recurring_date
    week_day
days_from_fortnightly = refl

days_after_fortnightly : next_scheduled_at_or_after fortnightly 5 ≡ some 16
unfolding next_by next_weekly_scheduled_at date_utc civil month_length normalize_recurring_date
    week_day
days_after_fortnightly = refl

february : next_scheduled_at_or_after last_of_month 31 ≡ some 58
unfolding next_by next_monthly_scheduled_at date_utc civil month_length normalize_recurring_date
    last_day_of_utc_month
february = refl

two_months_due :
    collect_due_scheduled_at_times
      (record { config = last_of_month; next_scheduled_at = some (midnight 30); end_date = none })
      (midnight 89 + 5)
    ≡ some (30 ∷ 58 ∷ 89 ∷ [])
unfolding next_by next_monthly_scheduled_at date_utc civil month_length normalize_recurring_date
    last_day_of_utc_month collect_due_scheduled_at_times due_until calculate_next_scheduled_at_after
two_months_due = refl

abbrev last_of_month_due : DueConfig
last_of_month_due = record {
  config = last_of_month;
  next_scheduled_at = some (midnight 30);
  end_date = none;
}

last_of_month-IsRule : IsRule last_of_month
last_of_month-IsRule = omega arith

fortnightly-IsRule : IsRule fortnightly
fortnightly-IsRule = λ x m. ground (arith, m)

next_scheduled_at_or_after-IsNext_example :
    (d : ℕ) × (next_scheduled_at_or_after fortnightly 5 ≡ some d) × IsNext (Occurs fortnightly) 5 d
next_scheduled_at_or_after-IsNext_example =
    next_scheduled_at_or_after-IsNext fortnightly 5 fortnightly-IsRule

collect_due_scheduled_at_times-IsDue_example :
    (cursor : ℕ) × (days : List ℕ) × (first_cursor last_of_month_due (midnight 89 + 5)
      ≡ some cursor)
    × (collect_due_scheduled_at_times last_of_month_due (midnight 89 + 5) ≡ some days)
    × IsDue last_of_month_due (midnight 89 + 5) cursor days
collect_due_scheduled_at_times-IsDue_example =
    collect_due_scheduled_at_times-IsDue last_of_month_due (midnight 89 + 5) last_of_month-IsRule

-- ===== src/Recurrence/Schedule.antt =====
-- Recurrence: the days that a rule names, said without the arithmetic of the code, and what the next
-- of them is.
use atlaspm.Base.{
  ℕ, ◌+◌, ◌*◌, ◌/◌, ◌%◌, ◌≤◌, ◌≡◌, min, max, arith, true, List, [], ◌∷◌, mem, or_default,
}
use atlaspm.Calendar.{civil, month_length, one_day_ms}
use atlaspm.Calendar.Months.{date_utc-civil}
use atlaspm.Recurrence.{
  Frequency, Config, daily, weekly, monthly, normalize_recurring_date, get_effective_interval,
}

-- Making a date a calendar day drops its time of day, and a second time changes nothing.
pub normalize_recurring_date_lem :
    (instant : ℕ)
    → (normalize_recurring_date instant ≡ instant / one_day_ms)
      × (normalize_recurring_date (normalize_recurring_date instant * one_day_ms)
          ≡ normalize_recurring_date instant)
unfolding normalize_recurring_date
normalize_recurring_date_lem instant =
    rw
      (
        date_utc-civil (instant / one_day_ms),
        date_utc-civil (instant / one_day_ms * one_day_ms / one_day_ms),
      )
      (omega arith, omega arith)

abbrev pub start_of : Config → ℕ
start_of c = normalize_recurring_date c.start_date

abbrev pub interval_of : Config → ℕ
interval_of c = get_effective_interval c.interval

abbrev pub days_of : Config → List ℕ
days_of c = or_default c.days_of_week []

abbrev pub day_of_month_of : Config → ℕ
day_of_month_of c = or_default c.day_of_month (civil (start_of c)).day

-- every so many days from the start
abbrev pub OnStep : (start step d : ℕ) → Type 0
OnStep start step d = (k : ℕ) × (d ≡ start + k * step)

-- from the start on, on a chosen day of the week, a number of weeks after the start's week that the
-- interval divides; a week starts on Sunday
pub record OnWeek (start interval : ℕ) (days : List ℕ) (d : ℕ) : Type 0 where
  pub started : start ≤ d
  pub chosen : mem (d % 7) days ≡ true
  pub times : ℕ
  pub in_cycle : d / 7 ≡ start / 7 + times * interval

-- from the start on, on the chosen day of the month or on the last of a shorter month, a number of
-- months after the start's month that the interval divides
pub record OnMonth (start interval day_of_month d : ℕ) : Type 0 where
  pub started : start ≤ d
  pub chosen : (civil d).day ≡ min day_of_month (month_length (civil d).month)
  pub times : ℕ
  pub in_cycle : (civil d).month ≡ (civil start).month + times * interval

-- a weekly rule's days, without chosen days of the week and with them
abbrev pub OnWeekly : (start interval : ℕ) → List ℕ → ℕ → Type 0
OnWeekly start interval [] d = OnStep start (interval * 7) d
OnWeekly start interval (x ∷ xs) d = OnWeek start interval (x ∷ xs) d

unfoldable pub OccursBy : Frequency → Config → ℕ → Type 0
OccursBy daily c d = OnStep (start_of c) (interval_of c) d
OccursBy weekly c d = OnWeekly (start_of c) (interval_of c) (days_of c) d
OccursBy monthly c d = OnMonth (start_of c) (interval_of c) (day_of_month_of c) d

-- the days that a rule names
abbrev pub Occurs : Config → ℕ → Type 0
Occurs c = OccursBy c.frequency c

-- the first day of a set from a day on
pub record IsNext (Named : ℕ → Type 0) (from d : ℕ) : Type 0 where
  pub named : Named d
  pub reached : from ≤ d
  pub first : (e : ℕ) → Named e → from ≤ e → d ≤ e

-- the same for a day on which a name cannot stand before the start
pub IsNext-max :
    (Named : ℕ → Type 0) (from start d : ℕ)
    → ((e : ℕ) → Named e → start ≤ e)
    → IsNext Named (max from start) d
    → IsNext Named from d
IsNext-max Named from start d h n = record {
  named = n.named;
  reached = omega (arith, n.reached);
  first = λ e m p. n.first e m (omega (arith, p, h e m));
}

-- what the calculation relies on: the days of the week of a weekly rule are 0 to 6, and the day of the
-- month of a monthly one is not 0
abbrev pub IsRuleBy : Frequency → Config → Type 0
IsRuleBy daily c = Unit {0}
IsRuleBy weekly c = (x : ℕ) → mem x (days_of c) ≡ true → x ≤ 6
IsRuleBy monthly c = 1 ≤ day_of_month_of c

abbrev pub IsRule : Config → Type 0
IsRule c = IsRuleBy c.frequency c

-- ===== src/Recurrence/Next.antt =====
-- Recurrence: nextScheduledAtOrAfter answers the next day of the schedule.
use atlaspm.Base.{
  ℕ, ◌+◌, ◌*◌, ◌-◌, ◌%◌, ◌≤◌, ◌≡◌, arith, true, some, refl, max, sym, ◌∙◌, ap, List, [], ◌∷◌, mem,
  subst,
}
use atlaspm.Calendar.{week_day}
use atlaspm.Recurrence.{
  Frequency, Config, daily, weekly, monthly, next_by, next_daily_scheduled_at,
  next_weekly_scheduled_at, next_monthly_scheduled_at, next_scheduled_at_or_after, sorted_set,
  ceil_div, next_weekly_from,
}
use atlaspm.Recurrence.Steps.{ceil_div-IsLeastMultiple}
use atlaspm.Recurrence.Rounds.{
  find_week-IsNext, IsAscending, sorted_set-IsAscending, mem-sorted_set,
}
use atlaspm.Recurrence.Monthly.{find_month-IsNext}
use atlaspm.Recurrence.Schedule.{
  OnStep, OnWeek, OnMonth, OccursBy, Occurs, IsNext, IsNext-max, IsRule, IsRuleBy, OnWeekly,
  start_of, interval_of, day_of_month_of, days_of,
}

interval_positive : (c : Config) → 1 ≤ interval_of c
interval_positive c = omega arith

step-IsNext :
    (s i from : ℕ) → 1 ≤ i → s ≤ from → IsNext (OnStep s i) from (s + ceil_div (from - s) i * i)
step-IsNext s i from h p =
    let r = ceil_div-IsLeastMultiple i (from - s) h in
    record {
      named = (ceil_div (from - s) i, refl);
      reached = omega (arith, r.reaches, p);
      first = λ e (k, m) q. omega (arith, m, q, r.least k (omega (arith, m, q)));
    }

OnStep-start : (s i e : ℕ) → OnStep s i e → s ≤ e
OnStep-start s i e (k, h) = omega (arith, h)

-- What every frequency's rule answers.
Answer : Frequency → Config → ℕ → Type 0
Answer f c from = (d : ℕ) × (next_by f c from ≡ some d) × IsNext (OccursBy f c) from d

daily-Answer : (c : Config) (from : ℕ) → Answer daily c from
unfolding Answer next_by OccursBy next_daily_scheduled_at
daily-Answer c from = (
  next_daily_scheduled_at c from,
  refl,
  IsNext-max (OnStep (start_of c) (interval_of c)) from (start_of c)
      (next_daily_scheduled_at c from) (OnStep-start (start_of c) (interval_of c))
      (step-IsNext (start_of c) (interval_of c) (max from (start_of c)) (interval_positive c)
        (omega arith)),
)

monthly-Answer : (c : Config) (from : ℕ) → 1 ≤ day_of_month_of c → Answer monthly c from
unfolding Answer next_by OccursBy next_monthly_scheduled_at
monthly-Answer c from h =
    let (d, e, n) =
      find_month-IsNext (start_of c) (interval_of c) (max from (start_of c)) (day_of_month_of c) h
        (interval_positive c) (omega arith) in
    (
      d,
      e,
      IsNext-max (OnMonth (start_of c) (interval_of c) (day_of_month_of c)) from (start_of c) d
          (λ e m. m.started) n,
    )

-- A day is named by the sorted days of the week when it is named by the given ones.
OnWeek-same :
    (s i : ℕ) (xs ys : List ℕ) (d : ℕ)
    → ((x : ℕ) → mem x xs ≡ mem x ys)
    → OnWeek s i xs d
    → OnWeek s i ys d
OnWeek-same s i xs ys d h w = record {
  started = w.started;
  chosen = sym (h (d % 7)) ∙ w.chosen;
  times = w.times;
  in_cycle = w.in_cycle;
}

IsNext-same :
    (A B : ℕ → Type 0) (from d : ℕ)
    → ((e : ℕ) → A e → B e)
    → ((e : ℕ) → B e → A e)
    → IsNext A from d
    → IsNext B from d
IsNext-same A B from d f g n = record {
  named = f d n.named;
  reached = n.reached;
  first = λ e b. n.first e (g e b);
}

-- `next_weekly_from` with at least one day of the week, given in any order.
on_days :
    (s i from y : ℕ) (ys : List ℕ)
    → ((x : ℕ) → mem x (y ∷ ys) ≡ true → x ≤ 6)
    → 1 ≤ i
    → s ≤ from
    → (zs : List ℕ) → zs ≡ sorted_set (y ∷ ys)
    → (d : ℕ) × (next_weekly_from zs i s from ≡ some d) × IsNext (OnWeek s i (y ∷ ys)) from d
unfolding week_day
on_days s i from y ys h positive p [] e =
    absurd (ground (arith, e, mem-sorted_set y (y ∷ ys), ap (mem y) e))
on_days s i from y ys h positive p (z ∷ zs) e =
    let same : (x : ℕ) → mem x (z ∷ zs) ≡ mem x (y ∷ ys) =
      λ x. ap (mem x) e ∙ mem-sorted_set x (y ∷ ys) in
    let (d, eq, n) =
      find_week-IsNext s i from (z ∷ zs) (λ x m. h x (sym (same x) ∙ m)) z (ground arith)
        (subst IsAscending (sym e) (sorted_set-IsAscending (y ∷ ys))) positive p in
    (
      d,
      eq,
      IsNext-same (OnWeek s i (z ∷ zs)) (OnWeek s i (y ∷ ys)) from d
          (λ f. OnWeek-same s i (z ∷ zs) (y ∷ ys) f same)
          (λ f. OnWeek-same s i (y ∷ ys) (z ∷ zs) f (λ x. sym (same x))) n,
    )

-- the days that a weekly rule names, as the list of its days of the week has some or none
weekly_on :
    (s i from : ℕ) (days : List ℕ)
    → ((x : ℕ) → mem x days ≡ true → x ≤ 6)
    → 1 ≤ i
    → s ≤ from
    → (d : ℕ) × (next_weekly_from (sorted_set days) i s from ≡ some d)
      × IsNext (OnWeekly s i days) from d
weekly_on s i from [] h positive p =
    let n : IsNext (OnStep s (i * 7)) from (s + ceil_div (from - s) (i * 7) * (i * 7)) =
      step-IsNext s (i * 7) from (omega (arith, positive)) p in
    (s + ceil_div (from - s) (i * 7) * (i * 7), ap some (ground arith), n)
weekly_on s i from (y ∷ ys) h positive p =
    on_days s i from y ys h positive p (sorted_set (y ∷ ys)) refl

OnWeekly-start : (s i : ℕ) (days : List ℕ) (e : ℕ) → OnWeekly s i days e → s ≤ e
OnWeekly-start s i [] e m = OnStep-start s (i * 7) e m
OnWeekly-start s i (y ∷ ys) e m = m.started

weekly-Answer :
    (c : Config) (from : ℕ) → ((x : ℕ) → mem x (days_of c) ≡ true → x ≤ 6) → Answer weekly c from
unfolding Answer next_by OccursBy next_weekly_scheduled_at
weekly-Answer c from h =
    let (d, e, n) =
      weekly_on (start_of c) (interval_of c) (max from (start_of c)) (days_of c) h
        (interval_positive c) (omega arith) in
    (
      d,
      e,
      IsNext-max (OnWeekly (start_of c) (interval_of c) (days_of c)) from (start_of c) d
          (OnWeekly-start (start_of c) (interval_of c) (days_of c)) n,
    )

every-Answer : (f : Frequency) (c : Config) (from : ℕ) → IsRuleBy f c → Answer f c from
every-Answer daily c from r = daily-Answer c from
every-Answer weekly c from r = weekly-Answer c from r
every-Answer monthly c from r = monthly-Answer c from r

-- For a rule whose days of the week are 0 to 6, if it is weekly, and whose day of the month is at least
-- 1, if it is monthly, the search always ends with a day, and that day is the first one from the given day on that the schedule names.
pub next_scheduled_at_or_after-IsNext :
    (c : Config) (from : ℕ)
    → IsRule c
    → (d : ℕ) × (next_scheduled_at_or_after c from ≡ some d) × IsNext (Occurs c) from d
unfolding Answer
next_scheduled_at_or_after-IsNext c from r = every-Answer c.frequency c from r

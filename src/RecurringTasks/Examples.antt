-- ===== src/RecurringTasks/Examples.antt =====
-- RecurringTasks and RecurringRetries: tests and runs on a small table.
use atlaspm.Base.{
  ℕ, ◌+◌, ◌≤◌, ◌≡◌, refl, arith, true, false, Option, none, some, List, [], ◌∷◌, if◌then◌else◌,
  ◌==◌, any, length, select, or_default, ok, ◌⊎◌, map,
}
use atlaspm.Base.Apart.{Apart}
use atlaspm.Calendar.{civil, date_utc, month_length}
use atlaspm.Recurrence.{
  Config, daily, midnight, first_cursor, due_until, next_by, next_daily_scheduled_at,
  normalize_recurring_date, calculate_next_scheduled_at_after, collect_due_scheduled_at_times,
}
use atlaspm.Recurrence.Schedule.{IsRule, Occurs}
use atlaspm.RecurringTasks.{
  Rule, Generation, State, World, Tally, completed, commit_generation, process_days, process_rules,
  process_due_recurring_tasks, process_scheduled_at, handle_existing_generation,
  generate_task_for_rule, record_generation_error, due_config, is_status,
}
use atlaspm.RecurringTasks.Passes.{is_done_on}
use atlaspm.Recurrence.Due.{InWindow, IsFirstDue}
use atlaspm.RecurringTasks.CatchUp.{process_rules-caught_up}
use atlaspm.RecurringRetries.{retry_failed_generations, commit_retry, retry_one, retry_all}
use atlaspm.RecurringRetries.Once.{Once, IsFresh, same_id}
use atlaspm.RecurringRetries.Runs.{
  Reached, rest, generation_made, Reached-Once, process_due_recurring_tasks-Reached,
}
use atlaspm.RecurringRetries.Rounds.{retry_failed_generations-Reached}

abbrev every_day : Config
every_day = record {
  frequency = daily;
  interval = some 1;
  days_of_week = none;
  day_of_month = none;
  start_date = midnight 4;
}

abbrev stand_up : Rule
stand_up = record {
  id = 7;
  project_id = 1;
  section_id = 2;
  source_task_id = none;
  template = record {
    title = [];
    description = none;
    assignee_user_id = none;
    priority = none;
    tags = [];
  };
  config = every_day;
  end_date = none;
  last_generated_at = none;
  next_scheduled_at = some (midnight 4);
  is_active = true;
}

abbrev one_rule : State
one_rule = record { rules = stand_up ∷ []; generations = []; tasks = []; events = [] }

-- an id above all others
abbrev after_ids : List Generation → ℕ
after_ids [] = 1
after_ids (g ∷ gs) = g.id + after_ids gs

abbrev pub quiet_world : World
quiet_world = record {
  new_generation_id = λ s. after_ids s.generations;
  new_task_id = λ s. length s.tasks + 50;
  clock = 900;
  message = λ f. [];
  generating = λ rule day. none;
  recording = λ rule day. none;
  retrying = λ rule day. none;
}

-- the section is gone on day 5
abbrev broken_world : World
broken_world = record quiet_world { generating = λ rule day. if day == 5 then some [] else none }

abbrev rules_after : Tally × State → List (Option ℕ)
rules_after after = map (λ r. r.next_scheduled_at) after.1.rules

abbrev days_after : Tally × State → List ℕ
days_after after = map (λ g. g.day) (select (λ g. is_status g.status completed) after.1.generations)

abbrev run : World → ℕ → State → Tally × State
run w now s =
    or_default (process_due_recurring_tasks w now s) (record { processed = 0; errors = 9 }, s)

three_days : days_after (run quiet_world 6 one_rule) ≡ 4 ∷ 5 ∷ 6 ∷ []
unfolding process_due_recurring_tasks process_rules process_days process_scheduled_at
    generate_task_for_rule commit_generation collect_due_scheduled_at_times due_until
    calculate_next_scheduled_at_after next_by next_daily_scheduled_at normalize_recurring_date civil
    date_utc month_length
three_days = refl

blocked_day : days_after (run quiet_world 6 (run broken_world 6 one_rule).1) ≡ 4 ∷ []
unfolding process_due_recurring_tasks process_rules process_days process_scheduled_at
    generate_task_for_rule commit_generation collect_due_scheduled_at_times due_until
    calculate_next_scheduled_at_after next_by next_daily_scheduled_at normalize_recurring_date civil
    date_utc month_length record_generation_error handle_existing_generation
blocked_day = refl

retried_day :
    days_after
      (run quiet_world 6 (retry_failed_generations quiet_world (run broken_world 6 one_rule).1).1)
    ≡ 4 ∷ 5 ∷ 6 ∷ []
unfolding process_due_recurring_tasks process_rules process_days process_scheduled_at
    generate_task_for_rule commit_generation collect_due_scheduled_at_times due_until
    calculate_next_scheduled_at_after next_by next_daily_scheduled_at normalize_recurring_date civil
    date_utc month_length retry_failed_generations retry_all record_generation_error retry_one
    commit_retry
retried_day = refl

every_day-IsRule : IsRule every_day
every_day-IsRule = tt

positive : (gs : List Generation) → 1 ≤ after_ids gs
positive [] = omega arith
positive (g ∷ gs) = omega (arith, positive gs)

above_ids : (gs : List Generation) (n : ℕ) → after_ids gs ≤ n → any (λ g. n == g.id) gs ≡ false
above_ids [] n h = refl
above_ids (g ∷ gs) n h = ground (arith, above_ids gs n, positive gs)

two_rows_apart : Apart same_id (run broken_world 6 one_rule).1.generations
unfolding process_due_recurring_tasks process_rules process_days process_scheduled_at
    generate_task_for_rule commit_generation record_generation_error collect_due_scheduled_at_times
    due_until calculate_next_scheduled_at_after next_by next_daily_scheduled_at
    normalize_recurring_date civil date_utc month_length
two_rows_apart = (refl, (refl, tt))

quiet_world-IsFresh : IsFresh quiet_world
quiet_world-IsFresh s = above_ids s.generations (after_ids s.generations) (omega arith)

one_rule-Once : Once one_rule
one_rule-Once = record { slots = tt; ids = tt; settled = refl; made = λ r. refl }

abbrev after_one : Tally × State
after_one = run quiet_world 4 one_rule

first_day : (s : State) × (commit_generation quiet_world stand_up 1000 4 one_rule ≡ ok s)
unfolding commit_generation calculate_next_scheduled_at_after next_by next_daily_scheduled_at
    normalize_recurring_date civil date_utc month_length
first_day = (_, refl)

Reached-Once_example : Once first_day.0
Reached-Once_example =
    Reached-Once quiet_world one_rule quiet_world-IsFresh one_rule-Once
      (generation_made rest stand_up 1000 4 first_day.1)

process_due_recurring_tasks-Reached_example :
    (tally : Tally) × (s' : State) × (process_due_recurring_tasks broken_world 6 one_rule
      ≡ some (tally, s'))
    × Reached broken_world one_rule s'
process_due_recurring_tasks-Reached_example =
    process_due_recurring_tasks-Reached broken_world 6 one_rule (every_day-IsRule, tt)

retry_failed_generations-Reached_example :
    Reached quiet_world
      (run broken_world 6 one_rule).1
      (retry_failed_generations quiet_world (run broken_world 6 one_rule).1).1
retry_failed_generations-Reached_example =
    retry_failed_generations-Reached quiet_world (run broken_world 6 one_rule).1 two_rows_apart

process_rules-caught_up_example :
    (cursor : ℕ) × (after : Tally × State) × (first_cursor (due_config stand_up) (midnight 6)
      ≡ some cursor)
    × IsFirstDue stand_up.next_scheduled_at every_day stand_up.end_date (midnight 6) cursor
    × (process_rules quiet_world 6 (stand_up ∷ []) (record { processed = 0; errors = 0 }) one_rule
        ≡ some after)
    × (after.0.errors ≡ 0)
    × ((d : ℕ)
        → cursor ≤ d
        → InWindow stand_up.end_date (midnight 6) d
        → (d ≡ cursor) ⊎ Occurs every_day d
        → any (is_done_on 7 d) after.1.generations ≡ true)
process_rules-caught_up_example =
    process_rules-caught_up quiet_world stand_up 6 (record { processed = 0; errors = 0 }) one_rule
      every_day-IsRule refl (λ d. refl) (λ d. refl)

-- ===== src/RecurringRules/Examples.antt =====
-- RecurringRules: tests and runs.
use atlaspm.Base.{arith, List, map, Result, ◌>>=◌, ◌≡◌, refl, ok, err, none, some, [], ◌∷◌}
use atlaspm.Access.Examples.{directory}
use atlaspm.Access.{require_project_role}
use atlaspm.Base.Text.{trim, trim_start, is_space}
use atlaspm.Calendar.{civil, date_utc, month_length, week_day}
use atlaspm.Recurrence.{
  Config, daily, weekly, next_daily_scheduled_at, midnight, next_by, next_weekly_scheduled_at,
  normalize_recurring_date,
}
use atlaspm.RecurringTasks
use atlaspm.Recurrence.Schedule.{IsRule}
use atlaspm.RecurringTasks.{Rule, World, Tally, process_due_recurring_tasks}
use atlaspm.RecurringTasks.Examples.{quiet_world}
use atlaspm.RecurringRules.{
  State, RuleError, CreateBody, day_of_week_out_of_range, create, created_rule, rule_created,
  validate_recurring_config,
}
use atlaspm.RecurringRules.Changes.{UpdateBody, absent, read_for_update, commit_update}
use atlaspm.RecurringRules.Valid.{IsSound}
use atlaspm.RecurringRules.History.{rest, created, Reached-runs}

abbrev no_rules : State
no_rules = record {
  rules = [];
  sections = record { id = 2; project_id = 7 } ∷ [];
  tasks = [];
  events = [];
}

-- on Mondays from Monday 2 January 1967
abbrev mondays : Config
mondays = record {
  frequency = weekly;
  interval = none;
  days_of_week = some (1 ∷ []);
  day_of_month = none;
  start_date = midnight 1;
}

abbrev body : CreateBody
body = record {
  title = 97 ∷ [];
  description = none;
  config = mondays;
  section_id = 2;
  source_task_id = none;
  assignee_user_id = none;
  priority = none;
  tags = none;
  end_date = none;
}

abbrev one_rule : State
one_rule = record no_rules {
  rules = created_rule 5 7 body 8 ∷ [];
  events = rule_created (created_rule 5 7 body 8) ∷ [];
}

rule_is_created : create directory (midnight 3) 1 5 7 body no_rules ≡ ok one_rule
unfolding create validate_recurring_config next_by next_weekly_scheduled_at normalize_recurring_date
    civil date_utc month_length week_day trim trim_start is_space require_project_role
rule_is_created = refl

eighth_day :
    create directory
      (midnight 3)
      1
      5
      7
      (record body { config = record mondays { days_of_week = some (8 ∷ []) } })
      no_rules
    ≡ err day_of_week_out_of_range
unfolding create validate_recurring_config trim trim_start is_space require_project_role
eighth_day = refl

abbrev worker_state : RecurringTasks.State
worker_state = record { rules = one_rule.rules; generations = []; tasks = []; events = [] }

no_rules-IsSound : IsSound no_rules
no_rules-IsSound = record { all = tt; ids = tt }

Reached-runs_example :
    IsSound one_rule
    × (tally : Tally) × (t' : RecurringTasks.State) × (process_due_recurring_tasks quiet_world 9
          worker_state
        ≡ some (tally, t'))
Reached-runs_example =
    Reached-runs no_rules one_rule quiet_world 9 worker_state no_rules-IsSound
      (created rest directory (midnight 3) 1 5 7 body refl rule_is_created) refl

-- a daily rule with a day of the week that it does not use
abbrev daily_rule : Rule
daily_rule = record (created_rule 5 7 body 8) { config = record mondays { frequency = daily } }

abbrev one_daily : State
one_daily = record no_rules { rules = daily_rule ∷ [] }

abbrev no_change : UpdateBody
no_change = record {
  title = none;
  description = absent;
  frequency = none;
  interval = none;
  days_of_week = none;
  day_of_month = absent;
  section_id = none;
  assignee_user_id = absent;
  priority = absent;
  tags = none;
  start_date = none;
  end_date = absent;
  is_active = none;
}

abbrev make_weekly : UpdateBody
make_weekly = record no_change { frequency = some weekly }

abbrev day_nine : UpdateBody
day_nine = record no_change { days_of_week = some (9 ∷ []) }

make_weekly_passes :
    read_for_update directory (midnight 3) 1 5 make_weekly one_daily ≡ ok daily_rule
unfolding read_for_update validate_recurring_config normalize_recurring_date civil date_utc
    month_length require_project_role
make_weekly_passes = refl

day_nine_passes : read_for_update directory (midnight 3) 1 5 day_nine one_daily ≡ ok daily_rule
unfolding read_for_update validate_recurring_config normalize_recurring_date civil date_utc
    month_length require_project_role
day_nine_passes = refl

abbrev configs : Result RuleError State → List Config
configs (ok s) = map (λ r. r.config) s.rules
configs (err e) = []

abbrev bad_config : Config
bad_config = record mondays { days_of_week = some (9 ∷ []) }

-- both updates have read the daily rule, and each is written
both_are_written :
    configs (
      commit_update (midnight 3) 5 make_weekly daily_rule one_daily
      >>= commit_update (midnight 3) 5 day_nine daily_rule)
    ≡ bad_config ∷ []
unfolding commit_update next_by next_weekly_scheduled_at next_daily_scheduled_at
    normalize_recurring_date civil date_utc month_length week_day
both_are_written = refl

bad_config-breaks-IsRule : ¬ IsRule bad_config
bad_config-breaks-IsRule h = omega (arith, h 9 refl)

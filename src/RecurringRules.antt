-- ===== src/RecurringRules.antt =====
-- RecurringTasksController (apps/core-api/src/recurring-tasks/recurring-tasks.controller.ts): creating,
-- changing and deleting recurring rules, on the rows of RecurringTasks.
-- Days of the week are whole numbers of at least 0. The tests of the request classes on single fields
-- (types, lengths, the interval's range) are left out, and so are the two readings, list and get. An
-- update and a delete read their rule before their transaction: each is a reading and a commit.
pub mod Changes
pub mod Valid
pub mod History
pub mod Examples
use atlaspm.Base.{
  ℕ, ◌+◌, ◌==◌, ltb, leb, Bool, true, false, not, ◌&&◌, ◌||◌, Option, none, some, List, [], ◌∷◌,
  ◌++◌, if◌then◌else◌, find, select, any, update_where, Result, ok, err, ◌>>=◌, ◌>>◌, refuse,
  or_fail, or_default,
}
use atlaspm.Base.Text.{Text, trim, trim_or_null}
use atlaspm.Store.{is_none, is_some}
use atlaspm.Access.{
  Directory, ProjectRole, ProjectMembership, AccessError, member, require_project_role,
}
use atlaspm.Recurrence.{
  Config, Frequency, daily, weekly, monthly, midnight, normalize_recurring_date,
  calculate_initial_next_scheduled_at,
}
use atlaspm.RecurringTasks.{Rule, Template, MadeTask, is_rule}

pub record Section : Type 0 where
  pub id : ℕ
  pub project_id : ℕ

-- one audit event and its outbox event, which are appended together
pub data Event : Type 0 where
  rule_created : Rule → Event
  rule_updated : Rule → Rule → Event
  rule_deleted : Rule → Event

pub record State : Type 0 where
  pub rules : List Rule
  pub sections : List Section
  pub tasks : List MadeTask
  pub events : List Event

pub data RuleError : Type 0 where
  title_empty section_not_found source_task_not_found source_task_taken : RuleError
  no_day_of_week day_of_week_out_of_range no_day_of_month day_of_month_out_of_range : RuleError
  end_before_start rule_not_found out_of_fuel : RuleError
  denied : AccessError → RuleError
  -- P2025: the row that an update or a delete names is gone
  record_gone : RuleError

abbrev pub authorize : Directory → (now project_id user_id : ℕ) → Result RuleError ProjectMembership
authorize d now p u = elim (require_project_role d now p u member) [
  | ok m ↦ ok m
  | err e ↦ err (denied e)
]

-- validateRecurringConfig
unfoldable pub validate_recurring_config :
    Frequency
    → (days_of_week : Option (List ℕ)) → (day_of_month : Option ℕ) → Result RuleError (Unit {0})
validate_recurring_config daily days day = ok tt
validate_recurring_config weekly none day = err no_day_of_week
validate_recurring_config weekly (some []) day = err no_day_of_week
validate_recurring_config weekly (some (d ∷ ds)) day =
    refuse (any (λ x. not (leb x 6)) (d ∷ ds)) day_of_week_out_of_range
validate_recurring_config monthly days none = err no_day_of_month
validate_recurring_config monthly days (some day) =
    refuse (ltb day 1 || ltb 31 day) day_of_month_out_of_range

-- validateDateWindow, on days
abbrev pub validate_date_window :
    (start_date : ℕ) → (end_date : Option ℕ) → Result RuleError (Unit {0})
validate_date_window start none = ok tt
validate_date_window start (some end) = refuse (ltb end start) end_before_start

abbrev pub normalize_end : Option ℕ → Option ℕ
normalize_end none = none
normalize_end (some end) = some (normalize_recurring_date end)

abbrev pub to_instant : Option ℕ → Option ℕ
to_instant none = none
to_instant (some day) = some (midnight day)

pub record CreateBody : Type 0 where
  pub title : Text
  pub description : Option Text
  pub config : Config
  pub section_id : ℕ
  pub source_task_id : Option ℕ
  pub assignee_user_id : Option ℕ
  pub priority : Option ℕ
  pub tags : Option (List Text)
  pub end_date : Option ℕ

abbrev pub is_section : (id project_id : ℕ) → Section → Bool
is_section id p x = (x.id == id) && (x.project_id == p)

abbrev pub is_source_task : (id project_id : ℕ) → MadeTask → Bool
is_source_task id p t = (t.id == id) && (t.project_id == p) && is_none t.deleted_at

-- the test of `sourceTaskId`
abbrev pub check_source_task :
    Option ℕ → (project_id : ℕ) → List MadeTask → Result RuleError (Unit {0})
check_source_task none p tasks = ok tt
check_source_task (some id) p tasks =
    refuse (not (any (is_source_task id p) tasks)) source_task_not_found

-- the unique index on `sourceTaskId`
abbrev pub same_source : Option ℕ → Rule → Bool
same_source none r = false
same_source (some id) r = elim r.source_task_id [ none ↦ false | some other ↦ other == id ]

-- the row that `create` stores; the calculation has the default values of the columns in it already
abbrev pub created_rule : (id project_id : ℕ) → CreateBody → (next : ℕ) → Rule
created_rule id p body next = record {
  id = id;
  project_id = p;
  section_id = body.section_id;
  source_task_id = body.source_task_id;
  template = record {
    title = trim body.title;
    description = elim body.description [ none ↦ none | some text ↦ some (trim text) ];
    assignee_user_id = body.assignee_user_id;
    priority = body.priority;
    tags = or_default body.tags [];
  };
  config = record body.config {
    interval = some (or_default body.config.interval 1);
    days_of_week = some (or_default body.config.days_of_week []);
    start_date = midnight (normalize_recurring_date body.config.start_date);
  };
  end_date = to_instant (normalize_end body.end_date);
  last_generated_at = none;
  next_scheduled_at = some (midnight next);
  is_active = true;
}

abbrev pub is_empty_text : Text → Bool
is_empty_text [] = true
is_empty_text (c ∷ cs) = false

-- create; `id` is the new row's, from the database
unfoldable pub create :
    Directory → (now user id project_id : ℕ) → CreateBody → State → Result RuleError State
create d now user id p body s = do
  authorize d now p user
  refuse (is_empty_text (trim body.title)) title_empty
  refuse (not (any (is_section body.section_id p) s.sections)) section_not_found
  check_source_task body.source_task_id p s.tasks
  validate_recurring_config body.config.frequency body.config.days_of_week body.config.day_of_month
  let start_date = normalize_recurring_date body.config.start_date
  validate_date_window start_date (normalize_end body.end_date)
  next ←
      or_fail
        (calculate_initial_next_scheduled_at
          (record body.config { start_date = midnight start_date }) now)
        out_of_fuel
  refuse (any (same_source body.source_task_id) s.rules) source_task_taken
  let rule = created_rule id p body next
  ok (record s { rules = s.rules ++ rule ∷ []; events = s.events ++ rule_created rule ∷ [] })

-- ===== src/RecurringTasks/Rows.antt =====
-- RecurringTasks: the rows of recurring rules, their generations and their tasks
-- (apps/core-api/prisma/schema.prisma), and what lies outside of the worker.
use atlaspm.Base.{ℕ, Bool, Option, List}
use atlaspm.Base.Text.{Text}
use atlaspm.Recurrence.{Config}

-- the columns of a rule that are copied to its tasks and not read
pub record Template : Type 0 where
  pub title : Text
  pub description : Option Text
  pub assignee_user_id : Option ℕ
  pub priority : Option ℕ
  pub tags : List Text

pub record Rule : Type 0 where
  pub id : ℕ
  pub project_id : ℕ
  pub section_id : ℕ
  pub source_task_id : Option ℕ
  pub template : Template
  pub config : Config
  pub end_date : Option ℕ
  pub last_generated_at : Option ℕ
  pub next_scheduled_at : Option ℕ
  pub is_active : Bool

pub data Status : Type 0 where
  pending completed failed : Status

pub record Generation : Type 0 where
  pub id : ℕ
  pub rule_id : ℕ
  pub day : ℕ
  pub status : Status
  pub task_id : Option ℕ
  pub error : Option Text
  pub retry_count : ℕ

-- a task row: status TODO and progress 0 are the same for each task that is made here
pub record MadeTask : Type 0 where
  pub id : ℕ
  pub project_id : ℕ
  pub section_id : ℕ
  pub template : Template
  pub position : ℕ
  pub recurring_rule_id : Option ℕ
  pub deleted_at : Option ℕ

pub data Event : Type 0 where
  task_generated : (task_id rule_id day generation_id : ℕ) → Event
  generation_failed : (rule_id : ℕ) → Text → (day generation_id : ℕ) → Event
  retry_succeeded : (task_id rule_id generation_id : ℕ) → Event

pub record State : Type 0 where
  pub rules : List Rule
  pub generations : List Generation
  pub tasks : List MadeTask
  pub events : List Event

pub data Failure : Type 0 where
  unique_constraint record_gone out_of_fuel : Failure
  thrown : Text → Failure

-- what lies outside: the ids of new rows, the clock, and what the database throws for a rule and a day
pub record World : Type 0 where
  pub new_generation_id : State → ℕ
  pub new_task_id : State → ℕ
  pub clock : ℕ
  pub message : Failure → Text
  pub generating : ℕ → ℕ → Option Text
  pub recording : ℕ → ℕ → Option Text
  pub retrying : ℕ → ℕ → Option Text

-- ===== src/RecurringTasks.antt =====
-- RecurringTaskWorker (apps/core-api/src/recurring-tasks/recurring-task.worker.ts): making the tasks
-- of recurring rules, once for each due day. RecurringRetries tries failed ones again.
-- A transaction is one function. What a transaction or its database may throw, and the ids of new rows,
-- are a parameter. The day of a generation is its `scheduledAt`, and `now` is a day. The timers, the
-- two flags that keep a timer from overlapping itself, and log lines are left out.
mod Rows
pub mod Passes
pub mod CatchUp
pub mod Examples
pub use Rows.*
use atlaspm.Base.{
  ℕ, zero, suc, ◌+◌, ◌==◌, max, ltb, leb, Bool, true, false, not, ◌&&◌, ◌||◌, Option, none, some,
  List, [], ◌∷◌, ◌++◌, if◌then◌else◌, find, select, any, update_where, Result, ok, err, ◌>>=◌, ◌>>◌,
  refuse, or_fail,
}
use atlaspm.Base.Text.{Text}
use atlaspm.Store.{is_none}
use atlaspm.Recurrence.{
  Config, DueConfig, midnight, calculate_next_scheduled_at_after, collect_due_scheduled_at_times,
}

abbrev pub throws : Option Text → Result Failure (Unit {0})
throws none = ok tt
throws (some text) = err (thrown text)

abbrev pub is_status : Status → Status → Bool
is_status pending pending = true
is_status completed completed = true
is_status failed failed = true
is_status _ _ = false

-- the unique key (ruleId, scheduledAt)
abbrev pub is_slot : (rule_id day : ℕ) → Generation → Bool
is_slot rule_id day g = (g.rule_id == rule_id) && (g.day == day)

abbrev pub is_rule : ℕ → Rule → Bool
is_rule id r = r.id == id

-- the greatest position of the section's live tasks, 0 for none
abbrev pub max_position : ℕ → List MadeTask → ℕ
max_position section_id [] = 0
max_position section_id (t ∷ ts) =
    if (t.section_id == section_id) && is_none t.deleted_at
    then max t.position (max_position section_id ts)
    else max_position section_id ts

abbrev pub next_position : Rule → State → ℕ
next_position rule s = max_position rule.section_id s.tasks + 1000

abbrev pub new_task : (id position : ℕ) → Rule → MadeTask
new_task id position rule = record {
  id = id;
  project_id = rule.project_id;
  section_id = rule.section_id;
  template = rule.template;
  position = position;
  recurring_rule_id = some rule.id;
  deleted_at = none;
}

-- `recurringRule.update({ data: { lastGeneratedAt, nextScheduledAt } })`
abbrev pub mark_generated : (clock next : ℕ) → Rule → Rule
mark_generated clock next r = record r {
  last_generated_at = some clock;
  next_scheduled_at = some (midnight next);
}

abbrev pub new_generation : (id rule_id day : ℕ) → Status → Option Text → Generation
new_generation id rule_id day status error = record {
  id = id;
  rule_id = rule_id;
  day = day;
  status = status;
  task_id = none;
  error = error;
  retry_count = 0;
}

-- `recurringTaskGeneration.update({ data: { taskId, status: 'completed' } })`
abbrev pub complete : ℕ → Generation → Generation
complete task_id g = record g { task_id = some task_id; status = completed }

-- the transaction of generateTaskForRule
unfoldable pub commit_generation : World → Rule → (position day : ℕ) → State → Result Failure State
commit_generation w rule position day s = do
  refuse (any (is_slot rule.id day) s.generations) unique_constraint
  throws (w.generating rule.id day)
  let generation = new_generation (w.new_generation_id s) rule.id day pending none
  let task = new_task (w.new_task_id s) position rule
  next ← or_fail (calculate_next_scheduled_at_after rule.config (midnight day)) out_of_fuel
  or_fail (find (is_rule rule.id) s.rules) record_gone
  ok (record {
    rules = update_where (is_rule rule.id) (mark_generated w.clock next) s.rules;
    generations = s.generations ++ complete task.id generation ∷ [];
    tasks = s.tasks ++ task ∷ [];
    events = s.events ++ task_generated task.id rule.id day generation.id ∷ [];
  })

abbrev pub has_come : ℕ → Option ℕ → Bool
has_come instant none = false
has_come instant (some at) = leb at instant

-- advanceRuleNextScheduledAt
unfoldable pub advance_rule_next_scheduled_at : Rule → (day : ℕ) → State → Result Failure State
advance_rule_next_scheduled_at rule day s = do
  next ← or_fail (calculate_next_scheduled_at_after rule.config (midnight day)) out_of_fuel
  ok (record s {
    rules =
        update_where (λ r. is_rule rule.id r && has_come (midnight day) r.next_scheduled_at)
          (λ r. record r { next_scheduled_at = some (midnight next) }) s.rules;
  })

pub data SlotResult : Type 0 where
  generated already_completed blocked_existing : SlotResult

-- handleExistingGeneration
unfoldable pub handle_existing_generation :
    Rule → Generation → State → Result Failure (SlotResult × State)
handle_existing_generation rule g s =
    if is_status g.status completed
    then (do s' ← advance_rule_next_scheduled_at rule g.day s; ok (already_completed, s'))
    else ok (blocked_existing, s)

-- the `catch` of generateTaskForRule
abbrev pub after_failure : Rule → (day : ℕ) → State → Failure → Result Failure (SlotResult × State)
after_failure rule day s unique_constraint = elim (find (is_slot rule.id day) s.generations) [
  | none ↦ err unique_constraint
  | some g ↦ handle_existing_generation rule g s
]
after_failure rule day s failure = err failure

-- generateTaskForRule
unfoldable pub generate_task_for_rule :
    World → Rule → (day : ℕ) → State → Result Failure (SlotResult × State)
generate_task_for_rule w rule day s = elim (commit_generation w rule (next_position rule s) day s) [
  | ok s' ↦ ok (generated, s')
  | err failure ↦ after_failure rule day s failure
]

-- processScheduledAt
unfoldable pub process_scheduled_at :
    World → Rule → (day : ℕ) → State → Result Failure (SlotResult × State)
process_scheduled_at w rule day s = elim (find (is_slot rule.id day) s.generations) [
  | some g ↦ handle_existing_generation rule g s
  | none ↦ generate_task_for_rule w rule day s
]

-- the transaction of recordGenerationError
abbrev pub commit_error : World → (rule_id : ℕ) → Text → (day : ℕ) → State → Result Failure State
commit_error w rule_id text day s = do
  refuse (any (is_slot rule_id day) s.generations) unique_constraint
  throws (w.recording rule_id day)
  let generation = new_generation (w.new_generation_id s) rule_id day failed (some text)
  ok (record s {
    generations = s.generations ++ generation ∷ [];
    events = s.events ++ generation_failed rule_id text day generation.id ∷ [];
  })

-- recordGenerationError, which goes on when its transaction throws
unfoldable pub record_generation_error : World → (rule_id : ℕ) → Text → (day : ℕ) → State → State
record_generation_error w rule_id text day s = elim (commit_error w rule_id text day s) [
  | ok s' ↦ s'
  | err failure ↦ s
]

pub record Tally : Type 0 where
  pub processed : ℕ
  pub errors : ℕ

-- the inner `for` of processDueRecurringTasks
unfoldable pub process_days : World → Rule → List ℕ → Tally → State → Tally × State
process_days w rule [] tally s = (tally, s)
process_days w rule (day ∷ days) tally s = elim (process_scheduled_at w rule day s) [
  | ok (generated, s') ↦
      process_days w rule days (record tally { processed = suc tally.processed }) s'
  | ok (already_completed, s') ↦ process_days w rule days tally s'
  | ok (blocked_existing, s') ↦ (tally, s')
  | err failure ↦ (
    record tally { errors = suc tally.errors },
    record_generation_error w rule.id (w.message failure) day s,
  )
]

-- the `where` of processDueRecurringTasks
abbrev pub is_due_rule : (now : ℕ) → Rule → Bool
is_due_rule now r =
    r.is_active
    && has_come (midnight now) r.next_scheduled_at
    && elim r.end_date [ none ↦ true | some end ↦ leb (midnight now) end ]

abbrev pub due_config : Rule → DueConfig
due_config r = record {
  config = r.config;
  next_scheduled_at = r.next_scheduled_at;
  end_date = r.end_date;
}

-- the outer `for` of processDueRecurringTasks; `none` stands for a run that does not end
unfoldable pub process_rules :
    World → (now : ℕ) → List Rule → Tally → State → Option (Tally × State)
process_rules w now [] tally s = some (tally, s)
process_rules w now (rule ∷ rules) tally s =
    elim (collect_due_scheduled_at_times (due_config rule) (midnight now)) [
      | none ↦ none
      | some days ↦
          let after = process_days w rule days tally s in process_rules w now rules after.0 after.1
    ]

-- processDueRecurringTasks
unfoldable pub process_due_recurring_tasks : World → (now : ℕ) → State → Option (Tally × State)
process_due_recurring_tasks w now s =
    process_rules w now (select (is_due_rule now) s.rules) (record { processed = 0; errors = 0 }) s

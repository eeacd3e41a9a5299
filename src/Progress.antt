-- ===== src/Progress.antt =====
-- The progress rules of packages/domain/src: value-objects/progress-percent.ts and the services
-- task-progress-normalization.ts, task-progress-automation.ts and task-completion-transition.ts.
pub mod Agreement
pub mod Examples
use atlaspm.Base.{
  ℕ, ◌==◌, leb, Bool, true, false, not, ◌&&◌, Option, none, some, if◌then◌else◌, Result, ok, err,
  ◌>>=◌, or_default,
}
use atlaspm.Base.Int.{ℤ, pos, negsuc}
use atlaspm.Base.Number.{Number, int, non_integer}
use atlaspm.Store.{TaskStatus, in_progress, done, TaskType, is_done, is_milestone}

-- errors/domain-error.ts: the reasons for a DomainValidationError
pub data ValidationError : Type 0 where
  bad_progress : Number → ValidationError
  missing_id missing_title bad_version : ValidationError
  done_without_completed_at completed_at_without_done : ValidationError

-- ProgressPercent.from(value).value
unfoldable pub progress_from : Number → Result ValidationError ℕ
progress_from (int (pos n)) = if leb n 100 then ok n else err (bad_progress (int (pos n)))
progress_from (int (negsuc n)) = err (bad_progress (int (negsuc n)))
progress_from non_integer = err (bad_progress non_integer)

-- normalizeTaskProgressForType
pub normalize_task_progress_for_type :
    TaskType → Number → TaskStatus → (has_status_override : Bool) → Result ValidationError ℕ
normalize_task_progress_for_type type progress_percent status has_status_override = do
  progress ← progress_from progress_percent
  ok (
      if not (is_milestone type)
      then progress
      else if has_status_override
      then (if is_done status then 100 else 0)
      else if leb 100 progress
      then 100
      else 0)

pub record Outcome : Type 0 where
  pub status : TaskStatus
  pub completed_at : Option ℕ

-- applyTaskProgressAutomation at the time `now`
pub apply_task_progress_automation :
    TaskStatus → Number → (completed_at : Option ℕ) → (now : ℕ) → Result ValidationError Outcome
apply_task_progress_automation status progress_percent completed_at now = do
  progress ← progress_from progress_percent
  ok (
      if progress == 100
      then record { status = done; completed_at = some (or_default completed_at now) }
      else if is_done status
      then record { status = in_progress; completed_at = none }
      else record { status = in_progress; completed_at = none })

pub data CompletionAction : Type 0 where
  completed reopened : CompletionAction

pub record Transition : Type 0 where
  pub status : TaskStatus
  pub progress_percent : ℕ
  pub completed_at : Option ℕ
  pub action : CompletionAction

-- deriveTaskCompletionTransition at the time `now`
unfoldable pub derive_task_completion_transition :
    TaskType
    → (is_done : Bool) → (completed_at : Option ℕ) → (now : ℕ) → Result ValidationError Transition
unfolding normalize_task_progress_for_type progress_from
derive_task_completion_transition type d completed_at now = do
  let status : TaskStatus = if d then done else in_progress
  let percent : Number = if d then int (pos 100) else int (pos 0)
  progress_percent ← normalize_task_progress_for_type type percent status true
  ok (record {
    status = status;
    progress_percent = progress_percent;
    completed_at = if d then some (or_default completed_at now) else none;
    action = if d then completed else reopened;
  })

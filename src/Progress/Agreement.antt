-- ===== src/Progress/Agreement.antt =====
-- How the progress rules fit together.
use atlaspm.Base.{
  ℕ, ◌≤◌, ◌≡◌, ◌≢◌, refl, inl, inr, ◌⊎◌, ◌↔◌, Bool, Option, none, some, arith, if◌then◌else◌, ok,
  or_default,
}
use atlaspm.Base.Int.{pos, negsuc}
use atlaspm.Base.Number.{Number, int, non_integer}
use atlaspm.Store.{TaskStatus, in_progress, done, TaskType, milestone, task, approval}
use atlaspm.Progress.{
  progress_from, normalize_task_progress_for_type, apply_task_progress_automation, Transition,
  completed, reopened, derive_task_completion_transition,
}

-- A value passes as progress exactly if it is a whole number from 0 to 100, and passes unchanged.
pub progress_from_iff :
    (x : Number) (n : ℕ) → (progress_from x ≡ ok n) ↔ ((x ≡ int (pos n)) × (n ≤ 100))
unfolding progress_from
progress_from_iff (int (pos m)) n = (λ e. ground arith, λ h. ground arith)
progress_from_iff (int (negsuc m)) n = (λ e. ground arith, λ h. ground arith)
progress_from_iff non_integer n = (λ e. ground arith, λ h. ground arith)

-- Normalised progress stays in range, is 0 or 100 for a milestone, and is settled: normalising it
-- again, with the same type, status and override, changes nothing.
normalize-settled :
    (type : TaskType) (x : Number) (status : TaskStatus) (override : Bool) (n : ℕ)
    → normalize_task_progress_for_type type x status override ≡ ok n
    → (n ≤ 100)
      × ((type ≢ milestone) ⊎ (n ≡ 0) ⊎ (n ≡ 100))
      × (normalize_task_progress_for_type type (int (pos n)) status override ≡ ok n)
unfolding normalize_task_progress_for_type progress_from
normalize-settled type (int (pos m)) status override n e =
    (ground arith, either type refl, ground arith)
  where
    either : (kind : TaskType) → type ≡ kind → (type ≢ milestone) ⊎ (n ≡ 0) ⊎ (n ≡ 100)
    either task k = inl (λ p. cc (k, p))
    either approval k = inl (λ p. cc (k, p))
    either milestone k = inr (ground arith)
normalize-settled type (int (negsuc m)) status override n e = absurd (cc e)
normalize-settled type non_integer status override n e = absurd (cc e)

-- the transition that completing or reopening comes to, for every type of task
abbrev pub transition : (d : Bool) → (completed_at : Option ℕ) → (now : ℕ) → Transition
transition d completed_at now = record {
  status = if d then done else in_progress;
  progress_percent = if d then 100 else 0;
  completed_at = if d then some (or_default completed_at now) else none;
  action = if d then completed else reopened;
}

pub derive-transition :
    (type : TaskType) (d : Bool) (completed_at : Option ℕ) (now : ℕ)
    → derive_task_completion_transition type d completed_at now ≡ ok (transition d completed_at now)
unfolding derive_task_completion_transition normalize_task_progress_for_type progress_from
derive-transition type d completed_at now = ground arith

-- Completing or reopening a task never fails, and leaves nothing for the automation to change: it
-- takes the new progress, status and time to the same status and time, at any later moment.
pub completion-settled :
    (type : TaskType) (d : Bool) (completed_at : Option ℕ) (now later : ℕ)
    → (t : Transition) × (derive_task_completion_transition type d completed_at now ≡ ok t)
      × (apply_task_progress_automation t.status (int (pos t.progress_percent)) t.completed_at later
          ≡ ok (record { status = t.status; completed_at = t.completed_at }))
unfolding apply_task_progress_automation progress_from
completion-settled type d completed_at now later =
    (transition d completed_at now, derive-transition type d completed_at now, ground arith)

-- ===== src/Progress/Examples.antt =====
-- The theorems on progress at concrete tasks.
use atlaspm.Base.{◌≡◌, true, none, ok}
use atlaspm.Base.Int.{pos}
use atlaspm.Base.Number.{int}
use atlaspm.Store.{milestone}
use atlaspm.Progress.{Transition, apply_task_progress_automation, derive_task_completion_transition}
use atlaspm.Progress.Agreement.{completion-settled}

completion-settled_example :
    (t : Transition) × (derive_task_completion_transition milestone true none 70 ≡ ok t)
    × (apply_task_progress_automation t.status (int (pos t.progress_percent)) t.completed_at 90
        ≡ ok (record { status = t.status; completed_at = t.completed_at }))
completion-settled_example = completion-settled milestone true none 70 90

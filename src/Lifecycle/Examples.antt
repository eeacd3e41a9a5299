-- ===== src/Lifecycle/Examples.antt =====
-- The theorems at a parent task with one subtask, open or done.
use atlaspm.Base.{
  ℕ, ◌≡◌, ◌≢◌, ◌↔◌, ◌⊎◌, inl, inr, refl, true, false, Option, none, some, List, [], ◌∷◌, mem, ok,
  err,
}
use atlaspm.Store.{TaskRow, TaskStatus, todo, done, task}
use atlaspm.Progress.{completed, derive_task_completion_transition}
use atlaspm.Progress.Agreement.{transition}
use atlaspm.Lifecycle.{
  LifecycleResult, apply_transition, task_not_found, collect_descendant_ids, save_lifecycle_state,
  complete_task_lifecycle, version_conflict, incomplete_subtasks, collect,
  count_incomplete_descendants, check_subtasks,
}
use atlaspm.Lifecycle.Descendants.{Below}
use atlaspm.Lifecycle.Descendants.Loop.{collect_descendant_ids_iff}
use atlaspm.Lifecycle.Saved.{IsLiveRow, Written, WrittenRows, save_lifecycle_state_lem}
use atlaspm.Lifecycle.Completion.{
  Completes, complete_task_lifecycle-Completes, complete_twice, complete_task_lifecycle-succeeds,
}

abbrev row : ℕ → Option ℕ → TaskStatus → ℕ → TaskRow
row id parent status version = record {
  id = id;
  project_id = 1;
  section_id = 2;
  parent_id = parent;
  type = task;
  status = status;
  progress_percent = 0;
  completed_at = none;
  deleted_at = none;
  version = version;
}

abbrev open_family : List TaskRow
open_family = row 10 none todo 4 ∷ row 11 (some 10) todo 1 ∷ []

abbrev closed_family : List TaskRow
closed_family = row 10 none todo 4 ∷ row 11 (some 10) done 1 ∷ []

abbrev finished : TaskRow
finished = apply_transition (transition true none 500) (row 10 none todo 4)

abbrev finished_family : List TaskRow
finished_family = finished ∷ row 11 (some 10) done 1 ∷ []

abbrev outcome : LifecycleResult
outcome = record { previous = row 10 none todo 4; updated = finished; action = completed }

open_is_refused :
    complete_task_lifecycle open_family 10 true 4 false 500 ≡ err (incomplete_subtasks 1)
unfolding complete_task_lifecycle check_subtasks count_incomplete_descendants collect_descendant_ids
    collect
open_is_refused = refl

closed_completes :
    complete_task_lifecycle closed_family 10 true 4 false 500 ≡ ok (outcome, finished_family)
unfolding complete_task_lifecycle check_subtasks count_incomplete_descendants collect_descendant_ids
    collect save_lifecycle_state derive_task_completion_transition
closed_completes = refl

collect_descendant_ids_iff_example :
    (result : List ℕ) × (collect_descendant_ids open_family 10 ≡ some result)
    × ((x : ℕ) → (mem x result ≡ true) ↔ (Below open_family 10 x × (x ≢ 10)))
collect_descendant_ids_iff_example = collect_descendant_ids_iff open_family 10

save_lifecycle_state_lem_example :
    let x = transition true none 500 in
    (((t : TaskRow) → ¬ IsLiveRow open_family 10 t)
      × (save_lifecycle_state open_family 10 3 x ≡ err task_not_found))
    ⊎ ((t : TaskRow) × IsLiveRow open_family 10 t
        × (((t.version ≢ 3) × (save_lifecycle_state open_family 10 3 x ≡ err version_conflict))
            ⊎ ((t.version ≡ 3)
                × (u : TaskRow) × (rows' : List TaskRow) × (save_lifecycle_state open_family 10 3 x
                    ≡ ok (u, rows'))
                × Written x t u
                × WrittenRows 10 3 x open_family rows')))
save_lifecycle_state_lem_example =
    save_lifecycle_state_lem open_family 10 3 (transition true none 500) (refl, (refl, tt))

complete_task_lifecycle-Completes_example :
    Completes closed_family 10 true 4 false 500 outcome finished_family
complete_task_lifecycle-Completes_example =
    complete_task_lifecycle-Completes closed_family 10 true 4 false 500 outcome finished_family
      (refl, (refl, tt)) closed_completes

complete_twice_example :
    complete_task_lifecycle finished_family 10 false 4 true 600 ≡ err version_conflict
complete_twice_example =
    complete_twice closed_family finished_family 10 4 true false false true 500 600 outcome
      (refl, (refl, tt)) closed_completes

complete_task_lifecycle-succeeds_example :
    (r : LifecycleResult) × (rows' : List TaskRow) × (complete_task_lifecycle open_family 10 true 4
        true 500
      ≡ ok (r, rows'))
complete_task_lifecycle-succeeds_example =
    complete_task_lifecycle-succeeds open_family 10 true true 500 (row 10 none todo 4)
      (refl, (refl, tt)) refl (inr (inl refl))

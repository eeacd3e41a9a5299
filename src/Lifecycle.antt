-- ===== src/Lifecycle.antt =====
-- Completing and reopening a task: completeTaskLifecycle (packages/domain/src/services/
-- complete-task-lifecycle.ts) over its repository PrismaTaskLifecycleRepository
-- (apps/core-api/src/tasks/task-lifecycle-prisma.adapter.ts), in one transaction on the task table.
pub mod Descendants
pub mod Saving
pub mod Saved
pub mod Completion
pub mod Examples
use atlaspm.Base.{
  ℕ, zero, suc, ◌+◌, ◌==◌, ltb, Bool, true, false, not, ◌&&◌, Option, none, some, List, [], ◌∷◌,
  ◌++◌, map, if◌then◌else◌, select, find, count, update_where, mem, length, Result, ok, err, ◌>>=◌,
  ◌>>◌, refuse, or_fail,
}
use atlaspm.Store.{TaskRow, TaskStatus, TaskType, is_done, is_none, is_active, find_active}
use atlaspm.Progress.{
  ValidationError, Transition, CompletionAction, derive_task_completion_transition,
}

-- the errors of the use case and its repository; `out_of_fuel` is none of the source's
pub data LifecycleError : Type 0 where
  task_not_found version_conflict out_of_fuel : LifecycleError
  incomplete_subtasks : (open_subtask_count : ℕ) → LifecycleError
  invalid : ValidationError → LifecycleError

abbrev pub in_frontier : List ℕ → Option ℕ → Bool
in_frontier frontier none = false
in_frontier frontier (some p) = mem p frontier

-- `task.findMany({ where: { parentId: { in: frontier }, deletedAt: null }, select: { id } })`
abbrev pub children : List TaskRow → List ℕ → List ℕ
children rows frontier =
    map (λ t. t.id) (select (λ t. in_frontier frontier t.parent_id && is_none t.deleted_at) rows)

-- the `while` loop of collectDescendantIds; `none` is fuel run out
pub collect : List TaskRow → ℕ → (visited frontier found : List ℕ) → Option (List ℕ)
collect rows zero visited frontier found = none
collect rows (suc fuel) visited [] found = some found
collect rows (suc fuel) visited (v ∷ vs) found =
    let next = select (λ c. not (mem c visited)) (children rows (v ∷ vs)) in
    collect rows fuel (next ++ visited) next (found ++ next)

-- collectDescendantIds. A round with a frontier visits a new row, so there are at most as many
-- rounds as rows and two more (`collect_descendant_ids_iff` in Descendants/Loop).
pub collect_descendant_ids : List TaskRow → ℕ → Option (List ℕ)
collect_descendant_ids rows id = collect rows (suc (suc (length rows))) (id ∷ []) (id ∷ []) []

-- `task.count({ where: { id: { in: ids }, deletedAt: null, status: { not: DONE } } })`
abbrev pub is_open : List ℕ → TaskRow → Bool
is_open ids t = mem t.id ids && (is_none t.deleted_at && not (is_done t.status))

-- `if (!descendantIds.length) return 0;` and the count
abbrev pub count_open : List ℕ → List TaskRow → ℕ
count_open [] rows = 0
count_open (i ∷ is) rows = count (is_open (i ∷ is)) rows

-- countIncompleteDescendants
pub count_incomplete_descendants : List TaskRow → ℕ → Option ℕ
count_incomplete_descendants rows id = elim (collect_descendant_ids rows id) [
  | none ↦ none
  | some ids ↦ some (count_open ids rows)
]

-- `where: { id, deletedAt: null, version: expectedVersion }`
abbrev pub is_current : ℕ → ℕ → TaskRow → Bool
is_current id expected t = is_active id t && t.version == expected

abbrev pub apply_transition : Transition → TaskRow → TaskRow
apply_transition x t = record t {
  status = x.status;
  progress_percent = x.progress_percent;
  completed_at = x.completed_at;
  version = t.version + 1;
}

-- saveLifecycleState
pub save_lifecycle_state :
    List TaskRow
    → (id expected_version : ℕ) → Transition
    → Result LifecycleError (TaskRow × List TaskRow)
save_lifecycle_state rows id expected x =
    if count (is_current id expected) rows == 1
    then (let rows' = update_where (is_current id expected) (apply_transition x) rows in
        elim (find_active id rows') [ none ↦ err task_not_found | some t ↦ ok (t, rows') ])
    else elim (find_active id rows) [ none ↦ err task_not_found | some _ ↦ err version_conflict ]

pub record LifecycleResult : Type 0 where
  pub previous : TaskRow
  pub updated : TaskRow
  pub action : CompletionAction

abbrev pub lift : Result ValidationError Transition → Result LifecycleError Transition
lift (ok x) = ok x
lift (err e) = err (invalid e)

-- `if (input.done && !input.force) { … }`
pub check_subtasks : List TaskRow → (id : ℕ) → (d force : Bool) → Result LifecycleError (Unit {0})
check_subtasks rows id d force =
    if d && not force
    then (do
      n ← or_fail (count_incomplete_descendants rows id) out_of_fuel
      refuse (ltb 0 n) (incomplete_subtasks n))
    else ok tt

-- completeTaskLifecycle at the time `now`
pub complete_task_lifecycle :
    List TaskRow
    → (id : ℕ) → (d : Bool) → (expected_version : ℕ) → (force : Bool) → (now : ℕ)
    → Result LifecycleError (LifecycleResult × List TaskRow)
complete_task_lifecycle rows id d expected force now = do
  t ← or_fail (find_active id rows) task_not_found
  refuse (not (t.version == expected)) version_conflict
  check_subtasks rows t.id d force
  x ← lift (derive_task_completion_transition t.type d t.completed_at now)
  saved ← save_lifecycle_state rows t.id t.version x
  ok (record { previous = t; updated = saved.0; action = x.action }, saved.1)

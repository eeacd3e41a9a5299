-- ===== src/Subtasks.antt =====
-- The readings of the task hierarchy in apps/core-api/src/tasks/subtask.service.ts: getSubtasks,
-- getSubtaskTree, getRootTask and getBreadcrumbPath.
-- `position` is the column of that name, which the shared task row leaves out. The two loops that climb
-- to a root run on fuel, and `none` stands for fuel that is used up: where parents form a circle the
-- code does not end.
pub mod Children
pub mod Levels
pub mod Climb
pub mod Examples
use atlaspm.Base.{
  ℕ, zero, suc, ◌+◌, ◌-◌, ◌==◌, leb, Bool, true, false, ◌&&◌, Option, none, some, List, [], ◌∷◌,
  ◌++◌, if◌then◌else◌, find, select,
}
use atlaspm.Store.{TaskRow, is_none, has_id, find_active}

-- `orderBy: { position: 'asc' }`, which leaves tasks of one position as they come
abbrev pub insert_by : (TaskRow → ℕ) → TaskRow → List TaskRow → List TaskRow
insert_by position t [] = t ∷ []
insert_by position t (x ∷ xs) =
    if leb (position t) (position x) then t ∷ x ∷ xs else x ∷ insert_by position t xs

abbrev pub sort_by : (TaskRow → ℕ) → List TaskRow → List TaskRow
sort_by position [] = []
sort_by position (x ∷ xs) = insert_by position x (sort_by position xs)

-- getSubtasks
unfoldable pub get_subtasks : (TaskRow → ℕ) → List TaskRow → (parent_id : ℕ) → List TaskRow
get_subtasks position rows parent_id =
    sort_by position (select (λ t. has_id parent_id t.parent_id && is_none t.deleted_at) rows)

-- SubtaskTreeNode, and a list of them
mutual
  pub data Tree : Type 0 where
    node : TaskRow → (depth : ℕ) → Forest → Tree

  pub data Forest : Type 0 where
    leaf : Forest
    grow : Tree → Forest → Forest

-- the loop over children in buildTree
abbrev pub nodes : (build : ℕ → Forest) → (depth : ℕ) → List TaskRow → Forest
nodes build depth [] = leaf
nodes build depth (t ∷ ts) = grow (node t depth (build t.id)) (nodes build depth ts)

-- buildTree, with the levels that are left until currentDepth passes maxDepth
unfoldable pub build_tree : (ℕ → List TaskRow) → (left depth : ℕ) → (parent_id : ℕ) → Forest
build_tree subtasks zero depth parent_id = leaf
build_tree subtasks (suc left) depth parent_id =
    nodes (build_tree subtasks left (suc depth)) depth (subtasks parent_id)

-- getSubtaskTree
unfoldable pub get_subtask_tree : (TaskRow → ℕ) → List TaskRow → (task_id max_depth : ℕ) → Forest
get_subtask_tree position rows task_id max_depth =
    build_tree (get_subtasks position rows) max_depth 1 task_id

-- getRootTask: `some none` is its `null`
unfoldable pub get_root_task : (fuel : ℕ) → List TaskRow → ℕ → Option (Option TaskRow)
get_root_task zero rows id = none
get_root_task (suc fuel) rows id = elim (find_active id rows) [
  | none ↦ some none
  | some t ↦ elim t.parent_id [ none ↦ some (some t) | some p ↦ get_root_task fuel rows p ]
]

-- the loop of getBreadcrumbPath
unfoldable pub climb : (fuel : ℕ) → List TaskRow → ℕ → List TaskRow → Option (List TaskRow)
climb zero rows id path = none
climb (suc fuel) rows id path = elim (find_active id rows) [
  | none ↦ some path
  | some t ↦ elim t.parent_id [ none ↦ some (t ∷ path) | some p ↦ climb fuel rows p (t ∷ path) ]
]

-- getBreadcrumbPath
unfoldable pub get_breadcrumb_path : (fuel : ℕ) → List TaskRow → ℕ → Option (List TaskRow)
get_breadcrumb_path fuel rows id = climb fuel rows id []

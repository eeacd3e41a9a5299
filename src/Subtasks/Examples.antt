-- ===== src/Subtasks/Examples.antt =====
-- Subtasks: tests and runs on four tasks.
use atlaspm.Base.{ℕ, ◌<◌, ◌≤◌, ◌⊎◌, ◌-◌, ◌≡◌, refl, Option, none, some, List, [], ◌∷◌}
use atlaspm.Store.{TaskRow, task, todo}
use atlaspm.Subtasks.{
  get_subtasks, build_tree, get_subtask_tree, get_root_task, climb, get_breadcrumb_path,
}
use atlaspm.Subtasks.Levels.{at_depth, at_depth_of, IsLevel, get_subtask_tree_lem}
use atlaspm.Subtasks.Climb.{root_after, get_root_task-get_breadcrumb_path}

abbrev row : ℕ → Option ℕ → TaskRow
row id parent = record {
  id = id;
  project_id = 7;
  section_id = 2;
  parent_id = parent;
  type = task;
  status = todo;
  progress_percent = 0;
  completed_at = none;
  deleted_at = none;
  version = 1;
}

-- 1 has the children 3 and 2, in that order, and 2 has the child 4
abbrev four : List TaskRow
four = row 1 none ∷ row 2 (some 1) ∷ row 3 (some 1) ∷ row 4 (some 2) ∷ []

abbrev backwards : TaskRow → ℕ
backwards t = 10 - t.id

first_level :
    at_depth 1 (get_subtask_tree backwards four 1 5) ≡ row 3 (some 1) ∷ row 2 (some 1) ∷ []
unfolding get_subtask_tree build_tree get_subtasks at_depth at_depth_of
first_level = refl

cut_off : at_depth 2 (get_subtask_tree backwards four 1 1) ≡ []
unfolding get_subtask_tree build_tree get_subtasks at_depth at_depth_of
cut_off = refl

path_to_four :
    get_breadcrumb_path 5 four 4 ≡ some (row 1 none ∷ row 2 (some 1) ∷ row 4 (some 2) ∷ [])
unfolding get_breadcrumb_path climb
path_to_four = refl

get_subtask_tree_lem_example :
    ((1 < 5) × IsLevel backwards four 1 1 (at_depth 2 (get_subtask_tree backwards four 1 5)))
    ⊎ ((5 ≤ 1) × (at_depth 2 (get_subtask_tree backwards four 1 5) ≡ []))
get_subtask_tree_lem_example = get_subtask_tree_lem backwards four 1 5 1

get_root_task-get_breadcrumb_path_example :
    get_root_task 5 four 4 ≡ root_after (get_breadcrumb_path 5 four 4)
get_root_task-get_breadcrumb_path_example = get_root_task-get_breadcrumb_path 5 four 4

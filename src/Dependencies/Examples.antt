-- ===== src/Dependencies/Examples.antt =====
-- The theorems at three tasks of one project: 1 depends on 2, and 2 on 3.
use atlaspm.Base.{ℕ, ◌≡◌, ◌↔◌, ◌⊎◌, refl, Bool, true, none, some, List, [], ◌∷◌, arith, ok, err}
use atlaspm.Store.{TaskRow, todo, task}
use atlaspm.Dependencies.Hierarchy.{
  validate_hierarchy_depth, check_depth, too_deep, Above, validate_hierarchy_depth_iff,
}
use atlaspm.Dependencies.{
  Tables, blocks, would_create_cycle, from_dependencies, for_dependencies, has_cycle,
  add_dependency, remove_dependency, create_dependency, append_audit_outbox,
  dependency_cycle_detected,
}
use atlaspm.Dependencies.Walk.{Walk, IsAcyclic}
use atlaspm.Dependencies.Answers.{would_create_cycle-total, would_create_cycle_iff}
use atlaspm.Dependencies.Adding.{after_adding, add_dependency-IsAcyclic, add_dependency_complete}
use atlaspm.Dependencies.History.{IsSound, start, add, remove, Reached-IsSound, add-remove}

abbrev task_row : ℕ → TaskRow
task_row id = record {
  id = id;
  project_id = 7;
  section_id = 8;
  parent_id = none;
  type = task;
  status = todo;
  progress_percent = 0;
  completed_at = none;
  deleted_at = none;
  version = 1;
}

abbrev tasks : List TaskRow
tasks = task_row 1 ∷ task_row 2 ∷ task_row 3 ∷ []

abbrev empty_tables : Tables
empty_tables = record { tasks = tasks; dependencies = []; audit = []; outbox = [] }

abbrev one_row : Tables
one_row = after_adding empty_tables 1 2 blocks "ann" none 100 5

abbrev two_rows : Tables
two_rows = after_adding one_row 2 3 blocks "ann" none 101 6

first_add : add_dependency empty_tables 1 2 blocks "ann" none 100 5 ≡ ok one_row
unfolding add_dependency would_create_cycle from_dependencies has_cycle for_dependencies
    create_dependency append_audit_outbox
first_add = refl

second_add : add_dependency one_row 2 3 blocks "ann" none 101 6 ≡ ok two_rows
unfolding add_dependency would_create_cycle from_dependencies has_cycle for_dependencies
    create_dependency append_audit_outbox
second_add = refl

closing_is_refused :
    add_dependency two_rows 3 1 blocks "ann" none 102 7 ≡ err dependency_cycle_detected
unfolding add_dependency would_create_cycle from_dependencies has_cycle for_dependencies
    create_dependency append_audit_outbox
closing_is_refused = refl

empty-IsAcyclic : IsAcyclic []
unfolding IsAcyclic
empty-IsAcyclic u v e w = cc e

Reached-IsSound_example : IsSound (remove_dependency two_rows 1 2 "bob" none)
Reached-IsSound_example = Reached-IsSound (
    remove 1 2 "bob" none (
      add 2 3 blocks "ann" none 101 6 (add 1 2 blocks "ann" none 100 5 (start tasks) first_add)
        second_add))

two_rows-IsAcyclic : IsAcyclic two_rows.dependencies
two_rows-IsAcyclic =
    add_dependency-IsAcyclic one_row two_rows 2 3 blocks "ann" none 101 6
      (add_dependency-IsAcyclic empty_tables one_row 1 2 blocks "ann" none 100 5 empty-IsAcyclic
        first_add)
      second_add

would_create_cycle-total_example :
    (b : Bool) × (would_create_cycle two_rows.dependencies 3 1 ≡ some b)
would_create_cycle-total_example = would_create_cycle-total two_rows.dependencies 3 1

would_create_cycle_iff_example :
    (would_create_cycle two_rows.dependencies 3 1 ≡ some true) ↔ Walk two_rows.dependencies 1 3
would_create_cycle_iff_example = would_create_cycle_iff two_rows.dependencies 3 1 two_rows-IsAcyclic

add_dependency_complete_example :
    ((¬ Walk two_rows.dependencies 1 3)
      × (add_dependency two_rows 3 1 blocks "ann" none 102 7
          ≡ ok (after_adding two_rows 3 1 blocks "ann" none 102 7)))
    ⊎ (Walk two_rows.dependencies 1 3
        × (add_dependency two_rows 3 1 blocks "ann" none 102 7 ≡ err dependency_cycle_detected))
unfolding append_audit_outbox
add_dependency_complete_example =
    add_dependency_complete two_rows 3 1 blocks "ann" none 102 7 (task_row 3) (task_row 1)
      two_rows-IsAcyclic (omega arith) refl refl refl refl

add-remove_example : (remove_dependency two_rows 2 3 "bob" none).dependencies ≡ one_row.dependencies
add-remove_example = add-remove one_row two_rows 2 3 blocks "ann" "bob" none none 101 6 second_add

-- 5 below 4 below 3
abbrev line : List TaskRow
line =
    task_row 3
    ∷ record (task_row 4) { parent_id = some 3 }
    ∷ record (task_row 5) { parent_id = some 4 }
    ∷ []

validate_hierarchy_depth_iff_example :
    (validate_hierarchy_depth line 5 5 ≡ ok tt) ↔ (¬ Above line 5 5)
validate_hierarchy_depth_iff_example =
    validate_hierarchy_depth_iff line 5 5 (refl, (refl, (refl, tt)))

line_is_allowed : validate_hierarchy_depth line 5 5 ≡ ok tt
unfolding validate_hierarchy_depth check_depth
line_is_allowed = refl

line_is_too_long : validate_hierarchy_depth line 5 2 ≡ err too_deep
unfolding validate_hierarchy_depth check_depth
line_is_too_long = refl

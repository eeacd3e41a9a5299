-- ===== src/Dependencies.antt =====
-- Task dependencies: apps/core-api/src/tasks/cycle-detection.service.ts (wouldCreateCycle) and the
-- dependency operations of subtask.service.ts, over the table of dependency rows.
-- A transaction is one call: it returns the new tables, or an error and no tables.
pub mod Walk
pub mod Search
pub mod Answers
pub mod Adding
pub mod History
pub mod Queries
pub mod Hierarchy
pub mod Examples
use Prim.Native.String.{String}
use atlaspm.Base.{
  ℕ, zero, suc, ◌==◌, Bool, true, false, not, ◌&&◌, ◌||◌, Option, none, some, List, [], ◌∷◌, ◌++◌,
  map, if◌then◌else◌, select, find, any, mem, add, delete, length, Result, ok, err, ◌>>=◌, ◌>>◌,
  refuse, or_fail, or_default,
}
use atlaspm.Store.{TaskRow, TaskStatus, is_done, is_some, is_none, find_active}

pub data DependencyType : Type 0 where
  blocks blocked_by relates_to : DependencyType

pub record Dependency : Type 0 where
  pub id : ℕ
  pub task_id : ℕ
  pub depends_on_id : ℕ
  pub type : DependencyType
  pub created_at : ℕ

-- `taskDependency.findMany({ where: { taskId }, select: { dependsOnId: true } })`
abbrev pub depends_on : List Dependency → ℕ → List ℕ
depends_on rows u = map (λ d. d.depends_on_id) (select (λ d. d.task_id == u) rows)

-- the two sets of the search
pub record Sets : Type 0 where
  pub visited : List ℕ
  pub recursion_stack : List ℕ

-- the loop over `dependencies` in `hasCycle`, with the recursive call as `visit`; `none` is fuel
-- run out
pub for_dependencies : (ℕ → Sets → Option (Bool × Sets)) → List ℕ → Sets → Option (Bool × Sets)
for_dependencies visit [] s = some (false, s)
for_dependencies visit (d ∷ ds) s = elim (mem d s.visited) [
  | false ↦ elim (visit d s) [
    | none ↦ none
    | some (found, s') ↦ elim found [
      | true ↦ some (true, s')
      | false ↦ for_dependencies visit ds s'
    ]
  ]
  | true ↦ elim (mem d s.recursion_stack) [
    | true ↦ some (true, s)
    | false ↦ for_dependencies visit ds s
  ]
]

-- `recursionStack.delete(currentId); return false`, after a loop that found nothing
abbrev pub leave : ℕ → Option (Bool × Sets) → Option (Bool × Sets)
leave u none = none
leave u (some (true, s)) = some (true, s)
leave u (some (false, s)) = some (false, record s { recursion_stack = delete u s.recursion_stack })

abbrev pub enter : ℕ → Sets → Sets
enter u s = record { visited = add u s.visited; recursion_stack = add u s.recursion_stack }

pub has_cycle : List Dependency → ℕ → ℕ → Sets → Option (Bool × Sets)
has_cycle rows zero u s = none
has_cycle rows (suc fuel) u s =
    leave u (for_dependencies (has_cycle rows fuel) (depends_on rows u) (enter u s))

-- the loop of `wouldCreateCycleWithTx` itself, which also tests `dep.dependsOnId === taskId`
pub from_dependencies : ℕ → (ℕ → Sets → Option (Bool × Sets)) → List ℕ → Sets → Option Bool
from_dependencies t visit [] s = some false
from_dependencies t visit (d ∷ ds) s = elim (d == t) [
  | true ↦ some true
  | false ↦ elim (mem d s.visited) [
    | false ↦ elim (visit d s) [
      | none ↦ none
      | some (found, s') ↦ elim found [ true ↦ some true | false ↦ from_dependencies t visit ds s' ]
    ]
    | true ↦ elim (mem d s.recursion_stack) [
      | true ↦ some true
      | false ↦ from_dependencies t visit ds s
    ]
  ]
]

-- Each visited id is the target of a row, so one unit of fuel for each row is enough
-- (`would_create_cycle-total` in Answers).
pub would_create_cycle : List Dependency → ℕ → ℕ → Option Bool
would_create_cycle rows task_id depends_on_id =
    if task_id == depends_on_id
    then some true
    else from_dependencies task_id (has_cycle rows (length rows)) (depends_on rows depends_on_id)
        (record { visited = task_id ∷ []; recursion_stack = task_id ∷ [] })

-- TASK_NOT_FOUND and the other codes of `addDependency`; `out_of_fuel` is no code of the source
pub data Error : Type 0 where
  task_not_found dependency_task_not_found cross_project_dependency : Error
  dependency_cycle_detected dependency_already_exists out_of_fuel : Error

pub data Action : Type 0 where
  dependency_created dependency_removed : Action

-- the JSON that an outbox event carries
pub data Payload : Type 0 where
  created : Dependency → Payload
  removed : (id task_id depends_on_id : ℕ) → DependencyType → Payload

pub record AuditEvent : Type 0 where
  pub actor : String
  pub entity_id : ℕ
  pub action : Action
  pub before : Option Dependency
  pub after : Option Dependency
  pub correlation_id : String

pub record OutboxEvent : Type 0 where
  pub type : Action
  pub payload : Payload
  pub correlation_id : String

pub record Tables : Type 0 where
  pub tasks : List TaskRow
  pub dependencies : List Dependency
  pub audit : List AuditEvent
  pub outbox : List OutboxEvent

-- appendAuditOutbox (apps/core-api/src/common/audit-outbox.service.ts)
pub append_audit_outbox :
    Tables
    → String
    → ℕ
    → Action
    → Option Dependency
    → Option Dependency
    → Option String
    → Payload
    → Tables
append_audit_outbox s actor entity_id action before after correlation payload = record s {
  audit =
      s.audit
      ++ record {
        actor = actor;
        entity_id = entity_id;
        action = action;
        before = before;
        after = after;
        correlation_id = or_default correlation "test-correlation-id";
      }
        ∷ [];
  outbox =
      s.outbox
      ++ record {
        type = action;
        payload = payload;
        correlation_id = or_default correlation "test-correlation-id";
      }
        ∷ [];
}

-- the unique key of a row, `taskId_dependsOnId`
abbrev pub is_between : ℕ → ℕ → Dependency → Bool
is_between t d row = (row.task_id == t) && (row.depends_on_id == d)

-- `taskDependency.create`: the unique index refuses a second row between two tasks (P2002). The
-- new row's id and time are the database's, and arrive as part of `row`.
pub create_dependency : List Dependency → Dependency → Result Error (List Dependency)
create_dependency rows row =
    if any (is_between row.task_id row.depends_on_id) rows
    then err dependency_already_exists
    else ok (rows ++ row ∷ [])

-- addDependency, where the database gives the new row the id `id` and the time `now`
pub add_dependency :
    Tables
    → (task_id depends_on_id : ℕ) → DependencyType
    → String
    → Option String
    → (id now : ℕ) → Result Error Tables
add_dependency s task_id depends_on_id type actor correlation id now = do
  refuse (task_id == depends_on_id) dependency_cycle_detected
  t ← or_fail (find_active task_id s.tasks) task_not_found
  d ← or_fail (find_active depends_on_id s.tasks) dependency_task_not_found
  refuse (not (t.project_id == d.project_id)) cross_project_dependency
  cycle ← or_fail (would_create_cycle s.dependencies task_id depends_on_id) out_of_fuel
  refuse cycle dependency_cycle_detected
  let row : Dependency = record {
    id = id;
    task_id = task_id;
    depends_on_id = depends_on_id;
    type = type;
    created_at = now;
  }
  rows ← create_dependency s.dependencies row
  ok (
      append_audit_outbox (record s { dependencies = rows }) actor id dependency_created none
        (some row) correlation (created row))

-- removeDependencyWithAudit
pub remove_dependency : Tables → (task_id depends_on_id : ℕ) → String → Option String → Tables
remove_dependency s task_id depends_on_id actor correlation =
    elim (find (is_between task_id depends_on_id) s.dependencies) [
      | none ↦ s
      | some row ↦
          append_audit_outbox
            (record s {
              dependencies = select (λ r. not (is_between task_id depends_on_id r)) s.dependencies;
            })
            actor row.id dependency_removed (some row) none correlation
            (removed row.id row.task_id row.depends_on_id row.type)
    ]

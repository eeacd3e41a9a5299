-- ===== src/Dependencies/Queries.antt =====
-- The questions about dependencies that apps/core-api/src/tasks/subtask.service.ts answers:
-- getDependencies, getDependents, isBlocked and getDependencyGraph.
use atlaspm.Base.{
  ℕ, ◌==◌, ltb, ◌≡◌, ◌∙◌, sym, ap, refl, inl, inr, Bool, true, false, not, ◌&&◌, ◌||◌, none, some,
  List, [], ◌∷◌, map, arith, if◌then◌else◌, select, any, mem, Bool-cases, ==→eq,
}
use atlaspm.Store.{TaskRow, TaskStatus, is_done, is_none, find_active}
use atlaspm.Dependencies.{Dependency, DependencyType, blocks, blocked_by, relates_to}

-- a row with the task that `include` joins to it, by its id and status
pub record DependencyInfo : Type 0 where
  pub row : Dependency
  pub joined_id : ℕ
  pub joined_status : TaskStatus

abbrev pub info : Dependency → TaskRow → DependencyInfo
info r t = record { row = r; joined_id = t.id; joined_status = t.status }

-- rows with their live task, which `end` names; a row without one is filtered out
unfoldable pub join_tasks : (Dependency → ℕ) → List TaskRow → List Dependency → List DependencyInfo
join_tasks end tasks [] = []
join_tasks end tasks (r ∷ rows) = elim (find_active (end r) tasks) [
  | none ↦ join_tasks end tasks rows
  | some t ↦ info r t ∷ join_tasks end tasks rows
]

-- `orderBy: { createdAt: 'desc' }`
abbrev pub insert_latest : DependencyInfo → List DependencyInfo → List DependencyInfo
insert_latest x [] = x ∷ []
insert_latest x (y ∷ ys) =
    if ltb x.row.created_at y.row.created_at then y ∷ insert_latest x ys else x ∷ y ∷ ys

abbrev pub latest_first : List DependencyInfo → List DependencyInfo
latest_first [] = []
latest_first (x ∷ xs) = insert_latest x (latest_first xs)

-- getDependencies
pub get_dependencies : List TaskRow → List Dependency → ℕ → List DependencyInfo
get_dependencies tasks rows task_id =
    latest_first (join_tasks (λ r. r.depends_on_id) tasks (select (λ r. r.task_id == task_id) rows))

-- getDependents
unfoldable pub get_dependents : List TaskRow → List Dependency → ℕ → List DependencyInfo
get_dependents tasks rows task_id =
    latest_first (join_tasks (λ r. r.task_id) tasks (select (λ r. r.depends_on_id == task_id) rows))

-- `type: { in: [BLOCKS, BLOCKED_BY] }`
abbrev pub is_blocking : DependencyType → Bool
is_blocking blocks = true
is_blocking blocked_by = true
is_blocking relates_to = false

-- isBlocked
pub is_blocked : List TaskRow → List Dependency → ℕ → Bool
is_blocked tasks rows task_id =
    any (λ i. not (is_done i.joined_status))
      (join_tasks (λ r. r.depends_on_id) tasks
        (select (λ r. (r.task_id == task_id) && is_blocking r.type) rows))

pub record Link : Type 0 where
  pub source : ℕ
  pub target : ℕ
  pub type : DependencyType

pub record DependencyGraph : Type 0 where
  pub nodes : List TaskRow
  pub links : List Link

-- getDependencyGraph
pub get_dependency_graph : List TaskRow → List Dependency → ℕ → DependencyGraph
get_dependency_graph tasks rows project_id =
    let nodes = select (λ t. (t.project_id == project_id) && is_none t.deleted_at) tasks in
    record {
      nodes = nodes;
      links =
          map (λ d. record { source = d.depends_on_id; target = d.task_id; type = d.type })
            (select (λ d. mem d.task_id (map (λ t. t.id) nodes)) rows);
    }

any-insert_latest :
    (p : DependencyInfo → Bool) (x : DependencyInfo) (xs : List DependencyInfo)
    → any p (insert_latest x xs) ≡ any p (x ∷ xs)
any-insert_latest p x [] = refl
any-insert_latest p x (y ∷ ys) = ground (arith, any-insert_latest p x ys)

any-latest_first :
    (p : DependencyInfo → Bool) (xs : List DependencyInfo) → any p (latest_first xs) ≡ any p xs
any-latest_first p [] = refl
any-latest_first p (x ∷ xs) =
    any-insert_latest p x (latest_first xs) ∙ ap (λ b. p x || b) (any-latest_first p xs)

blocked-rows :
    (tasks : List TaskRow) (rows : List Dependency) (t : ℕ)
    → any
        (λ i. not (is_done i.joined_status))
        (join_tasks
          (λ r. r.depends_on_id)
          tasks
          (select (λ r. (r.task_id == t) && is_blocking r.type) rows))
      ≡ any
          (λ i. is_blocking i.row.type && not (is_done i.joined_status))
          (join_tasks (λ r. r.depends_on_id) tasks (select (λ r. r.task_id == t) rows))
unfolding join_tasks
blocked-rows tasks [] t = refl
blocked-rows tasks (r ∷ rows) t = ground (arith, blocked-rows tasks rows t)

-- `isBlocked` answers true exactly if `getDependencies` lists a dependency of a blocking type whose
-- task is not DONE.
is_blocked-get_dependencies :
    (tasks : List TaskRow) (rows : List Dependency) (t : ℕ)
    → is_blocked tasks rows t
      ≡ any
          (λ i. is_blocking i.row.type && not (is_done i.joined_status))
          (get_dependencies tasks rows t)
unfolding is_blocked get_dependencies
is_blocked-get_dependencies tasks rows t =
    blocked-rows tasks rows t
    ∙ sym (
        any-latest_first (λ i. is_blocking i.row.type && not (is_done i.joined_status))
          (join_tasks (λ r. r.depends_on_id) tasks (select (λ r. r.task_id == t) rows)))

blocked-by_row :
    (tasks : List TaskRow) (rows : List Dependency) (d u : ℕ) (x : TaskRow)
    → find_active d tasks ≡ some x
    → is_done x.status ≡ false
    → any
        (λ i. (i.row.task_id == u) && is_blocking i.row.type)
        (join_tasks (λ r. r.task_id) tasks (select (λ r. r.depends_on_id == d) rows))
      ≡ true
    → any
        (λ i. not (is_done i.joined_status))
        (join_tasks
          (λ r. r.depends_on_id)
          tasks
          (select (λ r. (r.task_id == u) && is_blocking r.type) rows))
      ≡ true
unfolding join_tasks
blocked-by_row tasks [] d u x f s h = absurd (cc h)
blocked-by_row tasks (r ∷ rows) d u x f s h = elim (Bool-cases (r.depends_on_id == d)) [
  | inl on ↦
      let g : find_active r.depends_on_id tasks ≡ some x =
        ap (λ i. find_active i tasks) (==→eq r.depends_on_id d on) ∙ f in
      elim (Bool-cases ((r.task_id == u) && is_blocking r.type)) [
        | inl hit ↦ ground arith
        | inr miss ↦ ground (arith, blocked-by_row tasks rows d u x f s)
      ]
  | inr off ↦ ground (arith, blocked-by_row tasks rows d u x f s)
]

-- Where a live task is not DONE, `isBlocked` answers true for each task that `getDependents` lists
-- for it with a dependency of a blocking type.
get_dependents-is_blocked :
    (tasks : List TaskRow) (rows : List Dependency) (d u : ℕ) (x : TaskRow)
    → find_active d tasks ≡ some x
    → is_done x.status ≡ false
    → any (λ i. (i.row.task_id == u) && is_blocking i.row.type) (get_dependents tasks rows d) ≡ true
    → is_blocked tasks rows u ≡ true
unfolding get_dependents is_blocked
get_dependents-is_blocked tasks rows d u x f s h = blocked-by_row tasks rows d u x f s (
    sym (
      any-latest_first (λ i. (i.row.task_id == u) && is_blocking i.row.type)
        (join_tasks (λ r. r.task_id) tasks (select (λ r. r.depends_on_id == d) rows)))
    ∙ h)

-- ===== src/Closure.antt =====
-- getAllDependencies and getAllDependents of apps/core-api/src/tasks/cycle-detection.service.ts: what a
-- task depends on, and what depends on it, directly or through others.
-- The two are one search along different columns, which runs on fuel; `none` stands for fuel that is
-- used up.
pub mod Search
pub mod Reach
pub mod Examples
use atlaspm.Base.{
  ℕ, zero, suc, ◌+◌, ◌==◌, Bool, true, false, Option, none, some, List, [], ◌∷◌, ◌++◌, map, length,
  select, mem, add,
}
use atlaspm.Dependencies.{Dependency, depends_on}

-- `visited`, and the list that is answered
pub record Found : Type 0 where
  pub visited : List ℕ
  pub listed : List ℕ

infixl 5 ◌>>=◌
abbrev ◌>>=◌ {ℓ κ} : {A : Type ℓ} {B : Type κ} (first : Option A) (rest : A → Option B) → Option B
none >>= rest = none
some value >>= rest = rest value

abbrev pub enter : ℕ → Found → Found
enter id s = record s { visited = add id s.visited }

abbrev pub push : ℕ → Found → Found
push id s = record s { listed = s.listed ++ id ∷ [] }

-- the loop of visit
unfoldable pub visit_each : (ℕ → Found → Option Found) → List ℕ → Found → Option Found
visit_each visit [] s = some s
visit_each visit (d ∷ ds) s = elim (mem d s.visited) [
  | true ↦ visit_each visit ds s
  | false ↦ do after ← visit d (push d s); visit_each visit ds after
]

-- visit
unfoldable pub visit : (fuel : ℕ) → (ℕ → List ℕ) → ℕ → Found → Option Found
visit zero next id s = none
visit (suc fuel) next id s = elim (mem id s.visited) [
  | true ↦ some s
  | false ↦ visit_each (visit fuel next) (next id) (enter id s)
]

-- `taskDependency.findMany({ where: { dependsOnId }, select: { taskId: true } })`
abbrev pub dependents_of : List Dependency → ℕ → List ℕ
dependents_of rows u = map (λ d. d.task_id) (select (λ d. d.depends_on_id == u) rows)

abbrev pub closure : (fuel : ℕ) → (ℕ → List ℕ) → ℕ → Option (List ℕ)
closure fuel next id = do
  after ← visit fuel next id (record { visited = []; listed = [] })
  some after.listed

-- getAllDependencies
unfoldable pub get_all_dependencies : (fuel : ℕ) → List Dependency → ℕ → Option (List ℕ)
get_all_dependencies fuel rows = closure fuel (depends_on rows)

-- getAllDependents
unfoldable pub get_all_dependents : (fuel : ℕ) → List Dependency → ℕ → Option (List ℕ)
get_all_dependents fuel rows = closure fuel (dependents_of rows)

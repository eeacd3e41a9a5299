-- ===== src/Dependencies/History.antt =====
-- Any sequence of calls of addDependency and removeDependencyWithAudit, and what it keeps.
use atlaspm.Base.{
  any-append, any-select, find-append, select-append_last, ok, ℕ, ◌≡◌, ◌⊎◌, refl, Bool, true, false,
  not, List, [], ◌∷◌, ◌++◌, Option, inl, inr, arith, any, select, find, Option-cases,
}
use Prim.Native.String.{String}
use atlaspm.Store.{TaskRow}
use atlaspm.Dependencies.{
  Dependency, DependencyType, Tables, add_dependency, remove_dependency, is_between,
  append_audit_outbox,
}
use atlaspm.Dependencies.Walk.{Edge, Walk, here, step, IsAcyclic}
use atlaspm.Dependencies.Adding.{added, add_dependency-CanAdd, add_dependency-IsAcyclic}

-- no two rows between the same tasks in the same direction
abbrev pub IsUnique : List Dependency → Type 0
IsUnique [] = Unit {0}
IsUnique (r ∷ rows) = (any (is_between r.task_id r.depends_on_id) rows ≡ false) × IsUnique rows

-- The tables that a sequence of calls leads to, from tasks with no dependencies.
pub data Reached : Tables → Type 0 where
  start :
      (tasks : List TaskRow)
      → Reached (record { tasks = tasks; dependencies = []; audit = []; outbox = [] })
  add :
      {s s' : Tables} (t d : ℕ) (type : DependencyType) (actor : String)
      (correlation : Option String) (id now : ℕ)
      → Reached s
      → add_dependency s t d type actor correlation id now ≡ ok s'
      → Reached s'
  remove :
      {s : Tables} (t d : ℕ) (actor : String) (correlation : Option String)
      → Reached s
      → Reached (remove_dependency s t d actor correlation)

IsUnique-append :
    (rows : List Dependency) (row : Dependency)
    → IsUnique rows
    → any (is_between row.task_id row.depends_on_id) rows ≡ false
    → IsUnique (rows ++ row ∷ [])
IsUnique-append [] row u h = (refl, tt)
IsUnique-append (r ∷ rows) row u h = (
  ground (arith, any-append (is_between r.task_id r.depends_on_id) rows (row ∷ [])),
  IsUnique-append rows row u.1 (ground arith),
)

IsUnique-select :
    (q : Dependency → Bool) (rows : List Dependency) → IsUnique rows → IsUnique (select q rows)
IsUnique-select q [] u = tt
IsUnique-select q (r ∷ rows) u =
    ground
      (arith, any-select (is_between r.task_id r.depends_on_id) q rows, IsUnique-select q rows u.1)

Edge-select :
    (q : Dependency → Bool) (rows : List Dependency) (u v : ℕ)
    → Edge (select q rows) u v
    → Edge rows u v
Edge-select q [] u v e = e
Edge-select q (r ∷ rows) u v e = ground (arith, Edge-select q rows u v)

Walk-select :
    (q : Dependency → Bool) (rows : List Dependency) {u v : ℕ}
    → Walk (select q rows) u v
    → Walk rows u v
Walk-select q rows here = here
Walk-select q rows (step {u} {v} w e) = step (Walk-select q rows w) (Edge-select q rows u v e)

IsAcyclic-select :
    (q : Dependency → Bool) (rows : List Dependency) → IsAcyclic rows → IsAcyclic (select q rows)
unfolding IsAcyclic
IsAcyclic-select q rows acyclic u v e w =
    acyclic u v (Edge-select q rows u v e) (Walk-select q rows w)

-- the rows after a removal, found or not
removed_rows :
    (s : Tables) (t d : ℕ) (actor : String) (correlation : Option String)
    → ((remove_dependency s t d actor correlation).dependencies
        ≡ select (λ r. not (is_between t d r)) s.dependencies)
      ⊎ ((remove_dependency s t d actor correlation).dependencies ≡ s.dependencies)
unfolding remove_dependency append_audit_outbox
removed_rows s t d actor correlation = elim (Option-cases (find (is_between t d) s.dependencies)) [
  | inl e ↦ inr (rw (e, remove_dependency) refl)
  | inr (row, e) ↦ inl (rw (e, remove_dependency) refl)
]

-- what every sequence of calls keeps
pub record IsSound (s : Tables) : Type 0 where
  pub acyclic : IsAcyclic s.dependencies
  pub unique : IsUnique s.dependencies

add-IsUnique :
    (s s' : Tables) (t d : ℕ) (type : DependencyType) (actor : String) (correlation : Option String)
    (id now : ℕ)
    → IsUnique s.dependencies
    → add_dependency s t d type actor correlation id now ≡ ok s'
    → IsUnique s'.dependencies
unfolding append_audit_outbox
add-IsUnique s s' t d type actor correlation id now u e =
    let (c, p) = add_dependency-CanAdd s t d type actor correlation id now s' e in
    rw p (IsUnique-append s.dependencies (added s t d type actor correlation id now) u c.is_new)

remove-IsSound :
    (s : Tables) (t d : ℕ) (actor : String) (correlation : Option String)
    → IsSound s
    → IsSound (remove_dependency s t d actor correlation)
remove-IsSound s t d actor correlation h = elim (removed_rows s t d actor correlation) [
  | inl e ↦ record {
    acyclic = rw e (IsAcyclic-select (λ r. not (is_between t d r)) s.dependencies h.acyclic);
    unique = rw e (IsUnique-select (λ r. not (is_between t d r)) s.dependencies h.unique);
  }
  | inr e ↦ record { acyclic = rw e h.acyclic; unique = rw e h.unique }
]

-- From tasks without dependencies, whatever dependencies are added and removed, in whatever order,
-- no task comes to depend on itself, directly or through others, and no two rows stand between the
-- same two tasks.
pub Reached-IsSound : {s : Tables} → Reached s → IsSound s
unfolding IsAcyclic
Reached-IsSound (start tasks) = record { acyclic = λ u v e w. absurd (cc e); unique = tt }
Reached-IsSound (add {s} {s'} t d type actor correlation id now r e) =
    let h = Reached-IsSound r in
    record {
      acyclic = add_dependency-IsAcyclic s s' t d type actor correlation id now h.acyclic e;
      unique = add-IsUnique s s' t d type actor correlation id now h.unique e;
    }
Reached-IsSound (remove {s} t d actor correlation r) =
    remove-IsSound s t d actor correlation (Reached-IsSound r)

-- Removing a dependency that `addDependency` has just added restores the rows, in their order.
pub add-remove :
    (s s' : Tables) (t d : ℕ) (type : DependencyType) (actor remover : String)
    (correlation c2 : Option String) (id now : ℕ)
    → add_dependency s t d type actor correlation id now ≡ ok s'
    → (remove_dependency s' t d remover c2).dependencies ≡ s.dependencies
unfolding remove_dependency append_audit_outbox
add-remove s s' t d type actor remover correlation c2 id now e =
    let (c, p) = add_dependency-CanAdd s t d type actor correlation id now s' e in
    let row = added s t d type actor correlation id now in
    let same : is_between t d row ≡ true = ground arith in
    rw p (
      rw (find-append (is_between t d) s.dependencies row c.is_new same, remove_dependency)
        (select-append_last (is_between t d) s.dependencies row c.is_new same))

-- ===== src/Dependencies/Adding.antt =====
-- addDependency and removeDependencyWithAudit: what they keep, when they succeed, and that the one
-- undoes the other.
use atlaspm.Base.{
  Result, ok, err, ℕ, ◌≡◌, ◌≢◌, ◌⊎◌, true, false, [], ◌∷◌, ◌++◌, Option, none, some, inl, inr,
  arith, any, Bool-cases, Option-cases,
}
use Prim.Native.String.{String}
use atlaspm.Store.{TaskRow, find_active}
use atlaspm.Dependencies.{
  Dependency, DependencyType, Tables, Error, create_dependency, would_create_cycle, add_dependency,
  is_between, append_audit_outbox, dependency_cycle_detected, out_of_fuel, dependency_created,
  created,
}
use atlaspm.Dependencies.Walk.{Walk, IsAcyclic, IsAcyclic-append}
use atlaspm.Dependencies.Answers.{
  would_create_cycle-false, would_create_cycle-total, would_create_cycle_iff,
}

module _ (s : Tables) (t d : ℕ) (type : DependencyType) (actor : String)
    (correlation : Option String) (id now : ℕ) where
  abbrev pub added : Dependency
  added = record { id = id; task_id = t; depends_on_id = d; type = type; created_at = now }

  abbrev pub after_adding : Tables
  after_adding =
      append_audit_outbox (record s { dependencies = s.dependencies ++ added ∷ [] }) actor id
        dependency_created none (some added) correlation (created added)

  -- the conditions under which a dependency is added
  pub record CanAdd : Type 0 where
    pub differ : t ≢ d
    pub task : TaskRow
    pub dependency : TaskRow
    pub found_task : find_active t s.tasks ≡ some task
    pub found_dependency : find_active d s.tasks ≡ some dependency
    pub same_project : task.project_id ≡ dependency.project_id
    pub no_cycle : would_create_cycle s.dependencies t d ≡ some false
    pub is_new : any (is_between t d) s.dependencies ≡ false

  abbrev call : Result Error Tables
  call = add_dependency s t d type actor correlation id now

  pub add_dependency-succeeds : CanAdd → call ≡ ok after_adding
  unfolding add_dependency create_dependency
  add_dependency-succeeds c =
      ground
        (arith, c.differ, c.found_task, c.found_dependency, c.same_project, c.no_cycle, c.is_new)

  -- A success shows every guard passed, and the tables are those with the new row.
  pub add_dependency-CanAdd : (s' : Tables) → call ≡ ok s' → CanAdd × (s' ≡ after_adding)
  unfolding add_dependency create_dependency
  add_dependency-CanAdd s' e = elim (Option-cases (find_active t s.tasks)) [
    | inl p ↦ absurd (ground arith)
    | inr (a, p) ↦ elim (Option-cases (find_active d s.tasks)) [
      | inl q ↦ absurd (ground arith)
      | inr (b, q) ↦ (
        record {
          differ = ground arith;
          task = a;
          dependency = b;
          found_task = p;
          found_dependency = q;
          same_project = ground arith;
          no_cycle = ground arith;
          is_new = ground arith;
        },
        ground arith,
      )
    ]
  ]

-- Whether `addDependency` succeeds or fails, it never runs out of fuel.
pub add_dependency-ne-out_of_fuel :
    (s : Tables) (t d : ℕ) (type : DependencyType) (actor : String) (correlation : Option String)
    (id now : ℕ)
    → add_dependency s t d type actor correlation id now ≢ err out_of_fuel
unfolding add_dependency create_dependency
add_dependency-ne-out_of_fuel s t d type actor correlation id now e =
    let (b, p) = would_create_cycle-total s.dependencies t d in ground arith

-- Where the rows are acyclic, a call of `addDependency` that succeeds leaves them acyclic.
pub add_dependency-IsAcyclic :
    (s s' : Tables) (t d : ℕ) (type : DependencyType) (actor : String) (correlation : Option String)
    (id now : ℕ)
    → IsAcyclic s.dependencies
    → add_dependency s t d type actor correlation id now ≡ ok s'
    → IsAcyclic s'.dependencies
unfolding append_audit_outbox
add_dependency-IsAcyclic s s' t d type actor correlation id now acyclic e =
    let (c, p) = add_dependency-CanAdd s t d type actor correlation id now s' e in
    rw p (
      IsAcyclic-append s.dependencies (added s t d type actor correlation id now) acyclic
        (would_create_cycle-false s.dependencies t d c.no_cycle))

-- In an acyclic table, two different live tasks of one project with no row between them yet get a
-- dependency exactly if no walk of dependencies leads back; the call says which of the two it was.
pub add_dependency_complete :
    (s : Tables) (t d : ℕ) (type : DependencyType) (actor : String) (correlation : Option String)
    (id now : ℕ) (a b : TaskRow)
    → IsAcyclic s.dependencies
    → t ≢ d
    → find_active t s.tasks ≡ some a
    → find_active d s.tasks ≡ some b
    → a.project_id ≡ b.project_id
    → any (is_between t d) s.dependencies ≡ false
    → ((¬ Walk s.dependencies d t)
        × (add_dependency s t d type actor correlation id now
            ≡ ok (after_adding s t d type actor correlation id now)))
      ⊎ (Walk s.dependencies d t
          × (add_dependency s t d type actor correlation id now ≡ err dependency_cycle_detected))
unfolding add_dependency
add_dependency_complete s t d type actor correlation id now a b acyclic n p q same fresh =
    let (v, r) = would_create_cycle-total s.dependencies t d in
    elim (Bool-cases v) [
      | inl w ↦
          let e : would_create_cycle s.dependencies t d ≡ some true = rw w at r in
          inr ((would_create_cycle_iff s.dependencies t d acyclic).0 e, ground arith)
      | inr w ↦
          let e : would_create_cycle s.dependencies t d ≡ some false = rw w at r in
          inl (
            would_create_cycle-false s.dependencies t d e,
            add_dependency-succeeds s t d type actor correlation id now (record {
              differ = n;
              task = a;
              dependency = b;
              found_task = p;
              found_dependency = q;
              same_project = same;
              no_cycle = e;
              is_new = fresh;
            }),
          )
    ]

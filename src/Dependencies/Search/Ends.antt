-- ===== src/Dependencies/Search/Ends.antt =====
-- The search ends: each call visits a new target of some row, so the rows left unvisited bound the
-- depth of the calls.
use atlaspm.Base.{
  ℕ, zero, suc, ◌≡◌, ◌≤◌, refl, Bool, true, false, List, [], ◌∷◌, Option, some, inl, inr, arith,
  mem, add, delete, map, length, missing, missing-add, missing_mono, missing-le-length, mem-add,
  Bool-cases,
}
use atlaspm.Dependencies.{Dependency, Sets, depends_on, for_dependencies, leave, enter, has_cycle}

-- every task that the search can visit
abbrev pub targets : List Dependency → List ℕ
targets rows = map (λ d. d.depends_on_id) rows

pub length-targets : (rows : List Dependency) → length (targets rows) ≡ length rows
length-targets [] = refl
length-targets (r ∷ rows) = ground (arith, length-targets rows)

pub mem-targets :
    (rows : List Dependency) (u d : ℕ)
    → mem d (depends_on rows u) ≡ true
    → mem d (targets rows) ≡ true
mem-targets [] u d h = h
mem-targets (r ∷ rows) u d h = ground (arith, mem-targets rows u d)

module _ (rows : List Dependency) where
  -- `s'` has visited all that `s` has
  abbrev pub Grows : Sets → Sets → Type 0
  Grows s s' = (x : ℕ) → mem x s.visited ≡ true → mem x s'.visited ≡ true

  abbrev left : Sets → ℕ
  left s = missing (targets rows) s.visited

  -- The call returns, and has only added to the visited set.
  abbrev pub Returns : Option (Bool × Sets) → Sets → Type 0
  Returns r s = (found : Bool) × (s' : Sets) × (r ≡ some (found, s')) × Grows s s'

  abbrev VisitReturns : ℕ → (ℕ → Sets → Option (Bool × Sets)) → Type 0
  VisitReturns fuel visit =
      (u : ℕ) (s : Sets)
      → mem u (targets rows) ≡ true
      → mem u s.visited ≡ false
      → left s ≤ fuel
      → Returns (visit u s) s

  for_dependencies-Returns :
      (fuel : ℕ) (visit : ℕ → Sets → Option (Bool × Sets))
      → VisitReturns fuel visit
      → (ds : List ℕ) (s : Sets) → ((d : ℕ) → mem d ds ≡ true → mem d (targets rows) ≡ true)
      → left s ≤ fuel
      → Returns (for_dependencies visit ds s) s
  unfolding for_dependencies
  for_dependencies-Returns fuel visit ok [] s inside h = (false, s, refl, λ x m. m)
  for_dependencies-Returns fuel visit ok (d ∷ ds) s inside h = elim (Bool-cases (mem d s.visited)) [
    | inl seen ↦ elim (Bool-cases (mem d s.recursion_stack)) [
      | inl on ↦ (true, s, rw (seen, on, for_dependencies) refl, λ x m. m)
      | inr off ↦
          let (b, s', e, g) = for_dependencies-Returns fuel visit ok ds s inside' h in
          (b, s', rw (seen, off, for_dependencies) e, g)
    ]
    | inr fresh ↦
        let (b, s1, e, g) = ok d s (inside d (ground arith)) fresh h in
        elim (Bool-cases b) [
          | inl p ↦ (true, s1, rw (fresh, e, for_dependencies, p) refl, g)
          | inr p ↦
              let h1 = missing_mono (targets rows) s.visited s1.visited g in
              let (b', s', e', g') =
                for_dependencies-Returns fuel visit ok ds s1 inside' (omega arith) in
              (b', s', rw (fresh, e, for_dependencies, p) e', λ x m. g' x (g x m))
        ]
  ]
    where
      inside' : (x : ℕ) → mem x ds ≡ true → mem x (targets rows) ≡ true
      inside' x m = inside x (ground arith)

  leave-Returns :
      (u : ℕ) (s : Sets) (r : Option (Bool × Sets)) → Returns r s → Returns (leave u r) s
  leave-Returns u s r (true, s', e, g) = (true, s', rw e refl, g)
  leave-Returns u s r (false, s', e, g) =
      (false, record s' { recursion_stack = delete u s'.recursion_stack }, rw e refl, g)

  pub has_cycle-returns : (fuel : ℕ) → VisitReturns fuel (has_cycle rows fuel)
  unfolding has_cycle
  has_cycle-returns zero u s inside fresh h =
      absurd (omega (arith, missing-add (targets rows) s.visited u inside fresh))
  has_cycle-returns (suc fuel) u s inside fresh h =
      let now : add u s.visited ≡ u ∷ s.visited = ground arith in
      let less = missing-add (targets rows) s.visited u inside fresh in
      let (b, s', e, g) =
        for_dependencies-Returns fuel (has_cycle rows fuel) (has_cycle-returns fuel)
          (depends_on rows u) (enter u s) (mem-targets rows u) (rw now (omega arith)) in
      leave-Returns u s _ (b, s', e, λ x m. g x (ground (arith, mem-add u x s.visited)))

  pub for_dependencies-ends :
      (from : ℕ) (s : Sets)
      → Returns (for_dependencies (has_cycle rows (length rows)) (depends_on rows from) s) s
  for_dependencies-ends from s =
      for_dependencies-Returns (length rows) (has_cycle rows (length rows))
        (has_cycle-returns (length rows)) (depends_on rows from) s (mem-targets rows from)
        (omega (arith, missing-le-length (targets rows) s.visited, length-targets rows))

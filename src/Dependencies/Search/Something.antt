-- ===== src/Dependencies/Search/Something.antt =====
-- A search that finds something: in an acyclic graph it has found a walk to `t`, since any other
-- task on the recursion stack has a walk to the current one.
use atlaspm.Base.{
  ℕ, zero, suc, ◌==◌, ◌≡◌, refl, subst, ◌⊎◌, Bool, true, false, List, [], ◌∷◌, Option, none, some,
  inl, inr, arith, mem, delete, mem-add, mem-delete, Bool-cases, ==→eq, ==_self,
}
use atlaspm.Dependencies.{Dependency, Sets, depends_on, for_dependencies, leave, enter, has_cycle}
use atlaspm.Dependencies.Walk.{Edge, Walk, here, step, IsAcyclic, Walk-Edge, Walk-trans}
use atlaspm.Dependencies.Search.Rounds.{Round, found, passed, back, skipped, Round-cases}

-- A call that returns false leaves no new task on the recursion stack.
abbrev pub Shrinks : Sets → Sets → Type 0
Shrinks s s' = (x : ℕ) → mem x s'.recursion_stack ≡ true → mem x s.recursion_stack ≡ true

abbrev VisitShrinks : (ℕ → Sets → Option (Bool × Sets)) → Type 0
VisitShrinks visit = (u : ℕ) (s s' : Sets) → visit u s ≡ some (false, s') → Shrinks s s'

for_dependencies-Shrinks :
    (visit : ℕ → Sets → Option (Bool × Sets))
    → VisitShrinks visit
    → (ds : List ℕ) (s s' : Sets) → for_dependencies visit ds s ≡ some (false, s')
    → Shrinks s s'
unfolding for_dependencies
for_dependencies-Shrinks visit ok [] s s' e =
    let p : s ≡ s' = cc e in subst (Shrinks s) p (λ x m. m)
for_dependencies-Shrinks visit ok (d ∷ ds) s s' e =
    after (for_dependencies-Shrinks visit ok ds) (Round-cases visit d ds s (false, s') e)
  where
    after :
        ((s1 s2 : Sets) → for_dependencies visit ds s1 ≡ some (false, s2) → Shrinks s1 s2)
        → Round visit d ds s (false, s')
        → Shrinks s s'
    after ih (found s1 fresh w r) = cc r
    after ih (passed s1 fresh w r) = λ x m. ok d s s1 w x (ih s1 s' r x m)
    after ih (back seen on r) = cc r
    after ih (skipped seen off r) = ih s s' r

leave-Shrinks :
    (u : ℕ) (s s1 : Sets)
    → Shrinks (enter u s) s1
    → Shrinks s (record s1 { recursion_stack = delete u s1.recursion_stack })
leave-Shrinks u s s1 less x m =
    ground (arith, mem-delete u x s1.recursion_stack, mem-add u x s.recursion_stack, less x, m)

module _ (rows : List Dependency) where
  has_cycle-Shrinks : (fuel : ℕ) → VisitShrinks (has_cycle rows fuel)
  unfolding has_cycle
  has_cycle-Shrinks zero u s s' e = absurd (cc e)
  has_cycle-Shrinks (suc fuel) u s s' e =
      after (has_cycle-Shrinks fuel)
        (for_dependencies (has_cycle rows fuel) (depends_on rows u) (enter u s)) refl e
    where
      after :
          VisitShrinks (has_cycle rows fuel)
          → (r : Option (Bool × Sets))
          → for_dependencies (has_cycle rows fuel) (depends_on rows u) (enter u s) ≡ r
          → leave u r ≡ some (false, s')
          → Shrinks s s'
      after ih none q k = absurd (cc k)
      after ih (some (true, s1)) q k = absurd (cc k)
      after ih (some (false, s1)) q k =
          let p : record s1 { recursion_stack = delete u s1.recursion_stack } ≡ s' = cc k in
          subst (Shrinks s) p (
            leave-Shrinks u s s1 (
              for_dependencies-Shrinks (has_cycle rows fuel) ih (depends_on rows u) (enter u s) s1
                q))

  module _ (t : ℕ) (acyclic : IsAcyclic rows) where
    -- Every task on the recursion stack leads to the current task, but perhaps `t`.
    abbrev pub Trail : ℕ → Sets → Type 0
    Trail u s = (x : ℕ) → mem x s.recursion_stack ≡ true → (x ≡ t) ⊎ Walk rows x u

    abbrev VisitFinds : (ℕ → Sets → Option (Bool × Sets)) → Type 0
    VisitFinds visit =
        (u : ℕ) (s s' : Sets) → Trail u s → visit u s ≡ some (true, s') → Walk rows u t

    Trail-Edge : (u v : ℕ) (s : Sets) → Edge rows u v → Trail u s → Trail v s
    Trail-Edge u v s e trail x m = elim (trail x m) [ inl p ↦ inl p | inr w ↦ inr (step w e) ]

    for_dependencies-finds :
        (visit : ℕ → Sets → Option (Bool × Sets))
        → VisitShrinks visit
        → VisitFinds visit
        → (u : ℕ) (ds : List ℕ) (s s' : Sets) → ((d : ℕ) → mem d ds ≡ true → Edge rows u d)
        → Trail u s
        → for_dependencies visit ds s ≡ some (true, s')
        → Walk rows u t
    unfolding for_dependencies IsAcyclic
    for_dependencies-finds visit less ok u [] s s' edges trail e = absurd (cc e)
    for_dependencies-finds visit less ok u (d ∷ ds) s s' edges trail e =
        after
          (λ s1 tr r.
            for_dependencies-finds visit less ok u ds s1 s' (λ x m. edges x (ground (arith, m))) tr
              r)
          (Round-cases visit d ds s (true, s') e)
      where
        edge : Edge rows u d
        edge = edges d (ground (arith, ==_self d))

        after :
            ((s1 : Sets)
              → Trail u s1
              → for_dependencies visit ds s1 ≡ some (true, s')
              → Walk rows u t)
            → Round visit d ds s (true, s')
            → Walk rows u t
        after ih (found s1 fresh w r) =
            Walk-trans (Walk-Edge edge) (ok d s s1 (Trail-Edge u d s edge trail) w)
        after ih (passed s1 fresh w r) = ih s1 (λ x m. trail x (less d s s1 w x m)) r
        after ih (back seen on r) = elim (trail d on) [
          | inl p ↦ rw (← p) (Walk-Edge edge)
          | inr w ↦ absurd (acyclic u d edge w)
        ]
        after ih (skipped seen off r) = ih s trail r

    enter-Trail : (u : ℕ) (s : Sets) → Trail u s → Trail u (enter u s)
    enter-Trail u s trail x m = elim (Bool-cases (u == x)) [
      | inl e ↦ let p = ==→eq u x e in inr (rw p here)
      | inr e ↦ trail x (ground (arith, mem-add u x s.recursion_stack))
    ]

    pub has_cycle-finds : (fuel : ℕ) → VisitFinds (has_cycle rows fuel)
    unfolding has_cycle
    has_cycle-finds zero u s s' trail e = absurd (cc e)
    has_cycle-finds (suc fuel) u s s' trail e =
        after (has_cycle-finds fuel)
          (for_dependencies (has_cycle rows fuel) (depends_on rows u) (enter u s)) refl e
      where
        after :
            VisitFinds (has_cycle rows fuel)
            → (r : Option (Bool × Sets))
            → for_dependencies (has_cycle rows fuel) (depends_on rows u) (enter u s) ≡ r
            → leave u r ≡ some (true, s')
            → Walk rows u t
        after ih none q k = absurd (cc k)
        after ih (some (true, s1)) q k =
            for_dependencies-finds (has_cycle rows fuel) (has_cycle-Shrinks fuel) ih u
              (depends_on rows u) (enter u s) s1 (λ d m. m) (enter-Trail u s trail) q
        after ih (some (false, s1)) q k = absurd (cc k)

    -- The same of the loop that starts at the dependencies of `from`, with `t` alone on the stack.
    pub for_dependencies-finds_from :
        (fuel from : ℕ) (s s' : Sets)
        → Trail from s
        → for_dependencies (has_cycle rows fuel) (depends_on rows from) s ≡ some (true, s')
        → Walk rows from t
    for_dependencies-finds_from fuel from s s' trail e =
        for_dependencies-finds (has_cycle rows fuel) (has_cycle-Shrinks fuel) (has_cycle-finds fuel)
          from (depends_on rows from) s s' (λ d m. m) trail e

-- ===== src/Dependencies/Answers.antt =====
-- What `wouldCreateCycle` answers, against the walks of the graph.
use mathlib.Core.Option
use atlaspm.Base.{
  ℕ, ◌==◌, ◌≡◌, ◌↔◌, ◌≢◌, refl, sym, ap, ◌∙◌, ◌⊎◌, Bool, true, false, List, [], ◌∷◌, Option, some,
  inl, inr, arith, mem, length, Bool-cases, ==→eq, ne→==, ==_self,
}
use atlaspm.Dependencies.{
  Dependency, Sets, depends_on, for_dependencies, has_cycle, would_create_cycle,
}
use atlaspm.Dependencies.Walk.{Edge, Walk, here, IsAcyclic, Walk-closed}
use atlaspm.Dependencies.Search.Nothing.{
  Holds, Clears, Covers, has_cycle-Clears, for_dependencies-Clears, from_dependencies-eq,
}
use atlaspm.Dependencies.Search.Something.{for_dependencies-finds_from}
use atlaspm.Dependencies.Search.Ends.{for_dependencies-ends}

-- the sets that the search starts from
abbrev start : ℕ → Sets
start t = record { visited = t ∷ []; recursion_stack = t ∷ [] }

start-Holds : (rows : List Dependency) (t : ℕ) → Holds rows t (start t)
start-Holds rows t = record {
  seen = ground (arith, ==_self t);
  on_stack = ground (arith, ==_self t);
}

module _ (rows : List Dependency) (t from : ℕ) where
  abbrev loop : Option (Bool × Sets)
  loop = for_dependencies (has_cycle rows (length rows)) (depends_on rows from) (start t)

  ne_of_ids : (t == from) ≡ false → t ≢ from
  ne_of_ids e p = cc (e, ap (λ x. t == x) p, ==_self t)

  -- From another task, the answer is that of the loop.
  would_create_cycle-loop : t ≢ from → would_create_cycle rows t from ≡ Option.map (λ r. r.0) loop
  unfolding would_create_cycle
  would_create_cycle-loop n = rw (ne→== t from n) (
      from_dependencies-eq rows t (has_cycle rows (length rows))
        (has_cycle-Clears rows t (length rows)) (depends_on rows from) (start t)
        (start-Holds rows t))

  -- The search returns an answer on every table, cyclic or not.
  pub would_create_cycle-total : (b : Bool) × (would_create_cycle rows t from ≡ some b)
  unfolding would_create_cycle
  would_create_cycle-total = elim (Bool-cases (t == from)) [
    | inl e ↦ (true, rw e refl)
    | inr e ↦
        let (b, s', r, g) = for_dependencies-ends rows from (start t) in
        (b, would_create_cycle-loop (ne_of_ids e) ∙ rw r refl)
  ]

  -- A task that differs from `from` is where the two ids were compared.
  ne_of_false : would_create_cycle rows t from ≡ some false → t ≢ from
  unfolding would_create_cycle
  ne_of_false e p = let q = rw (p, ==_self from) at e in cc q

  -- What the loop has visited, with `from` itself, is closed under edges and leaves out `t`.
  abbrev Apart : Sets → ℕ → Type 0
  Apart s v = (v ≡ from) ⊎ ((mem v s.visited ≡ true) × (v ≢ t))

  Apart-Edge :
      (s : Sets)
      → Clears rows t (start t) s
      → Covers rows t (depends_on rows from) s
      → (u v : ℕ) → Apart s u
      → Edge rows u v
      → Apart s v
  Apart-Edge s c covers u v (inl p) e = inr (covers v (rw p at e))
  Apart-Edge s c covers u v (inr (m, n)) e =
      inr (c.closed u v m (ground (arith, ne→== t u (λ p. n (sym p)))) e)

  no-Walk : t ≢ from → (s : Sets) → loop ≡ some (false, s) → ¬ Walk rows from t
  no-Walk n s e w =
      let (c, covers) =
        for_dependencies-Clears rows t (has_cycle rows (length rows))
          (has_cycle-Clears rows t (length rows)) (depends_on rows from) (start t) s
          (start-Holds rows t) e in
      elim (Walk-closed (Apart s) (Apart-Edge s c covers) (inl refl) w) [
        | inl p ↦ absurd (n p)
        | inr (m, p) ↦ p refl
      ]

  -- If the answer is no, no walk leads from the new dependency to the task.
  pub would_create_cycle-false : would_create_cycle rows t from ≡ some false → ¬ Walk rows from t
  would_create_cycle-false e =
      let n = ne_of_false e in
      let (b, s, r, g) = for_dependencies-ends rows from (start t) in
      let p : b ≡ false = cc (would_create_cycle-loop n, r, e) in no-Walk n s (rw p at r)

  -- If the answer is yes and the table is acyclic, such a walk exists.
  pub would_create_cycle-true :
      IsAcyclic rows → would_create_cycle rows t from ≡ some true → Walk rows from t
  would_create_cycle-true acyclic e = elim (Bool-cases (t == from)) [
    | inl p ↦ let q = ==→eq t from p in rw q here
    | inr p ↦
        let (b, s, r, g) = for_dependencies-ends rows from (start t) in
        let q : b ≡ true = cc (would_create_cycle-loop (ne_of_ids p), r, e) in
        for_dependencies-finds_from rows t acyclic (length rows) from (start t) s
          (λ x m. inl (ground (arith, m))) (rw q at r)
  ]

-- On an acyclic table `wouldCreateCycle` decides whether a walk along dependencies leads from the
-- new dependency to the task: it answers true exactly if one does.
pub would_create_cycle_iff :
    (rows : List Dependency) (t from : ℕ)
    → IsAcyclic rows
    → (would_create_cycle rows t from ≡ some true) ↔ Walk rows from t
would_create_cycle_iff rows t from acyclic = (
  would_create_cycle-true rows t from acyclic,
  λ w. decided (would_create_cycle-total rows t from) w,
)
  where
    decided :
        ((b : Bool) × (would_create_cycle rows t from ≡ some b))
        → Walk rows from t
        → would_create_cycle rows t from ≡ some true
    decided (true, e) w = e
    decided (false, e) w = absurd (would_create_cycle-false rows t from e w)

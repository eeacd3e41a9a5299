-- ===== src/Dependencies/Search/Nothing.antt =====
-- A search that finds nothing: what it visited is closed under edges and avoids the task `t`,
-- which was visited and on the recursion stack before.
use mathlib.Core.Option
use atlaspm.Base.{
  ℕ, zero, suc, ◌==◌, ◌≡◌, refl, sym, ap, subst, ◌≢◌, Bool, true, false, List, [], ◌∷◌, Option,
  none, some, inl, inr, arith, mem, delete, mem-add, mem-delete, Bool-cases, Option-cases, ==→eq,
}
use atlaspm.Dependencies.{
  Dependency, Sets, depends_on, for_dependencies, from_dependencies, leave, enter, has_cycle,
}
use atlaspm.Dependencies.Walk.{Edge}
use atlaspm.Dependencies.Search.Rounds.{Round, found, passed, back, skipped, Round-cases}

module _ (rows : List Dependency) (t : ℕ) where
  pub record Holds (s : Sets) : Type 0 where
    pub seen : mem t s.visited ≡ true
    pub on_stack : mem t s.recursion_stack ≡ true

  pub record Clears (s s' : Sets) : Type 0 where
    pub holds : Holds s'
    pub grows : (x : ℕ) → mem x s.visited ≡ true → mem x s'.visited ≡ true
    pub closed :
        (v w : ℕ)
        → mem v s'.visited ≡ true
        → mem v s.visited ≡ false
        → Edge rows v w
        → (mem w s'.visited ≡ true) × (w ≢ t)

  Clears-self : (s : Sets) → Holds s → Clears s s
  Clears-self s h = record { holds = h; grows = λ x m. m; closed = λ v w m n e. absurd (cc) }

  Clears-trans : (a b c : Sets) → Clears a b → Clears b c → Clears a c
  Clears-trans a b c p q = record {
    holds = q.holds;
    grows = λ x m. q.grows x (p.grows x m);
    closed = λ v w m n e. elim (Bool-cases (mem v b.visited)) [
      | inl old ↦ let (k, l) = p.closed v w old n e in (q.grows w k, l)
      | inr fresh ↦ q.closed v w m fresh e
    ];
  }

  -- what a call that returns false has done
  abbrev pub VisitClears : (ℕ → Sets → Option (Bool × Sets)) → Type 0
  VisitClears visit =
      (u : ℕ) (s s' : Sets)
      → Holds s
      → mem u s.visited ≡ false
      → visit u s ≡ some (false, s')
      → Clears s s' × (mem u s'.visited ≡ true)

  ne_of_fresh : (d : ℕ) (s : Sets) → Holds s → mem d s.visited ≡ false → d ≢ t
  ne_of_fresh d s h fresh e = cc (h.seen, ap (λ x. mem x s.visited) e)

  ne_of_off : (d : ℕ) (s : Sets) → Holds s → mem d s.recursion_stack ≡ false → d ≢ t
  ne_of_off d s h off e = cc (h.on_stack, ap (λ x. mem x s.recursion_stack) e)

  abbrev pub Covers : List ℕ → Sets → Type 0
  Covers ds s = (d : ℕ) → mem d ds ≡ true → (mem d s.visited ≡ true) × (d ≢ t)

  Covers-cons :
      (d : ℕ) (ds : List ℕ) (s : Sets)
      → mem d s.visited ≡ true
      → d ≢ t
      → Covers ds s
      → Covers (d ∷ ds) s
  Covers-cons d ds s m n c x h = elim (Bool-cases (d == x)) [
    | inl e ↦ let p = ==→eq d x e in (rw p at m, rw p at n)
    | inr e ↦ c x (rw e at h)
  ]

  after-Round :
      (visit : ℕ → Sets → Option (Bool × Sets))
      → VisitClears visit
      → (d : ℕ) (ds : List ℕ) (s s' : Sets) → Holds s
      → Round visit d ds s (false, s')
      → ((s1 : Sets)
          → Holds s1
          → for_dependencies visit ds s1 ≡ some (false, s')
          → Clears s1 s' × Covers ds s')
      → Clears s s' × Covers (d ∷ ds) s'
  after-Round visit ok d ds s s' h (found s1 fresh e r) rest = cc r
  after-Round visit ok d ds s s' h (passed s1 fresh e r) rest =
      let (clears, m) = ok d s s1 h fresh e in
      let (more, covers) = rest s1 clears.holds r in
      (
        Clears-trans s s1 s' clears more,
        Covers-cons d ds s' (more.grows d m) (ne_of_fresh d s h fresh) covers,
      )
  after-Round visit ok d ds s s' h (back seen on r) rest = cc r
  after-Round visit ok d ds s s' h (skipped seen off r) rest =
      let (clears, covers) = rest s h r in
      (clears, Covers-cons d ds s' (clears.grows d seen) (ne_of_off d s h off) covers)

  pub for_dependencies-Clears :
      (visit : ℕ → Sets → Option (Bool × Sets))
      → VisitClears visit
      → (ds : List ℕ) (s s' : Sets) → Holds s
      → for_dependencies visit ds s ≡ some (false, s')
      → Clears s s' × Covers ds s'
  unfolding for_dependencies
  for_dependencies-Clears visit ok [] s s' h e =
      (subst (Clears s) (cc e) (Clears-self s h), λ d m. absurd (cc m))
  for_dependencies-Clears visit ok (d ∷ ds) s s' h e =
      after-Round visit ok d ds s s' h (Round-cases visit d ds s (false, s') e)
        (λ s1 h1 r. for_dependencies-Clears visit ok ds s1 s' h1 r)

  enter-Holds : (u : ℕ) (s : Sets) → Holds s → Holds (enter u s)
  enter-Holds u s h = record {
    seen = rw (mem-add u t s.visited, h.seen) (ground arith);
    on_stack = rw (mem-add u t s.recursion_stack, h.on_stack) (ground arith);
  }

  -- `leave` after a loop that found nothing
  leave-Clears :
      (u : ℕ) (s s1 : Sets)
      → Holds s
      → mem u s.visited ≡ false
      → Clears (enter u s) s1
      → Covers (depends_on rows u) s1
      → Clears s (record s1 { recursion_stack = delete u s1.recursion_stack })
        × (mem u s1.visited ≡ true)
  leave-Clears u s s1 h fresh c covers = (
    record {
      holds = record {
        seen = c.holds.seen;
        on_stack =
            ground
              (arith, mem-delete u t s1.recursion_stack, c.holds.on_stack, ne_of_fresh u s h fresh);
      };
      grows = λ x m. c.grows x (ground (arith, mem-add u x s.visited));
      closed = λ v w m n e. elim (Bool-cases (u == v)) [
        | inl p ↦ covers w (rw (← ==→eq u v p) at e)
        | inr p ↦ c.closed v w m (ground (arith, mem-add u v s.visited)) e
      ];
    },
    c.grows u (ground (arith, mem-add u u s.visited)),
  )

  pub has_cycle-Clears : (fuel : ℕ) → VisitClears (has_cycle rows fuel)
  unfolding has_cycle
  has_cycle-Clears zero u s s' h fresh e = absurd (cc e)
  has_cycle-Clears (suc fuel) u s s' h fresh e =
      after (has_cycle-Clears fuel)
        (for_dependencies (has_cycle rows fuel) (depends_on rows u) (enter u s)) refl e
    where
      after :
          VisitClears (has_cycle rows fuel)
          → (r : Option (Bool × Sets))
          → for_dependencies (has_cycle rows fuel) (depends_on rows u) (enter u s) ≡ r
          → leave u r ≡ some (false, s')
          → Clears s s' × (mem u s'.visited ≡ true)
      after ih none q k = absurd (cc k)
      after ih (some (true, s1)) q k = absurd (cc k)
      after ih (some (false, s1)) q k =
          let (clears, covers) =
            for_dependencies-Clears (has_cycle rows fuel) ih (depends_on rows u) (enter u s) s1
              (enter-Holds u s h) q in
          subst (λ x. Clears s x × (mem u x.visited ≡ true)) (cc k)
            (leave-Clears u s s1 h fresh clears covers)

  -- The loop of `wouldCreateCycle` itself answers as `hasCycle`'s loop does: its test against `t`
  -- is a shortcut.
  pub from_dependencies-eq :
      (visit : ℕ → Sets → Option (Bool × Sets))
      → VisitClears visit
      → (ds : List ℕ) (s : Sets) → Holds s
      → from_dependencies t visit ds s ≡ Option.map (λ r. r.0) (for_dependencies visit ds s)
  unfolding from_dependencies for_dependencies
  from_dependencies-eq visit ok [] s h = refl
  from_dependencies-eq visit ok (d ∷ ds) s h = elim (Bool-cases (d == t)) [
    | inl e ↦
        let p = ==→eq d t e in
        let seen = subst (λ x. mem x s.visited ≡ true) (sym p) h.seen in
        let on = subst (λ x. mem x s.recursion_stack ≡ true) (sym p) h.on_stack in
        rw (e, from_dependencies, seen, on, for_dependencies) refl
    | inr e ↦ elim (Bool-cases (mem d s.visited)) [
      | inl seen ↦ elim (Bool-cases (mem d s.recursion_stack)) [
        | inl on ↦ rw (e, from_dependencies, seen, on, for_dependencies) refl
        | inr off ↦
            rw (e, from_dependencies, seen, off, for_dependencies)
              (from_dependencies-eq visit ok ds s h)
      ]
      | inr fresh ↦ elim (Option-cases (visit d s)) [
        | inl w ↦ rw (e, from_dependencies, fresh, w, for_dependencies) refl
        | inr ((found', s1), w) ↦ elim (Bool-cases found') [
          | inl b ↦ rw (e, from_dependencies, fresh, w, for_dependencies, b) refl
          | inr b ↦
              let (clears, m) = ok d s s1 h fresh (rw b at w) in
              rw (e, from_dependencies, fresh, w, for_dependencies, b)
                (from_dependencies-eq visit ok ds s1 clears.holds)
        ]
      ]
    ]
  ]

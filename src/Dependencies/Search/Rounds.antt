-- ===== src/Dependencies/Search/Rounds.antt =====
-- One round of the loop over the dependencies of a task, by its outcome.
use atlaspm.Base.{
  ℕ, ◌≡◌, Bool, true, false, List, ◌∷◌, Option, some, inl, inr, mem, Bool-cases, Option-cases,
}
use atlaspm.Dependencies.{Sets, for_dependencies}

module _ (visit : ℕ → Sets → Option (Bool × Sets)) (d : ℕ) (ds : List ℕ) (s : Sets) where
  pub data Round (r : Bool × Sets) : Type 0 where
    found :
        (s1 : Sets)
        → mem d s.visited ≡ false
        → visit d s ≡ some (true, s1)
        → r ≡ (true, s1)
        → Round r
    passed :
        (s1 : Sets)
        → mem d s.visited ≡ false
        → visit d s ≡ some (false, s1)
        → for_dependencies visit ds s1 ≡ some r
        → Round r
    back : mem d s.visited ≡ true → mem d s.recursion_stack ≡ true → r ≡ (true, s) → Round r
    skipped :
        mem d s.visited ≡ true
        → mem d s.recursion_stack ≡ false
        → for_dependencies visit ds s ≡ some r
        → Round r

  Round-visit :
      (r : Bool × Sets) (found' : Bool) (s1 : Sets)
      → mem d s.visited ≡ false
      → visit d s ≡ some (found', s1)
      → for_dependencies visit (d ∷ ds) s ≡ some r
      → Round r
  unfolding for_dependencies
  Round-visit r true s1 fresh e h = found s1 fresh e (cc (rw (fresh, e, for_dependencies) at h))
  Round-visit r false s1 fresh e h = passed s1 fresh e (rw (fresh, e, for_dependencies) at h)

  pub Round-cases : (r : Bool × Sets) → for_dependencies visit (d ∷ ds) s ≡ some r → Round r
  unfolding for_dependencies
  Round-cases r h = elim (Bool-cases (mem d s.visited)) [
    | inl seen ↦ elim (Bool-cases (mem d s.recursion_stack)) [
      | inl on ↦ back seen on (cc (rw (seen, on, for_dependencies) at h))
      | inr off ↦ skipped seen off (rw (seen, off, for_dependencies) at h)
    ]
    | inr fresh ↦ elim (Option-cases (visit d s)) [
      | inl e ↦ cc (rw (fresh, e, for_dependencies) at h)
      | inr (p, e) ↦ Round-visit r p.0 p.1 fresh e h
    ]
  ]

-- ===== src/Lifecycle/Completion.antt =====
-- completeTaskLifecycle: what a success has done, when it succeeds, and that of two requests made
-- on one version at most one succeeds.
use atlaspm.Base.{
  ℕ, ◌+◌, ◌==◌, ◌≡◌, ◌≢◌, ◌⊎◌, inl, inr, refl, sym, ap, subst, ◌∙◌, Bool, true, false, none, some,
  List, [], ◌∷◌, arith, if◌then◌else◌, count, update_where, mem, ok, err, or_default, Bool-cases,
  List-cases, Option-cases, Result-cases, ==→eq,
}
use atlaspm.Store.{TaskRow, done, in_progress, is_active, find_active}
use atlaspm.Progress.{completed, reopened}
use atlaspm.Progress.Agreement.{transition, derive-transition}
use atlaspm.Lifecycle.{
  LifecycleError, LifecycleResult, is_open, is_current, apply_transition, collect_descendant_ids,
  count_incomplete_descendants, check_subtasks, save_lifecycle_state, complete_task_lifecycle,
  version_conflict, task_not_found,
}
use atlaspm.Lifecycle.Descendants.{Below}
use atlaspm.Lifecycle.Descendants.Loop.{collect_descendant_ids_iff}
use atlaspm.Lifecycle.Saving.{
  DistinctIds, find_active-id, find_active-update, find_active-other, save_lifecycle_state_cases,
}

-- every live task below `id` is done
pub AllDoneBelow : List TaskRow → ℕ → Type 0
AllDoneBelow rows id =
    (x : ℕ) (t : TaskRow) → Below rows id x → x ≢ id → find_active x rows ≡ some t → t.status ≡ done

-- Where no listed live task is open, each of them is done.
count_open-done :
    (ids : List ℕ) (rows : List TaskRow) (x : ℕ) (t : TaskRow)
    → count (is_open ids) rows ≡ 0
    → mem x ids ≡ true
    → find_active x rows ≡ some t
    → t.status ≡ done
count_open-done ids [] x t c m f = absurd (cc f)
count_open-done ids (r ∷ rows) x t c m f = elim (Bool-cases (is_active x r)) [
  | inl hit ↦
      let k = ==→eq r.id x (ground arith) in
      let m' = subst (λ y. mem y ids ≡ true) (sym k) m in ground arith
  | inr miss ↦ count_open-done ids rows x t (ground arith) m (ground arith)
]

-- A check that passes, on a plain completion, has found every live task below done.
check_subtasks-AllDoneBelow :
    (rows : List TaskRow) (id : ℕ)
    → check_subtasks rows id true false ≡ ok tt
    → AllDoneBelow rows id
unfolding check_subtasks count_incomplete_descendants AllDoneBelow
check_subtasks-AllDoneBelow rows id e x t b n f =
    let (ids, c, below) = collect_descendant_ids_iff rows id in
    let m = (below x).1 (b, n) in
    elim (List-cases ids) [
      | inl z ↦ absurd (cc (subst (λ l. mem x l ≡ true) z m))
      | inr (i, is, z) ↦
          let c' : collect_descendant_ids rows id ≡ some (i ∷ is) = cc (c, z) in
          count_open-done (i ∷ is) rows x t (ground (arith, c', e))
            (subst (λ l. mem x l ≡ true) z m) f
    ]

-- what a success of the use case has done
pub record Completes (rows : List TaskRow) (id : ℕ) (d : Bool) (expected : ℕ) (force : Bool)
    (now : ℕ) (r : LifecycleResult) (rows' : List TaskRow) : Type 0 where
  pub was_there : find_active id rows ≡ some r.previous
  pub was_current : r.previous.version ≡ expected
  pub is_there : find_active id rows' ≡ some r.updated
  pub next_version : r.updated.version ≡ expected + 1
  pub status : r.updated.status ≡ (if d then done else in_progress)
  pub progress : r.updated.progress_percent ≡ (if d then 100 else 0)
  pub completion :
      r.updated.completed_at ≡ (if d then some (or_default r.previous.completed_at now) else none)
  pub action : r.action ≡ (if d then completed else reopened)
  pub others : (j : ℕ) → j ≢ id → find_active j rows' ≡ find_active j rows
  pub subtasks : d ≡ true → force ≡ false → AllDoneBelow rows id

module _ (rows : List TaskRow) (id : ℕ) (d : Bool) (expected : ℕ) (force : Bool) (now : ℕ) where
  -- The save is made with the version that was read, so it cannot fail.
  saved :
      (t : TaskRow)
      → DistinctIds rows
      → find_active id rows ≡ some t
      → let x = transition d t.completed_at now in
        save_lifecycle_state rows t.id t.version x
        ≡ ok (
          apply_transition x t,
          update_where (is_current t.id t.version) (apply_transition x) rows,
        )
  saved t distinct f =
      let x = transition d t.completed_at now in
      let k = find_active-id id rows t f in
      let f' = subst (λ i. find_active i rows ≡ some t) (sym k) f in
      elim (save_lifecycle_state_cases rows t.id t.version x distinct) [
        | inl (g, w) ↦ absurd (cc (g, f'))
        | inr (u, g, inl (v, w)) ↦ let q : u ≡ t = cc (g, f') in absurd (v (ap (λ y. y.version) q))
        | inr (u, g, inr (v, w)) ↦
            let q : u ≡ t = cc (g, f') in
            subst
              (λ y.
                save_lifecycle_state rows t.id t.version x
                ≡ ok (
                  apply_transition x y,
                  update_where (is_current t.id t.version) (apply_transition x) rows,
                ))
              q w
      ]

  -- the result of a completion of the row `t`
  abbrev pub result : TaskRow → LifecycleResult
  result t = record {
    previous = t;
    updated = apply_transition (transition d t.completed_at now) t;
    action = (transition d t.completed_at now).action;
  }

  abbrev pub rows_after : TaskRow → List TaskRow
  rows_after t =
      update_where (is_current t.id t.version) (apply_transition (transition d t.completed_at now))
        rows

  -- The use case past its guards.
  complete_passed :
      (t : TaskRow)
      → DistinctIds rows
      → find_active id rows ≡ some t
      → t.version ≡ expected
      → check_subtasks rows t.id d force ≡ ok tt
      → complete_task_lifecycle rows id d expected force now ≡ ok (result t, rows_after t)
  unfolding complete_task_lifecycle
  complete_passed t distinct f v check =
      ground (arith, f, v, check, derive-transition t.type d t.completed_at now, saved t distinct f)

  needs_task :
      find_active id rows ≡ none
      → complete_task_lifecycle rows id d expected force now ≡ err task_not_found
  unfolding complete_task_lifecycle
  needs_task f = ground (arith, f)

  needs_version :
      (t : TaskRow)
      → find_active id rows ≡ some t
      → t.version ≢ expected
      → complete_task_lifecycle rows id d expected force now ≡ err version_conflict
  unfolding complete_task_lifecycle
  needs_version t f v = ground (arith, f, v)

  needs_check :
      (t : TaskRow) (x : LifecycleError)
      → find_active id rows ≡ some t
      → t.version ≡ expected
      → check_subtasks rows t.id d force ≡ err x
      → complete_task_lifecycle rows id d expected force now ≡ err x
  unfolding complete_task_lifecycle
  needs_check t x f v check = ground (arith, f, v, check)

  -- A success has passed every guard.
  complete_inversion :
      (r : LifecycleResult) (rows' : List TaskRow)
      → DistinctIds rows
      → complete_task_lifecycle rows id d expected force now ≡ ok (r, rows')
      → (t : TaskRow) × (find_active id rows ≡ some t)
        × (t.version ≡ expected)
        × (check_subtasks rows t.id d force ≡ ok tt)
        × (r ≡ result t)
        × (rows' ≡ rows_after t)
  complete_inversion r rows' distinct e = elim (Option-cases (find_active id rows)) [
    | inl f ↦ absurd (cc (e, needs_task f))
    | inr (t, f) ↦ elim (Bool-cases (t.version == expected)) [
      | inr n ↦ absurd (cc (e, needs_version t f (λ k. ground arith)))
      | inl v ↦
          let v' = ==→eq t.version expected v in
          elim (Result-cases (check_subtasks rows t.id d force)) [
            | inr (x, check) ↦ absurd (cc (e, needs_check t x f v' check))
            | inl (u, check) ↦
                let done_so = complete_passed t distinct f v' check in
                let same : ◌≡◌ {A = LifecycleResult × List TaskRow} (result t, rows_after t)
                    (r, rows') =
                  cc (e, done_so) in
                (t, f, v', check, ap (λ w. w.0) (sym same), ap (λ w. w.1) (sym same))
          ]
    ]
  ]

  passed-Completes :
      (t : TaskRow)
      → find_active id rows ≡ some t
      → t.version ≡ expected
      → check_subtasks rows t.id d force ≡ ok tt
      → Completes rows id d expected force now (result t) (rows_after t)
  passed-Completes t f v check =
      let x = transition d t.completed_at now in
      let k = find_active-id id rows t f in
      record {
        was_there = f;
        was_current = v;
        is_there =
            subst
              (λ i.
                find_active id (update_where (is_current i t.version) (apply_transition x) rows)
                ≡ some (apply_transition x t))
              (sym k) (find_active-update id t.version x rows t f refl);
        next_version = omega arith;
        status = refl;
        progress = refl;
        completion = refl;
        action = refl;
        others = λ j n. find_active-other t.id j t.version x rows (λ w. n (w ∙ k));
        subtasks = λ p q. subst (AllDoneBelow rows) k (
            check_subtasks-AllDoneBelow rows t.id (
              subst (λ b. check_subtasks rows t.id b false ≡ ok tt) p
                (subst (λ b. check_subtasks rows t.id d b ≡ ok tt) q check)));
      }

-- When `completeTaskLifecycle` succeeds on a table without two rows of one id, the live task it found had the expected version and now
-- has the next one, with status, progress and completion time of its new state; no other task
-- has changed; and a plain completion has found every live task below done.
pub complete_task_lifecycle-Completes :
    (rows : List TaskRow) (id : ℕ) (d : Bool) (expected : ℕ) (force : Bool) (now : ℕ)
    (r : LifecycleResult) (rows' : List TaskRow)
    → DistinctIds rows
    → complete_task_lifecycle rows id d expected force now ≡ ok (r, rows')
    → Completes rows id d expected force now r rows'
complete_task_lifecycle-Completes rows id d expected force now r rows' distinct e =
    let (t, f, v, check, p, q) =
      complete_inversion rows id d expected force now r rows' distinct e in
    subst (λ w. Completes rows id d expected force now w rows') (sym p)
      (subst (λ w. Completes rows id d expected force now (result rows id d expected force now t) w)
        (sym q) (passed-Completes rows id d expected force now t f v check))

-- On a table without two rows of one id: of two requests made on the same version of a task,
-- whatever they ask for, the second is refused as a version conflict once the first has succeeded.
pub complete_twice :
    (rows rows' : List TaskRow) (id expected : ℕ) (d d2 force force2 : Bool) (now now2 : ℕ)
    (r : LifecycleResult)
    → DistinctIds rows
    → complete_task_lifecycle rows id d expected force now ≡ ok (r, rows')
    → complete_task_lifecycle rows' id d2 expected force2 now2 ≡ err version_conflict
complete_twice rows rows' id expected d d2 force force2 now now2 r distinct e =
    let c = complete_task_lifecycle-Completes rows id d expected force now r rows' distinct e in
    needs_version rows' id d2 expected force2 now2 r.updated c.is_there
      (λ k. omega (arith, c.next_version))

-- On a table without two rows of one id: a forced request, or one that reopens, succeeds on every live task at its current version; an
-- unforced completion succeeds there if no live task below is counted as open.
pub complete_task_lifecycle-succeeds :
    (rows : List TaskRow) (id : ℕ) (d force : Bool) (now : ℕ) (t : TaskRow)
    → DistinctIds rows
    → find_active id rows ≡ some t
    → (d ≡ false) ⊎ (force ≡ true) ⊎ (count_incomplete_descendants rows t.id ≡ some 0)
    → (r : LifecycleResult) × (rows' : List TaskRow) × (complete_task_lifecycle rows id d t.version
          force now
        ≡ ok (r, rows'))
unfolding check_subtasks
complete_task_lifecycle-succeeds rows id d force now t distinct f may = (
  result rows id d t.version force now t,
  rows_after rows id d t.version force now t,
  complete_passed rows id d t.version force now t distinct f refl (ground arith),
)

-- ===== src/Lifecycle/Saving.antt =====
-- saveLifecycleState: an update that counts on the version it read.
use atlaspm.Base.{
  ℕ, ◌==◌, ◌≡◌, ◌≢◌, ◌⊎◌, inl, inr, refl, ap, subst, ◌∙◌, Bool, false, none, some, List, [], ◌∷◌,
  arith, if◌then◌else◌, any, count, update_where, ok, err, Bool-cases, Option-cases, ==→eq,
}
use atlaspm.Store.{TaskRow, is_active, find_active}
use atlaspm.Progress.{Transition}
use atlaspm.Lifecycle.{
  is_current, apply_transition, save_lifecycle_state, task_not_found, version_conflict,
}

abbrev pub has_row_id : ℕ → TaskRow → Bool
has_row_id id t = t.id == id

-- the primary key of the table
abbrev pub DistinctIds : List TaskRow → Type 0
DistinctIds [] = Unit {0}
DistinctIds (t ∷ ts) = (any (has_row_id t.id) ts ≡ false) × DistinctIds ts

-- Where no row has the id, nothing is current, active or changed.
absent :
    (id e : ℕ) (rows : List TaskRow)
    → any (has_row_id id) rows ≡ false
    → (count (is_current id e) rows ≡ 0) × (find_active id rows ≡ none)
absent id e [] h = (refl, refl)
absent id e (t ∷ rows) h = ground (arith, absent id e rows)

pub find_active-id :
    (id : ℕ) (rows : List TaskRow) (t : TaskRow) → find_active id rows ≡ some t → t.id ≡ id
find_active-id id [] t h = cc h
find_active-id id (x ∷ rows) t h = ground (arith, find_active-id id rows t)

-- How many rows an update with an expected version touches.
pub count-current :
    (id e : ℕ) (rows : List TaskRow) (t : TaskRow)
    → DistinctIds rows
    → find_active id rows ≡ some t
    → count (is_current id e) rows ≡ (if t.version == e then 1 else 0)
count-current id e [] t d f = cc f
count-current id e (x ∷ rows) t d f = elim (Bool-cases (x.id == id)) [
  | inl hit ↦
      let k = ==→eq x.id id hit in
      let (gone, none_left) =
        absent id e rows (subst (λ i. any (has_row_id i) rows ≡ false) k d.0) in
      ground arith
  | inr miss ↦ ground (arith, count-current id e rows t d.1)
]

count-missing :
    (id e : ℕ) (rows : List TaskRow) → find_active id rows ≡ none → count (is_current id e) rows ≡ 0
count-missing id e [] f = refl
count-missing id e (x ∷ rows) f = ground (arith, count-missing id e rows)

pub find_active-update :
    (id e : ℕ) (x : Transition) (rows : List TaskRow) (t : TaskRow)
    → find_active id rows ≡ some t
    → t.version ≡ e
    → find_active id (update_where (is_current id e) (apply_transition x) rows)
      ≡ some (apply_transition x t)
find_active-update id e x [] t f v = cc f
find_active-update id e x (r ∷ rows) t f v = elim (Bool-cases (is_active id r)) [
  | inl hit ↦
      let k : r ≡ t = ground arith in
      let w : r.version ≡ e = ap (λ y. y.version) k ∙ v in
      subst
        (λ y.
          find_active id (update_where (is_current id e) (apply_transition x) (r ∷ rows))
          ≡ some (apply_transition x y))
        k (ground arith)
  | inr miss ↦ ground (arith, find_active-update id e x rows t)
]

pub find_active-other :
    (id j e : ℕ) (x : Transition) (rows : List TaskRow)
    → j ≢ id
    → find_active j (update_where (is_current id e) (apply_transition x) rows) ≡ find_active j rows
find_active-other id j e x [] n = refl
find_active-other id j e x (r ∷ rows) n = ground (arith, find_active-other id j e x rows n)

-- Every branch, in the terms of the code: with the version that the live task has, it writes the new
-- row; with another it is a conflict; without a live task the task is not found.
pub save_lifecycle_state_cases :
    (rows : List TaskRow) (id e : ℕ) (x : Transition)
    → DistinctIds rows
    → ((find_active id rows ≡ none) × (save_lifecycle_state rows id e x ≡ err task_not_found))
      ⊎ ((t : TaskRow) × (find_active id rows ≡ some t)
          × (((t.version ≢ e) × (save_lifecycle_state rows id e x ≡ err version_conflict))
              ⊎ ((t.version ≡ e)
                  × (save_lifecycle_state rows id e x
                      ≡ ok (
                        apply_transition x t,
                        update_where (is_current id e) (apply_transition x) rows,
                      )))))
unfolding save_lifecycle_state
save_lifecycle_state_cases rows id e x d = elim (Option-cases (find_active id rows)) [
  | inl f ↦ inl (f, ground (arith, count-missing id e rows f))
  | inr (t, f) ↦ elim (Bool-cases (t.version == e)) [
    | inl v ↦
        let k = ==→eq t.version e v in
        inr (
          t,
          f,
          inr (
            k,
            ground (arith, count-current id e rows t d f, find_active-update id e x rows t f k),
          ),
        )
    | inr v ↦ inr (t, f, inl ((λ k. ground arith), ground (arith, count-current id e rows t d f)))
  ]
]

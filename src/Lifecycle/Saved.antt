-- ===== src/Lifecycle/Saved.antt =====
-- saveLifecycleState in terms of the rows of the table and their columns.
use atlaspm.Base.{
  ℕ, In, true, sym, ◌+◌, ==_self, ◌≡◌, ◌≢◌, ◌⊎◌, inl, inr, refl, subst, false, none, some, List, [],
  ◌∷◌, arith, update_where, ok, err, Bool-cases, ==→eq,
}
use atlaspm.Store.{is_none_lem, TaskRow, is_active, find_active}
use atlaspm.Progress.{Transition}
use atlaspm.Lifecycle.{
  is_current, apply_transition, save_lifecycle_state, task_not_found, version_conflict,
}
use atlaspm.Lifecycle.Saving.{DistinctIds, save_lifecycle_state_cases}

-- the row of a live task
pub record IsLiveRow (rows : List TaskRow) (id : ℕ) (t : TaskRow) : Type 0 where
  pub row : In t rows
  pub key : t.id ≡ id
  pub live : t.deleted_at ≡ none

-- the row `u` is the row `t` in the state `x`, one version on
pub record Written (x : Transition) (t u : TaskRow) : Type 0 where
  pub status : u.status ≡ x.status
  pub progress_percent : u.progress_percent ≡ x.progress_percent
  pub completed_at : u.completed_at ≡ x.completed_at
  pub version : u.version ≡ t.version + 1
  pub id : u.id ≡ t.id
  pub project_id : u.project_id ≡ t.project_id
  pub section_id : u.section_id ≡ t.section_id
  pub parent_id : u.parent_id ≡ t.parent_id
  pub type : u.type ≡ t.type
  pub deleted_at : u.deleted_at ≡ t.deleted_at

-- the live row of that id and version is written, and every other row is as it was
abbrev pub WrittenRows : (id version : ℕ) → Transition → List TaskRow → List TaskRow → Type 0
WrittenRows id e x [] [] = Unit {0}
WrittenRows id e x [] (u ∷ us) = ⊥
WrittenRows id e x (t ∷ ts) [] = ⊥
WrittenRows id e x (t ∷ ts) (u ∷ us) =
    (t.id ≡ id → t.deleted_at ≡ none → t.version ≡ e → Written x t u)
    × ((t.id ≢ id) ⊎ (t.deleted_at ≢ none) ⊎ (t.version ≢ e) → u ≡ t)
    × WrittenRows id e x ts us

apply_transition-Written : (x : Transition) (t : TaskRow) → Written x t (apply_transition x t)
apply_transition-Written x t = record {
  status = refl;
  progress_percent = refl;
  completed_at = refl;
  version = refl;
  id = refl;
  project_id = refl;
  section_id = refl;
  parent_id = refl;
  type = refl;
  deleted_at = refl;
}

is_current_lem :
    (id e : ℕ) (t : TaskRow)
    → is_current id e t ≡ true
    → (t.id ≡ id) × (t.deleted_at ≡ none) × (t.version ≡ e)
is_current_lem id e t h = (
  ==→eq t.id id (ground arith),
  is_none_lem t.deleted_at (ground arith),
  ==→eq t.version e (ground arith),
)

not_current :
    (id e : ℕ) (t : TaskRow)
    → is_current id e t ≡ false
    → t.id ≡ id
    → t.deleted_at ≡ none
    → t.version ≡ e
    → ⊥
not_current id e t h a b c =
    let hit : is_current id e t ≡ true = rw (a, b, c, ==_self id, ==_self e) refl in cc (h, hit)

update_where-WrittenRows :
    (id e : ℕ) (x : Transition) (rows : List TaskRow)
    → WrittenRows id e x rows (update_where (is_current id e) (apply_transition x) rows)
update_where-WrittenRows id e x [] = tt
update_where-WrittenRows id e x (t ∷ ts) = elim (Bool-cases (is_current id e t)) [
  | inl hit ↦
      let (a, b, c) = is_current_lem id e t hit in
      rw hit (
        (λ k l v. apply_transition-Written x t),
        (λ o. elim o [
          | inl k ↦ absurd (k a)
          | inr (inl k) ↦ absurd (k b)
          | inr (inr k) ↦ absurd (k c)
        ]),
        update_where-WrittenRows id e x ts,
      )
  | inr miss ↦ rw miss (
    (λ k l v. absurd (not_current id e t miss k l v)),
    (λ o. refl),
    update_where-WrittenRows id e x ts,
  )
]

find_active-IsLiveRow :
    (id : ℕ) (rows : List TaskRow) (t : TaskRow)
    → find_active id rows ≡ some t
    → IsLiveRow rows id t
find_active-IsLiveRow id [] t f = absurd (cc f)
find_active-IsLiveRow id (r ∷ rows) t f = elim (Bool-cases (is_active id r)) [
  | inl hit ↦
      let k : r ≡ t = ground arith in
      record {
        row = inl k;
        key = subst (λ y. y.id ≡ id) k (==→eq r.id id (ground arith));
        live = subst (λ y. y.deleted_at ≡ none) k (is_none_lem r.deleted_at (ground arith));
      }
  | inr miss ↦
      let h = find_active-IsLiveRow id rows t (ground arith) in
      record { row = inr h.row; key = h.key; live = h.live }
]

no-IsLiveRow :
    (id : ℕ) (rows : List TaskRow) (t : TaskRow)
    → find_active id rows ≡ none
    → ¬ IsLiveRow rows id t
no-IsLiveRow id rows t f h = gone rows f h.row
  where
    gone : (xs : List TaskRow) → find_active id xs ≡ none → ¬ In t xs
    gone [] f i = i
    gone (y ∷ xs) f (inl k) =
        let hit : is_active id y ≡ true =
          subst (λ z. is_active id z ≡ true) (sym k)
            (rw (h.key, h.live) (ground (arith, ==_self id))) in
        absurd (ground (arith, hit))
    gone (y ∷ xs) f (inr i) = gone xs (ground arith) i

-- `saveLifecycleState` on every branch, where no two rows have one id: with the version that the live
-- task has, it returns that row with the new status, progress and completion time, one version on and
-- with its other columns kept, and in the table that row alone is changed so; with another version it
-- is a conflict; without a live task the task is not found.
pub save_lifecycle_state_lem :
    (rows : List TaskRow) (id e : ℕ) (x : Transition)
    → DistinctIds rows
    → (((t : TaskRow) → ¬ IsLiveRow rows id t)
        × (save_lifecycle_state rows id e x ≡ err task_not_found))
      ⊎ ((t : TaskRow) × IsLiveRow rows id t
          × (((t.version ≢ e) × (save_lifecycle_state rows id e x ≡ err version_conflict))
              ⊎ ((t.version ≡ e)
                  × (u : TaskRow) × (rows' : List TaskRow) × (save_lifecycle_state rows id e x
                      ≡ ok (u, rows'))
                  × Written x t u
                  × WrittenRows id e x rows rows')))
save_lifecycle_state_lem rows id e x d = elim (save_lifecycle_state_cases rows id e x d) [
  | inl (f, w) ↦ inl ((λ t. no-IsLiveRow id rows t f), w)
  | inr (t, f, inl (v, w)) ↦ inr (t, find_active-IsLiveRow id rows t f, inl (v, w))
  | inr (t, f, inr (v, w)) ↦ inr (
    t,
    find_active-IsLiveRow id rows t f,
    inr (
      v,
      apply_transition x t,
      update_where (is_current id e) (apply_transition x) rows,
      w,
      apply_transition-Written x t,
      update_where-WrittenRows id e x rows,
    ),
  )
]

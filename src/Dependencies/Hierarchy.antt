-- ===== src/Dependencies/Hierarchy.antt =====
-- validateHierarchyDepth of apps/core-api/src/tasks/cycle-detection.service.ts, and createSubtask of
-- subtask.service.ts, which calls it before it writes.
use atlaspm.Base.{
  ℕ, arith, In, any, subst, true, false, Bool-cases, ==→eq, ==_self, zero, suc, ◌==◌, ◌≡◌, ◌↔◌, ◌∙◌,
  sym, refl, inl, inr, Option, none, some, List, [], ◌∷◌, ◌++◌, find, Result, ok, err, ◌>>◌,
  Option-cases, Bool,
}
use atlaspm.Store.{TaskRow}
use atlaspm.Lifecycle.Saving.{DistinctIds}

pub data HierarchyError : Type 0 where
  too_deep : HierarchyError

abbrev pub has_row_id : ℕ → TaskRow → Bool
has_row_id id t = t.id == id

-- `(await task.findUnique({ where: { id } }))?.parentId`, deleted tasks included
abbrev pub parent_of : List TaskRow → ℕ → Option ℕ
parent_of rows id = elim (find (has_row_id id) rows) [ none ↦ none | some t ↦ t.parent_id ]

-- the loop of validateHierarchyDepth, with the rounds that are left until depth passes maxDepth
unfoldable pub check_depth : List TaskRow → ℕ → ℕ → Result HierarchyError (Unit {0})
check_depth rows zero current = err too_deep
check_depth rows (suc left) current = elim (parent_of rows current) [
  | none ↦ ok tt
  | some p ↦ check_depth rows left p
]

-- validateHierarchyDepth
unfoldable pub validate_hierarchy_depth :
    List TaskRow → (parent_id max_depth : ℕ) → Result HierarchyError (Unit {0})
validate_hierarchy_depth rows parent_id max_depth = check_depth rows max_depth parent_id

-- createSubtask; `t` is the row that the database makes of the data
pub create_subtask : List TaskRow → (parent_id : ℕ) → TaskRow → Result HierarchyError (List TaskRow)
create_subtask rows parent_id t =
    validate_hierarchy_depth rows parent_id 5
    >> ok (rows ++ record t { parent_id = some parent_id } ∷ [])

-- a task of that id, deleted or not, has the parent `p`
abbrev pub IsParent : List TaskRow → ℕ → ℕ → Type 0
IsParent rows id p = (t : TaskRow) × In t rows × (t.id ≡ id) × (t.parent_id ≡ some p)

-- there is a chain of so many parents above a task
pub data Above (rows : List TaskRow) : ℕ → ℕ → Type 0 where
  end : {id : ℕ} → Above rows zero id
  up : {n id p : ℕ} → IsParent rows id p → Above rows n p → Above rows (suc n) id

parent_of-IsParent :
    (rows : List TaskRow) (id p : ℕ) → parent_of rows id ≡ some p → IsParent rows id p
parent_of-IsParent [] id p e = absurd (cc e)
parent_of-IsParent (x ∷ rows) id p e = elim (Bool-cases (x.id == id)) [
  | inl hit ↦ (x, inl refl, ==→eq x.id id hit, ground arith)
  | inr miss ↦ let (t, i, k, q) = parent_of-IsParent rows id p (ground arith) in (t, inr i, k, q)
]

In-has_row_id : (t : TaskRow) (rows : List TaskRow) → In t rows → any (has_row_id t.id) rows ≡ true
In-has_row_id t [] i = absurd i
In-has_row_id t (x ∷ rows) (inl e) =
    let hit : (x.id == t.id) ≡ true = subst (λ y. (y.id == t.id) ≡ true) (sym e) (==_self t.id) in
    ground arith
In-has_row_id t (x ∷ rows) (inr i) = ground (arith, In-has_row_id t rows i)

IsParent-parent_of :
    (rows : List TaskRow) (id p : ℕ)
    → DistinctIds rows
    → IsParent rows id p
    → parent_of rows id ≡ some p
IsParent-parent_of [] id p d (t, i, k, e) = absurd i
IsParent-parent_of (x ∷ rows) id p d (t, inl same, k, e) =
    let hit : (t.id == id) ≡ true = subst (λ j. (j == id) ≡ true) (sym k) (==_self id) in
    subst (λ y. parent_of (y ∷ rows) id ≡ some p) (sym same) (ground (arith, hit, e))
IsParent-parent_of (x ∷ rows) id p d (t, inr i, k, e) = elim (Bool-cases (x.id == id)) [
  | inl hit ↦
      let there = In-has_row_id t rows i in
      let here = d.0 in
      let same : x.id ≡ t.id = ==→eq x.id id hit ∙ sym k in
      absurd (cc (there, subst (λ j. any (has_row_id j) rows ≡ false) same here))
  | inr miss ↦ rw (parent_of, miss) (IsParent-parent_of rows id p d.1 (t, i, k, e))
]

check_depth-up :
    (rows : List TaskRow) (left id p : ℕ)
    → parent_of rows id ≡ some p
    → check_depth rows (suc left) id ≡ check_depth rows left p
unfolding check_depth
check_depth-up rows left id p e = rw (check_depth, e) refl

check_depth-Above :
    (rows : List TaskRow) (left id : ℕ)
    → DistinctIds rows
    → check_depth rows left id ≡ ok tt
    → ¬ Above rows left id
unfolding check_depth
check_depth-Above rows zero id d e a = absurd (cc e)
check_depth-Above rows (suc left) id d e (up {p} k a) =
    check_depth-Above rows left p d
      (sym (check_depth-up rows left id p (IsParent-parent_of rows id p d k)) ∙ e) a

Above-check_depth :
    (rows : List TaskRow) (left id : ℕ) → (¬ Above rows left id) → check_depth rows left id ≡ ok tt
unfolding check_depth
Above-check_depth rows zero id n = absurd (n end)
Above-check_depth rows (suc left) id n = elim (Option-cases (parent_of rows id)) [
  | inl top ↦ rw (check_depth, top) refl
  | inr (p, e) ↦
      check_depth-up rows left id p e
      ∙ Above-check_depth rows left p (λ a. n (up (parent_of-IsParent rows id p e) a))
]

-- On a table without two rows of one id, `validateHierarchyDepth` accepts a parent exactly if there is
-- no chain of `maxDepth` parents above it, deleted tasks counted; so a chain of parents that never
-- ends is refused, whatever the depth.
pub validate_hierarchy_depth_iff :
    (rows : List TaskRow) (id max_depth : ℕ)
    → DistinctIds rows
    → (validate_hierarchy_depth rows id max_depth ≡ ok tt) ↔ (¬ Above rows max_depth id)
unfolding validate_hierarchy_depth
validate_hierarchy_depth_iff rows id max_depth d =
    (check_depth-Above rows max_depth id d, Above-check_depth rows max_depth id)

-- ===== src/Approvals/Rows.antt =====
-- The approval of a task among the rows, after each change of the rows.
use atlaspm.Base.{
  ℕ, ◌≡◌, ◌≢◌, refl, true, false, not, none, some, List, [], ◌∷◌, ◌++◌, arith, inl, inr, find, any,
  select, update_where, Bool-cases,
}
use atlaspm.Approvals.{Approval, for_task, upsert_approval}

pub find-change :
    (t : ℕ) (change : Approval → Approval) (rows : List Approval) (a : Approval)
    → ((x : Approval) → (change x).task_id ≡ x.task_id)
    → find (for_task t) rows ≡ some a
    → find (for_task t) (update_where (for_task t) change rows) ≡ some (change a)
find-change t change [] a keeps f = absurd (cc f)
find-change t change (x ∷ rows) a keeps f =
    ground (arith, find-change t change rows a keeps, keeps x)

pub find-change_other :
    (t u : ℕ) (change : Approval → Approval) (rows : List Approval)
    → ((x : Approval) → (change x).task_id ≡ x.task_id)
    → u ≢ t
    → find (for_task u) (update_where (for_task t) change rows) ≡ find (for_task u) rows
find-change_other t u change [] keeps ne = refl
find-change_other t u change (x ∷ rows) keeps ne =
    ground (arith, find-change_other t u change rows keeps ne, keeps x)

pub find-cancel :
    (t : ℕ) (rows : List Approval)
    → find (for_task t) (select (λ x. not (for_task t x)) rows) ≡ none
find-cancel t [] = refl
find-cancel t (x ∷ rows) = ground (arith, find-cancel t rows)

pub find-cancel_other :
    (t u : ℕ) (rows : List Approval)
    → u ≢ t
    → find (for_task u) (select (λ x. not (for_task t x)) rows) ≡ find (for_task u) rows
find-cancel_other t u [] ne = refl
find-cancel_other t u (x ∷ rows) ne = ground (arith, find-cancel_other t u rows ne)

pub find-add :
    (a : Approval) (rows : List Approval)
    → any (for_task a.task_id) rows ≡ false
    → find (for_task a.task_id) (rows ++ a ∷ []) ≡ some a
find-add a [] h = ground arith
find-add a (x ∷ rows) h = ground (arith, find-add a rows)

pub find-add_other :
    (a : Approval) (u : ℕ) (rows : List Approval)
    → u ≢ a.task_id
    → find (for_task u) (rows ++ a ∷ []) ≡ find (for_task u) rows
find-add_other a u [] ne = ground arith
find-add_other a u (x ∷ rows) ne = ground (arith, find-add_other a u rows ne)

pub find-any :
    (t : ℕ) (rows : List Approval)
    → any (for_task t) rows ≡ true
    → (a : Approval) × (find (for_task t) rows ≡ some a)
find-any t [] h = absurd (cc h)
find-any t (x ∷ rows) h = elim (Bool-cases (for_task t x)) [
  | inl hit ↦ (x, ground arith)
  | inr miss ↦ let (a, f) = find-any t rows (ground arith) in (a, ground arith)
]

pub find-upsert_other :
    (a : Approval) (change : Approval → Approval) (u : ℕ) (rows : List Approval)
    → ((x : Approval) → (change x).task_id ≡ x.task_id)
    → u ≢ a.task_id
    → find (for_task u) (upsert_approval a change rows) ≡ find (for_task u) rows
find-upsert_other a change u rows keeps ne = elim (Bool-cases (any (for_task a.task_id) rows)) [
  | inl there ↦ rw there (find-change_other a.task_id u change rows keeps ne)
  | inr new ↦ rw new (find-add_other a u rows ne)
]

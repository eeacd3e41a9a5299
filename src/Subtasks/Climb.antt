-- ===== src/Subtasks/Climb.antt =====
-- Subtasks: the two loops that climb from a task to its root.
use atlaspm.Base.{
  ℕ, zero, suc, ◌≡◌, refl, sym, Option, none, some, List, [], ◌∷◌, Option-cases, inl, inr,
  if◌then◌else◌, arith,
}
use atlaspm.Store.{TaskRow, is_none, find_active}
use atlaspm.Subtasks.{get_root_task, climb, get_breadcrumb_path}

-- the first task of a path, if it is a root
abbrev pub root_of : List TaskRow → Option TaskRow
root_of [] = none
root_of (t ∷ ts) = if is_none t.parent_id then some t else none

abbrev pub root_after : Option (List TaskRow) → Option (Option TaskRow)
root_after none = none
root_after (some path) = some (root_of path)

climb-root :
    (fuel : ℕ) (rows : List TaskRow) (id : ℕ) (path : List TaskRow)
    → root_of path ≡ none
    → root_after (climb fuel rows id path) ≡ get_root_task fuel rows id
unfolding climb get_root_task
climb-root zero rows id path h = refl
climb-root (suc fuel) rows id path h = elim (Option-cases (find_active id rows)) [
  | inl e ↦ rw (climb, get_root_task, e, h) refl
  | inr (t, e) ↦ elim (Option-cases t.parent_id) [
    | inl q ↦ ground (arith, e, q)
    | inr (p, q) ↦
        let ih : root_after (climb fuel rows p (t ∷ path)) ≡ get_root_task fuel rows p =
          climb-root fuel rows p (t ∷ path) (ground (arith, q)) in
        ground (arith, e, q, ih)
  ]
]

-- The search for the root and the breadcrumb path end together, with any fuel, and the root is the
-- first task of the path when that has no parent; there is none when the climb ends at a task whose
-- parent is deleted or missing.
pub get_root_task-get_breadcrumb_path :
    (fuel : ℕ) (rows : List TaskRow) (id : ℕ)
    → get_root_task fuel rows id ≡ root_after (get_breadcrumb_path fuel rows id)
unfolding get_breadcrumb_path
get_root_task-get_breadcrumb_path fuel rows id = sym (climb-root fuel rows id [] refl)

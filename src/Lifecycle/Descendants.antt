-- ===== src/Lifecycle/Descendants.antt =====
-- collectDescendantIds: it ends, and finds exactly the live tasks below a task.
pub mod Loop
use atlaspm.Base.{
  ℕ, In, sym, zero, suc, ◌+◌, ◌==◌, ◌≤◌, ◌<◌, ◌≡◌, ◌≢◌, ◌↔◌, ◌⊎◌, inl, inr, refl, subst, ap, Bool,
  true, false, not, ◌&&◌, ◌||◌, Option, none, some, List, [], ◌∷◌, ◌++◌, map, arith, select, mem,
  mem-append, length, missing, missing_mono, missing-add, missing-le-length, Bool-cases, List-cases,
  Option-cases, ==→eq, ==_self,
}
use atlaspm.Store.{is_none_lem, TaskRow, is_none}
use atlaspm.Lifecycle.{in_frontier, children, collect, collect_descendant_ids}

-- `c` is a live task with the parent `p`
abbrev pub Child : List TaskRow → ℕ → ℕ → Type 0
Child rows p c =
    (t : TaskRow) × In t rows × (t.id ≡ c) × (t.parent_id ≡ some p) × (t.deleted_at ≡ none)

-- the live tasks below `id`, through live tasks
pub data Below (rows : List TaskRow) (id : ℕ) : ℕ → Type 0 where
  child : {c : ℕ} → Child rows id c → Below rows id c
  deeper : {p c : ℕ} → Below rows id p → Child rows p c → Below rows id c

Child-later : (x : TaskRow) (rows : List TaskRow) (p c : ℕ) → Child rows p c → Child (x ∷ rows) p c
Child-later x rows p c (t, i, k, e, live) = (t, inr i, k, e, live)

-- The children of a frontier are those of its members.
pub mem-children :
    (rows : List TaskRow) (frontier : List ℕ) (c : ℕ)
    → mem c (children rows frontier) ≡ true
    → (p : ℕ) × (mem p frontier ≡ true) × Child rows p c
mem-children [] frontier c h = absurd (cc h)
mem-children (t ∷ rows) frontier c h = elim (Bool-cases (mem c (children rows frontier))) [
  | inl later ↦
      let (p, m, h') = mem-children rows frontier c later in (p, m, Child-later t rows p c h')
  | inr now ↦ elim (Option-cases t.parent_id) [
    | inl e ↦ absurd (ground arith)
    | inr (p, e) ↦ (
      p,
      ground arith,
      (t, inl refl, ==→eq t.id c (ground arith), e, is_none_lem t.deleted_at (ground arith)),
    )
  ]
]

pub children-mem :
    (rows : List TaskRow) (frontier : List ℕ) (p c : ℕ)
    → mem p frontier ≡ true
    → Child rows p c
    → mem c (children rows frontier) ≡ true
children-mem [] frontier p c m (t, i, k, e, live) = absurd i
children-mem (x ∷ rows) frontier p c m (t, inr i, k, e, live) =
    let later = children-mem rows frontier p c m (t, i, k, e, live) in ground arith
children-mem (x ∷ rows) frontier p c m (t, inl same, k, e, live) =
    let here : (in_frontier frontier x.parent_id && is_none x.deleted_at) ≡ true =
      subst (λ y. (in_frontier frontier y.parent_id && is_none y.deleted_at) ≡ true) (sym same)
        (rw (e, live, m) refl) in
    let named : (x.id == c) ≡ true =
      subst (λ y. (y.id == c) ≡ true) (sym same) (rw k (==_self c)) in
    ground arith

abbrev pub ids : List TaskRow → List ℕ
ids rows = map (λ t. t.id) rows

pub length-ids : (rows : List TaskRow) → length (ids rows) ≡ length rows
length-ids [] = refl
length-ids (t ∷ rows) = omega (arith, length-ids rows)

pub children-ids :
    (rows : List TaskRow) (frontier : List ℕ) (c : ℕ)
    → mem c (children rows frontier) ≡ true
    → mem c (ids rows) ≡ true
children-ids [] frontier c h = h
children-ids (t ∷ rows) frontier c h = ground (arith, children-ids rows frontier c)

pub mem-select :
    (seen : List ℕ) (c : ℕ) (xs : List ℕ)
    → mem c (select (λ x. not (mem x seen)) xs) ≡ (not (mem c seen) && mem c xs)
mem-select seen c [] = ground arith
mem-select seen c (x ∷ xs) = elim (Bool-cases (x == c)) [
  | inl e ↦
      let k = ==→eq x c e in
      let same : mem x seen ≡ mem c seen = ap (λ y. mem y seen) k in
      ground (arith, mem-select seen c xs)
  | inr e ↦ ground (arith, mem-select seen c xs)
]

-- the new frontier of a round
abbrev pub next : List TaskRow → List ℕ → List ℕ → List ℕ
next rows visited frontier = select (λ c. not (mem c visited)) (children rows frontier)

-- ===== src/Subtasks/Levels.antt =====
-- Subtasks: the tree lists the tasks below a task level by level.
use atlaspm.Base.{
  ℕ, ◌⊎◌, subst, sym, zero, suc, ◌+◌, ◌≤◌, ◌<◌, ◌==◌, ltb, ◌≡◌, refl, arith, true, false, List, [],
  ◌∷◌, ◌++◌, if◌then◌else◌, ◌∙◌, ap, Bool-cases, inl, inr,
}
use atlaspm.Store.{TaskRow}
use atlaspm.Subtasks.Children.{IsChildren, get_subtasks-IsChildren}
use atlaspm.Subtasks.{
  Tree, Forest, node, leaf, grow, nodes, build_tree, get_subtasks, get_subtask_tree,
}

-- the tasks of a tree at one depth, in the order of the tree
unfoldable mutual
  pub at_depth : ℕ → Forest → List TaskRow
  at_depth d leaf = []
  at_depth d (grow t f) = at_depth_of d t ++ at_depth d f

  pub at_depth_of : ℕ → Tree → List TaskRow
  at_depth_of d (node t e f) = (if e == d then t ∷ [] else []) ++ at_depth d f

abbrev below : (ℕ → List TaskRow) → List TaskRow → List TaskRow
below f [] = []
below f (t ∷ ts) = f t.id ++ below f ts

below_nothing : (ts : List TaskRow) → below (λ i. []) ts ≡ []
below_nothing [] = refl
below_nothing (t ∷ ts) = below_nothing ts

-- the tasks so many levels below the children of a task
abbrev level : (ℕ → List TaskRow) → ℕ → ℕ → List TaskRow
level subtasks zero id = subtasks id
level subtasks (suc k) id = below (level subtasks k) (subtasks id)

module _ (build : ℕ → Forest) where
  nodes_above :
      (depth d : ℕ) (ts : List TaskRow)
      → d < depth
      → ((id : ℕ) → at_depth d (build id) ≡ [])
      → at_depth d (nodes build depth ts) ≡ []
  unfolding at_depth at_depth_of
  nodes_above depth d [] h k = refl
  nodes_above depth d (t ∷ ts) h k =
      let other : depth == d ≡ false = ground (arith, h) in
      rw (nodes, other, k t.id, nodes_above depth d ts h k) refl

  nodes_here :
      (depth : ℕ) (ts : List TaskRow)
      → ((id : ℕ) → at_depth depth (build id) ≡ [])
      → at_depth depth (nodes build depth ts) ≡ ts
  unfolding at_depth at_depth_of
  nodes_here depth [] k = refl
  nodes_here depth (t ∷ ts) k =
      let same : depth == depth ≡ true = ground arith in
      rw (nodes, same, k t.id, nodes_here depth ts k) refl

  nodes_below :
      (depth d : ℕ) (f : ℕ → List TaskRow) (ts : List TaskRow)
      → depth < d
      → ((id : ℕ) → at_depth d (build id) ≡ f id)
      → at_depth d (nodes build depth ts) ≡ below f ts
  unfolding at_depth at_depth_of
  nodes_below depth d f [] h k = refl
  nodes_below depth d f (t ∷ ts) h k =
      let other : depth == d ≡ false = ground (arith, h) in
      rw (nodes, other, k t.id, nodes_below depth d f ts h k) refl

module _ (subtasks : ℕ → List TaskRow) where
  too_high : (left depth d id : ℕ) → d < depth → at_depth d (build_tree subtasks left depth id) ≡ []
  unfolding build_tree at_depth at_depth_of
  too_high zero depth d id h = refl
  too_high (suc left) depth d id h =
      nodes_above (build_tree subtasks left (suc depth)) depth d (subtasks id) h
        (λ i. too_high left (suc depth) d i (omega (arith, h)))

  tree_level :
      (left depth k id : ℕ)
      → k < left
      → at_depth (depth + k) (build_tree subtasks left depth id) ≡ level subtasks k id
  unfolding build_tree
  tree_level zero depth k id h = absurd (omega (arith, h))
  tree_level (suc left) depth zero id h =
      ap (λ d. at_depth d (build_tree subtasks (suc left) depth id)) (omega arith)
      ∙ nodes_here (build_tree subtasks left (suc depth)) depth (subtasks id)
          (λ i. too_high left (suc depth) depth i (omega arith))
  tree_level (suc left) depth (suc k) id h =
      nodes_below (build_tree subtasks left (suc depth)) depth (depth + suc k) (level subtasks k)
        (subtasks id) (omega arith)
        (λ i.
          ap (λ d. at_depth d (build_tree subtasks left (suc depth) i)) (omega arith)
          ∙ tree_level left (suc depth) k i (omega (arith, h)))

  too_deep :
      (left depth k id : ℕ)
      → left ≤ k
      → at_depth (depth + k) (build_tree subtasks left depth id) ≡ []
  unfolding build_tree at_depth
  too_deep zero depth k id h = refl
  too_deep (suc left) depth zero id h = absurd (omega (arith, h))
  too_deep (suc left) depth (suc k) id h =
      nodes_below (build_tree subtasks left (suc depth)) depth (depth + suc k) (λ i. [])
        (subtasks id) (omega arith)
        (λ i.
          ap (λ d. at_depth d (build_tree subtasks left (suc depth) i)) (omega arith)
          ∙ too_deep left (suc depth) k i (omega (arith, h)))
      ∙ below_nothing (subtasks id)

-- A depth of the tree, in the terms of the code.
get_subtask_tree-level :
    (position : TaskRow → ℕ) (rows : List TaskRow) (id max_depth k : ℕ)
    → at_depth (suc k) (get_subtask_tree position rows id max_depth)
      ≡ (if ltb k max_depth then level (get_subtasks position rows) k id else [])
unfolding get_subtask_tree
get_subtask_tree-level position rows id max_depth k = elim (Bool-cases (ltb k max_depth)) [
  | inl e ↦ rw e (
      ap (λ d. at_depth d (build_tree (get_subtasks position rows) max_depth 1 id)) (omega arith)
      ∙ tree_level (get_subtasks position rows) max_depth 1 k id (ground (arith, e)))
  | inr e ↦ rw e (
      ap (λ d. at_depth d (build_tree (get_subtasks position rows) max_depth 1 id)) (omega arith)
      ∙ too_deep (get_subtasks position rows) max_depth 1 k id (ground (arith, e)))
]

-- the list is one list for each task, one after the other
abbrev pub Joined : (ℕ → List TaskRow → Type 0) → (tasks joined : List TaskRow) → Type 0
Joined of_task [] ts = ts ≡ []
Joined of_task (c ∷ cs) ts =
    (xs : List TaskRow) × (rest : List TaskRow) × (ts ≡ xs ++ rest)
    × of_task c.id xs
    × Joined of_task cs rest

-- the live tasks so many levels below the subtasks of a task: the subtasks by position, or what is
-- below each of them, one after the other
abbrev pub IsLevel : (TaskRow → ℕ) → List TaskRow → (k id : ℕ) → List TaskRow → Type 0
IsLevel position rows zero id ts = IsChildren position rows id ts
IsLevel position rows (suc k) id ts =
    (cs : List TaskRow) × IsChildren position rows id cs × Joined (IsLevel position rows k) cs ts

below-Joined :
    (of_task : ℕ → List TaskRow → Type 0) (f : ℕ → List TaskRow) (ts : List TaskRow)
    → ((id : ℕ) → of_task id (f id))
    → Joined of_task ts (below f ts)
below-Joined of_task f [] h = refl
below-Joined of_task f (t ∷ ts) h = (f t.id, below f ts, refl, h t.id, below-Joined of_task f ts h)

level-IsLevel :
    (position : TaskRow → ℕ) (rows : List TaskRow) (k id : ℕ)
    → IsLevel position rows k id (level (get_subtasks position rows) k id)
level-IsLevel position rows zero id = get_subtasks-IsChildren position rows id
level-IsLevel position rows (suc k) id = (
  get_subtasks position rows id,
  get_subtasks-IsChildren position rows id,
  below-Joined (IsLevel position rows k) (level (get_subtasks position rows) k)
      (get_subtasks position rows id) (level-IsLevel position rows k),
)

-- At each depth from 1 to the greatest one, the tree of a task lists the live tasks with that task as
-- parent by position (depth 1), or, subtask by subtask, what is a depth less below each of them; below
-- the greatest depth it lists none.
pub get_subtask_tree_lem :
    (position : TaskRow → ℕ) (rows : List TaskRow) (id max_depth k : ℕ)
    → ((k < max_depth)
        × IsLevel position rows k id
            (at_depth (suc k) (get_subtask_tree position rows id max_depth)))
      ⊎ ((max_depth ≤ k) × (at_depth (suc k) (get_subtask_tree position rows id max_depth) ≡ []))
get_subtask_tree_lem position rows id max_depth k = elim (Bool-cases (ltb k max_depth)) [
  | inl e ↦
      let same = get_subtask_tree-level position rows id max_depth k in
      let same' : at_depth (suc k) (get_subtask_tree position rows id max_depth)
          ≡ level (get_subtasks position rows) k id =
        same ∙ rw e refl in
      inl (
        ground (arith, e),
        subst (IsLevel position rows k id) (sym same') (level-IsLevel position rows k id),
      )
  | inr e ↦
      let same = get_subtask_tree-level position rows id max_depth k in
      inr (ground (arith, e), same ∙ rw e refl)
]

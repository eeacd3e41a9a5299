-- ===== src/Dependencies/Walk.antt =====
-- Walks along dependency rows, and what a new row adds to them.
use mathlib.Core.List.{map-append}
use atlaspm.Base.{
  ℕ, ◌==◌, ◌≡◌, refl, Bool, true, List, [], ◌∷◌, ◌++◌, ◌⊎◌, inl, inr, arith, mem, select,
  mem-append,
}
use atlaspm.Dependencies.{Dependency, depends_on}

-- `u` has a row that says it depends on `v`
abbrev pub Edge : List Dependency → ℕ → ℕ → Type 0
Edge rows u v = mem v (depends_on rows u) ≡ true

pub data Walk (rows : List Dependency) (from : ℕ) : ℕ → Type 0 where
  here : Walk rows from from
  step : {u v : ℕ} → Walk rows from u → Edge rows u v → Walk rows from v

-- no task depends on itself, directly or through others
unfoldable pub IsAcyclic : List Dependency → Type 0
IsAcyclic rows = (u v : ℕ) → Edge rows u v → ¬ Walk rows v u

pub Walk-trans :
    {rows : List Dependency} {a b c : ℕ} → Walk rows a b → Walk rows b c → Walk rows a c
Walk-trans p here = p
Walk-trans p (step q e) = step (Walk-trans p q) e

pub Walk-Edge : {rows : List Dependency} {a b : ℕ} → Edge rows a b → Walk rows a b
Walk-Edge e = step here e

-- A walk that starts outside `P`-free ground stays in a set closed under edges.
pub Walk-closed {κ} :
    {rows : List Dependency} {a : ℕ} (P : ℕ → Type κ)
    → ((u v : ℕ) → P u → Edge rows u v → P v)
    → P a
    → {b : ℕ} → Walk rows a b
    → P b
Walk-closed P closed h here = h
Walk-closed P closed h (step {u} {v} p e) = closed u v (Walk-closed P closed h p) e

select-append :
    (p : Dependency → Bool) (xs ys : List Dependency)
    → select p (xs ++ ys) ≡ select p xs ++ select p ys
select-append p [] ys = refl
select-append p (x ∷ xs) ys = ground (arith, select-append p xs ys)

module _ (rows : List Dependency) (row : Dependency) where
  depends_on-append :
      (u : ℕ) → depends_on (rows ++ row ∷ []) u ≡ depends_on rows u ++ depends_on (row ∷ []) u
  depends_on-append u = rw (select-append (λ d. d.task_id == u) rows (row ∷ []), map-append) refl

  -- The edges after a new row are the old ones and its own.
  pub Edge-append :
      (u v : ℕ)
      → Edge (rows ++ row ∷ []) u v
      → Edge rows u v ⊎ ((u ≡ row.task_id) × (v ≡ row.depends_on_id))
  Edge-append u v e =
      ground
        (arith, depends_on-append u, mem-append v (depends_on rows u) (depends_on (row ∷ []) u))

  -- A walk after the new row is an old one, or passes through the row.
  Walk-append :
      {a b : ℕ}
      → Walk (rows ++ row ∷ []) a b
      → Walk rows a b ⊎ (Walk rows a row.task_id × Walk rows row.depends_on_id b)
  Walk-append here = inl here
  Walk-append {a} (step {u} {v} p e) = elim (Edge-append u v e) [
    | inl old ↦ elim (Walk-append p) [ inl q ↦ inl (step q old) | inr (q, r) ↦ inr (q, step r old) ]
    | inr (is_from, is_to) ↦ elim (Walk-append p) [
      | inl q ↦ inr (rw is_from at q, rw is_to here)
      | inr (q, r) ↦ inr (q, rw is_to here)
    ]
  ]

  -- The graph stays acyclic if no walk leads from the new row's target back to its source.
  pub IsAcyclic-append :
      IsAcyclic rows → ¬ Walk rows row.depends_on_id row.task_id → IsAcyclic (rows ++ row ∷ [])
  unfolding IsAcyclic
  IsAcyclic-append acyclic no_way u v e w = elim (Edge-append u v e) [
    | inl old ↦ elim (Walk-append w) [
      | inl q ↦ acyclic u v old q
      | inr (q, r) ↦ no_way (Walk-trans (step r old) q)
    ]
    | inr (is_from, is_to) ↦ elim (Walk-append w) [
      | inl q ↦ no_way (rw (← is_from, ← is_to) q)
      | inr (q, r) ↦ no_way (rw is_from at r)
    ]
  ]

-- ===== src/Closure/Examples.antt =====
-- Closure: tests and runs on a small graph.
use atlaspm.Base.{ℕ, suc, ◌≡◌, ◌≢◌, ◌↔◌, refl, true, some, List, [], ◌∷◌, mem, length}
use atlaspm.Dependencies.{Dependency, blocks, depends_on}
use atlaspm.Closure.{visit, visit_each, dependents_of, get_all_dependencies, get_all_dependents}
use atlaspm.Closure.Search.{Leads}
use atlaspm.Closure.Reach.{get_all_dependencies_lem}

abbrev row : ℕ → ℕ → Dependency
row task on = record { id = 0; task_id = task; depends_on_id = on; type = blocks; created_at = 0 }

-- 1 depends on 2 and 3, both depend on 4, and 4 on 1
abbrev circle : List Dependency
circle = row 1 2 ∷ row 1 3 ∷ row 2 4 ∷ row 3 4 ∷ row 4 1 ∷ []

all_of_one : get_all_dependencies 6 circle 1 ≡ some (2 ∷ 4 ∷ 3 ∷ [])
unfolding get_all_dependencies visit visit_each
all_of_one = refl

all_on_four : get_all_dependents 6 circle 4 ≡ some (2 ∷ 1 ∷ 3 ∷ [])
unfolding get_all_dependents visit visit_each
all_on_four = refl

get_all_dependencies_lem_example :
    (xs : List ℕ) × (ys : List ℕ) × (get_all_dependencies (suc (length circle)) circle 1 ≡ some xs)
    × (get_all_dependents (suc (length circle)) circle 1 ≡ some ys)
    × ((x : ℕ) → (mem x xs ≡ true) ↔ (Leads (depends_on circle) 1 x × (x ≢ 1)))
    × ((y : ℕ) → (mem y ys ≡ true) ↔ (Leads (dependents_of circle) 1 y × (y ≢ 1)))
get_all_dependencies_lem_example = get_all_dependencies_lem circle 1

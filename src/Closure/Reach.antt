-- ===== src/Closure/Reach.antt =====
-- Closure: the search ends, and it answers the tasks that a task leads to.
use atlaspm.Base.{
  ℕ, zero, suc, ◌≤◌, ◌==◌, ◌≡◌, ◌≢◌, ◌↔◌, refl, Bool, true, false, Option, some, List, [], ◌∷◌, mem,
  mem-append, mem-add, missing, missing_mono, missing-add, missing-le-length, length, map, select,
  inl, inr, arith, Bool-cases, ==→eq, subst, sym, ap,
}
use atlaspm.Dependencies.{Dependency, depends_on}
use atlaspm.Closure.{
  Found, enter, push, visit_each, visit, closure, dependents_of, get_all_dependencies,
  get_all_dependents,
}
use atlaspm.Closure.Search.{Leads, first, further, Adds, nothing, then_after, pushed, entered}

module _ (next : ℕ → List ℕ) (us : List ℕ)
    (covers : (u v : ℕ) → mem v (next u) ≡ true → mem v us ≡ true) (root : ℕ) where
  Visits : (d : ℕ) → Found → Option Found → Type 0
  Visits d s answer =
      (u : Found) × (answer ≡ some u) × Adds next root s u × (mem d u.visited ≡ true)

  -- A visit with so much fuel, for each free task that is listed.
  Works : (fuel : ℕ) → (ℕ → Found → Option Found) → Type 0
  Works fuel v =
      (d : ℕ) (s : Found)
      → mem d s.visited ≡ false
      → mem d s.listed ≡ true
      → Leads next root d
      → missing us s.visited ≤ fuel
      → Visits d s (v d s)

  visit_each-Works :
      (fuel : ℕ) (v : ℕ → Found → Option Found) (ds : List ℕ) (s : Found)
      → Works fuel v
      → ((d : ℕ) → mem d ds ≡ true → Leads next root d)
      → missing us s.visited ≤ fuel
      → (u : Found) × (visit_each v ds s ≡ some u)
        × Adds next root s u
        × ((d : ℕ) → mem d ds ≡ true → mem d u.visited ≡ true)
  unfolding visit_each Works Visits
  visit_each-Works fuel v [] s w l h = (s, refl, nothing next root s, λ d m. absurd (cc m))
  visit_each-Works fuel v (d ∷ ds) s w l h = elim (Bool-cases (mem d s.visited)) [
    | inl e ↦
        let (u, run, a, all) = visit_each-Works fuel v ds s w (λ x m. l x (ground (arith, m))) h in
        (
          u,
          rw (visit_each, e) run,
          a,
          λ x m. elim (Bool-cases (d == x)) [
            | inl q ↦ subst (λ z. mem z u.visited ≡ true) (==→eq d x q) (a.grows d e)
            | inr q ↦ all x (ground (arith, m, q))
          ],
        )
    | inr e ↦
        let own : Leads next root d = l d (ground arith) in
        let (t, run, a, now) =
          w d (push d s) e (ground (arith, mem-append d s.listed (d ∷ []))) own h in
        let (u, run', b, all) =
          visit_each-Works fuel v ds t w (λ x m. l x (ground (arith, m)))
            (omega (arith, h, missing_mono us s.visited t.visited (λ x m. a.grows x m))) in
        (
          u,
          rw (visit_each, e, run) run',
          then_after next root s t u
              (then_after next root s (push d s) t (pushed next root d s e own) a) b,
          λ x m. elim (Bool-cases (d == x)) [
            | inl q ↦ subst (λ z. mem z u.visited ≡ true) (==→eq d x q) (b.grows d now)
            | inr q ↦ all x (ground (arith, m, q))
          ],
        )
  ]

  covered : (d : ℕ) → Leads next root d → mem d us ≡ true
  covered d (first m) = covers root d m
  covered d (further {u} l m) = covers u d m

  visit-Works : (fuel : ℕ) → Works fuel (visit fuel next)
  unfolding Works Visits visit
  visit-Works zero d s free told l h =
      absurd (omega (arith, h, missing-add us s.visited d (covered d l) free))
  visit-Works (suc fuel) d s free told l h =
      let enough : missing us (enter d s).visited ≤ fuel =
        rw free (omega (arith, h, missing-add us s.visited d (covered d l) free)) in
      let (u, run, a, all) =
        visit_each-Works fuel (visit fuel next) (next d) (enter d s) (visit-Works fuel)
          (λ x m. further l m) enough in
      (
        u,
        rw (visit, free) run,
        entered next root d s u free told a all,
        a.grows d (ground (arith, mem-add d d s.visited)),
      )

  -- All that the root leads to is visited, once its neighbours are and what is new is closed.
  reached :
      (u : Found)
      → Adds next root (record { visited = root ∷ []; listed = [] }) u
      → ((d : ℕ) → mem d (next root) ≡ true → mem d u.visited ≡ true)
      → (x : ℕ) → Leads next root x
      → mem x u.visited ≡ true
  reached t a all x (first m) = all x m
  reached t a all x (further {u} l m) = elim (Bool-cases (root == u)) [
    | inl e ↦ all x (subst (λ z. mem x (next z) ≡ true) (sym (==→eq root u e)) m)
    | inr e ↦ a.closed u x (ground (arith, e)) (reached t a all u l) m
  ]

  -- The answer, with as much fuel as there are tasks to lead to and one more.
  closure_lem :
      (fuel : ℕ)
      → length us ≤ fuel
      → (xs : List ℕ) × (closure (suc fuel) next root ≡ some xs)
        × ((x : ℕ) → (mem x xs ≡ true) ↔ (Leads next root x × (x ≢ root)))
  unfolding visit
  closure_lem fuel h =
      let start : Found = record { visited = root ∷ []; listed = [] } in
      let (u, run, a, all) =
        visit_each-Works fuel (visit fuel next) (next root) start (visit-Works fuel)
          (λ d m. first m) (omega (arith, h, missing-le-length us (root ∷ []))) in
      let no_root : mem root u.listed ≡ false = a.untold root (ground arith) refl in
      (
        u.listed,
        rw (closure, visit, run) refl,
        λ x. (
          (λ m. (
            elim (a.sound x m) [ inl k ↦ absurd (cc k) | inr l ↦ l ],
            λ e. absurd (ground (arith, e, m, no_root)),
          )),
          (λ (l, n). a.told x (ground (arith, n)) (reached u a all x l)),
        ),
      )

mem-map-select :
    (f : Dependency → ℕ) (p : Dependency → Bool) (rows : List Dependency) (v : ℕ)
    → mem v (map f (select p rows)) ≡ true
    → mem v (map f rows) ≡ true
mem-map-select f p [] v m = m
mem-map-select f p (r ∷ rs) v m = ground (arith, mem-map-select f p rs v, m)

length-map : (f : Dependency → ℕ) (rows : List Dependency) → length (map f rows) ≡ length rows
length-map f [] = refl
length-map f (r ∷ rs) = ap suc (length-map f rs)

-- With one more round than there are rows both searches end. The one answers the other tasks that a
-- task depends on, directly or through others, and the second the other tasks that so depend on it.
pub get_all_dependencies_lem :
    (rows : List Dependency) (id : ℕ)
    → (xs : List ℕ) × (ys : List ℕ) × (get_all_dependencies (suc (length rows)) rows id ≡ some xs)
      × (get_all_dependents (suc (length rows)) rows id ≡ some ys)
      × ((x : ℕ) → (mem x xs ≡ true) ↔ (Leads (depends_on rows) id x × (x ≢ id)))
      × ((y : ℕ) → (mem y ys ≡ true) ↔ (Leads (dependents_of rows) id y × (y ≢ id)))
unfolding get_all_dependencies get_all_dependents
get_all_dependencies_lem rows id =
    let (xs, run, found) =
      closure_lem (depends_on rows) (map (λ d. d.depends_on_id) rows)
        (λ u v m. mem-map-select (λ d. d.depends_on_id) (λ d. d.task_id == u) rows v m) id
        (length rows) (omega (arith, length-map (λ d. d.depends_on_id) rows)) in
    let (ys, run', found') =
      closure_lem (dependents_of rows) (map (λ d. d.task_id) rows)
        (λ u v m. mem-map-select (λ d. d.task_id) (λ d. d.depends_on_id == u) rows v m) id
        (length rows) (omega (arith, length-map (λ d. d.task_id) rows)) in
    (xs, ys, run, run', found, found')

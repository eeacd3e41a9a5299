-- ===== src/Closure/Search.antt =====
-- Closure: what a visit adds, and that it comes to an end.
use atlaspm.Base.{
  ℕ, ◌==◌, ◌≡◌, true, false, List, [], ◌∷◌, mem, mem-append, mem-add, ◌⊎◌, inl, inr, arith,
  Bool-cases, ==→eq, subst, sym,
}
use atlaspm.Closure.{Found, enter, push}

-- a way of at least one step
pub data Leads (next : ℕ → List ℕ) (from : ℕ) : ℕ → Type 0 where
  first : {v : ℕ} → mem v (next from) ≡ true → Leads next from v
  further : {u v : ℕ} → Leads next from u → mem v (next u) ≡ true → Leads next from v

-- What a part of the search adds: all that is new is listed, and what it leads to is visited.
pub record Adds (next : ℕ → List ℕ) (root : ℕ) (s s' : Found) : Type 0 where
  pub grows : (x : ℕ) → mem x s.visited ≡ true → mem x s'.visited ≡ true
  pub kept : (x : ℕ) → mem x s.listed ≡ true → mem x s'.listed ≡ true
  pub closed :
      (x y : ℕ)
      → mem x s.visited ≡ false
      → mem x s'.visited ≡ true
      → mem y (next x) ≡ true
      → mem y s'.visited ≡ true
  pub told : (x : ℕ) → mem x s.visited ≡ false → mem x s'.visited ≡ true → mem x s'.listed ≡ true
  pub sound : (x : ℕ) → mem x s'.listed ≡ true → (mem x s.listed ≡ true) ⊎ Leads next root x
  pub untold : (x : ℕ) → mem x s.visited ≡ true → mem x s.listed ≡ false → mem x s'.listed ≡ false

module _ (next : ℕ → List ℕ) (root : ℕ) where
  pub nothing : (s : Found) → Adds next root s s
  nothing s = record {
    grows = λ x h. h;
    kept = λ x h. h;
    closed = λ x y n h m. absurd (ground (arith, n, h));
    told = λ x n h. absurd (ground (arith, n, h));
    sound = λ x h. inl h;
    untold = λ x h n. n;
  }

  pub then_after : (s t u : Found) → Adds next root s t → Adds next root t u → Adds next root s u
  then_after s t u a b = record {
    grows = λ x h. b.grows x (a.grows x h);
    kept = λ x h. b.kept x (a.kept x h);
    closed = λ x y n h m. elim (Bool-cases (mem x t.visited)) [
      | inl k ↦ b.grows y (a.closed x y n k m)
      | inr k ↦ b.closed x y k h m
    ];
    told = λ x n h. elim (Bool-cases (mem x t.visited)) [
      | inl k ↦ b.kept x (a.told x n k)
      | inr k ↦ b.told x k h
    ];
    sound = λ x h. elim (b.sound x h) [ inl k ↦ a.sound x k | inr l ↦ inr l ];
    untold = λ x h n. b.untold x (a.grows x h) (a.untold x h n);
  }

  pub pushed :
      (d : ℕ) (s : Found)
      → mem d s.visited ≡ false
      → Leads next root d
      → Adds next root s (push d s)
  pushed d s free l = record {
    grows = λ x h. h;
    kept = λ x h. ground (arith, h, mem-append x s.listed (d ∷ []));
    closed = λ x y n h m. absurd (ground (arith, n, h));
    told = λ x n h. absurd (ground (arith, n, h));
    sound = λ x h. elim (Bool-cases (d == x)) [
      | inl e ↦ inr (subst (Leads next root) (==→eq d x e) l)
      | inr e ↦ inl (ground (arith, h, e, mem-append x s.listed (d ∷ [])))
    ];
    untold = λ x h n. elim (Bool-cases (d == x)) [
      | inl e ↦ absurd (ground (arith, h, e, free))
      | inr e ↦ ground (arith, n, e, mem-append x s.listed (d ∷ []))
    ];
  }

  -- A visit of a listed task adds what the loop over its neighbours adds, and the task.
  pub entered :
      (c : ℕ) (s u : Found)
      → mem c s.visited ≡ false
      → mem c s.listed ≡ true
      → Adds next root (enter c s) u
      → ((d : ℕ) → mem d (next c) ≡ true → mem d u.visited ≡ true)
      → Adds next root s u
  entered c s u free told a all = record {
    grows = λ x h. a.grows x (ground (arith, h, mem-add c x s.visited));
    kept = λ x h. a.kept x h;
    closed = λ x y n h m. elim (Bool-cases (c == x)) [
      | inl e ↦ all y (subst (λ z. mem y (next z) ≡ true) (sym (==→eq c x e)) m)
      | inr e ↦ a.closed x y (ground (arith, n, e, mem-add c x s.visited)) h m
    ];
    told = λ x n h. elim (Bool-cases (c == x)) [
      | inl e ↦ subst (λ z. mem z u.listed ≡ true) (==→eq c x e) (a.kept c told)
      | inr e ↦ a.told x (ground (arith, n, e, mem-add c x s.visited)) h
    ];
    sound = λ x h. a.sound x h;
    untold = λ x h n. a.untold x (ground (arith, h, mem-add c x s.visited)) n;
  }

-- ===== src/RecurringRetries/Rounds.antt =====
-- RecurringRetries: a run over failed generations is made of the workers' transactions.
use atlaspm.Base.{
  ℕ, zero, suc, ◌==◌, ◌≡◌, refl, arith, Bool, true, false, not, ◌&&◌, ◌||◌, List, [], ◌∷◌,
  if◌then◌else◌, find, find_sound, any, any-select, select, Result, ok, err, inl, inr, sym, ◌∙◌, ap,
  subst, Bool-cases, Option-cases, ==→eq, fun_ext,
}
use atlaspm.Base.Apart.{Apart, any-update_where}
use atlaspm.Recurrence.{midnight, calculate_next_scheduled_at_after}
use atlaspm.RecurringTasks.{Rule, Generation, State, World, Failure, is_rule, next_position}
use atlaspm.RecurringRetries.{
  Tally, settle, commit_retry, count_retry, retry_one, retry_all, retry_failed_generations,
  is_claimable, is_open, by_day, insert_by_day, take, is_retryable, complete_retry,
}
use atlaspm.RecurringRetries.Once.{OfRule, same_id}
use atlaspm.RecurringRetries.Effects.{commit_retry-IsRetried}
use atlaspm.RecurringRetries.Runs.{Reached, rest, generation_retried, retry_counted}

-- two rows of one id and of two rules
abbrev clash : Generation → Generation → Bool
clash g x = (x.id == g.id) && not (x.rule_id == g.rule_id)

any-or :
    (p q : Generation → Bool) (gs : List Generation)
    → any p gs ≡ false
    → any q gs ≡ false
    → any (λ g. p g || q g) gs ≡ false
any-or p q [] h k = refl
any-or p q (g ∷ gs) h k = ground (arith, any-or p q gs)

no_clash_with :
    (x : Generation) (gs : List Generation)
    → any (same_id x) gs ≡ false
    → (any (clash x) gs ≡ false) × (any (λ g. clash g x) gs ≡ false)
no_clash_with x [] h = (refl, refl)
no_clash_with x (g ∷ gs) h =
    (ground (arith, no_clash_with x gs), ground (arith, no_clash_with x gs))

no_clash : (gs : List Generation) → Apart same_id gs → any (λ g. any (clash g) gs) gs ≡ false
no_clash [] h = refl
no_clash (x ∷ xs) (h, hs) =
    let (a, b) = no_clash_with x xs h in
    let c = any-or (λ g. clash g x) (λ g. any (clash g) xs) xs b (no_clash xs hs) in
    ground (arith, a, c)

module _ (p : Generation → Bool) where
  any-insert_by_day :
      (g : Generation) (gs : List Generation) → any p (insert_by_day g gs) ≡ any p (g ∷ gs)
  any-insert_by_day g [] = refl
  any-insert_by_day g (h ∷ hs) = ground (arith, any-insert_by_day g hs)

  any-by_day : (gs : List Generation) → any p (by_day gs) ≡ any p gs
  any-by_day [] = refl
  any-by_day (g ∷ gs) = any-insert_by_day g (by_day gs) ∙ ground (arith, any-by_day gs)

  any-take : (n : ℕ) (gs : List Generation) → any p gs ≡ false → any p (take n gs) ≡ false
  any-take zero gs h = refl
  any-take (suc n) [] h = refl
  any-take (suc n) (g ∷ gs) h = ground (arith, any-take n gs)

-- Rows keep their ids and their rules.
commit_retry-clash :
    (w : World) (rule : Rule) (position : ℕ) (g x : Generation) (s s' : State)
    → commit_retry w rule position g s ≡ ok (true, s')
    → any (clash x) s'.generations ≡ any (clash x) s.generations
commit_retry-clash w rule position g x s s' e =
    let d = commit_retry-IsRetried w rule position g s s' e in
    ap (any (clash x)) d.generations
    ∙ any-update_where (clash x) (is_claimable g.id) (complete_retry (w.new_task_id s))
        s.generations (λ y. refl)

commit_retry-unclaimed :
    (w : World) (rule : Rule) (position : ℕ) (g : Generation) (s s' : State)
    → commit_retry w rule position g s ≡ ok (false, s')
    → s' ≡ s
unfolding commit_retry
commit_retry-unclaimed w rule position g s s' e =
    elim (Bool-cases (any (is_claimable g.id) s.generations)) [
      | inr t ↦ ground (arith, e, t)
      | inl t ↦ elim (Option-cases (w.retrying rule.id g.day)) [
        | inr (text, u) ↦ absurd (ground (arith, e, t, u))
        | inl u ↦
            elim (Option-cases (calculate_next_scheduled_at_after rule.config (midnight g.day))) [
              | inl v ↦ absurd (ground (arith, e, t, u, v))
              | inr (next, v) ↦ elim (Option-cases (find (is_rule rule.id) s.rules)) [
                | inl x ↦ absurd (ground (arith, e, t, u, v, x))
                | inr (row, x) ↦ absurd (ground (arith, e, t, u, v, x))
              ]
            ]
      ]
    ]

module _ (w : World) (s : State) where
  -- What a round does is a step, and later rounds have no other rule's row to take.
  abbrev Kept : State → Tally × State → Type 0
  Kept t after =
      Reached w s after.1
      × ((x : Generation) → any (clash x) after.1.generations ≡ any (clash x) t.generations)

  either :
      (t : State) (b : Bool) (x y : Tally × State)
      → Kept t x
      → Kept t y
      → Kept t (if b then x else y)
  either t true x y h k = h
  either t false x y h k = k

  settle-Kept :
      (rule : Rule) (position : ℕ) (g : Generation) (tally : Tally) (t : State)
      → OfRule g.id rule.id t.generations
      → Reached w s t
      → (r : Result Failure (Bool × State)) → commit_retry w rule position g t ≡ r
      → Kept t (settle g tally t r)
  unfolding count_retry
  settle-Kept rule position g tally t o h (ok (true, u)) e =
      (generation_retried h rule position g o e, λ x. commit_retry-clash w rule position g x t u e)
  settle-Kept rule position g tally t o h (ok (false, u)) e =
      let same : u ≡ t = commit_retry-unclaimed w rule position g t u e in rw same (h, λ x. refl)
  settle-Kept rule position g tally t o h (err f) e = (
    retry_counted h g.id,
    λ x.
        any-update_where (clash x) (is_open g.id)
          (λ y. record y { retry_count = suc y.retry_count }) t.generations (λ y. refl),
  )

  retry_one-Kept :
      (g : Generation) (tally : Tally) (t : State)
      → any (clash g) t.generations ≡ false
      → Reached w s t
      → Kept t (retry_one w g tally t)
  unfolding retry_one
  retry_one-Kept g tally t c h =
      let tried : Tally = record tally { retried = suc tally.retried } in
      elim (Option-cases (find (is_rule g.rule_id) t.rules)) [
        | inl x ↦ rw (retry_one, x) (h, λ y. refl)
        | inr (rule, x) ↦
            let mine : g.rule_id ≡ rule.id =
              sym (==→eq rule.id g.rule_id (find_sound (is_rule g.rule_id) t.rules rule x)) in
            rw (retry_one, x)
              (either t rule.is_active
                (settle g tried t (commit_retry w rule (next_position rule t) g t)) (tried, t)
                (settle-Kept rule (next_position rule t) g tried t
                  (subst (λ r. OfRule g.id r t.generations) mine c) h
                  (commit_retry w rule (next_position rule t) g t) refl)
                (h, λ y. refl))
      ]

  retry_all-Reached :
      (gs : List Generation) (tally : Tally) (t : State)
      → any (λ g. any (clash g) t.generations) gs ≡ false
      → Reached w s t
      → Reached w s (retry_all w gs tally t).1
  unfolding retry_all
  retry_all-Reached [] tally t c h = h
  retry_all-Reached (g ∷ gs) tally t c h =
      let (r, k) = retry_one-Kept g tally t (ground (arith, c)) h in
      retry_all-Reached gs (retry_one w g tally t).0 (retry_one w g tally t).1
        (ap (λ p. any p gs) (fun_ext k) ∙ ground (arith, c)) r

-- A run over the failed generations is a sequence of the worker's transactions, when no two
-- generations have one id at its start.
pub retry_failed_generations-Reached :
    (w : World) (s : State)
    → Apart same_id s.generations
    → Reached w s (retry_failed_generations w s).1
unfolding retry_failed_generations
retry_failed_generations-Reached w s h =
    let clashes : Generation → Bool = λ g. any (clash g) s.generations in
    let chosen : List Generation = select is_retryable s.generations in
    retry_all-Reached w s (take 10 (by_day chosen)) (record { retried = 0; succeeded = 0 }) s
      (any-take clashes 10 (by_day chosen) (
        any-by_day clashes chosen
        ∙ any-select clashes is_retryable s.generations (no_clash s.generations h)))
      rest

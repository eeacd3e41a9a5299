-- ===== src/RecurringRetries/Effects.antt =====
-- RecurringTasks and RecurringRetries: what a transaction that succeeds has written.
use atlaspm.Base.{
  ℕ, ◌≡◌, arith, true, false, none, some, [], ◌∷◌, ◌++◌, find, any, update_where, ok, inl, inr,
  Bool-cases, Option-cases,
}
use atlaspm.Recurrence.{midnight, calculate_next_scheduled_at_after}
use atlaspm.RecurringTasks.{
  Rule, Generation, State, World, pending, is_slot, is_rule, commit_generation, complete,
  new_generation, new_task, mark_generated,
}
use atlaspm.RecurringRetries.{is_claimable, complete_retry, commit_retry}

abbrev pub generated_row : World → Rule → (day : ℕ) → State → Generation
generated_row w rule day s =
    complete (w.new_task_id s) (new_generation (w.new_generation_id s) rule.id day pending none)

pub record IsGenerated (w : World) (rule : Rule) (position day : ℕ) (s s' : State) : Type 0 where
  pub free : any (is_slot rule.id day) s.generations ≡ false
  pub next : ℕ
  pub follows : calculate_next_scheduled_at_after rule.config (midnight day) ≡ some next
  pub rules : s'.rules ≡ update_where (is_rule rule.id) (mark_generated w.clock next) s.rules
  pub generations : s'.generations ≡ s.generations ++ generated_row w rule day s ∷ []
  pub tasks : s'.tasks ≡ s.tasks ++ new_task (w.new_task_id s) position rule ∷ []

pub commit_generation-IsGenerated :
    (w : World) (rule : Rule) (position day : ℕ) (s s' : State)
    → commit_generation w rule position day s ≡ ok s'
    → IsGenerated w rule position day s s'
unfolding commit_generation
commit_generation-IsGenerated w rule position day s s' e =
    elim (Bool-cases (any (is_slot rule.id day) s.generations)) [
      | inl t ↦ absurd (ground (arith, e, t))
      | inr t ↦ elim (Option-cases (w.generating rule.id day)) [
        | inr (text, u) ↦ absurd (ground (arith, e, t, u))
        | inl u ↦
            elim (Option-cases (calculate_next_scheduled_at_after rule.config (midnight day))) [
              | inl v ↦ absurd (ground (arith, e, t, u, v))
              | inr (next, v) ↦ elim (Option-cases (find (is_rule rule.id) s.rules)) [
                | inl x ↦ absurd (ground (arith, e, t, u, v, x))
                | inr (row, x) ↦ record {
                  free = t;
                  next = next;
                  follows = v;
                  rules = ground (arith, e, t, u, v, x);
                  generations = ground (arith, e, t, u, v, x);
                  tasks = ground (arith, e, t, u, v, x);
                }
              ]
            ]
      ]
    ]

pub record IsRetried (w : World) (rule : Rule) (position : ℕ) (g : Generation) (s s' : State)
    : Type 0 where
  pub claimed : any (is_claimable g.id) s.generations ≡ true
  pub next : ℕ
  pub follows : calculate_next_scheduled_at_after rule.config (midnight g.day) ≡ some next
  pub rules : s'.rules ≡ update_where (is_rule rule.id) (mark_generated w.clock next) s.rules
  pub generations :
      s'.generations
      ≡ update_where (is_claimable g.id) (complete_retry (w.new_task_id s)) s.generations
  pub tasks : s'.tasks ≡ s.tasks ++ new_task (w.new_task_id s) position rule ∷ []

pub commit_retry-IsRetried :
    (w : World) (rule : Rule) (position : ℕ) (g : Generation) (s s' : State)
    → commit_retry w rule position g s ≡ ok (true, s')
    → IsRetried w rule position g s s'
unfolding commit_retry
commit_retry-IsRetried w rule position g s s' e =
    elim (Bool-cases (any (is_claimable g.id) s.generations)) [
      | inr t ↦ absurd (ground (arith, e, t))
      | inl t ↦ elim (Option-cases (w.retrying rule.id g.day)) [
        | inr (text, u) ↦ absurd (ground (arith, e, t, u))
        | inl u ↦
            elim (Option-cases (calculate_next_scheduled_at_after rule.config (midnight g.day))) [
              | inl v ↦ absurd (ground (arith, e, t, u, v))
              | inr (next, v) ↦ elim (Option-cases (find (is_rule rule.id) s.rules)) [
                | inl x ↦ absurd (ground (arith, e, t, u, v, x))
                | inr (row, x) ↦ record {
                  claimed = t;
                  next = next;
                  follows = v;
                  rules = ground (arith, e, t, u, v, x);
                  generations = ground (arith, e, t, u, v, x);
                  tasks = ground (arith, e, t, u, v, x);
                }
              ]
            ]
      ]
    ]

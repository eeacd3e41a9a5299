-- ===== src/RecurringRetries/Runs.antt =====
-- RecurringTasks and RecurringRetries: the transactions of any number of workers in any order, and that
-- both runs of a worker are made of them.
use atlaspm.Base.{
  ℕ, suc, ◌≡◌, refl, arith, Bool, true, some, List, [], ◌∷◌, find, select, ok, inl, inr, subst,
  Bool-cases, Option-cases, Result-cases,
}
use atlaspm.Base.Text.{Text}
use atlaspm.Recurrence.{midnight}
use atlaspm.Recurrence.Schedule.{IsRule}
use atlaspm.Recurrence.Due.{collect_due_scheduled_at_times-IsDue}
use atlaspm.RecurringTasks.{
  Rule, Generation, State, World, Failure, Tally, SlotResult, generated, already_completed,
  blocked_existing, completed, is_status, is_slot, commit_generation,
  advance_rule_next_scheduled_at, handle_existing_generation, after_failure, generate_task_for_rule,
  process_scheduled_at, record_generation_error, process_days, process_rules,
  process_due_recurring_tasks, is_due_rule, due_config, next_position, unique_constraint,
  record_gone, out_of_fuel, thrown,
}
use atlaspm.RecurringRetries.{commit_retry, count_retry}
use atlaspm.RecurringRetries.Once.{
  Once, IsFresh, OfRule, commit_generation-Once, record_generation_error-Once, commit_retry-Once,
  count_retry-Once, advance_rule_next_scheduled_at-keeps,
}

-- what workers do to the tables, transaction by transaction, with any rule and any position read before
pub data Reached (w : World) (s : State) : State → Type 0 where
  rest : Reached w s s
  generation_made :
      {t u : State}
      → Reached w s t
      → (rule : Rule) (position day : ℕ) → commit_generation w rule position day t ≡ ok u
      → Reached w s u
  rule_advanced :
      {t u : State}
      → Reached w s t
      → (rule : Rule) (day : ℕ) → advance_rule_next_scheduled_at rule day t ≡ ok u
      → Reached w s u
  error_recorded :
      {t : State}
      → Reached w s t
      → (rule_id : ℕ) (text : Text) (day : ℕ)
      → Reached w s (record_generation_error w rule_id text day t)
  generation_retried :
      {t u : State}
      → Reached w s t
      → (rule : Rule) (position : ℕ) (g : Generation) → OfRule g.id rule.id t.generations
      → commit_retry w rule position g t ≡ ok (true, u)
      → Reached w s u
  retry_counted : {t : State} → Reached w s t → (id : ℕ) → Reached w s (count_retry id t)

-- Whatever the workers do in whatever order, a rule has one generation at most for a day, and as many
-- tasks as completed generations, when it is so at the start and new ids are fresh.
pub Reached-Once :
    (w : World) (s : State) {s' : State} → IsFresh w → Once s → Reached w s s' → Once s'
Reached-Once w s fresh h rest = h
Reached-Once w s fresh h (generation_made {t} {u} r rule position day e) =
    commit_generation-Once w rule position day t u fresh e (Reached-Once w s fresh h r)
Reached-Once w s fresh h (rule_advanced {t} {u} r rule day e) =
    let (g, k) = advance_rule_next_scheduled_at-keeps rule day t u e in
    rw (g, k) (Reached-Once w s fresh h r)
Reached-Once w s fresh h (error_recorded {t} r rule_id text day) =
    record_generation_error-Once w rule_id text day t fresh (Reached-Once w s fresh h r)
Reached-Once w s fresh h (generation_retried {t} {u} r rule position g o e) =
    commit_retry-Once w rule position g t u e o (Reached-Once w s fresh h r)
Reached-Once w s fresh h (retry_counted {t} r id) =
    count_retry-Once id t (Reached-Once w s fresh h r)

-- the recurrence of each rule can be calculated
abbrev pub AllRules : List Rule → Type 0
AllRules [] = Unit {0}
AllRules (r ∷ rs) = IsRule r.config × AllRules rs

pub AllRules-select : (p : Rule → Bool) (rs : List Rule) → AllRules rs → AllRules (select p rs)
AllRules-select p [] h = tt
AllRules-select p (r ∷ rs) (h, hs) = elim (Bool-cases (p r)) [
  | inl e ↦ rw e (h, AllRules-select p rs hs)
  | inr e ↦ rw e (AllRules-select p rs hs)
]

module _ (w : World) (s : State) where
  handle_existing_generation-Reached :
      (rule : Rule) (g : Generation) (t u : State) (r : SlotResult)
      → Reached w s t
      → handle_existing_generation rule g t ≡ ok (r, u)
      → Reached w s u
  unfolding handle_existing_generation
  handle_existing_generation-Reached rule g t u r h e =
      elim (Bool-cases (is_status g.status completed)) [
        | inr x ↦ let same : t ≡ u = ground (arith, e, x) in subst (Reached w s) same h
        | inl x ↦ elim (Result-cases (advance_rule_next_scheduled_at rule g.day t)) [
          | inr (f, y) ↦ absurd (ground (arith, e, x, y))
          | inl (v, y) ↦
              let same : v ≡ u = ground (arith, e, x, y) in
              subst (Reached w s) same (rule_advanced h rule g.day y)
        ]
      ]

  after_failure-Reached :
      (rule : Rule) (day : ℕ) (t u : State) (r : SlotResult) (f : Failure)
      → Reached w s t
      → after_failure rule day t f ≡ ok (r, u)
      → Reached w s u
  after_failure-Reached rule day t u r unique_constraint h e =
      elim (Option-cases (find (is_slot rule.id day) t.generations)) [
        | inl x ↦ absurd (ground (arith, e, x))
        | inr (g, x) ↦ handle_existing_generation-Reached rule g t u r h (ground (arith, e, x))
      ]
  after_failure-Reached rule day t u r record_gone h e = absurd (cc e)
  after_failure-Reached rule day t u r out_of_fuel h e = absurd (cc e)
  after_failure-Reached rule day t u r (thrown text) h e = absurd (cc e)

  process_scheduled_at-Reached :
      (rule : Rule) (day : ℕ) (t u : State) (r : SlotResult)
      → Reached w s t
      → process_scheduled_at w rule day t ≡ ok (r, u)
      → Reached w s u
  unfolding process_scheduled_at generate_task_for_rule
  process_scheduled_at-Reached rule day t u r h e =
      elim (Option-cases (find (is_slot rule.id day) t.generations)) [
        | inr (g, x) ↦ handle_existing_generation-Reached rule g t u r h (ground (arith, e, x))
        | inl x ↦ elim (Result-cases (commit_generation w rule (next_position rule t) day t)) [
          | inl (v, y) ↦
              let same : v ≡ u = ground (arith, e, x, y) in
              subst (Reached w s) same (generation_made h rule (next_position rule t) day y)
          | inr (f, y) ↦ after_failure-Reached rule day t u r f h (ground (arith, e, x, y))
        ]
      ]

  process_days-Reached :
      (rule : Rule) (days : List ℕ) (tally : Tally) (t : State)
      → Reached w s t
      → Reached w s (process_days w rule days tally t).1
  unfolding process_days
  process_days-Reached rule [] tally t h = h
  process_days-Reached rule (day ∷ days) tally t h =
      elim (Result-cases (process_scheduled_at w rule day t)) [
        | inl ((generated, v), y) ↦
            rw (process_days, y)
              (process_days-Reached rule days (record tally { processed = suc tally.processed }) v
                (process_scheduled_at-Reached rule day t v generated h y))
        | inl ((already_completed, v), y) ↦
            rw (process_days, y)
              (process_days-Reached rule days tally v
                (process_scheduled_at-Reached rule day t v already_completed h y))
        | inl ((blocked_existing, v), y) ↦
            rw (process_days, y) (process_scheduled_at-Reached rule day t v blocked_existing h y)
        | inr (f, y) ↦ rw (process_days, y) (error_recorded h rule.id (w.message f) day)
      ]

  -- A run over rules that a recurrence is calculated for comes to an end.
  process_rules-Reached :
      (now : ℕ) (rules : List Rule) (tally : Tally) (t : State)
      → AllRules rules
      → Reached w s t
      → (after : Tally × State) × (process_rules w now rules tally t ≡ some after)
        × Reached w s after.1
  unfolding process_rules
  process_rules-Reached now [] tally t a h = ((tally, t), refl, h)
  process_rules-Reached now (rule ∷ rules) tally t (a, more) h =
      let (cursor, days, c, d, i) =
        collect_due_scheduled_at_times-IsDue (due_config rule) (midnight now) a in
      let (after, e, r) =
        process_rules-Reached now rules (process_days w rule days tally t).0
          (process_days w rule days tally t).1 more (process_days-Reached rule days tally t h) in
      (after, rw (process_rules, d) e, r)

-- When the recurrence of every rule can be calculated, a run of the worker over the due rules ends, and
-- it is a sequence of its transactions.
pub process_due_recurring_tasks-Reached :
    (w : World) (now : ℕ) (s : State)
    → AllRules s.rules
    → (tally : Tally) × (s' : State) × (process_due_recurring_tasks w now s ≡ some (tally, s'))
      × Reached w s s'
unfolding process_due_recurring_tasks
process_due_recurring_tasks-Reached w now s a =
    let ((tally, s'), e, r) =
      process_rules-Reached w s now (select (is_due_rule now) s.rules)
        (record { processed = 0; errors = 0 }) s (AllRules-select (is_due_rule now) s.rules a)
        rest in
    (tally, s', e, r)

-- ===== src/RecurringRetries.antt =====
-- retryFailedGenerations of RecurringTaskWorker
-- (apps/core-api/src/recurring-tasks/recurring-task.worker.ts), over the state of RecurringTasks.
pub mod Effects
pub mod Once
pub mod Runs
pub mod Rounds
use atlaspm.Base.{
  ℕ, zero, suc, ◌+◌, ◌==◌, ltb, leb, Bool, true, false, ◌&&◌, Option, none, some, List, [], ◌∷◌,
  ◌++◌, if◌then◌else◌, find, select, any, update_where, Result, ok, err, ◌>>=◌, ◌>>◌, or_fail,
}
use atlaspm.Store.{is_none}
use atlaspm.Recurrence.{midnight, calculate_next_scheduled_at_after}
use atlaspm.RecurringTasks.{
  Rule, Generation, State, World, Failure, record_gone, out_of_fuel, failed, completed, is_status,
  is_rule, next_position, new_task, mark_generated, throws, retry_succeeded,
}

-- the `where` of the claim
abbrev pub is_claimable : ℕ → Generation → Bool
is_claimable id g =
    (g.id == id) && is_status g.status failed && is_none g.task_id && ltb g.retry_count 3

-- the claim and the update that follows it in one transaction
abbrev pub complete_retry : ℕ → Generation → Generation
complete_retry task_id g = record g {
  status = completed;
  task_id = some task_id;
  error = none;
  retry_count = suc g.retry_count;
}

-- the transaction of retryFailedGenerations, which answers whether it claimed the generation
unfoldable pub commit_retry :
    World → Rule → (position : ℕ) → Generation → State → Result Failure (Bool × State)
commit_retry w rule position g s =
    if any (is_claimable g.id) s.generations
    then (do
      throws (w.retrying rule.id g.day)
      let task = new_task (w.new_task_id s) position rule
      next ← or_fail (calculate_next_scheduled_at_after rule.config (midnight g.day)) out_of_fuel
      or_fail (find (is_rule rule.id) s.rules) record_gone
      ok (
        true,
        record {
          rules = update_where (is_rule rule.id) (mark_generated w.clock next) s.rules;
          generations = update_where (is_claimable g.id) (complete_retry task.id) s.generations;
          tasks = s.tasks ++ task ∷ [];
          events = s.events ++ retry_succeeded task.id rule.id g.id ∷ [];
        },
      ))
    else ok (false, s)

-- the `where` of the `catch`
abbrev pub is_open : ℕ → Generation → Bool
is_open id g = (g.id == id) && is_status g.status failed && is_none g.task_id

-- the `catch`
unfoldable pub count_retry : ℕ → State → State
count_retry id s = record s {
  generations =
      update_where (is_open id) (λ g. record g { retry_count = suc g.retry_count }) s.generations;
}

pub record Tally : Type 0 where
  pub retried : ℕ
  pub succeeded : ℕ

-- the answer of the transaction, or the `catch`
abbrev pub settle : Generation → Tally → State → Result Failure (Bool × State) → Tally × State
settle g tally s (ok (true, s')) = (record tally { succeeded = suc tally.succeeded }, s')
settle g tally s (ok (false, s')) = (tally, s')
settle g tally s (err failure) = (tally, count_retry g.id s)

-- one round of retryFailedGenerations
unfoldable pub retry_one : World → Generation → Tally → State → Tally × State
retry_one w g tally s =
    let tally = record tally { retried = suc tally.retried } in
    elim (find (is_rule g.rule_id) s.rules) [
      | none ↦ (tally, s)
      | some rule ↦
          if rule.is_active
          then settle g tally s (commit_retry w rule (next_position rule s) g s)
          else (tally, s)
    ]

unfoldable pub retry_all : World → List Generation → Tally → State → Tally × State
retry_all w [] tally s = (tally, s)
retry_all w (g ∷ gs) tally s = let after = retry_one w g tally s in retry_all w gs after.0 after.1

-- `orderBy: { scheduledAt: 'asc' }`, which leaves rows of one time as they come
abbrev pub insert_by_day : Generation → List Generation → List Generation
insert_by_day g [] = g ∷ []
insert_by_day g (h ∷ hs) = if leb g.day h.day then g ∷ h ∷ hs else h ∷ insert_by_day g hs

abbrev pub by_day : List Generation → List Generation
by_day [] = []
by_day (g ∷ gs) = insert_by_day g (by_day gs)

abbrev pub take : ℕ → List Generation → List Generation
take zero gs = []
take (suc n) [] = []
take (suc n) (g ∷ gs) = g ∷ take n gs

-- the `where` of the generations that retryFailedGenerations reads
abbrev pub is_retryable : Generation → Bool
is_retryable g = is_status g.status failed && ltb g.retry_count 3

-- retryFailedGenerations
unfoldable pub retry_failed_generations : World → State → Tally × State
retry_failed_generations w s =
    retry_all w (take 10 (by_day (select is_retryable s.generations)))
      (record { retried = 0; succeeded = 0 }) s

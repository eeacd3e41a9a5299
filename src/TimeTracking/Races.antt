-- ===== src/TimeTracking/Races.antt =====
-- What happens when a log changes between the reading and the transaction of an update: both run
-- outside one transaction, and the increment is computed from the reading.
use atlaspm.Base.{
  ℕ, ◌==◌, ◌+◌, ◌≡◌, ◌≢◌, sym, subst, Bool, some, List, [], ◌∷◌, inl, inr, arith, find,
  update_where, ok, Bool-cases, ==→eq,
}
use atlaspm.Base.Int.{ℤ, pos, ◌+ℤ◌, ◌-ℤ◌}
use atlaspm.TimeTracking.{
  TimedTask, TimeLog, State, is_log, spend, spend_on, is_zero, revise, minutes_diff, UpdateBody,
  commit_update,
}
use atlaspm.TimeTracking.Totals.{total, Agrees, Balanced, total-update}
use atlaspm.TimeTracking.Calls.{spend_on-zero}

abbrev has_task_id : ℕ → TimedTask → Bool
has_task_id id t = t.id == id

Agrees-find :
    (logs : List TimeLog) (id : ℕ) (ts : List TimedTask) (t : TimedTask)
    → Agrees logs ts
    → find (has_task_id id) ts ≡ some t
    → t.spent_minutes ≡ pos (total id logs)
Agrees-find logs id [] t h f = absurd (cc f)
Agrees-find logs id (x ∷ ts) t h f = elim (Bool-cases (x.id == id)) [
  | inl hit ↦
      let k : x ≡ t = ground arith in
      subst (λ y. y.spent_minutes ≡ pos (total id logs)) k
        (subst (λ i. x.spent_minutes ≡ pos (total i logs)) (==→eq x.id id hit) h.0)
  | inr miss ↦ Agrees-find logs id ts t h.1 (ground arith)
]

find-spend_on :
    (id : ℕ) (diff : ℤ) (ts : List TimedTask) (t : TimedTask)
    → find (has_task_id id) ts ≡ some t
    → find (has_task_id id) (spend_on id diff ts) ≡ some (spend diff t)
find-spend_on id diff [] t f = absurd (cc f)
find-spend_on id diff (x ∷ ts) t f = ground (arith, find-spend_on id diff ts t)

drift :
    (spent : ℤ) (a b c p n : ℕ)
    → spent ≡ pos b
    → spent +ℤ (pos n -ℤ pos p) ≡ pos a
    → a + c ≡ b + n
    → c ≡ p
unfolding ◌+ℤ◌ ◌-ℤ◌
drift spent a b c p n before now totals = ground arith

-- The tasks after a commit agree as if the increment were always applied.
commit_update-Agrees :
    (body : UpdateBody) (seen current : TimeLog) (s s' : State)
    → find (is_log seen.id) s.logs ≡ some current
    → commit_update body seen s ≡ ok s'
    → Balanced s'
    → Agrees
        (update_where (is_log seen.id) (revise body) s.logs)
        (spend_on seen.task_id (minutes_diff body seen) s.tasks)
unfolding commit_update
commit_update-Agrees body seen current s s' f e bad =
    elim (Bool-cases (is_zero (minutes_diff body seen))) [
      | inl z ↦
          let kept : Agrees (update_where (is_log seen.id) (revise body) s.logs) s.tasks =
            ground (arith, bad.agrees) in
          subst (Agrees (update_where (is_log seen.id) (revise body) s.logs))
            (sym (spend_on-zero seen.task_id (minutes_diff body seen) s.tasks z)) kept
      | inr z ↦ ground (arith, bad.agrees)
    ]

-- Where each task's `spentMinutes` is the sum of its logs: if a log's minutes were changed after an update read it, and the update sets the minutes itself,
-- its commit leaves the task's `spentMinutes` different from the sum of its logs.
pub stale_update-unbalanced :
    (body : UpdateBody) (n : ℕ) (seen current : TimeLog) (t : TimedTask) (s s' : State)
    → Balanced s
    → find (is_log seen.id) s.logs ≡ some current
    → current.task_id ≡ seen.task_id
    → current.minutes ≢ seen.minutes
    → body.minutes ≡ some n
    → find (has_task_id seen.task_id) s.tasks ≡ some t
    → commit_update body seen s ≡ ok s'
    → ¬ Balanced s'
unfolding commit_update
stale_update-unbalanced body n seen current t s s' h f same stale m ft e bad =
    let diff = minutes_diff body seen in
    let id = seen.task_id in
    let after = update_where (is_log seen.id) (revise body) s.logs in
    let before = Agrees-find s.logs id s.tasks t h.agrees ft in
    let now =
      Agrees-find after id (spend_on id diff s.tasks) (spend diff t)
        (commit_update-Agrees body seen current s s' f e bad)
        (find-spend_on id diff s.tasks t ft) in
    stale (
      drift t.spent_minutes (total id after) (total id s.logs) current.minutes seen.minutes n before
        (ground arith) (ground (arith, total-update seen.id id body s.logs current h.distinct f)))

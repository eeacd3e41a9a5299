-- ===== src/TimeTracking/Calls.antt =====
-- The calls of time tracking keep the totals right.
use atlaspm.Base.{
  ℕ, ◌==◌, ◌+◌, ◌≡◌, refl, ap, subst, Bool, true, false, not, Option, some, List, [], ◌∷◌, ◌++◌,
  inl, inr, arith, if◌then◌else◌, find, select, any, update_where, ok, or_default, Bool-cases,
  Option-cases, >>=-eq-ok, ==→eq,
}
use atlaspm.Base.Int.{ℤ, pos, negsuc, ◌+ℤ◌, ◌-ℤ◌, int_laws}
use atlaspm.Base.Text.{Text}
use atlaspm.Access.{Directory}
use atlaspm.TimeTracking.{
  TimedTask, TimeLog, State, is_log, spend_on, is_zero, revise, minutes_diff, UpdateBody, new_log,
  create_time_log, update_time_log, delete_time_log, update_estimate, commit_update, commit_delete,
  read_time_log, is_live_log,
}
use atlaspm.TimeTracking.Totals.{
  total, Agrees, Distinct, Balanced, spend_on-Agrees, total-append, Distinct-append, total-update,
  total-delete, Distinct-update, Distinct-select,
}

pub spend_on-zero :
    (id : ℕ) (diff : ℤ) (ts : List TimedTask) → is_zero diff ≡ true → spend_on id diff ts ≡ ts
unfolding ◌+ℤ◌
spend_on-zero id diff [] z = refl
spend_on-zero id (pos n) (t ∷ ts) z = ground (arith, spend_on-zero id (pos n) ts z)
spend_on-zero id (negsuc n) (t ∷ ts) z = absurd (cc z)

-- a change of a total, as an increment
pub shift : (a b m n : ℕ) → a + m ≡ b + n → pos a ≡ pos b +ℤ (pos n -ℤ pos m)
shift a b m n h = omega (int_laws, h)

shift_self : (a b : ℕ) → a ≡ b → pos a ≡ pos b
shift_self a b h = ap pos h

update-total :
    (body : UpdateBody) (seen : TimeLog) (logs : List TimeLog) (j : ℕ)
    → Distinct logs
    → find (is_log seen.id) logs ≡ some seen
    → pos (total j (update_where (is_log seen.id) (revise body) logs)) ≡ (
        if j == seen.task_id
        then pos (total j logs) +ℤ minutes_diff body seen
        else pos (total j logs))
update-total body seen logs j d f = ground (
  arith,
  total-update seen.id j body logs seen d f,
  shift (total j (update_where (is_log seen.id) (revise body) logs)) (total j logs) seen.minutes
      (or_default body.minutes seen.minutes),
)

delete-total :
    (seen : TimeLog) (logs : List TimeLog) (j : ℕ)
    → Distinct logs
    → find (is_log seen.id) logs ≡ some seen
    → pos (total j (select (λ x. not (is_log seen.id x)) logs)) ≡ (
        if j == seen.task_id
        then pos (total j logs) +ℤ (pos 0 -ℤ pos seen.minutes)
        else pos (total j logs))
delete-total seen logs j d f = ground (
  arith,
  total-delete seen.id j logs seen d f,
  shift (total j (select (λ x. not (is_log seen.id x)) logs)) (total j logs) seen.minutes 0,
)

-- A commit of an update for the log as it still stands keeps the totals.
pub commit_update-Balanced :
    (body : UpdateBody) (seen : TimeLog) (s s' : State)
    → Balanced s
    → find (is_log seen.id) s.logs ≡ some seen
    → commit_update body seen s ≡ ok s'
    → Balanced s'
unfolding commit_update
commit_update-Balanced body seen s s' h f e =
    let after = update_where (is_log seen.id) (revise body) s.logs in
    let diff = minutes_diff body seen in
    let agrees =
      spend_on-Agrees seen.task_id diff s.logs after
        (λ j. update-total body seen s.logs j h.distinct f) s.tasks h.agrees in
    let distinct = Distinct-update seen.id body s.logs h.distinct in
    elim (Bool-cases (is_zero diff)) [
      | inl z ↦
          let same = subst (Agrees after) (spend_on-zero seen.task_id diff s.tasks z) agrees in
          record { agrees = ground arith; distinct = ground arith }
      | inr n ↦ record { agrees = ground arith; distinct = ground arith }
    ]

pub commit_delete-Balanced :
    (seen : TimeLog) (s s' : State)
    → Balanced s
    → find (is_log seen.id) s.logs ≡ some seen
    → commit_delete seen s ≡ ok s'
    → Balanced s'
unfolding commit_delete
commit_delete-Balanced seen s s' h f e =
    let after = select (λ x. not (is_log seen.id x)) s.logs in
    let agrees =
      spend_on-Agrees seen.task_id (pos 0 -ℤ pos seen.minutes) s.logs after
        (λ j. delete-total seen s.logs j h.distinct f) s.tasks h.agrees in
    let distinct = Distinct-select (λ x. not (is_log seen.id x)) s.logs h.distinct in
    record { agrees = ground arith; distinct = ground arith }

find-any :
    (p : TimeLog → Bool) (ls : List TimeLog) (l : TimeLog) → find p ls ≡ some l → any p ls ≡ true
find-any p [] l e = cc e
find-any p (x ∷ ls) l e = ground (arith, find-any p ls l)

find_live :
    (tasks : List TimedTask) (id : ℕ) (ls : List TimeLog) (l : TimeLog)
    → Distinct ls
    → find (is_live_log tasks id) ls ≡ some l
    → find (is_log l.id) ls ≡ some l
find_live tasks id [] l d e = cc e
find_live tasks id (x ∷ ls) l d e = elim (Bool-cases (is_live_log tasks id x)) [
  | inl hit ↦
      let k : x ≡ l = ground arith in
      subst (λ y. find (is_log y.id) (x ∷ ls) ≡ some y) k (ground arith)
  | inr miss ↦
      let rest = find_live tasks id ls l d.1 (ground arith) in
      let there = find-any (is_log l.id) ls l rest in
      elim (Bool-cases (x.id == l.id)) [
        | inl same ↦
            let k = ==→eq x.id l.id same in
            absurd (cc (there, subst (λ i. any (is_log i) ls ≡ false) k d.0))
        | inr other ↦ ground arith
      ]
]

-- The reading half returns the row that stands in the table under its id.
pub read_time_log-stands :
    (d : Directory) (now user id : ℕ) (s : State) (seen : TimeLog)
    → Balanced s
    → read_time_log d now user id s ≡ ok seen
    → find (is_log seen.id) s.logs ≡ some seen
unfolding read_time_log
read_time_log-stands d now user id s seen h e =
    elim (Option-cases (find (is_live_log s.tasks id) s.logs)) [
      | inl f ↦ absurd (ground arith)
      | inr (l, f) ↦
          let k : l ≡ seen = ground arith in
          subst (λ y. find (is_log y.id) s.logs ≡ some y) k
            (find_live s.tasks id s.logs l h.distinct f)
    ]

-- If each task's `spentMinutes` is the sum of the minutes of its logs and no two logs have one id,
-- then so it is after an `updateTimeLog` that succeeds with nothing between its reading and commit.
pub update_time_log-Balanced :
    (d : Directory) (now user id : ℕ) (body : UpdateBody) (s s' : State)
    → Balanced s
    → update_time_log d now user id body s ≡ ok s'
    → Balanced s'
unfolding update_time_log
update_time_log-Balanced d now user id body s s' h e =
    let (seen, r, c) = >>=-eq-ok (λ l. commit_update body l s) (read_time_log d now user id s) e in
    commit_update-Balanced body seen s s' h (read_time_log-stands d now user id s seen h r) c

-- If each task's `spentMinutes` is the sum of the minutes of its logs and no two logs have one id,
-- then so it is after a `deleteTimeLog` that succeeds with nothing between its reading and commit.
pub delete_time_log-Balanced :
    (d : Directory) (now user id : ℕ) (s s' : State)
    → Balanced s
    → delete_time_log d now user id s ≡ ok s'
    → Balanced s'
unfolding delete_time_log
delete_time_log-Balanced d now user id s s' h e =
    let (seen, r, c) = >>=-eq-ok (λ l. commit_delete l s) (read_time_log d now user id s) e in
    commit_delete-Balanced seen s s' h (read_time_log-stands d now user id s seen h r) c

create-total :
    (logs : List TimeLog) (log : TimeLog) (j : ℕ)
    → pos (total j (logs ++ log ∷ []))
      ≡ (if j == log.task_id then pos (total j logs) +ℤ pos log.minutes else pos (total j logs))
unfolding ◌+ℤ◌
create-total logs log j = ground (arith, total-append j logs log)

-- If each task's `spentMinutes` is the sum of the minutes of its logs and no two logs have one id,
-- then so it is after a `createTimeLog` that succeeds under an id that no log has yet.
pub create_time_log-Balanced :
    (d : Directory) (now user id task_id minutes : ℕ) (description : Option Text) (s s' : State)
    → Balanced s
    → any (is_log id) s.logs ≡ false
    → create_time_log d now user id task_id minutes description s ≡ ok s'
    → Balanced s'
unfolding create_time_log
create_time_log-Balanced d now user id task_id minutes description s s' h n e =
    let log = new_log id task_id user minutes description in
    let agrees =
      spend_on-Agrees task_id (pos minutes) s.logs (s.logs ++ log ∷ [])
        (λ j. create-total s.logs log j) s.tasks h.agrees in
    let distinct = Distinct-append s.logs log n h.distinct in
    record { agrees = ground arith; distinct = ground arith }

update_estimate-Agrees :
    (logs : List TimeLog) (id estimate : ℕ) (ts : List TimedTask)
    → Agrees logs ts
    → Agrees logs
        (update_where (λ x. x.id == id) (λ x. record x { estimate_minutes = some estimate }) ts)
update_estimate-Agrees logs id estimate [] h = tt
update_estimate-Agrees logs id estimate (t ∷ ts) h =
    ground (arith, update_estimate-Agrees logs id estimate ts h.1)

pub update_estimate-Balanced :
    (d : Directory) (now user task_id estimate : ℕ) (s s' : State)
    → Balanced s
    → update_estimate d now user task_id estimate s ≡ ok s'
    → Balanced s'
unfolding update_estimate
update_estimate-Balanced d now user task_id estimate s s' h e =
    let agrees = update_estimate-Agrees s.logs task_id estimate s.tasks h.agrees in
    record { agrees = ground arith; distinct = ground arith }

-- ===== src/TimeTracking.antt =====
-- TaskTimeTrackingController (apps/core-api/src/task-time-tracking/task-time-tracking.controller.ts):
-- time logs, and the total that each task carries.
-- Minutes are whole numbers, as the request classes demand. An update and a deletion read the log
-- before their transaction starts, so each is a reading and a commit.
pub mod Totals
pub mod Calls
pub mod History
pub mod Races
pub mod Examples
use atlaspm.Base.{
  ℕ, ◌==◌, ◌+◌, Bool, true, false, not, ◌&&◌, Option, none, some, List, [], ◌∷◌, ◌++◌,
  if◌then◌else◌, find, select, any, update_where, Result, ok, err, ◌>>=◌, ◌>>◌, refuse, or_fail,
  or_default,
}
use atlaspm.Base.Int.{ℤ, pos, negsuc, ◌+ℤ◌, ◌-ℤ◌}
use atlaspm.Base.Text.{Text, trim_or_null}
use atlaspm.Store.{is_none, is_some}
use atlaspm.Access.{
  Directory, ProjectRole, ProjectMembership, AccessError, member, admin, require_project_role,
}

-- the columns of a task that time tracking reads or writes
pub record TimedTask : Type 0 where
  pub id : ℕ
  pub project_id : ℕ
  pub deleted_at : Option ℕ
  pub estimate_minutes : Option ℕ
  pub spent_minutes : ℤ

pub record TimeLog : Type 0 where
  pub id : ℕ
  pub task_id : ℕ
  pub user_id : ℕ
  pub minutes : ℕ
  pub description : Option Text

-- one audit event and its outbox event, which are appended together
pub data Event : Type 0 where
  log_created : TimeLog → Event
  log_updated : TimeLog → TimeLog → ℤ → Event
  log_deleted : TimeLog → Event
  estimate_updated : ℕ → Option ℕ → Option ℕ → Event

pub record State : Type 0 where
  pub tasks : List TimedTask
  pub logs : List TimeLog
  pub events : List Event

pub data TimeError : Type 0 where
  task_not_found time_log_not_found : TimeError
  denied : AccessError → TimeError
  -- P2025: the row that an update or a delete names is gone
  record_gone : TimeError

abbrev pub authorize :
    Directory → (now project_id user_id : ℕ) → ProjectRole → Result TimeError ProjectMembership
authorize d now p u least = elim (require_project_role d now p u least) [
  | ok m ↦ ok m
  | err e ↦ err (denied e)
]

abbrev pub is_live_task : ℕ → TimedTask → Bool
is_live_task id t = (t.id == id) && is_none t.deleted_at

abbrev pub is_log : ℕ → TimeLog → Bool
is_log id l = l.id == id

abbrev pub is_zero : ℤ → Bool
is_zero (pos n) = n == 0
is_zero (negsuc n) = false

-- `spentMinutes: { increment: diff }`
abbrev pub spend : ℤ → TimedTask → TimedTask
spend diff t = record t { spent_minutes = t.spent_minutes +ℤ diff }

abbrev pub spend_on : ℕ → ℤ → List TimedTask → List TimedTask
spend_on id diff = update_where (λ t. t.id == id) (spend diff)

abbrev pub new_log : (id task_id user minutes : ℕ) → Option Text → TimeLog
new_log id task_id user minutes description = record {
  id = id;
  task_id = task_id;
  user_id = user;
  minutes = minutes;
  description = elim description [ none ↦ none | some text ↦ trim_or_null text ];
}

-- createTimeLog; `id` is the new row's, from the database
pub create_time_log :
    Directory → (now user id task_id minutes : ℕ) → Option Text → State → Result TimeError State
create_time_log d now user id task_id minutes description s = do
  t ← or_fail (find (is_live_task task_id) s.tasks) task_not_found
  authorize d now t.project_id user member
  let log = new_log id task_id user minutes description
  ok (record {
    tasks = spend_on task_id (pos minutes) s.tasks;
    logs = s.logs ++ log ∷ [];
    events = s.events ++ log_created log ∷ [];
  })

-- `timeLog.findFirst({ where: { id, task: { deletedAt: null } }, include: { task } })`
abbrev pub is_live_log : List TimedTask → ℕ → TimeLog → Bool
is_live_log tasks id l = is_log id l && is_some (find (is_live_task l.task_id) tasks)

-- the reading half of updateTimeLog and deleteTimeLog, with the role that it asks for
pub read_time_log : Directory → (now user id : ℕ) → State → Result TimeError TimeLog
read_time_log d now user id s = do
  l ← or_fail (find (is_live_log s.tasks id) s.logs) time_log_not_found
  t ← or_fail (find (is_live_task l.task_id) s.tasks) time_log_not_found
  authorize d now t.project_id user (if l.user_id == user then member else admin)
  ok l

pub record UpdateBody : Type 0 where
  pub minutes : Option ℕ
  pub description : Option Text

abbrev pub revise : UpdateBody → TimeLog → TimeLog
revise body l = record l {
  minutes = or_default body.minutes l.minutes;
  description = elim body.description [ none ↦ l.description | some text ↦ trim_or_null text ];
}

-- `(body.minutes ?? timeLog.minutes) - timeLog.minutes`
abbrev pub minutes_diff : UpdateBody → TimeLog → ℤ
minutes_diff body seen = pos (or_default body.minutes seen.minutes) -ℤ pos seen.minutes

-- the transaction of updateTimeLog, for the log as it was read
pub commit_update : UpdateBody → TimeLog → State → Result TimeError State
commit_update body seen s = do
  l ← or_fail (find (is_log seen.id) s.logs) record_gone
  ok (record {
    tasks =
        if is_zero (minutes_diff body seen)
        then s.tasks
        else spend_on seen.task_id (minutes_diff body seen) s.tasks;
    logs = update_where (is_log seen.id) (revise body) s.logs;
    events = s.events ++ log_updated seen (revise body l) (minutes_diff body seen) ∷ [];
  })

-- the transaction of deleteTimeLog, for the log as it was read
pub commit_delete : TimeLog → State → Result TimeError State
commit_delete seen s = do
  l ← or_fail (find (is_log seen.id) s.logs) record_gone
  ok (record {
    tasks = spend_on seen.task_id (pos 0 -ℤ pos seen.minutes) s.tasks;
    logs = select (λ x. not (is_log seen.id x)) s.logs;
    events = s.events ++ log_deleted seen ∷ [];
  })

-- updateTimeLog, when nothing comes between its reading and its transaction
pub update_time_log : Directory → (now user id : ℕ) → UpdateBody → State → Result TimeError State
update_time_log d now user id body s = do
  seen ← read_time_log d now user id s
  commit_update body seen s

-- deleteTimeLog, when nothing comes between its reading and its transaction
pub delete_time_log : Directory → (now user id : ℕ) → State → Result TimeError State
delete_time_log d now user id s = do seen ← read_time_log d now user id s; commit_delete seen s

-- updateEstimate
pub update_estimate : Directory → (now user task_id estimate : ℕ) → State → Result TimeError State
update_estimate d now user task_id estimate s = do
  t ← or_fail (find (is_live_task task_id) s.tasks) task_not_found
  authorize d now t.project_id user member
  ok (record s {
    tasks =
        update_where (λ x. x.id == task_id) (λ x. record x { estimate_minutes = some estimate })
          s.tasks;
    events = s.events ++ estimate_updated task_id t.estimate_minutes (some estimate) ∷ [];
  })

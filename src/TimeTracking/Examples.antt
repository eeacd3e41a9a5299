-- ===== src/TimeTracking/Examples.antt =====
-- The theorems at a task with one log.
use atlaspm.Base.{ℕ, ◌≡◌, refl, none, some, [], ◌∷◌, arith, ok}
use atlaspm.Base.Int.{ℤ, pos, negsuc, ◌+ℤ◌, ◌-ℤ◌}
use atlaspm.Access.{require_project_role}
use atlaspm.Access.Examples.{directory}
use atlaspm.TimeTracking.{
  TimedTask, TimeLog, State, UpdateBody, create_time_log, update_time_log, delete_time_log,
  commit_update, commit_delete, read_time_log, log_created, log_updated, log_deleted,
}
use atlaspm.TimeTracking.Totals.{Balanced}
use atlaspm.TimeTracking.History.{rest, created, updated, Reached-Balanced}
use atlaspm.TimeTracking.Races.{stale_update-unbalanced}

abbrev timed : ℤ → TimedTask
timed spent = record {
  id = 10;
  project_id = 7;
  deleted_at = none;
  estimate_minutes = none;
  spent_minutes = spent;
}

abbrev log : ℕ → TimeLog
log minutes = record { id = 70; task_id = 10; user_id = 1; minutes = minutes; description = none }

abbrev no_logs : State
no_logs = record { tasks = timed (pos 0) ∷ []; logs = []; events = [] }

abbrev one_log : State
one_log = record {
  tasks = timed (pos 30) ∷ [];
  logs = log 30 ∷ [];
  events = log_created (log 30) ∷ [];
}

abbrev shorter : UpdateBody
shorter = record { minutes = some 20; description = none }

abbrev revised : State
revised = record {
  tasks = timed (pos 20) ∷ [];
  logs = log 20 ∷ [];
  events = log_created (log 30) ∷ log_updated (log 30) (log 20) (negsuc 9) ∷ [];
}

abbrev deleted : State
deleted = record {
  tasks = timed (pos 0) ∷ [];
  logs = [];
  events = log_created (log 30) ∷ log_deleted (log 30) ∷ [];
}

-- the reading of another request, from when the log stood at 50 minutes
abbrev raced : State
raced = record {
  tasks = timed (pos 0) ∷ [];
  logs = log 20 ∷ [];
  events = log_created (log 30) ∷ log_updated (log 50) (log 20) (negsuc 29) ∷ [];
}

no_logs-Balanced : Balanced no_logs
no_logs-Balanced = record { agrees = (refl, tt); distinct = tt }

one_log-Balanced : Balanced one_log
one_log-Balanced = record { agrees = (refl, tt); distinct = (refl, tt) }

log_is_created : create_time_log directory 20 1 70 10 30 none no_logs ≡ ok one_log
unfolding create_time_log require_project_role ◌+ℤ◌
log_is_created = refl

log_is_revised : update_time_log directory 20 1 70 shorter one_log ≡ ok revised
unfolding update_time_log read_time_log commit_update require_project_role ◌+ℤ◌ ◌-ℤ◌
log_is_revised = refl

log_is_deleted : delete_time_log directory 20 1 70 one_log ≡ ok deleted
unfolding delete_time_log read_time_log commit_delete require_project_role ◌+ℤ◌ ◌-ℤ◌
log_is_deleted = refl

Reached-Balanced_example : Balanced revised
Reached-Balanced_example = Reached-Balanced no_logs-Balanced (
    updated (created rest directory 20 1 70 10 30 none refl log_is_created) directory 20 1 70
      shorter log_is_revised)

stale_update-unbalanced_example : ¬ Balanced raced
unfolding commit_update ◌+ℤ◌ ◌-ℤ◌
stale_update-unbalanced_example =
    stale_update-unbalanced shorter 20 (log 50) (log 30) (timed (pos 30)) one_log raced
      one_log-Balanced refl refl (omega arith) refl refl refl

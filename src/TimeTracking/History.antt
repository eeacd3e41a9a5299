-- ===== src/TimeTracking/History.antt =====
-- TimeTracking: any number of calls, one after another.
use atlaspm.Base.{ℕ, false, Option, ◌≡◌, any, ok}
use atlaspm.Base.Text.{Text}
use atlaspm.Access.{Directory}
use atlaspm.TimeTracking.{
  State, UpdateBody, is_log, create_time_log, update_time_log, delete_time_log, update_estimate,
}
use atlaspm.TimeTracking.Totals.{Balanced}
use atlaspm.TimeTracking.Calls.{
  create_time_log-Balanced, update_time_log-Balanced, delete_time_log-Balanced,
  update_estimate-Balanced,
}

-- the states that calls lead to, each with its own directory and clock
pub data Reached (s : State) : State → Type 0 where
  rest : Reached s s
  created :
      {t u : State}
      → Reached s t
      → (d : Directory) (now user id task_id minutes : ℕ) → (description : Option Text)
      → any (is_log id) t.logs ≡ false
      → create_time_log d now user id task_id minutes description t ≡ ok u
      → Reached s u
  updated :
      {t u : State}
      → Reached s t
      → (d : Directory) (now user id : ℕ) (body : UpdateBody)
      → update_time_log d now user id body t ≡ ok u
      → Reached s u
  deleted :
      {t u : State}
      → Reached s t
      → (d : Directory) (now user id : ℕ) → delete_time_log d now user id t ≡ ok u
      → Reached s u
  estimated :
      {t u : State}
      → Reached s t
      → (d : Directory) (now user task_id estimate : ℕ)
      → update_estimate d now user task_id estimate t ≡ ok u
      → Reached s u

-- If each task's `spentMinutes` is the sum of the minutes of its logs and no two logs have one id,
-- then so it is after any calls that create logs under new ids, update and delete logs and set
-- estimates, when nothing comes between the reading of a call and its commit.
pub Reached-Balanced : {s s' : State} → Balanced s → Reached s s' → Balanced s'
Reached-Balanced h rest = h
Reached-Balanced h (created {t} {u} r d now user id task_id minutes description n e) =
    create_time_log-Balanced d now user id task_id minutes description t u (Reached-Balanced h r) n
      e
Reached-Balanced h (updated {t} {u} r d now user id body e) =
    update_time_log-Balanced d now user id body t u (Reached-Balanced h r) e
Reached-Balanced h (deleted {t} {u} r d now user id e) =
    delete_time_log-Balanced d now user id t u (Reached-Balanced h r) e
Reached-Balanced h (estimated {t} {u} r d now user task_id estimate e) =
    update_estimate-Balanced d now user task_id estimate t u (Reached-Balanced h r) e

-- ===== src/RecurringRules/History.antt =====
-- RecurringRules: any number of calls, and a run of the worker over the rules that they leave.
use atlaspm.Base.{ℕ, false, some, ◌≡◌, any, ok, subst, sym}
use atlaspm.Access.{Directory}
use atlaspm.RecurringTasks
use atlaspm.RecurringTasks.{World, Tally, is_rule, process_due_recurring_tasks}
use atlaspm.RecurringRules.{State, CreateBody, create}
use atlaspm.RecurringRules.Changes.{UpdateBody, update, delete}
use atlaspm.RecurringRules.Valid.{IsSound, create-IsSound, update-IsSound, delete-IsSound}
use atlaspm.RecurringRetries.Runs.{AllRules, process_due_recurring_tasks-Reached}

-- the states that calls lead to, each with its own directory and clock
pub data Reached (s : State) : State → Type 0 where
  rest : Reached s s
  created :
      {t u : State}
      → Reached s t
      → (d : Directory) (now user id project_id : ℕ) (body : CreateBody)
      → any (is_rule id) t.rules ≡ false
      → create d now user id project_id body t ≡ ok u
      → Reached s u
  updated :
      {t u : State}
      → Reached s t
      → (d : Directory) (now user id : ℕ) (body : UpdateBody) → update d now user id body t ≡ ok u
      → Reached s u
  deleted :
      {t u : State}
      → Reached s t
      → (d : Directory) (now user id : ℕ) → delete d now user id t ≡ ok u
      → Reached s u

Reached-IsSound : {s s' : State} → IsSound s → Reached s s' → IsSound s'
Reached-IsSound h rest = h
Reached-IsSound h (created {t} {u} r d now user id p body n e) =
    create-IsSound d now user id p body t u n e (Reached-IsSound h r)
Reached-IsSound h (updated {t} {u} r d now user id body e) =
    update-IsSound d now user id body t u e (Reached-IsSound h r)
Reached-IsSound h (deleted {t} {u} r d now user id e) =
    delete-IsSound d now user id t u e (Reached-IsSound h r)

-- After any calls that create rules under new ids, change and delete rules, from a table whose rules
-- can all be calculated and have ids of their own, where nothing comes between the reading of an
-- update or a delete and its transaction, the table is such a table again, and a run of the worker
-- over its due rules comes to an end.
pub Reached-runs :
    (s s' : State) (w : World) (now : ℕ) (t : RecurringTasks.State)
    → IsSound s
    → Reached s s'
    → t.rules ≡ s'.rules
    → IsSound s'
      × (tally : Tally) × (t' : RecurringTasks.State) × (process_due_recurring_tasks w now t
          ≡ some (tally, t'))
Reached-runs s s' w now t h r e =
    let sound = Reached-IsSound h r in
    let (tally, t', run, steps) =
      process_due_recurring_tasks-Reached w now t (subst AllRules (sym e) sound.all) in
    (sound, tally, t', run)

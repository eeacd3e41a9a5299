-- ===== src/Task/Examples.antt =====
-- The theorems on the entity at a task that is created and moved.
use atlaspm.Base.{◌≡◌, refl, none, some, [], ◌∷◌, ok}
use atlaspm.Base.Int.{pos}
use atlaspm.Base.Number.{int}
use atlaspm.Base.Text.{trim, trim_start, is_space}
use atlaspm.Store.{todo, done}
use atlaspm.Progress.{progress_from}
use atlaspm.Task.{
  TaskSnapshot, CreateTaskParams, validate, rehydrate, create, update_progress, transition_status,
}
use atlaspm.Task.Validity.{IsValid, made, moved_on, updated, Lived-IsValid}

abbrev params : CreateTaskParams
params = record {
  id = 116 ∷ 49 ∷ [];
  title = 32 ∷ 65 ∷ [];
  status = none;
  progress_percent = some (int (pos 40));
  completed_at = none;
  version = none;
}

abbrev fresh_task : TaskSnapshot
fresh_task = record {
  id = 116 ∷ 49 ∷ [];
  title = 32 ∷ 65 ∷ [];
  status = todo;
  progress_percent = int (pos 40);
  completed_at = none;
  version = int (pos 0);
}

is_created : create params ≡ ok fresh_task
unfolding create rehydrate validate progress_from trim trim_start is_space
is_created = refl

fresh_task-IsValid : IsValid fresh_task
fresh_task-IsValid = Lived-IsValid (made params fresh_task is_created)

Lived-IsValid_example :
    IsValid (transition_status (update_progress fresh_task (int (pos 100)) 5).0 done 9).0
Lived-IsValid_example =
    Lived-IsValid (moved_on done 9 (updated (int (pos 100)) 5 (made params fresh_task is_created)))

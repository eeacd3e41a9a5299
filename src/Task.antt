-- ===== src/Task.antt =====
-- The Task entity (packages/domain/src/entities/task.ts) and its events (events/task-events.ts).
-- A method that changes the entity returns its new state beside the result, since a method that
-- throws may have changed the state before. The status is of its type, so assertTaskStatus passes.
pub mod Validity
pub mod Examples
use atlaspm.Base.{
  ℕ, ◌==◌, leb, Bool, true, false, not, ◌&&◌, Option, none, some, List, [], ◌∷◌, if◌then◌else◌,
  Result, ok, err, ◌>>=◌, ◌>>◌, refuse, or_default,
}
use atlaspm.Base.Int.{ℤ, pos, negsuc}
use atlaspm.Base.Number.{Number, int, non_integer, increment}
use atlaspm.Base.Text.{Text, trim}
use atlaspm.Store.{TaskStatus, todo, done, is_done, is_some, is_none}
use atlaspm.Progress.{
  ValidationError, missing_id, missing_title, bad_version, done_without_completed_at,
  completed_at_without_done, progress_from,
}

pub record TaskSnapshot : Type 0 where
  pub id : Text
  pub title : Text
  pub status : TaskStatus
  pub progress_percent : Number
  pub completed_at : Option ℕ
  pub version : Number

pub record CreateTaskParams : Type 0 where
  pub id : Text
  pub title : Text
  pub status : Option TaskStatus
  pub progress_percent : Option Number
  pub completed_at : Option ℕ
  pub version : Option Number

-- `!text.trim()`
abbrev pub is_blank : Text → Bool
is_blank t = elim (trim t) [ [] ↦ true | _ ∷ _ ↦ false ]

-- `!Number.isInteger(version) || version < 0`
abbrev pub is_bad_version : Number → Bool
is_bad_version (int (pos n)) = false
is_bad_version (int (negsuc n)) = true
is_bad_version non_integer = true

-- Task.validate
pub validate : TaskSnapshot → Result ValidationError (Unit {0})
validate s = do
  refuse (is_blank s.id) missing_id
  refuse (is_blank s.title) missing_title
  progress_from s.progress_percent
  refuse (is_bad_version s.version) bad_version
  refuse (is_done s.status && is_none s.completed_at) done_without_completed_at
  refuse (not (is_done s.status) && is_some s.completed_at) completed_at_without_done

-- Task.rehydrate: the entity's state is a copy of the snapshot
pub rehydrate : TaskSnapshot → Result ValidationError TaskSnapshot
rehydrate s = do validate s; ok s

-- Task.create
pub create : CreateTaskParams → Result ValidationError TaskSnapshot
create p = rehydrate (record {
  id = p.id;
  title = p.title;
  status = or_default p.status todo;
  progress_percent = or_default p.progress_percent (int (pos 0));
  completed_at = p.completed_at;
  version = or_default p.version (int (pos 0));
})

pub record ProgressChanged : Type 0 where
  pub task_id : Text
  pub before : Number
  pub after : ℕ
  pub occurred_at : ℕ

pub record StatusChanged : Type 0 where
  pub task_id : Text
  pub before : TaskStatus
  pub after : TaskStatus
  pub occurred_at : ℕ

-- updateProgress
pub update_progress :
    TaskSnapshot
    → Number
    → (occurred_at : ℕ) → TaskSnapshot × Result ValidationError ProgressChanged
update_progress s x occurred_at = elim (progress_from x) [
  | err e ↦ (s, err e)
  | ok next ↦ (
    record s { progress_percent = int (pos next); version = increment s.version },
    ok (record {
      task_id = s.id;
      before = s.progress_percent;
      after = next;
      occurred_at = occurred_at;
    }),
  )
]

-- the state that transitionStatus writes before it validates
abbrev pub moved : TaskSnapshot → TaskStatus → ℕ → TaskSnapshot
moved s next occurred_at = record s {
  status = next;
  completed_at = if is_done next then some (or_default s.completed_at occurred_at) else none;
  version = increment s.version;
}

-- transitionStatus
pub transition_status :
    TaskSnapshot
    → TaskStatus
    → (occurred_at : ℕ) → TaskSnapshot × Result ValidationError StatusChanged
transition_status s next occurred_at = (
  moved s next occurred_at,
  validate (moved s next occurred_at)
      >> ok (record { task_id = s.id; before = s.status; after = next; occurred_at = occurred_at }),
)

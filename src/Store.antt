-- ===== src/Store.antt =====
-- The rows that the services share: tasks (apps/core-api/prisma/schema.prisma, model Task, the
-- columns that the modelled code reads or writes) and the task enums of packages/domain.
-- An id is a UUID that the code only compares: a number. A `Date` is its milliseconds since 1970.
use atlaspm.Base.{
  ℕ, ◌≡◌, refl, ap, ==→eq, Bool, Option, none, some, true, false, ◌==◌, ◌&&◌, List, find,
}

-- packages/domain/src/value-objects/task-status.ts
pub data TaskStatus : Type 0 where
  todo in_progress done blocked : TaskStatus

-- packages/domain/src/value-objects/task-type.ts
pub data TaskType : Type 0 where
  task milestone approval : TaskType

abbrev pub is_done : TaskStatus → Bool
is_done done = true
is_done _ = false

abbrev pub is_milestone : TaskType → Bool
is_milestone milestone = true
is_milestone _ = false

abbrev pub is_some {ℓ} : {A : Type ℓ} → Option A → Bool
is_some none = false
is_some (some _) = true

abbrev pub is_none {ℓ} : {A : Type ℓ} → Option A → Bool
is_none none = true
is_none (some _) = false

pub is_none_lem {ℓ} : {A : Type ℓ} (o : Option A) → is_none o ≡ true → o ≡ none
is_none_lem none h = refl
is_none_lem (some a) h = absurd (cc h)

abbrev pub has_id : ℕ → Option ℕ → Bool
has_id a none = false
has_id a (some b) = b == a

pub has_id_lem : (a : ℕ) (o : Option ℕ) → has_id a o ≡ true → o ≡ some a
has_id_lem a none h = absurd (cc h)
has_id_lem a (some b) h = ap some (==→eq b a h)

pub record TaskRow : Type 0 where
  pub id : ℕ
  pub project_id : ℕ
  pub section_id : ℕ
  pub parent_id : Option ℕ
  pub type : TaskType
  pub status : TaskStatus
  pub progress_percent : ℕ
  pub completed_at : Option ℕ
  pub deleted_at : Option ℕ
  pub version : ℕ

-- `where: { id, deletedAt: null }`
abbrev pub is_active : ℕ → TaskRow → Bool
is_active id t = (t.id == id) && is_none t.deleted_at

-- `task.findFirst({ where: { id, deletedAt: null } })`
abbrev pub find_active : ℕ → List TaskRow → Option TaskRow
find_active id = find (is_active id)

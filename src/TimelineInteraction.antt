-- ===== src/TimelineInteraction.antt =====
-- packages/domain/src/services/timeline-interaction.ts: the order of a timeline's lanes, and the dates
-- of a task that is dropped on a day.
-- A `Date` is its time in milliseconds from some time before all of them, or `none` for a `Date` that
-- is no time (`Number.isNaN(date.getTime())`).
pub mod Lanes
pub mod Drops
pub mod Examples
use atlaspm.Base.{
  ℕ, zero, suc, ◌+◌, ◌*◌, ◌-◌, ◌/◌, max, ltb, leb, Bool, true, false, ◌||◌, Option, none, some,
  List, [], ◌∷◌, ◌++◌, length, if◌then◌else◌, Result, ok, err, ◌>>=◌, ◌>>◌, refuse, or_fail,
}
use atlaspm.Base.Int.{pos, negsuc}
use atlaspm.Base.Number.{Number, int, non_integer}
use atlaspm.Base.Text.{Text, trim}
use atlaspm.Payload.{mem_text}

-- the messages of DomainValidationError
pub data DomainError : Type 0 where
  lane_ids_not_array max_lanes_not_positive lane_id_not_string : DomainError
  too_many_lanes : ℕ → DomainError
  drop_at_invalid duration_not_positive duration_too_long : DomainError
  dates_invalid start_after_due : DomainError

-- a value that is to be a string
pub data LaneId : Type 0 where
  string : Text → LaneId
  other : LaneId

-- what is to be an array of strings
pub data LaneIds : Type 0 where
  array : List LaneId → LaneIds
  no_array : LaneIds

abbrev pub is_empty : Text → Bool
is_empty [] = true
is_empty (c ∷ cs) = false

-- the loop of normalizeTimelineLaneOrder; `seen` has the elements of `normalized`
unfoldable pub collect_lanes : ℕ → List LaneId → List Text → Result DomainError (List Text)
collect_lanes max_lanes [] normalized = ok normalized
collect_lanes max_lanes (other ∷ ids) normalized = err lane_id_not_string
collect_lanes max_lanes (string id ∷ ids) normalized =
    if is_empty (trim id) || mem_text (trim id) normalized
    then collect_lanes max_lanes ids normalized
    else if ltb max_lanes (suc (length normalized))
    then err (too_many_lanes max_lanes)
    else collect_lanes max_lanes ids (normalized ++ trim id ∷ [])

-- `Number.isInteger(value) && value > 0`
abbrev pub positive_integer : Number → Option ℕ
positive_integer (int (pos (suc n))) = some (suc n)
positive_integer (int (pos zero)) = none
positive_integer (int (negsuc n)) = none
positive_integer non_integer = none

-- normalizeTimelineLaneOrder
unfoldable pub normalize_timeline_lane_order : LaneIds → Number → Result DomainError (List Text)
normalize_timeline_lane_order no_array max_lanes = err lane_ids_not_array
normalize_timeline_lane_order (array ids) max_lanes = do
  n ← or_fail (positive_integer max_lanes) max_lanes_not_positive
  collect_lanes n ids []

abbrev pub day_ms : ℕ
day_ms = 24 * 60 * 60 * 1000

abbrev pub max_timeline_duration_days : ℕ
max_timeline_duration_days = 365

abbrev pub Date : Type 0
Date = Option ℕ

-- the duration of the dates that a task has
abbrev pub current_duration : Option Date → Option Date → ℕ
current_duration (some (some start)) (some (some due)) =
    if leb start due then max 1 ((due - start) / day_ms + 1) else 1
current_duration _ _ = 1

-- resolveDurationDays
abbrev pub resolve_duration_days : Option Number → Option Date → Option Date → Result DomainError ℕ
resolve_duration_days none start due = ok (current_duration start due)
resolve_duration_days (some requested) start due = do
  n ← or_fail (positive_integer requested) duration_not_positive
  refuse (ltb max_timeline_duration_days n) duration_too_long
  ok n

pub record DropInput : Type 0 where
  pub drop_at : Date
  pub current_start_at : Option Date
  pub current_due_at : Option Date
  pub duration_days : Option Number

pub record DropSchedule : Type 0 where
  pub start_at : ℕ
  pub due_at : ℕ
  pub duration_days : ℕ

-- deriveTimelineDropSchedule
unfoldable pub derive_timeline_drop_schedule : DropInput → Result DomainError DropSchedule
derive_timeline_drop_schedule input = do
  time ← or_fail input.drop_at drop_at_invalid
  days ← resolve_duration_days input.duration_days input.current_start_at input.current_due_at
  ok (record { start_at = time; due_at = time + (days - 1) * day_ms; duration_days = days })

-- assertTimelineScheduleRange
unfoldable pub assert_timeline_schedule_range :
    Option Date → Option Date → Result DomainError (Unit {0})
assert_timeline_schedule_range none due = ok tt
assert_timeline_schedule_range (some start) none = ok tt
assert_timeline_schedule_range (some start) (some due) = do
  s ← or_fail start dates_invalid
  d ← or_fail due dates_invalid
  refuse (ltb d s) start_after_due

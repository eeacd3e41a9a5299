-- ===== src/TimelineInteraction/Examples.antt =====
-- TimelineInteraction: tests and runs.
use atlaspm.Base.{
  ◌+◌, ◌-◌, ◌*◌, ◌≤◌, ◌≡◌, refl, none, some, [], ◌∷◌, ok, err, ltb, length, map, if◌then◌else◌,
  List,
}
use atlaspm.Base.Int.{pos}
use atlaspm.Base.Number.{int}
use atlaspm.Base.Text.{Text, trim, trim_start, is_space, text_eq}
use atlaspm.TimelineInteraction.{
  DropInput, DropSchedule, array, string, too_many_lanes, collect_lanes,
  normalize_timeline_lane_order, derive_timeline_drop_schedule, assert_timeline_schedule_range,
  day_ms, duration_too_long,
}
use atlaspm.TimelineInteraction.Lanes.{lane_names, normalize_timeline_lane_order_lem}
use atlaspm.TimelineInteraction.Drops.{HasDuration, derive_timeline_drop_schedule-HasDuration}

-- " a", "b", "a", " "
abbrev lanes : List Text
lanes = (32 ∷ 97 ∷ []) ∷ (98 ∷ []) ∷ (97 ∷ []) ∷ (32 ∷ []) ∷ []

two_lanes :
    normalize_timeline_lane_order (array (map string lanes)) (int (pos 2))
    ≡ ok ((97 ∷ []) ∷ (98 ∷ []) ∷ [])
unfolding normalize_timeline_lane_order collect_lanes trim trim_start is_space text_eq
two_lanes = refl

too_many :
    normalize_timeline_lane_order (array (map string lanes)) (int (pos 1)) ≡ err (too_many_lanes 1)
unfolding normalize_timeline_lane_order collect_lanes trim trim_start is_space text_eq
too_many = refl

normalize_timeline_lane_order_lem_example :
    normalize_timeline_lane_order (array (map string lanes)) (int (pos 2))
    ≡ (if ltb 2 (length (lane_names lanes)) then err (too_many_lanes 2) else ok (lane_names lanes))
normalize_timeline_lane_order_lem_example = normalize_timeline_lane_order_lem 1 lanes

-- a task of three days
abbrev dropped : DropInput
dropped = record {
  drop_at = some 1000;
  current_start_at = some (some 500);
  current_due_at = some (some (500 + 2 * day_ms));
  duration_days = none;
}

abbrev rescheduled : DropSchedule
rescheduled = record { start_at = 1000; due_at = 1000 + 2 * day_ms; duration_days = 3 }

task_is_dropped : derive_timeline_drop_schedule dropped ≡ ok rescheduled
unfolding derive_timeline_drop_schedule
task_is_dropped = refl

year_is_refused :
    derive_timeline_drop_schedule (record dropped { duration_days = some (int (pos 366)) })
    ≡ err duration_too_long
unfolding derive_timeline_drop_schedule
year_is_refused = refl

derive_timeline_drop_schedule-HasDuration_example :
    (some 1000 ≡ some rescheduled.start_at)
    × (rescheduled.due_at ≡ rescheduled.start_at + (rescheduled.duration_days - 1) * day_ms)
    × (1 ≤ rescheduled.duration_days)
    × HasDuration none (some (some 500)) (some (some (500 + 2 * day_ms))) rescheduled.duration_days
    × (assert_timeline_schedule_range
          (some (some rescheduled.start_at))
          (some (some rescheduled.due_at))
        ≡ ok tt)
derive_timeline_drop_schedule-HasDuration_example =
    derive_timeline_drop_schedule-HasDuration dropped rescheduled task_is_dropped

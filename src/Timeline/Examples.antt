-- ===== src/Timeline/Examples.antt =====
-- Three tasks of a lane, and what a hole in the rows does.
use atlaspm.Base.{map, ℕ, ◌==◌, ◌≡◌, refl, true, none, some, Option, List, [], ◌∷◌, if◌then◌else◌}
use atlaspm.Timeline.{LayoutTask, pack_rows, place_all, place, find_row, set_row}
use atlaspm.Timeline.Apart.{no_manual, AllApart, pack_rows-AllApart}

abbrev task_on : (id first last : ℕ) → LayoutTask
task_on id first last = record {
  id = id;
  has_schedule = true;
  in_window = true;
  start_day = some first;
  end_day = some last;
}

abbrev lane : List LayoutTask
lane = task_on 1 3 5 ∷ task_on 2 5 9 ∷ task_on 3 6 7 ∷ []

pack_rows-AllApart_example :
    (map (λ p. p.0) (pack_rows no_manual lane) ≡ lane) × AllApart (pack_rows no_manual lane)
pack_rows-AllApart_example = pack_rows-AllApart lane refl

lane_rows :
    pack_rows no_manual lane ≡ (task_on 1 3 5, 0) ∷ (task_on 2 5 9, 1) ∷ (task_on 3 6 7, 0) ∷ []
unfolding pack_rows place_all place find_row set_row
lane_rows = refl

-- a manual row 1 for the first task
abbrev second_row : ℕ → Option ℕ
second_row id = if id == 1 then some 1 else none

-- The row before it is a hole, and the two tasks of the same days both end in it.
hole_is_shared :
    pack_rows second_row (task_on 1 1 2 ∷ task_on 2 3 5 ∷ task_on 3 3 5 ∷ [])
    ≡ (task_on 1 1 2, 1) ∷ (task_on 2 3 5, 0) ∷ (task_on 3 3 5, 0) ∷ []
unfolding pack_rows place_all place find_row set_row
hole_is_shared = refl

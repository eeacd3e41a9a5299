-- ===== src/Timeline.antt =====
-- Packing the tasks of a timeline lane into rows: the last loop of buildCompactRowPlacement
-- (packages/domain/src/services/timeline-layout.ts), for the tasks in the order that the sort
-- before it gives. A day is its number, counted from some day before all of the tasks' days, as the
-- loop only compares days. A manual row is a whole number of at least 0.
pub mod Rows
pub mod Apart
pub mod Examples
use atlaspm.Base.{
  ℕ, zero, suc, ◌-◌, min, max, ◌==◌, ltb, Bool, true, false, not, ◌&&◌, ◌||◌, Option, none, some,
  List, [], ◌∷◌, ◌++◌, any, length, if◌then◌else◌, or_default,
}
use atlaspm.Store.{is_some}

-- the parts of TimelineLayoutTaskInput that the loop reads; a schedule is its first and last day
pub record LayoutTask : Type 0 where
  pub id : ℕ
  pub has_schedule : Bool
  pub in_window : Bool
  pub start_day : Option ℕ
  pub end_day : Option ℕ

pub record DayRange : Type 0 where
  pub first : ℕ
  pub last : ℕ

-- an element of `occupiedRangesByRow`, which may be a hole
abbrev pub Row : Type 0
Row = Option (List DayRange)

-- `!(range.endDay < taskStartDay || range.startDay > taskEndDay)`
abbrev pub overlaps : DayRange → DayRange → Bool
overlaps r range = not (ltb range.last r.first || ltb r.last range.first)

-- the days that a task of the lane takes, if it is scheduled in the window
abbrev pub range_of : LayoutTask → Option DayRange
range_of t =
    if t.has_schedule && t.in_window
    then elim t.start_day [
      | none ↦ none
      | some a ↦ elim t.end_day [ none ↦ none | some b ↦ some (record { first = a; last = b }) ]
    ]
    else none

-- `occupiedRanges.push(…)`: for a hole `occupiedRanges` is a new list, which nothing keeps
abbrev pub push : DayRange → Row → Row
push r none = none
push r (some rs) = some (rs ++ r ∷ [])

abbrev pub deeper : Row → Option (ℕ × List Row) → Option (ℕ × List Row)
deeper row none = none
deeper row (some (i, rows)) = some (suc i, row ∷ rows)

-- the loop over candidate rows, which skips the rows before the preferred one
pub find_row : DayRange → (preferred : ℕ) → List Row → Option (ℕ × List Row)
find_row r p [] = none
find_row r (suc p) (row ∷ rows) = deeper row (find_row r p rows)
find_row r zero (row ∷ rows) =
    let rest = find_row r zero rows in
    if any (overlaps r) (or_default row []) then deeper row rest else some (0, push r row ∷ rows)

-- `occupiedRangesByRow[rowIndex] = […]`, past holes where the array is shorter
pub set_row : ℕ → Row → List Row → List Row
set_row zero row [] = row ∷ []
set_row zero row (_ ∷ rows) = row ∷ rows
set_row (suc i) row [] = none ∷ set_row i row []
set_row (suc i) row (old ∷ rows) = old ∷ set_row i row rows

pub record Packing : Type 0 where
  pub rows : List Row
  pub next_row : ℕ

-- `Math.min(Math.max(0, manualRow ?? otherwise), maxPreferredRowIndex)`
abbrev pub preferred_row : (count otherwise : ℕ) → Option ℕ → ℕ
preferred_row count otherwise manual = min (or_default manual otherwise) (count - 1)

-- one round of the loop: the row of the task, and the rows after it
pub place : (ℕ → Option ℕ) → (count : ℕ) → LayoutTask → Packing → ℕ × Packing
place manual count t s = elim (range_of t) [
  | none ↦
      let i = max s.next_row (preferred_row count s.next_row (manual t.id)) in
      (i, record s { next_row = suc i })
  | some r ↦ elim (find_row r (preferred_row count 0 (manual t.id)) s.rows) [
    | some (i, rows) ↦ (i, record s { rows = rows })
    | none ↦
        let i = max s.next_row (preferred_row count 0 (manual t.id)) in
        (i, record { rows = set_row i (some (r ∷ [])) s.rows; next_row = suc i })
  ]
]

-- the loop over `tasksForPacking`: each task with its row
pub place_all : (ℕ → Option ℕ) → (count : ℕ) → List LayoutTask → Packing → List (LayoutTask × ℕ)
place_all manual count [] s = []
place_all manual count (t ∷ ts) s =
    let placed = place manual count t s in (t, placed.0) ∷ place_all manual count ts placed.1

pub pack_rows : (ℕ → Option ℕ) → List LayoutTask → List (LayoutTask × ℕ)
pack_rows manual tasks = place_all manual (length tasks) tasks (record { rows = []; next_row = 0 })

-- ===== src/Timeline/Apart.antt =====
-- Tasks that share a row of the timeline never share a day, where all tasks are scheduled in the
-- window and none has a manual row.
use atlaspm.Base.{
  ℕ, true, map, ap, ◌≤◌, In, ◌-◌, min, max, ◌==◌, ◌≡◌, ◌∙◌, sym, subst, refl, inl, inr, Bool, false,
  ◌&&◌, Option, none, some, List, [], ◌∷◌, ◌++◌, any, length, arith, Bool-cases, Option-cases,
  ==→eq,
}
use atlaspm.Store.{is_none}
use atlaspm.Timeline.{
  LayoutTask, DayRange, overlaps, range_of, find_row, Packing, preferred_row, place, place_all,
  pack_rows,
}
use atlaspm.Timeline.Rows.{Full, row_at, Fits, find_row-Fits, set_row-Fits}

abbrev pub no_manual : ℕ → Option ℕ
no_manual id = none

-- the code sees an overlap of the two tasks
abbrev share_day : Option DayRange → Option DayRange → Bool
share_day (some q) (some r) = overlaps q r
share_day _ _ = false

-- of two tasks in one row, the code sees no overlap
abbrev NoOverlap : List (LayoutTask × ℕ) → Type 0
NoOverlap [] = Unit {0}
NoOverlap (p ∷ rest) =
    (any (λ q. (p.1 == q.1) && share_day (range_of q.0) (range_of p.0)) rest ≡ false)
    × NoOverlap rest

-- the day is one of those of a task that is scheduled in the window
abbrev pub TakesDay : LayoutTask → ℕ → Type 0
TakesDay t d =
    (t.has_schedule ≡ true)
    × (t.in_window ≡ true)
    × (a : ℕ) × (b : ℕ) × (t.start_day ≡ some a)
    × (t.end_day ≡ some b)
    × (a ≤ d)
    × (d ≤ b)

-- the task shares no day with a later one of its row
abbrev pub ApartFrom : LayoutTask × ℕ → List (LayoutTask × ℕ) → Type 0
ApartFrom p [] = Unit {0}
ApartFrom p (q ∷ rest) =
    (p.1 ≡ q.1 → (d : ℕ) → TakesDay p.0 d → ¬ TakesDay q.0 d) × ApartFrom p rest

-- of two tasks in one row, none takes a day that the other takes
abbrev pub AllApart : List (LayoutTask × ℕ) → Type 0
AllApart [] = Unit {0}
AllApart (p ∷ rest) = ApartFrom p rest × AllApart rest

TakesDay-range_of :
    (t : LayoutTask) (d : ℕ)
    → TakesDay t d
    → (r : DayRange) × (range_of t ≡ some r) × (r.first ≤ d) × (d ≤ r.last)
TakesDay-range_of t d (h, w, a, b, s, e, low, high) =
    (record { first = a; last = b }, rw (h, w, s, e) refl, low, high)

share_day-TakesDay :
    (q p : LayoutTask) (d : ℕ)
    → share_day (range_of q) (range_of p) ≡ false
    → TakesDay p d
    → ¬ TakesDay q d
share_day-TakesDay q p d h a b =
    let (r, e, low, high) = TakesDay-range_of p d a in
    let (r', e', low', high') = TakesDay-range_of q d b in
    let apart : overlaps r' r ≡ false =
      subst (λ o. share_day o (some r) ≡ false) e'
        (subst (λ o. share_day (range_of q) o ≡ false) e h) in
    absurd (ground (arith, apart, low, high, low', high'))

NoOverlap-ApartFrom :
    (p : LayoutTask × ℕ) (rest : List (LayoutTask × ℕ))
    → any (λ q. (p.1 == q.1) && share_day (range_of q.0) (range_of p.0)) rest ≡ false
    → ApartFrom p rest
NoOverlap-ApartFrom p [] h = tt
NoOverlap-ApartFrom p (q ∷ rest) h = (
  λ e d. share_day-TakesDay q.0 p.0 d (ground (arith, e)),
  NoOverlap-ApartFrom p rest (ground arith),
)

NoOverlap-AllApart : (ps : List (LayoutTask × ℕ)) → NoOverlap ps → AllApart ps
NoOverlap-AllApart [] h = tt
NoOverlap-AllApart (p ∷ rest) (h, hs) = (NoOverlap-ApartFrom p rest h, NoOverlap-AllApart rest hs)

abbrev pub is_unscheduled : LayoutTask → Bool
is_unscheduled t = is_none (range_of t)

abbrev Good : Packing → Type 0
Good s = Full s.rows × (length s.rows ≡ s.next_row)

min_zero : (n : ℕ) → min 0 n ≡ 0
min_zero n = omega arith

new_row : (n count id : ℕ) → max n (preferred_row count 0 (no_manual id)) ≡ n
new_row n count id = omega arith

place-Fits :
    (count : ℕ) (t : LayoutTask) (r : DayRange) (s : Packing)
    → range_of t ≡ some r
    → Good s
    → Fits r (place no_manual count t s).0 s.rows (place no_manual count t s).1.rows
      × Good (place no_manual count t s).1
unfolding place
place-Fits count t r s e (full, same) = elim (Option-cases (find_row r 0 s.rows)) [
  | inr ((i, after), f) ↦
      let (fits, kept) = find_row-Fits r s.rows after i full f in
      rw (place, e, min_zero (count - 1), f) (fits, (fits.full, kept ∙ same))
  | inl f ↦
      let (fits, longer) = set_row-Fits r s.rows full in
      rw (place, e, min_zero (count - 1), f, new_row s.next_row count t.id, sym same)
        (fits, (fits.full, longer))
]

In-any :
    (q r : DayRange) (rs : List DayRange)
    → any (overlaps q) rs ≡ false
    → In r rs
    → overlaps q r ≡ false
In-any q r [] h i = absurd i
In-any q r (x ∷ xs) h (inl p) = subst (λ y. overlaps q y ≡ false) p (ground arith)
In-any q r (x ∷ xs) h (inr i) = In-any q r xs (ground arith) i

In-append : (r q : DayRange) (rs : List DayRange) → In r rs → In r (rs ++ q ∷ [])
In-append r q [] i = absurd i
In-append r q (x ∷ xs) (inl p) = inl p
In-append r q (x ∷ xs) (inr i) = inr (In-append r q xs i)

In-last : (r : DayRange) (rs : List DayRange) → In r (rs ++ r ∷ [])
In-last r [] = inl refl
In-last r (x ∷ xs) = inr (In-last r xs)

-- What is placed later in a row keeps apart from what is there.
place_all-apart :
    (count : ℕ) (ts : List LayoutTask) (s : Packing) (i : ℕ) (r : DayRange)
    → Good s
    → any is_unscheduled ts ≡ false
    → In r (row_at i s.rows)
    → any (λ q. (i == q.1) && share_day (range_of q.0) (some r)) (place_all no_manual count ts s)
      ≡ false
unfolding place_all
place_all-apart count [] s i r good h there = refl
place_all-apart count (u ∷ us) s i r good h there = elim (Option-cases (range_of u)) [
  | inl unscheduled ↦ absurd (ground arith)
  | inr (q, e) ↦
      let (fits, good2) = place-Fits count u q s e good in
      let j = (place no_manual count u s).0 in
      let s2 = (place no_manual count u s).1 in
      elim (Bool-cases (i == j)) [
        | inl same ↦
            let p : i ≡ j = ==→eq i j same in
            let here : In r (row_at j s.rows) = subst (λ k. In r (row_at k s.rows)) p there in
            let away : overlaps q r ≡ false = In-any q r (row_at j s.rows) fits.apart here in
            let now : In r (row_at j s2.rows) =
              subst (In r) (sym fits.here) (In-append r q (row_at j s.rows) here) in
            let later =
              place_all-apart count us s2 i r good2 (ground arith)
                (subst (λ k. In r (row_at k s2.rows)) (sym p) now) in
            rw (e, away, later) (ground arith)
        | inr differs ↦
            let later =
              place_all-apart count us s2 i r good2 (ground arith)
                (subst (In r) (sym (fits.elsewhere i differs)) there) in
            rw (differs, later) refl
      ]
]

place_all-NoOverlap :
    (count : ℕ) (ts : List LayoutTask) (s : Packing)
    → Good s
    → any is_unscheduled ts ≡ false
    → NoOverlap (place_all no_manual count ts s)
unfolding place_all
place_all-NoOverlap count [] s good h = tt
place_all-NoOverlap count (t ∷ ts) s good h = elim (Option-cases (range_of t)) [
  | inl unscheduled ↦ absurd (ground arith)
  | inr (r, e) ↦
      let (fits, good2) = place-Fits count t r s e good in
      let i = (place no_manual count t s).0 in
      let s2 = (place no_manual count t s).1 in
      (
        subst
            (λ o.
              any (λ q. (i == q.1) && share_day (range_of q.0) o) (place_all no_manual count ts s2)
              ≡ false)
            (sym e)
            (place_all-apart count ts s2 i r good2 (ground arith)
              (subst (In r) (sym fits.here) (In-last r (row_at i s.rows)))),
        place_all-NoOverlap count ts s2 good2 (ground arith),
      )
]

place_all-tasks :
    (manual : ℕ → Option ℕ) (count : ℕ) (ts : List LayoutTask) (s : Packing)
    → map (λ p. p.0) (place_all manual count ts s) ≡ ts
unfolding place_all
place_all-tasks manual count [] s = refl
place_all-tasks manual count (t ∷ ts) s =
    ap (λ us. t ∷ us) (place_all-tasks manual count ts (place manual count t s).1)

-- Where all tasks of a lane are scheduled in the window and none has a manual row, the packing puts
-- each of them into a row, in their order, and no two tasks that it puts into one row have a day in
-- common.
pub pack_rows-AllApart :
    (ts : List LayoutTask)
    → any is_unscheduled ts ≡ false
    → (map (λ p. p.0) (pack_rows no_manual ts) ≡ ts) × AllApart (pack_rows no_manual ts)
unfolding pack_rows
pack_rows-AllApart ts h =
    let start : Packing = record { rows = []; next_row = 0 } in
    (
      place_all-tasks no_manual (length ts) ts start,
      NoOverlap-AllApart (place_all no_manual (length ts) ts start)
          (place_all-NoOverlap (length ts) ts start (tt, refl) h),
    )

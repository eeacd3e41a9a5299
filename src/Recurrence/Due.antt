-- ===== src/Recurrence/Due.antt =====
-- Recurrence: collectDueScheduledAtTimes collects the due days, each once and in order.
use atlaspm.Base.{
  ℕ, ◌/◌, ◌↔◌, if◌then◌else◌, Option-cases, zero, suc, ◌+◌, ◌-◌, ◌≤◌, ◌<◌, ◌==◌, ltb, leb, ◌≡◌,
  arith, true, Option, none, some, inl, inr, refl, Bool-cases, max, sym, ◌∙◌, ap, List, [], ◌∷◌,
  mem, ◌⊎◌, subst,
}
use atlaspm.Recurrence.{
  Config, DueConfig, next_scheduled_at_or_after, calculate_next_scheduled_at_after,
  normalize_recurring_date, collect_from, collect_due_scheduled_at_times, cursor_of, first_cursor,
  due_until, midnight,
}
use atlaspm.Calendar.{one_day_ms}
use atlaspm.Recurrence.Rounds.{IsAscending}
use atlaspm.Recurrence.Schedule.{Occurs, IsNext, IsRule, normalize_recurring_date_lem}
use atlaspm.Recurrence.Next.{next_scheduled_at_or_after-IsNext}

pub normalize-midnight : (d : ℕ) → normalize_recurring_date (midnight d) ≡ d
normalize-midnight d = (normalize_recurring_date_lem (midnight d)).0 ∙ omega arith

-- The day after which a day is the next of the schedule.
pub calculate_next_scheduled_at_after-IsNext :
    (c : Config) (previous : ℕ)
    → IsRule c
    → (d : ℕ) × (calculate_next_scheduled_at_after c (midnight previous) ≡ some d)
      × IsNext (Occurs c) (suc previous) d
unfolding calculate_next_scheduled_at_after
calculate_next_scheduled_at_after-IsNext c previous r =
    let (d, e, n) = next_scheduled_at_or_after-IsNext c (suc previous) r in
    (
      d,
      ap (next_scheduled_at_or_after c)
            (ap (λ x. x + 1) (normalize-midnight previous) ∙ omega arith)
          ∙ e,
      n,
    )

-- The days that are due from a cursor on: the cursor itself and the days that the rule names, up to
-- a day, each once and in order.
record DueUntil (c : Config) (until cursor : ℕ) (days : List ℕ) : Type 0 where
  pub ascending : IsAscending days
  pub in_time : (d : ℕ) → mem d days ≡ true → (cursor ≤ d) × (d ≤ until)
  pub named : (d : ℕ) → mem d days ≡ true → (d ≡ cursor) ⊎ Occurs c d
  pub complete : (d : ℕ) → cursor ≤ d → d ≤ until → (d ≡ cursor) ⊎ Occurs c d → mem d days ≡ true

nothing-DueUntil : (c : Config) (until cursor : ℕ) → until < cursor → DueUntil c until cursor []
nothing-DueUntil c until cursor h = record {
  ascending = tt;
  in_time = λ d m. absurd (cc m);
  named = λ d m. absurd (cc m);
  complete = λ d p q o. absurd (omega (arith, p, q, h));
}

mem-first_or_rest : (d x : ℕ) (xs : List ℕ) → mem d (x ∷ xs) ≡ true → (d ≡ x) ⊎ (mem d xs ≡ true)
mem-first_or_rest d x xs m = elim (Bool-cases (x == d)) [
  | inl e ↦ inl (ground (arith, e))
  | inr e ↦ inr (ground (arith, e, m))
]

-- A day that is named from the cursor on is the cursor, or it is named from the next day on.
named-rest :
    (c : Config) (cursor next d : ℕ)
    → IsNext (Occurs c) (suc cursor) next
    → cursor ≤ d
    → (d ≡ cursor) ⊎ Occurs c d
    → (d ≡ cursor) ⊎ ((next ≤ d) × Occurs c d)
named-rest c cursor next d n p (inl e) = inl e
named-rest c cursor next d n p (inr o) = elim (Bool-cases (d == cursor)) [
  | inl e ↦ inl (ground (arith, e))
  | inr e ↦ inr (n.first d o (ground (arith, e, p)), o)
]

named-next : (c : Config) (next d : ℕ) → Occurs c next → (d ≡ next) ⊎ Occurs c d → Occurs c d
named-next c next d o (inl e) = subst (Occurs c) (sym e) o
named-next c next d o (inr k) = k

more-DueUntil :
    (c : Config) (until cursor next : ℕ) (days : List ℕ)
    → cursor ≤ until
    → IsNext (Occurs c) (suc cursor) next
    → DueUntil c until next days
    → DueUntil c until cursor (cursor ∷ days)
more-DueUntil c until cursor next days h n r = record {
  ascending = (λ y m. omega (arith, (r.in_time y m).0, n.reached), r.ascending);
  in_time = λ d m. elim (mem-first_or_rest d cursor days m) [
    | inl e ↦ (omega (arith, e), omega (arith, e, h))
    | inr k ↦ (omega (arith, (r.in_time d k).0, n.reached), (r.in_time d k).1)
  ];
  named = λ d m. elim (mem-first_or_rest d cursor days m) [
    | inl e ↦ inl e
    | inr k ↦ inr (named-next c next d n.named (r.named d k))
  ];
  complete = λ d p q o. elim (named-rest c cursor next d n p o) [
    | inl e ↦ ground (arith, e)
    | inr (k, o') ↦ ground (arith, r.complete d k q (inr o'))
  ];
}

collect_from-DueUntil :
    (c : Config) (count until cursor : ℕ)
    → IsRule c
    → until < cursor + count
    → (days : List ℕ) × (collect_from count c until cursor ≡ some days)
      × DueUntil c until cursor days
collect_from-DueUntil c zero until cursor r h =
    ([], refl, nothing-DueUntil c until cursor (omega (arith, h)))
collect_from-DueUntil c (suc count) until cursor r h = elim (Bool-cases (leb cursor until)) [
  | inl e ↦
      let (next, e', n) = calculate_next_scheduled_at_after-IsNext c cursor r in
      let (days, e'', d) =
        collect_from-DueUntil c count until next r (omega (arith, h, n.reached)) in
      (
        cursor ∷ days,
        rw (collect_from, e, e', e'') refl,
        more-DueUntil c until cursor next days (ground (arith, e)) n d,
      )
  | inr e ↦ ([], rw (collect_from, e) refl, nothing-DueUntil c until cursor (ground (arith, e)))
]

-- the day is not after today and not after the end date
abbrev pub InWindow : (end_date : Option ℕ) → (now day : ℕ) → Type 0
InWindow none now d = d ≤ now / one_day_ms
InWindow (some end) now d = (d ≤ now / one_day_ms) × (d ≤ end / one_day_ms)

-- the day that the collection starts from: the stored one, or else the first day that the schedule
-- names from the last day of the window on
abbrev pub IsFirstDue :
    (next_scheduled_at : Option ℕ) → Config → (end_date : Option ℕ) → (now day : ℕ) → Type 0
IsFirstDue (some at) c end now cursor = cursor ≡ at / one_day_ms
IsFirstDue none c end now cursor =
    (last : ℕ) × InWindow end now last
    × ((d : ℕ) → InWindow end now d → d ≤ last)
    × IsNext (Occurs c) last cursor

-- the first due day and the later days that the schedule names, in the window, each once and in
-- order
pub record IsDue (due : DueConfig) (now cursor : ℕ) (days : List ℕ) : Type 0 where
  pub first : IsFirstDue due.next_scheduled_at due.config due.end_date now cursor
  pub ascending : IsAscending days
  pub in_time : (d : ℕ) → mem d days ≡ true → (cursor ≤ d) × InWindow due.end_date now d
  pub named : (d : ℕ) → mem d days ≡ true → (d ≡ cursor) ⊎ Occurs due.config d
  pub complete :
      (d : ℕ)
      → cursor ≤ d
      → InWindow due.end_date now d
      → (d ≡ cursor) ⊎ Occurs due.config d
      → mem d days ≡ true

until_by : (end_date : Option ℕ) → (now : ℕ) → ℕ
until_by none now = normalize_recurring_date now
until_by (some end) now =
    if ltb (normalize_recurring_date end) (normalize_recurring_date now)
    then normalize_recurring_date end
    else normalize_recurring_date now

due_until-until_by : (due : DueConfig) (now : ℕ) → due_until due now ≡ until_by due.end_date now
unfolding due_until until_by
due_until-until_by due now = elim (Option-cases due.end_date) [
  | inl e ↦ rw e refl
  | inr (end, e) ↦ rw e refl
]

until_by-InWindow :
    (end_date : Option ℕ) (now d : ℕ) → (d ≤ until_by end_date now) ↔ InWindow end_date now d
unfolding until_by
until_by-InWindow none now d =
    let t = (normalize_recurring_date_lem now).0 in
    ((λ h. omega (arith, h, t)), (λ h. omega (arith, h, t)))
until_by-InWindow (some end) now d =
    let t = (normalize_recurring_date_lem now).0 in
    let e = (normalize_recurring_date_lem end).0 in
    elim (Bool-cases (ltb (normalize_recurring_date end) (normalize_recurring_date now))) [
      | inl k ↦ rw k (
        (λ h. (ground (arith, h, t, e, k), ground (arith, h, t, e, k))),
        (λ h. ground (arith, h.0, h.1, t, e, k)),
      )
      | inr k ↦ rw k (
        (λ h. (ground (arith, h, t, e, k), ground (arith, h, t, e, k))),
        (λ h. ground (arith, h.0, h.1, t, e, k)),
      )
    ]

due_until-InWindow :
    (due : DueConfig) (now d : ℕ) → (d ≤ due_until due now) ↔ InWindow due.end_date now d
due_until-InWindow due now d =
    rw (due_until-until_by due now) (until_by-InWindow due.end_date now d)

first_cursor_total :
    (due : DueConfig) (now : ℕ)
    → IsRule due.config
    → (cursor : ℕ) × (first_cursor due now ≡ some cursor)
      × IsFirstDue due.next_scheduled_at due.config due.end_date now cursor
first_cursor_total due now r = go due.next_scheduled_at
  where
    go :
        (stored : Option ℕ)
        → (cursor : ℕ) × (cursor_of stored due.config (due_until due now) ≡ some cursor)
          × IsFirstDue stored due.config due.end_date now cursor
    go (some at) = (normalize_recurring_date at, refl, (normalize_recurring_date_lem at).0)
    go none =
        let until : ℕ = due_until due now in
        let (d, e, n) =
          next_scheduled_at_or_after-IsNext due.config (normalize_recurring_date (midnight until))
            r in
        (
          normalize_recurring_date (midnight d),
          rw (cursor_of, e) refl,
          (
            until,
            (due_until-InWindow due now until).0 (omega arith),
            (λ x h. (due_until-InWindow due now x).1 h),
            subst (IsNext (Occurs due.config) until) (sym (normalize-midnight d))
                (subst (λ u. IsNext (Occurs due.config) u d) (normalize-midnight until) n),
          ),
        )

in_window-IsDue :
    (due : DueConfig) (now cursor : ℕ) (days : List ℕ)
    → IsFirstDue due.next_scheduled_at due.config due.end_date now cursor
    → DueUntil due.config (due_until due now) cursor days
    → IsDue due now cursor days
in_window-IsDue due now cursor days f u = record {
  first = f;
  ascending = u.ascending;
  in_time = λ d m. let (low, high) = u.in_time d m in (low, (due_until-InWindow due now d).0 high);
  named = u.named;
  complete = λ d low w o. u.complete d low ((due_until-InWindow due now d).1 w) o;
}

-- For a rule that keeps to IsRule (days of the week 0 to 6 if it is weekly, a day of the month of at
-- least 1 if it is monthly) the collection ends with a list, and the list has the first due day and
-- every later day that the schedule names, where they are not after today and not after the end
-- date, each once and in order, and no other. The first due day is the stored one; without one it is
-- the first day that the schedule names from the last of the days on that are neither after today nor
-- after the end date.
pub collect_due_scheduled_at_times-IsDue :
    (due : DueConfig) (now : ℕ)
    → IsRule due.config
    → (cursor : ℕ) × (days : List ℕ) × (first_cursor due now ≡ some cursor)
      × (collect_due_scheduled_at_times due now ≡ some days)
      × IsDue due now cursor days
unfolding collect_due_scheduled_at_times
collect_due_scheduled_at_times-IsDue due now r =
    let (cursor, e, f) = first_cursor_total due now r in
    let until : ℕ = due_until due now in
    elim (Bool-cases (ltb until cursor)) [
      | inl t ↦ (
        cursor,
        [],
        e,
        rw (e, t) refl,
        in_window-IsDue due now cursor [] f
            (nothing-DueUntil due.config until cursor (ground (arith, t))),
      )
      | inr t ↦
          let (days, e', d) =
            collect_from-DueUntil due.config (max 1 (until - cursor + 1)) until cursor r
              (ground (arith, t)) in
          (cursor, days, e, rw (e, t) e', in_window-IsDue due now cursor days f d)
    ]

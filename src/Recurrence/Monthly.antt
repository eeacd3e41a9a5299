-- ===== src/Recurrence/Monthly.antt =====
-- Recurrence: the rounds of nextMonthlyScheduledAt, each of which looks at one month's candidate.
use atlaspm.Base.{
  ℕ, suc, ◌+◌, ◌*◌, ◌-◌, ◌/◌, ◌%◌, ◌≤◌, ◌<◌, ◌==◌, ltb, leb, ◌≡◌, arith, false, some, inl, inr,
  refl, Bool-cases, min, sym, ◌∙◌, ap,
}
use atlaspm.Calendar.{Civil, civil, month_start, month_length, date_utc}
use atlaspm.Calendar.Months.{
  civil-month_start, lt_of_month-lt, month_length-bounds, month_start-civil,
}
use atlaspm.Recurrence.{
  build_monthly_candidate, last_day_of_utc_month, find_month, round_up, diff_utc_months,
}
use atlaspm.Recurrence.Steps.{IsLeastMultiple, round_up-IsLeastMultiple, times-lt}
use atlaspm.Recurrence.Schedule.{OnMonth, IsNext}

-- Day 0 of the month that follows is the last day of the month.
pub last_day_of_utc_month_lem :
    (year i : ℕ) → last_day_of_utc_month year i ≡ month_length ((year - 1967) * 12 + i)
unfolding last_day_of_utc_month date_utc
last_day_of_utc_month_lem year i =
    let m : ℕ = (year - 1967) * 12 + i in
    let last : Civil = record { month = m; day = month_length m } in
    let h = civil-month_start last (omega (arith, month_length-bounds m)) (omega arith) in
    let next : (year - 1967) * 12 + (i + 1) ≡ suc m = omega arith in
    let e : month_start ((year - 1967) * 12 + (i + 1)) + 0 - 1
        ≡ month_start m + month_length m - 1 =
      ap (λ x. month_start x + 0 - 1) next ∙ omega arith in
    ap (λ n. (civil n).day) e ∙ ap (λ x. x.day) h

-- The candidate of a month is its chosen day, or its last one.
candidate_date : (s k day : ℕ) → Civil
candidate_date s k day = record {
  month = (civil s).month + k;
  day = min day (month_length ((civil s).month + k));
}

civil-build_monthly_candidate :
    (s k day : ℕ) → 1 ≤ day → civil (build_monthly_candidate s k day) ≡ candidate_date s k day
unfolding candidate_date date_utc
civil-build_monthly_candidate s k day h =
    let i : ℕ = (civil s).month % 12 + k in
    let year : ℕ = 1967 + (civil s).month / 12 + i / 12 in
    let m : ℕ = (civil s).month + k in
    let same : (year - 1967) * 12 + i % 12 ≡ m = omega arith in
    let last : last_day_of_utc_month year (i % 12) ≡ month_length m =
      last_day_of_utc_month_lem year (i % 12) ∙ ap month_length same in
    let whole : civil (month_start m + min day (month_length m) - 1) ≡ candidate_date s k day =
      civil-month_start (candidate_date s k day) (omega (arith, month_length-bounds m, h))
        (omega arith) in
    ap (λ x. civil (month_start x + min day (last_day_of_utc_month year (i % 12)) - 1)) same
    ∙ ap (λ x. civil (month_start m + min day x - 1)) last
    ∙ whole

-- A day that the rule names a number of months after the start's month.
record IsCandidate (s day m c : ℕ) : Type 0 where
  month : (civil c).month ≡ (civil s).month + m
  chosen : (civil c).day ≡ min day (month_length (civil c).month)

build_monthly_candidate-IsCandidate :
    (s m day : ℕ) → 1 ≤ day → IsCandidate s day m (build_monthly_candidate s m day)
unfolding candidate_date
build_monthly_candidate-IsCandidate s m day h =
    let date = civil-build_monthly_candidate s m day h in
    record {
      month = ap (λ x. x.month) date;
      chosen =
          ap (λ x. x.day) date ∙ ap (λ x. min day (month_length x)) (sym (ap (λ x. x.month) date));
    }

candidates_in_order :
    (s day m n c d : ℕ) → IsCandidate s day m c → IsCandidate s day n d → m ≤ n → c ≤ d
candidates_in_order s day m n c d a b p = elim (Bool-cases (m == n)) [
  | inl t ↦
      let same : (civil c).month ≡ (civil d).month = ground (arith, a.month, b.month, t) in
      let length : month_length (civil c).month ≡ month_length (civil d).month =
        ap month_length same in
      let start : month_start (civil c).month ≡ month_start (civil d).month = ap month_start same in
      ground (arith, length, start, a.chosen, b.chosen, month_start-civil c, month_start-civil d)
  | inr t ↦
      let later : c < d = lt_of_month-lt c d (ground (arith, a.month, b.month, t, p)) in
      omega (arith, later)
]

-- A round of the `while`, at a number of months from the start's month that no match stands before.
module _ (s i from day : ℕ) where
  at_hand : (e : ℕ) (h : OnMonth s i day e) → IsCandidate s day (h.times * i) e
  at_hand e h = record { month = h.in_cycle; chosen = h.chosen }

  found-IsNext :
      (times m c : ℕ)
      → s ≤ from
      → m ≡ times * i
      → ((e : ℕ) (h : OnMonth s i day e) → from ≤ e → m ≤ h.times * i)
      → IsCandidate s day m c
      → from ≤ c
      → IsNext (OnMonth s i day) from c
  found-IsNext times m c p exact none_before a f = record {
    named = record {
      started = omega (arith, p, f);
      chosen = a.chosen;
      times = times;
      in_cycle = omega (arith, a.month, exact);
    };
    reached = f;
    first =
        λ e h q. candidates_in_order s day m (h.times * i) c e a (at_hand e h) (none_before e h q);
  }

  -- A round whose candidate comes too early leaves the next one as the first to look at.
  missed :
      (times m c : ℕ)
      → m ≡ times * i
      → ((e : ℕ) (h : OnMonth s i day e) → from ≤ e → m ≤ h.times * i)
      → IsCandidate s day m c
      → c < from
      → (e : ℕ) (h : OnMonth s i day e) → from ≤ e
      → m + i ≤ h.times * i
  missed times m c exact none_before a f e h q = elim (Bool-cases (leb (h.times * i) m)) [
    | inl t ↦ absurd (
        omega (
          arith,
          f,
          q,
          candidates_in_order s day (h.times * i) m e c (at_hand e h) a (ground (arith, t)),
        ))
    | inr t ↦ ground (arith, times-lt i times h.times, exact, t)
  ]

  -- Two rounds are enough: the second candidate stands in a later month than `from`.
  two_rounds :
      (times m : ℕ)
      → 1 ≤ day
      → 1 ≤ i
      → s ≤ from
      → m ≡ times * i
      → (civil from).month ≤ (civil s).month + m
      → ((e : ℕ) (h : OnMonth s i day e) → from ≤ e → m ≤ h.times * i)
      → (c : ℕ) × (find_month 2 m s i day from ≡ some c) × IsNext (OnMonth s i day) from c
  two_rounds times m low positive p exact late none_before =
      let c : ℕ = build_monthly_candidate s m day in
      let a : IsCandidate s day m c = build_monthly_candidate-IsCandidate s m day low in
      elim (Bool-cases (ltb (build_monthly_candidate s m day) from)) [
        | inr t ↦ (
          c,
          rw (find_month, t) refl,
          found-IsNext times m c p exact none_before a (ground (arith, t)),
        )
        | inl t ↦
            let d : ℕ = build_monthly_candidate s (m + i) day in
            let b : IsCandidate s day (m + i) d =
              build_monthly_candidate-IsCandidate s (m + i) day low in
            let after : from < d = lt_of_month-lt from d (omega (arith, b.month, late, positive)) in
            let no : ltb (build_monthly_candidate s (m + i) day) from ≡ false =
              ground (arith, after) in
            (
              d,
              rw (find_month, t, no) refl,
              found-IsNext (suc times) (m + i) d p (omega (arith, exact))
                  (missed times m c exact none_before a (ground (arith, t))) b
                  (omega (arith, after)),
            )
      ]

  pub find_month-IsNext :
      1 ≤ day
      → 1 ≤ i
      → s ≤ from
      → (c : ℕ) × (find_month 2 (round_up (diff_utc_months from s) i) s i day from ≡ some c)
        × IsNext (OnMonth s i day) from c
  find_month-IsNext low positive p =
      let base : ℕ = diff_utc_months from s in
      let r : IsLeastMultiple i base (round_up base i) = round_up-IsLeastMultiple i base positive in
      two_rounds r.times (round_up base i) low positive p r.exact (omega (arith, r.reaches))
        (λ e h q. r.least h.times (ground (arith, h.in_cycle, lt_of_month-lt e from, q)))

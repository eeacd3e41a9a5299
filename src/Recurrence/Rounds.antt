-- ===== src/Recurrence/Rounds.antt =====
-- Recurrence: the rounds of nextWeeklyScheduledAt, each of which looks at the chosen days of a week.
use atlaspm.Base.{
  ℕ, suc, ◌+◌, ◌*◌, ◌-◌, ◌/◌, ◌%◌, ◌≤◌, ◌<◌, ◌==◌, ltb, leb, ◌≡◌, arith, true, none, some, List, [],
  ◌∷◌, mem, inl, inr, refl, Bool-cases, Option-cases, ◌||◌, ◌∙◌,
}
use atlaspm.Recurrence.{first_candidate, find_week, insert_day, sorted_set, round_up}
use atlaspm.Recurrence.Steps.{IsLeastMultiple, round_up-IsLeastMultiple, times-lt}
use atlaspm.Recurrence.Schedule.{OnWeek, IsNext}

abbrev pub IsAscending : List ℕ → Type 0
IsAscending [] = Unit
IsAscending (x ∷ xs) = ((y : ℕ) → mem y xs ≡ true → x < y) × IsAscending xs

pub mem-insert_day : (d x : ℕ) (xs : List ℕ) → mem x (insert_day d xs) ≡ ((d == x) || mem x xs)
mem-insert_day d x [] = ground arith
mem-insert_day d x (y ∷ ys) = ground (arith, mem-insert_day d x ys)

pub mem-sorted_set : (x : ℕ) (xs : List ℕ) → mem x (sorted_set xs) ≡ mem x xs
mem-sorted_set x [] = refl
mem-sorted_set x (y ∷ ys) = mem-insert_day y x (sorted_set ys) ∙ ground (arith, mem-sorted_set x ys)

insert_day-IsAscending : (d : ℕ) (xs : List ℕ) → IsAscending xs → IsAscending (insert_day d xs)
insert_day-IsAscending d [] h = (λ y m. absurd (cc m), tt)
insert_day-IsAscending d (x ∷ xs) (h, hs) = elim (Bool-cases (ltb d x)) [
  | inl e ↦ rw e (λ y m. ground (arith, h y, e, m), (h, hs))
  | inr e ↦ rw e elim (Bool-cases (x == d)) [
    | inl q ↦ rw q (h, hs)
    | inr q ↦
        rw q (
          λ y m. ground (arith, h y, e, q, m, mem-insert_day d y xs),
          insert_day-IsAscending d xs hs,
        )
  ]
]

pub sorted_set-IsAscending : (xs : List ℕ) → IsAscending (sorted_set xs)
sorted_set-IsAscending [] = tt
sorted_set-IsAscending (x ∷ xs) =
    insert_day-IsAscending x (sorted_set xs) (sorted_set-IsAscending xs)

-- What the `for` finds in a week.
record IsFound (week from : ℕ) (days : List ℕ) (c : ℕ) : Type 0 where
  day : ℕ
  chosen : mem day days ≡ true
  same : c ≡ week + day
  reached : from ≤ c
  first : (y : ℕ) → mem y days ≡ true → from ≤ week + y → c ≤ week + y

first_candidate-IsFound :
    (week s from : ℕ) (days : List ℕ) (c : ℕ)
    → s ≤ from
    → IsAscending days
    → first_candidate week s from days ≡ some c
    → IsFound week from days c
first_candidate-IsFound week s from [] c p h e = absurd (cc e)
first_candidate-IsFound week s from (d ∷ ds) c p (h, hs) e =
    elim (Bool-cases (ltb (week + d) s || ltb (week + d) from)) [
      | inl t ↦
          let rest : IsFound week from ds c =
            first_candidate-IsFound week s from ds c p hs (ground (arith, e, t)) in
          record {
            day = rest.day;
            chosen = ground (arith, rest.chosen);
            same = rest.same;
            reached = rest.reached;
            first = λ y m q. ground (arith, rest.first y, t, m, q, p);
          }
      | inr t ↦ record {
        day = d;
        chosen = ground arith;
        same = ground (arith, e, t);
        reached = ground (arith, e, t);
        first = λ y m q. ground (arith, e, t, h y, m);
      }
    ]

first_candidate-none :
    (week s from : ℕ) (days : List ℕ)
    → s ≤ from
    → first_candidate week s from days ≡ none
    → (y : ℕ) → mem y days ≡ true
    → week + y < from
first_candidate-none week s from [] p e y m = absurd (cc m)
first_candidate-none week s from (d ∷ ds) p e y m =
    elim (Bool-cases (ltb (week + d) s || ltb (week + d) from)) [
      | inl t ↦
          let rest : mem y ds ≡ true → week + y < from =
            first_candidate-none week s from ds p (ground (arith, e, t)) y in
          ground (arith, rest, t, m, p)
      | inr t ↦ absurd (ground (arith, e, t))
    ]

-- A round of the `while`, at a number of weeks from the start's week that no match stands before.
module _ (s i from : ℕ) (days : List ℕ) (in_week : (x : ℕ) → mem x days ≡ true → x ≤ 6) where
  week_of : ℕ → ℕ
  week_of m = s - s % 7 + m * 7

  found-IsNext :
      (times m c : ℕ)
      → s ≤ from
      → m ≡ times * i
      → ((e : ℕ) (h : OnWeek s i days e) → from ≤ e → m ≤ h.times * i)
      → IsFound (week_of m) from days c
      → IsNext (OnWeek s i days) from c
  unfolding week_of
  found-IsNext times m c p exact none_before f =
      let small : f.day ≤ 6 = in_week f.day f.chosen in
      let weekday : c % 7 ≡ f.day = ground (arith, f.same, small) in
      record {
        named = record {
          started = omega (arith, p, f.reached);
          chosen = rw weekday f.chosen;
          times = times;
          in_cycle = omega (arith, f.same, small, exact);
        };
        reached = f.reached;
        first = λ e h q. elim (Bool-cases (leb (e / 7) (s / 7 + m))) [
          | inl t ↦
              let b : m ≤ h.times * i = none_before e h q in
              let same : week_of m + e % 7 ≡ e = ground (arith, h.in_cycle, t, b) in
              ground (arith, f.first (e % 7) h.chosen, same)
          | inr t ↦ ground (arith, f.same, small, t)
        ];
      }

  -- A round without a candidate leaves the next one as the first to look at.
  missed :
      (times m : ℕ)
      → s ≤ from
      → m ≡ times * i
      → ((e : ℕ) (h : OnWeek s i days e) → from ≤ e → m ≤ h.times * i)
      → first_candidate (week_of m) s from days ≡ none
      → (e : ℕ) (h : OnWeek s i days e) → from ≤ e
      → m + i ≤ h.times * i
  unfolding week_of
  missed times m p exact none_before f e h q =
      let b : m ≤ h.times * i = none_before e h q in
      elim (Bool-cases (m == h.times * i)) [
        | inl t ↦
            let same : week_of m + e % 7 ≡ e = ground (arith, h.in_cycle, t) in
            absurd (
              omega
                (arith, first_candidate-none (week_of m) s from days p f (e % 7) h.chosen, same, q))
        | inr t ↦ ground (arith, times-lt i times h.times, exact, b, t)
      ]

  -- Two rounds are enough: the first chosen day of the second one is late enough.
  two_rounds :
      (times m d : ℕ)
      → s ≤ from
      → IsAscending days
      → mem d days ≡ true
      → m ≡ times * i
      → from < week_of (m + i)
      → ((e : ℕ) (h : OnWeek s i days e) → from ≤ e → m ≤ h.times * i)
      → (c : ℕ) × (find_week 2 m (s - s % 7) i s from days ≡ some c)
        × IsNext (OnWeek s i days) from c
  unfolding week_of
  two_rounds times m d p sorted chosen exact late none_before =
      elim (Option-cases (first_candidate (week_of m) s from days)) [
        | inr (c, e) ↦ (
          c,
          rw (find_week, e) refl,
          found-IsNext times m c p exact none_before
              (first_candidate-IsFound (week_of m) s from days c p sorted e),
        )
        | inl e ↦ elim (Option-cases (first_candidate (week_of (m + i)) s from days)) [
          | inr (c, e') ↦ (
            c,
            rw (find_week, e, e') refl,
            found-IsNext (suc times) (m + i) c p (omega (arith, exact))
                (missed times m p exact none_before e)
                (first_candidate-IsFound (week_of (m + i)) s from days c p sorted e'),
          )
          | inl e' ↦ absurd (
              omega (arith, late, first_candidate-none (week_of (m + i)) s from days p e' d chosen))
        ]
      ]

  pub find_week-IsNext :
      (d : ℕ)
      → mem d days ≡ true
      → IsAscending days
      → 1 ≤ i
      → s ≤ from
      → (c : ℕ) × (find_week 2
            (round_up ((from - from % 7 - (s - s % 7)) / 7) i)
            (s - s % 7)
            i
            s
            from
            days
          ≡ some c)
        × IsNext (OnWeek s i days) from c
  unfolding week_of
  find_week-IsNext d chosen sorted positive p =
      let base : ℕ = (from - from % 7 - (s - s % 7)) / 7 in
      let r : IsLeastMultiple i base (round_up base i) = round_up-IsLeastMultiple i base positive in
      two_rounds r.times (round_up base i) d p sorted chosen r.exact
        (omega (arith, r.reaches, p, positive))
        (λ e h q. r.least h.times (ground (arith, h.in_cycle, p, q)))

-- ===== src/TimelineInteraction/Drops.antt =====
-- TimelineInteraction: the dates that deriveTimelineDropSchedule gives a task.
use atlaspm.Base.{
  ℕ, suc, zero, ◌+◌, ◌*◌, ◌-◌, ◌/◌, ◌≤◌, ◌<◌, max, ltb, leb, ◌≡◌, refl, arith, false, Option, none,
  some, Result, ok, Bool-cases, Option-cases, Result-cases, subst, inl, inr, ◌⊎◌, ◌∙◌, ap,
}
use atlaspm.Base.Int.{pos, negsuc}
use atlaspm.Base.Number.{Number, int, non_integer}
use atlaspm.TimelineInteraction.{
  DropInput, DropSchedule, Date, derive_timeline_drop_schedule, assert_timeline_schedule_range,
  resolve_duration_days, day_ms, max_timeline_duration_days, positive_integer, DomainError,
}

-- What the duration of a dropped task is, by what is asked for and by the dates that it has.
abbrev pub HasDuration : Option Number → Option Date → Option Date → ℕ → Type 0
HasDuration (some n) start due days = (n ≡ int (pos days)) × (1 ≤ days) × (days ≤ 365)
HasDuration none (some (some s)) (some (some d)) days =
    ((s ≤ d) × ((days - 1) * day_ms ≤ d - s) × (d - s < days * day_ms)) ⊎ ((d < s) × (days ≡ 1))
HasDuration none _ _ days = days ≡ 1

positive_integer_sound :
    (x : Number) (n : ℕ) → positive_integer x ≡ some n → (x ≡ int (pos n)) × (1 ≤ n)
positive_integer_sound (int (pos zero)) n e = absurd (cc e)
positive_integer_sound (int (pos (suc m))) n e = (ground (arith, e), ground (arith, e))
positive_integer_sound (int (negsuc m)) n e = absurd (cc e)
positive_integer_sound non_integer n e = absurd (cc e)

resolve_duration_days-HasDuration :
    (asked : Option Number) (start due : Option Date) (days : ℕ)
    → resolve_duration_days asked start due ≡ ok days
    → HasDuration asked start due days × (1 ≤ days)
resolve_duration_days-HasDuration (some x) start due days e =
    elim (Option-cases (positive_integer x)) [
      | inl t ↦ absurd (ground (arith, e, t))
      | inr (n, t) ↦
          let (same, low) = positive_integer_sound x n t in
          elim (Bool-cases (ltb max_timeline_duration_days n)) [
            | inl u ↦ absurd (ground (arith, e, t, u))
            | inr u ↦
                let is_n : n ≡ days = ground (arith, e, t, u) in
                (
                  (
                    same ∙ ap (λ k. int (pos k)) is_n,
                    omega (arith, is_n, low),
                    ground (arith, is_n, u),
                  ),
                  omega (arith, is_n, low),
                )
          ]
    ]
resolve_duration_days-HasDuration none none due days e = (ground (arith, e), ground (arith, e))
resolve_duration_days-HasDuration none (some none) due days e =
    (ground (arith, e), ground (arith, e))
resolve_duration_days-HasDuration none (some (some s)) none days e =
    (ground (arith, e), ground (arith, e))
resolve_duration_days-HasDuration none (some (some s)) (some none) days e =
    (ground (arith, e), ground (arith, e))
resolve_duration_days-HasDuration none (some (some s)) (some (some d)) days e =
    elim (Bool-cases (leb s d)) [
      | inl t ↦
          let is : max 1 ((d - s) / day_ms + 1) ≡ days = ground (arith, e, t) in
          (inl (ground (arith, t), omega (arith, is), omega (arith, is)), omega (arith, is))
      | inr t ↦ (inr (ground (arith, t), ground (arith, e, t)), ground (arith, e, t))
    ]

-- A drop that is answered starts where the task is dropped and lasts the answered number of days, at
-- least one. That is the number asked for, of 1 to 365, or else the whole days that the task's own
-- dates span, the last one counted, or 1 when it has no dates or they are the wrong way round. And the
-- range that is answered is never refused.
pub derive_timeline_drop_schedule-HasDuration :
    (input : DropInput) (r : DropSchedule)
    → derive_timeline_drop_schedule input ≡ ok r
    → (input.drop_at ≡ some r.start_at)
      × (r.due_at ≡ r.start_at + (r.duration_days - 1) * day_ms)
      × (1 ≤ r.duration_days)
      × HasDuration input.duration_days input.current_start_at input.current_due_at r.duration_days
      × (assert_timeline_schedule_range (some (some r.start_at)) (some (some r.due_at)) ≡ ok tt)
unfolding derive_timeline_drop_schedule assert_timeline_schedule_range
derive_timeline_drop_schedule-HasDuration input r e = elim (Option-cases input.drop_at) [
  | inl t ↦ absurd (ground (arith, e, t))
  | inr (time, t) ↦
      let asked : Result DomainError ℕ =
        resolve_duration_days input.duration_days input.current_start_at input.current_due_at in
      elim (Result-cases asked) [
        | inr (f, u) ↦ absurd (ground (arith, e, t, u))
        | inl (days, u) ↦
            let is_start : time ≡ r.start_at = ground (arith, e, t, u) in
            let is_days : days ≡ r.duration_days = ground (arith, e, t, u) in
            let is_due : time + (days - 1) * day_ms ≡ r.due_at = ground (arith, e, t, u) in
            let (h, low) =
              resolve_duration_days-HasDuration input.duration_days input.current_start_at
                input.current_due_at days u in
            let in_order : ltb r.due_at r.start_at ≡ false = ground (arith, is_start, is_due) in
            (
              t ∙ ap some is_start,
              omega (arith, is_start, is_days, is_due),
              omega (arith, is_days, low),
              subst (HasDuration input.duration_days input.current_start_at input.current_due_at)
                  is_days h,
              rw in_order refl,
            )
      ]
]

-- ===== src/RecurringTasks/CatchUp.antt =====
-- RecurringTasks: a run over a rule that nothing stands in the way of leaves no due day without a
-- completed generation.
use atlaspm.Base.{
  ℕ, suc, ◌==◌, ◌≤◌, ◌≡◌, refl, arith, true, false, none, some, List, [], ◌∷◌, any, mem, inl, inr,
  ◌⊎◌, ◌∙◌, subst, Bool-cases, ==→eq,
}
use atlaspm.Recurrence.{midnight, first_cursor}
use atlaspm.Recurrence.Schedule.{IsRule, Occurs}
use atlaspm.Recurrence.Due.{InWindow, IsFirstDue, collect_due_scheduled_at_times-IsDue}
use atlaspm.RecurringTasks.{
  Rule, State, World, Tally, is_rule, process_days, process_rules, due_config,
}
use atlaspm.RecurringTasks.Passes.{is_done_on, is_blocked_on, IsMoved, process_scheduled_at-Passes}

module _ (w : World) (rule : Rule) (calculable : IsRule rule.config) where
  -- What a run over days that nothing stands in the way of comes to.
  record IsCaughtUp (days : List ℕ) (tally : Tally) (s : State) (after : Tally × State)
      : Type 0 where
    done : (d : ℕ) → mem d days ≡ true → any (is_done_on rule.id d) after.1.generations ≡ true
    kept :
        (d : ℕ)
        → any (is_done_on rule.id d) s.generations ≡ true
        → any (is_done_on rule.id d) after.1.generations ≡ true
    no_errors : after.0.errors ≡ tally.errors

  further :
      (day : ℕ) (days : List ℕ) (tally tally' : Tally) (s s' : State) (after : Tally × State)
      → tally'.errors ≡ tally.errors
      → IsMoved rule.id day s s'
      → IsCaughtUp days tally' s' after
      → IsCaughtUp (day ∷ days) tally s after
  further day days tally tally' s s' after t m h = record {
    done = λ d k. elim (Bool-cases (day == d)) [
      | inl e ↦
          h.kept d
            (subst (λ x. any (is_done_on rule.id x) s'.generations ≡ true) (==→eq day d e) m.done)
      | inr e ↦ h.done d (ground (arith, k, e))
    ];
    kept = λ d k. h.kept d (m.kept d k);
    no_errors = h.no_errors ∙ t;
  }

  process_days-IsCaughtUp :
      (days : List ℕ) (tally : Tally) (s : State)
      → ((d : ℕ) → mem d days ≡ true → any (is_blocked_on rule.id d) s.generations ≡ false)
      → ((d : ℕ) → w.generating rule.id d ≡ none)
      → any (is_rule rule.id) s.rules ≡ true
      → IsCaughtUp days tally s (process_days w rule days tally s)
  unfolding process_days
  process_days-IsCaughtUp [] tally s b n p = record {
    done = λ d k. absurd (cc k);
    kept = λ d k. k;
    no_errors = refl;
  }
  process_days-IsCaughtUp (day ∷ days) tally s b n p =
      elim (process_scheduled_at-Passes w rule calculable day s (b day (ground arith)) (n day) p) [
        | inl (s', e, m) ↦
            rw (process_days, e)
              (further day days tally (record tally { processed = suc tally.processed }) s s'
                (process_days w rule days (record tally { processed = suc tally.processed }) s')
                refl m
                (process_days-IsCaughtUp days (record tally { processed = suc tally.processed }) s'
                  (λ d k. m.unblocked d (b d (ground (arith, k)))) n m.present))
        | inr (s', e, m) ↦
            rw (process_days, e)
              (further day days tally tally s s' (process_days w rule days tally s') refl m (
                process_days-IsCaughtUp days tally s'
                  (λ d k. m.unblocked d (b d (ground (arith, k)))) n m.present))
      ]

-- A run over a rule whose recurrence can be calculated, which is in the table, whose days no failed
-- generation blocks and for which the database throws nothing, ends without an error, and it leaves a
-- completed generation on the rule's first due day and on each later day that its schedule names,
-- where they are not after today and not after the end date. The first due day is the stored one;
-- without one it is the first day that the schedule names from the last of the days on that are
-- neither after today nor after the end date.
pub process_rules-caught_up :
    (w : World) (rule : Rule) (now : ℕ) (tally : Tally) (s : State)
    → IsRule rule.config
    → any (is_rule rule.id) s.rules ≡ true
    → ((d : ℕ) → any (is_blocked_on rule.id d) s.generations ≡ false)
    → ((d : ℕ) → w.generating rule.id d ≡ none)
    → (cursor : ℕ) × (after : Tally × State) × (first_cursor (due_config rule) (midnight now)
        ≡ some cursor)
      × IsFirstDue rule.next_scheduled_at rule.config rule.end_date (midnight now) cursor
      × (process_rules w now (rule ∷ []) tally s ≡ some after)
      × (after.0.errors ≡ tally.errors)
      × ((d : ℕ)
          → cursor ≤ d
          → InWindow rule.end_date (midnight now) d
          → (d ≡ cursor) ⊎ Occurs rule.config d
          → any (is_done_on rule.id d) after.1.generations ≡ true)
unfolding process_rules
process_rules-caught_up w rule now tally s c p b n =
    let (cursor, days, f, e, due) =
      collect_due_scheduled_at_times-IsDue (due_config rule) (midnight now) c in
    let h = process_days-IsCaughtUp w rule c days tally s (λ d k. b d) n p in
    (
      cursor,
      process_days w rule days tally s,
      f,
      due.first,
      rw (process_rules, e) refl,
      h.no_errors,
      λ d low high o. h.done d (due.complete d low high o),
    )

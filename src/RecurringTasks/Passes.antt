-- ===== src/RecurringTasks/Passes.antt =====
-- RecurringTasks: a due day that no failed generation blocks gets a completed generation.
use atlaspm.Base.{
  ℕ, ◌≡◌, refl, arith, Bool, true, false, not, ◌&&◌, none, some, List, [], ◌∷◌, find, any,
  any-append, update_where, ok, inl, inr, ◌⊎◌, ◌∙◌, ap, Bool-cases, Option-cases, Result-cases,
}
use atlaspm.Base.Apart.{any-update_where}
use atlaspm.RecurringRetries.Effects.{generated_row, commit_generation-IsGenerated}
use atlaspm.Recurrence.{midnight}
use atlaspm.Recurrence.Schedule.{IsRule}
use atlaspm.Recurrence.Due.{calculate_next_scheduled_at_after-IsNext}
use atlaspm.RecurringTasks.{
  Rule, Generation, State, World, generated, already_completed, completed, is_status, is_slot,
  is_rule, mark_generated, commit_generation, advance_rule_next_scheduled_at,
  handle_existing_generation, generate_task_for_rule, process_scheduled_at, next_position, has_come,
}

-- a completed generation of a rule for a day
abbrev pub is_done_on : (rule_id day : ℕ) → Generation → Bool
is_done_on rule_id day g = is_slot rule_id day g && is_status g.status completed

-- a generation of a rule for a day that stops the rule
abbrev pub is_blocked_on : (rule_id day : ℕ) → Generation → Bool
is_blocked_on rule_id day g = is_slot rule_id day g && not (is_status g.status completed)

pub record IsMoved (rule_id day : ℕ) (s s' : State) : Type 0 where
  pub done : any (is_done_on rule_id day) s'.generations ≡ true
  pub kept :
      (d : ℕ)
      → any (is_done_on rule_id d) s.generations ≡ true
      → any (is_done_on rule_id d) s'.generations ≡ true
  pub unblocked :
      (d : ℕ)
      → any (is_blocked_on rule_id d) s.generations ≡ false
      → any (is_blocked_on rule_id d) s'.generations ≡ false
  pub present : any (is_rule rule_id) s'.rules ≡ true

any-find : (p : Rule → Bool) (rs : List Rule) → any p rs ≡ true → (r : Rule) × (find p rs ≡ some r)
any-find p [] h = absurd (cc h)
any-find p (r ∷ rs) h = elim (Bool-cases (p r)) [
  | inl e ↦ (r, ground (arith, e))
  | inr e ↦ let (x, f) = any-find p rs (ground (arith, e, h)) in (x, ground (arith, e, f))
]

none-any : (p : Generation → Bool) (gs : List Generation) → find p gs ≡ none → any p gs ≡ false
none-any p [] h = refl
none-any p (g ∷ gs) h = ground (arith, none-any p gs)

module _ (w : World) (rule : Rule) (calculable : IsRule rule.config) where
  found-done :
      (day : ℕ) (gs : List Generation) (g : Generation)
      → find (is_slot rule.id day) gs ≡ some g
      → any (is_blocked_on rule.id day) gs ≡ false
      → (any (is_done_on rule.id day) gs ≡ true) × (is_status g.status completed ≡ true)
  found-done day [] g f b = absurd (cc f)
  found-done day (x ∷ xs) g f b = elim (Bool-cases (is_slot rule.id day x)) [
    | inl e ↦ (ground (arith, e, b), ground (arith, e, b, f))
    | inr e ↦
        let (p, q) = found-done day xs g (ground (arith, e, f)) (ground (arith, e, b)) in
        (ground (arith, e, p), q)
  ]

  advanced :
      (day : ℕ) (s : State)
      → (s' : State) × (advance_rule_next_scheduled_at rule day s ≡ ok s')
        × (s'.generations ≡ s.generations)
        × (any (is_rule rule.id) s'.rules ≡ any (is_rule rule.id) s.rules)
  unfolding advance_rule_next_scheduled_at
  advanced day s =
      let (next, e, n) = calculate_next_scheduled_at_after-IsNext rule.config day calculable in
      (
        record s {
          rules =
              update_where (λ r. is_rule rule.id r && has_come (midnight day) r.next_scheduled_at)
                (λ r. record r { next_scheduled_at = some (midnight next) }) s.rules;
        },
        rw e refl,
        refl,
        any-update_where (is_rule rule.id)
            (λ r. is_rule rule.id r && has_come (midnight day) r.next_scheduled_at)
            (λ r. record r { next_scheduled_at = some (midnight next) }) s.rules (λ r. refl),
      )

  succeeds :
      (day position : ℕ) (s : State)
      → any (is_slot rule.id day) s.generations ≡ false
      → w.generating rule.id day ≡ none
      → any (is_rule rule.id) s.rules ≡ true
      → (s' : State) × (commit_generation w rule position day s ≡ ok s')
  unfolding commit_generation
  succeeds day position s f n p =
      let (next, e, x) = calculate_next_scheduled_at_after-IsNext rule.config day calculable in
      let (row, r) = any-find (is_rule rule.id) s.rules p in
      elim (Result-cases (commit_generation w rule position day s)) [
        | inl (s', q) ↦ (s', q)
        | inr (failure, q) ↦ absurd (ground (arith, f, n, e, r, q))
      ]

  generated-IsMoved :
      (day position : ℕ) (s s' : State)
      → any (is_rule rule.id) s.rules ≡ true
      → commit_generation w rule position day s ≡ ok s'
      → IsMoved rule.id day s s'
  generated-IsMoved day position s s' p e =
      let d = commit_generation-IsGenerated w rule position day s s' e in
      let g : Generation = generated_row w rule day s in
      record {
        done =
            rw d.generations
              (any-append (is_done_on rule.id day) s.generations (g ∷ []) ∙ ground arith);
        kept = λ x h.
            rw d.generations
              (any-append (is_done_on rule.id x) s.generations (g ∷ []) ∙ ground (arith, h));
        unblocked = λ x h.
            rw d.generations
              (any-append (is_blocked_on rule.id x) s.generations (g ∷ []) ∙ ground (arith, h));
        present = rw d.rules (
            any-update_where (is_rule rule.id) (is_rule rule.id) (mark_generated w.clock d.next)
              s.rules (λ r. refl)
            ∙ p);
      }

  -- What a day that nothing stands in the way of comes to.
  abbrev pub Passes : (day : ℕ) (s : State) → Type 0
  Passes day s =
      ((s' : State) × (process_scheduled_at w rule day s ≡ ok (generated, s'))
        × IsMoved rule.id day s s')
      ⊎ ((s' : State) × (process_scheduled_at w rule day s ≡ ok (already_completed, s'))
          × IsMoved rule.id day s s')

  pub process_scheduled_at-Passes :
      (day : ℕ) (s : State)
      → any (is_blocked_on rule.id day) s.generations ≡ false
      → w.generating rule.id day ≡ none
      → any (is_rule rule.id) s.rules ≡ true
      → Passes day s
  unfolding process_scheduled_at generate_task_for_rule handle_existing_generation
  process_scheduled_at-Passes day s b n p =
      elim (Option-cases (find (is_slot rule.id day) s.generations)) [
        | inl x ↦
            let free = none-any (is_slot rule.id day) s.generations x in
            let (s', e) = succeeds day (next_position rule s) s free n p in
            inl (
              s',
              rw (process_scheduled_at, generate_task_for_rule, x, e) refl,
              generated-IsMoved day (next_position rule s) s s' p e,
            )
        | inr (g, x) ↦
            let (done, over) = found-done day s.generations g x b in
            let (s', e, k, m) = advanced g.day s in
            inr (
              s',
              rw (process_scheduled_at, handle_existing_generation, x, over, e) refl,
              record {
                done = ap (any (is_done_on rule.id day)) k ∙ done;
                kept = λ d h. ap (any (is_done_on rule.id d)) k ∙ h;
                unblocked = λ d h. ap (any (is_blocked_on rule.id d)) k ∙ h;
                present = m ∙ p;
              },
            )
      ]

-- ===== src/RecurringRetries/Once.antt =====
-- RecurringTasks and RecurringRetries: each due day of a rule gets at most one generation, and a task
-- is made for each completed generation and for no other.
use atlaspm.Base.{
  ℕ, suc, ◌+◌, ◌==◌, ◌≡◌, refl, arith, Bool, true, false, not, ◌&&◌, ◌||◌, none, some, List, [],
  ◌∷◌, ◌++◌, if◌then◌else◌, any, any-append, count, update_where, ok, inl, inr, sym, ◌∙◌, ap,
  Bool-cases, Option-cases,
}
use atlaspm.Base.Apart.{
  Apart, Apart-append, Apart-update_where, count-append, count-update_where, any-update_where,
  update_where-none,
}
use atlaspm.Base.Text.{Text}
use atlaspm.RecurringRetries.Effects.{
  generated_row, commit_generation-IsGenerated, commit_retry-IsRetried,
}
use atlaspm.Store.{is_none, is_some}
use atlaspm.Recurrence.{midnight, calculate_next_scheduled_at_after}
use atlaspm.RecurringTasks.{
  Rule, Status, Generation, MadeTask, State, World, is_status, completed, failed, pending, is_slot,
  commit_generation, commit_error, advance_rule_next_scheduled_at, record_generation_error,
  new_generation, new_task,
}
use atlaspm.RecurringRetries.{is_claimable, complete_retry, commit_retry, is_open, count_retry}

abbrev pub same_slot : Generation → Generation → Bool
same_slot a b = is_slot a.rule_id a.day b

abbrev pub same_id : Generation → Generation → Bool
same_id a b = a.id == b.id

-- a generation is over and has its task, or has failed and has none
abbrev pub is_settled : Generation → Bool
is_settled g =
    (is_status g.status completed && is_some g.task_id)
    || (is_status g.status failed && is_none g.task_id)

abbrev pub is_done_for : ℕ → Generation → Bool
is_done_for rule_id g = is_status g.status completed && (g.rule_id == rule_id)

abbrev pub is_made_for : ℕ → MadeTask → Bool
is_made_for rule_id t = elim t.recurring_rule_id [ none ↦ false | some id ↦ id == rule_id ]

-- One generation for a rule and a day, each with a task or failed, and as many tasks of a rule as it
-- has completed generations.
pub record OnceOf (gs : List Generation) (ts : List MadeTask) : Type 0 where
  pub slots : Apart same_slot gs
  pub ids : Apart same_id gs
  pub settled : any (λ g. not (is_settled g)) gs ≡ false
  pub made : (r : ℕ) → count (is_made_for r) ts ≡ count (is_done_for r) gs

abbrev pub Once : State → Type 0
Once s = OnceOf s.generations s.tasks

-- the database gives a new generation an id that no other has
abbrev pub IsFresh : World → Type 0
IsFresh w = (s : State) → any (λ g. w.new_generation_id s == g.id) s.generations ≡ false

-- A new row for a free day, and a task when it is a completed one.
added_row :
    (g : Generation) (gs : List Generation) (ts ts' : List MadeTask)
    → any (is_slot g.rule_id g.day) gs ≡ false
    → any (λ x. g.id == x.id) gs ≡ false
    → is_settled g ≡ true
    → ((r : ℕ)
        → count (is_made_for r) ts' ≡ count (is_made_for r) ts + (if is_done_for r g then 1 else 0))
    → OnceOf gs ts
    → OnceOf (gs ++ g ∷ []) ts'
added_row g gs ts ts' free fresh over made h = record {
  slots = Apart-append same_slot gs g (λ a b. ground arith) free h.slots;
  ids = Apart-append same_id gs g (λ a b. ground arith) fresh h.ids;
  settled = ground (arith, any-append (λ x. not (is_settled x)) gs (g ∷ []), h.settled, over);
  made = λ r. ground (arith, made r, h.made r, count-append (is_done_for r) gs (g ∷ []));
}

one_more :
    (r id position : ℕ) (rule : Rule) (ts : List MadeTask)
    → count (is_made_for r) (ts ++ new_task id position rule ∷ [])
      ≡ count (is_made_for r) ts + (if rule.id == r then 1 else 0)
one_more r id position rule ts =
    ground (arith, count-append (is_made_for r) ts (new_task id position rule ∷ []))

pub commit_generation-Once :
    (w : World) (rule : Rule) (position day : ℕ) (s s' : State)
    → IsFresh w
    → commit_generation w rule position day s ≡ ok s'
    → Once s
    → Once s'
commit_generation-Once w rule position day s s' fresh e h =
    let d = commit_generation-IsGenerated w rule position day s s' e in
    rw (d.generations, d.tasks)
      (added_row (generated_row w rule day s) s.generations s.tasks
        (s.tasks ++ new_task (w.new_task_id s) position rule ∷ []) d.free (fresh s) refl
        (λ r. one_more r (w.new_task_id s) position rule s.tasks) h)

pub record_generation_error-Once :
    (w : World) (rule_id : ℕ) (text : Text) (day : ℕ) (s : State)
    → IsFresh w
    → Once s
    → Once (record_generation_error w rule_id text day s)
unfolding record_generation_error
record_generation_error-Once w rule_id text day s fresh h =
    elim (Bool-cases (any (is_slot rule_id day) s.generations)) [
      | inl t ↦ rw (record_generation_error, commit_error, t) h
      | inr t ↦ elim (Option-cases (w.recording rule_id day)) [
        | inr (m, u) ↦ rw (record_generation_error, commit_error, t, u) h
        | inl u ↦
            rw (record_generation_error, commit_error, t, u)
              (added_row (new_generation (w.new_generation_id s) rule_id day failed (some text))
                s.generations s.tasks s.tasks t (fresh s) refl (λ r. omega arith) h)
      ]
    ]

-- No row with an id is of another rule.
abbrev pub OfRule : (id rule_id : ℕ) → List Generation → Type 0
OfRule id rule_id gs = any (λ x. (x.id == id) && not (x.rule_id == rule_id)) gs ≡ false

completed_settled :
    (id task_id : ℕ) (gs : List Generation)
    → any (λ g. not (is_settled g)) gs ≡ false
    → any (λ g. not (is_settled g)) (update_where (is_claimable id) (complete_retry task_id) gs)
      ≡ false
completed_settled id task_id [] h = refl
completed_settled id task_id (g ∷ gs) h = ground (arith, completed_settled id task_id gs)

no_claim :
    (g : Generation) (id : ℕ) (gs : List Generation)
    → (g.id == id) ≡ true
    → any (same_id g) gs ≡ false
    → any (is_claimable id) gs ≡ false
no_claim g id [] e h = refl
no_claim g id (x ∷ xs) e h = ground (arith, no_claim g id xs)

not_both : (x : Status) → is_status x failed ≡ true → is_status x completed ≡ false
not_both pending e = refl
not_both failed e = refl
not_both completed e = absurd (cc e)

one_more_done :
    (r id rule_id task_id : ℕ) (gs : List Generation)
    → Apart same_id gs
    → any (is_claimable id) gs ≡ true
    → OfRule id rule_id gs
    → count (is_done_for r) (update_where (is_claimable id) (complete_retry task_id) gs)
      ≡ count (is_done_for r) gs + (if rule_id == r then 1 else 0)
one_more_done r id rule_id task_id [] h c o = absurd (cc c)
one_more_done r id rule_id task_id (g ∷ gs) h c o = elim (Bool-cases (is_claimable id g)) [
  | inl t ↦
      let same : (g.id == id) ≡ true = ground (arith, t) in
      let gone =
        update_where-none (is_claimable id) (complete_retry task_id) gs
          (no_claim g id gs same h.0) in
      let mine : (g.rule_id == rule_id) ≡ true = ground (arith, o, same) in
      let new : is_status g.status completed ≡ false = not_both g.status (ground (arith, t)) in
      rw (t, gone) (ground (arith, new, mine))
  | inr t ↦ rw t (ground (arith, one_more_done r id rule_id task_id gs h.1, c, o, t))
]

pub commit_retry-Once :
    (w : World) (rule : Rule) (position : ℕ) (g : Generation) (s s' : State)
    → commit_retry w rule position g s ≡ ok (true, s')
    → OfRule g.id rule.id s.generations
    → Once s
    → Once s'
commit_retry-Once w rule position g s s' e o h =
    let d = commit_retry-IsRetried w rule position g s s' e in
    let f : Generation → Generation = complete_retry (w.new_task_id s) in
    rw (d.generations, d.tasks)
      record {
        slots =
            Apart-update_where same_slot (is_claimable g.id) f s.generations (λ a b. refl)
              (λ a b. refl) h.slots;
        ids =
            Apart-update_where same_id (is_claimable g.id) f s.generations (λ a b. refl)
              (λ a b. refl) h.ids;
        settled = completed_settled g.id (w.new_task_id s) s.generations h.settled;
        made = λ r.
            one_more r (w.new_task_id s) position rule s.tasks
            ∙ ap (λ n. n + (if rule.id == r then 1 else 0)) (h.made r)
            ∙ sym (one_more_done r g.id rule.id (w.new_task_id s) s.generations h.ids d.claimed o);
      }

pub count_retry-Once : (id : ℕ) (s : State) → Once s → Once (count_retry id s)
unfolding count_retry
count_retry-Once id s h =
    let f : Generation → Generation = λ g. record g { retry_count = suc g.retry_count } in
    record {
      slots =
          Apart-update_where same_slot (is_open id) f s.generations (λ a b. refl) (λ a b. refl)
            h.slots;
      ids =
          Apart-update_where same_id (is_open id) f s.generations (λ a b. refl) (λ a b. refl) h.ids;
      settled =
          any-update_where (λ g. not (is_settled g)) (is_open id) f s.generations (λ g. refl)
          ∙ h.settled;
      made = λ r.
          h.made r
          ∙ sym (count-update_where (is_done_for r) (is_open id) f s.generations (λ g. refl));
    }

pub advance_rule_next_scheduled_at-keeps :
    (rule : Rule) (day : ℕ) (s s' : State)
    → advance_rule_next_scheduled_at rule day s ≡ ok s'
    → (s'.generations ≡ s.generations) × (s'.tasks ≡ s.tasks)
unfolding advance_rule_next_scheduled_at
advance_rule_next_scheduled_at-keeps rule day s s' e =
    elim (Option-cases (calculate_next_scheduled_at_after rule.config (midnight day))) [
      | inl v ↦ absurd (ground (arith, e, v))
      | inr (next, v) ↦ (ground (arith, e, v), ground (arith, e, v))
    ]

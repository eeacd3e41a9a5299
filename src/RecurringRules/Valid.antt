-- ===== src/RecurringRules/Valid.antt =====
-- RecurringRules: the recurrence of every rule that is stored can be calculated.
use atlaspm.Base.{
  ℕ, ◌≤◌, leb, ◌≡◌, refl, arith, Bool, true, false, not, Option, none, some, List, [], ◌∷◌, ◌++◌,
  any, any-select, find, select, update_where, mem, ok, or_default, Bool-cases, Option-cases,
  Result-cases, inl, inr, sym, ◌∙◌, ap, subst,
}
use atlaspm.Base.Apart.{Apart, Apart-append, Apart-update_where, update_where-none}
use atlaspm.Access.{Directory}
use atlaspm.Calendar.Months.{civil-day_positive}
use atlaspm.Recurrence.{
  Config, Frequency, daily, weekly, monthly, midnight, normalize_recurring_date,
  calculate_initial_next_scheduled_at,
}
use atlaspm.Recurrence.Schedule.{IsRule, IsRuleBy, days_of, start_of}
use atlaspm.RecurringTasks.{Rule, is_rule}
use atlaspm.RecurringRules.{State, CreateBody, validate_recurring_config, created_rule, create}
use atlaspm.RecurringRules.Changes.{
  UpdateBody, update, read_for_update, commit_update, delete, read_for_delete, commit_delete,
  revise, effective_config, next_after_change, patched, given_or, Patch, absent, null, value,
}
use atlaspm.RecurringRetries.Runs.{AllRules, AllRules-select}

in_week : (ds : List ℕ) (x : ℕ) → any (λ y. not (leb y 6)) ds ≡ false → mem x ds ≡ true → x ≤ 6
in_week [] x h m = absurd (cc m)
in_week (d ∷ ds) x h m = ground (arith, in_week ds x, h, m)

-- A recurrence is accepted only if it can be calculated with what is stored of it.
validate_recurring_config-IsRuleBy :
    (f : Frequency) (days : Option (List ℕ)) (day : Option ℕ) (c : Config)
    → validate_recurring_config f days day ≡ ok tt
    → days_of c ≡ or_default days []
    → ((n : ℕ) → c.day_of_month ≡ some n → day ≡ some n)
    → IsRuleBy f c
unfolding validate_recurring_config
validate_recurring_config-IsRuleBy daily days day c e p q = tt
validate_recurring_config-IsRuleBy weekly none day c e p q = absurd (cc e)
validate_recurring_config-IsRuleBy weekly (some []) day c e p q = absurd (cc e)
validate_recurring_config-IsRuleBy weekly (some (d ∷ ds)) day c e p q =
    λ x m. in_week (d ∷ ds) x (ground (arith, e)) (sym (ap (mem x) p) ∙ m)
validate_recurring_config-IsRuleBy monthly days none c e p q = absurd (cc e)
validate_recurring_config-IsRuleBy monthly days (some day) c e p q =
    elim (Option-cases c.day_of_month) [
      | inl t ↦ ground (arith, t, civil-day_positive (start_of c))
      | inr (n, t) ↦ ground (arith, t, q n t, e)
    ]

create-accepted :
    (d : Directory) (now user id p : ℕ) (body : CreateBody) (s s' : State)
    → create d now user id p body s ≡ ok s'
    → (validate_recurring_config body.config.frequency body.config.days_of_week
          body.config.day_of_month
        ≡ ok tt)
      × (next : ℕ) × (s'.rules ≡ s.rules ++ created_rule id p body next ∷ [])
unfolding create
create-accepted d now user id p body s s' e =
    elim (Result-cases (
      validate_recurring_config body.config.frequency body.config.days_of_week
        body.config.day_of_month)) [
          | inr (f, t) ↦ absurd (ground (arith, e, t))
          | inl (u, t) ↦
              elim (Option-cases (
                calculate_initial_next_scheduled_at
                  (record body.config {
                    start_date = midnight (normalize_recurring_date body.config.start_date);
                  })
                  now)) [
                    | inl v ↦ absurd (ground (arith, e, t, v))
                    | inr (next, v) ↦ (t, next, ground (arith, e, t, v))
                  ]
        ]

-- What an update that succeeds has read, checked and written.
record IsUpdated (id : ℕ) (body : UpdateBody) (s s' : State) : Type 0 where
  rule : Rule
  read : find (is_rule id) s.rules ≡ some rule
  checked :
      validate_recurring_config
        (effective_config body rule).frequency
        (effective_config body rule).days_of_week
        (effective_config body rule).day_of_month
      ≡ ok tt
  next : Option ℕ
  written : s'.rules ≡ update_where (is_rule id) (revise body next) s.rules

update-IsUpdated :
    (d : Directory) (now user id : ℕ) (body : UpdateBody) (s s' : State)
    → update d now user id body s ≡ ok s'
    → IsUpdated id body s s'
unfolding update read_for_update commit_update
update-IsUpdated d now user id body s s' e = elim (Option-cases (find (is_rule id) s.rules)) [
  | inl x ↦ absurd (ground (arith, e, x))
  | inr (rule, x) ↦
      let c : Config = effective_config body rule in
      elim (Result-cases (validate_recurring_config c.frequency c.days_of_week c.day_of_month)) [
        | inr (f, t) ↦ absurd (ground (arith, e, x, t))
        | inl (u, t) ↦ elim (Option-cases (next_after_change body rule now)) [
          | inl v ↦ absurd (ground (arith, e, x, t, v))
          | inr (next, v) ↦ record {
            rule = rule;
            read = x;
            checked = t;
            next = next;
            written = ground (arith, e, x, t, v);
          }
        ]
      ]
]

-- The rules of a table can all be calculated and have ids of their own.
abbrev pub same_rule : Rule → Rule → Bool
same_rule a b = is_rule a.id b

pub record IsSound (s : State) : Type 0 where
  pub all : AllRules s.rules
  pub ids : Apart same_rule s.rules

AllRules-append :
    (rs : List Rule) (r : Rule) → AllRules rs → IsRule r.config → AllRules (rs ++ r ∷ [])
AllRules-append [] r h k = (k, tt)
AllRules-append (x ∷ xs) r (h, hs) k = (h, AllRules-append xs r hs k)

AllRules-update :
    (id : ℕ) (f : Rule → Rule) (rs : List Rule) (r : Rule)
    → AllRules rs
    → Apart same_rule rs
    → find (is_rule id) rs ≡ some r
    → IsRule (f r).config
    → AllRules (update_where (is_rule id) f rs)
AllRules-update id f [] r h a e k = tt
AllRules-update id f (x ∷ xs) r (h, hs) (a, aa) e k = elim (Bool-cases (is_rule id x)) [
  | inl t ↦
      let same : r ≡ x = ground (arith, e, t) in
      let mine : x.id ≡ id = ground (arith, t) in
      let others =
        update_where-none (is_rule id) f xs (subst (λ i. any (is_rule i) xs ≡ false) mine a) in
      rw (t, others) (subst (λ y. IsRule (f y).config) same k, hs)
  | inr t ↦ rw t (h, AllRules-update id f xs r hs aa (ground (arith, e, t)) k)
]

Apart-select :
    (p : Rule → Bool) (rs : List Rule) → Apart same_rule rs → Apart same_rule (select p rs)
Apart-select p [] h = tt
Apart-select p (r ∷ rs) (h, hs) = elim (Bool-cases (p r)) [
  | inl e ↦ rw e (any-select (same_rule r) p rs h, Apart-select p rs hs)
  | inr e ↦ rw e (Apart-select p rs hs)
]

-- What is stored of a day of the month is what was checked, or nothing.
patched-given_or :
    (day : Patch ℕ) (stored : Option ℕ) (n : ℕ)
    → patched day stored ≡ some n
    → given_or day stored ≡ some n
patched-given_or absent stored n e = e
patched-given_or null stored n e = absurd (cc e)
patched-given_or (value a) stored n e = e

pub create-IsSound :
    (d : Directory) (now user id p : ℕ) (body : CreateBody) (s s' : State)
    → any (is_rule id) s.rules ≡ false
    → create d now user id p body s ≡ ok s'
    → IsSound s
    → IsSound s'
create-IsSound d now user id p body s s' n e h =
    let (t, next, w) = create-accepted d now user id p body s s' e in
    let row : Rule = created_rule id p body next in
    record {
      all = rw w (
          AllRules-append s.rules row h.all (
            validate_recurring_config-IsRuleBy body.config.frequency body.config.days_of_week
              body.config.day_of_month row.config t refl (λ m q. q)));
      ids = rw w (Apart-append same_rule s.rules row (λ a b. ground arith) n h.ids);
    }

pub update-IsSound :
    (d : Directory) (now user id : ℕ) (body : UpdateBody) (s s' : State)
    → update d now user id body s ≡ ok s'
    → IsSound s
    → IsSound s'
update-IsSound d now user id body s s' e h =
    let u = update-IsUpdated d now user id body s s' e in
    let c : Config = effective_config body u.rule in
    record {
      all = rw u.written (
          AllRules-update id (revise body u.next) s.rules u.rule h.all h.ids u.read (
            validate_recurring_config-IsRuleBy c.frequency c.days_of_week c.day_of_month
              (revise body u.next u.rule).config u.checked refl
              (patched-given_or body.day_of_month u.rule.config.day_of_month)));
      ids = rw u.written (
          Apart-update_where same_rule (is_rule id) (revise body u.next) s.rules (λ a b. refl)
            (λ a b. refl) h.ids);
    }

pub delete-IsSound :
    (d : Directory) (now user id : ℕ) (s s' : State)
    → delete d now user id s ≡ ok s'
    → IsSound s
    → IsSound s'
unfolding delete read_for_delete commit_delete
delete-IsSound d now user id s s' e h =
    let kept : select (λ r. not (is_rule id r)) s.rules ≡ s'.rules = ground (arith, e) in
    record {
      all = subst AllRules kept (AllRules-select (λ r. not (is_rule id r)) s.rules h.all);
      ids = subst (Apart same_rule) kept (Apart-select (λ r. not (is_rule id r)) s.rules h.ids);
    }

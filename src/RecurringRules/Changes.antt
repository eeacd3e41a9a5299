-- ===== src/RecurringRules/Changes.antt =====
-- RecurringRules: changing and deleting a rule. The test that `startDate` is not null is left out: it is a
-- value or it is left out. Both operations read their rule before their transaction, so each is a reading
-- and a commit; the section that an update connects is taken to be still there.
use atlaspm.Base.{
  ℕ, Bool, true, false, not, ◌||◌, Option, none, some, List, [], ◌∷◌, ◌++◌, if◌then◌else◌, find,
  select, any, update_where, Result, ok, ◌>>=◌, ◌>>◌, refuse, or_fail, or_default,
}
use atlaspm.Base.Text.{Text, trim}
use atlaspm.Store.{is_some}
use atlaspm.Access.{Directory}
use atlaspm.Recurrence.{
  Config, Frequency, midnight, normalize_recurring_date, calculate_initial_next_scheduled_at,
}
use atlaspm.RecurringTasks.{Rule, is_rule}
use atlaspm.RecurringRules.{
  State, Section, RuleError, rule_updated, rule_deleted, title_empty, section_not_found,
  rule_not_found, record_gone, out_of_fuel, authorize, validate_recurring_config,
  validate_date_window, normalize_end, is_section, is_empty_text,
}

-- a field of a request that may be left out or be null
pub data Patch {ℓ} (A : Type ℓ) : Type ℓ where
  absent null : Patch A
  value : A → Patch A

-- `field !== undefined ? field ?? null : stored`
abbrev pub patched {ℓ} : {A : Type ℓ} → Patch A → Option A → Option A
patched absent stored = stored
patched null stored = none
patched (value a) stored = some a

-- `field ?? stored`
abbrev pub given_or {ℓ} : {A : Type ℓ} → Patch A → Option A → Option A
given_or absent stored = stored
given_or null stored = stored
given_or (value a) stored = some a

abbrev pub is_absent {ℓ} : {A : Type ℓ} → Patch A → Bool
is_absent absent = true
is_absent null = false
is_absent (value a) = false

pub record UpdateBody : Type 0 where
  pub title : Option Text
  pub description : Patch Text
  pub frequency : Option Frequency
  pub interval : Option ℕ
  pub days_of_week : Option (List ℕ)
  pub day_of_month : Patch ℕ
  pub section_id : Option ℕ
  pub assignee_user_id : Patch ℕ
  pub priority : Patch ℕ
  pub tags : Option (List Text)
  pub start_date : Option ℕ
  pub end_date : Patch ℕ
  pub is_active : Option Bool

-- a value that is given, or the one that is stored
abbrev pub over {ℓ} : {A : Type ℓ} → Option A → Option A → Option A
over none stored = stored
over (some a) stored = some a

-- the recurrence that is checked and that the next day is calculated with
abbrev pub effective_config : UpdateBody → Rule → Config
effective_config body rule = record {
  frequency = or_default body.frequency rule.config.frequency;
  interval = over body.interval rule.config.interval;
  days_of_week = over body.days_of_week rule.config.days_of_week;
  day_of_month = given_or body.day_of_month rule.config.day_of_month;
  start_date =
      midnight (normalize_recurring_date (or_default body.start_date rule.config.start_date));
}

abbrev pub schedule_changed : UpdateBody → Bool
schedule_changed body =
    is_some body.frequency
    || is_some body.interval
    || is_some body.days_of_week
    || not (is_absent body.day_of_month)
    || is_some body.start_date

abbrev pub trim_patch : Patch Text → Patch Text
trim_patch absent = absent
trim_patch null = null
trim_patch (value text) = value (trim text)

-- `effectiveEndDate`, as a day
abbrev pub effective_end_date : UpdateBody → Rule → Option ℕ
effective_end_date body rule = normalize_end (patched body.end_date rule.end_date)

-- the `nextScheduledAt` that an update writes, if it writes one: from the rule as it was read
abbrev pub next_after_change : UpdateBody → Rule → (now : ℕ) → Option (Option ℕ)
next_after_change body rule now =
    if schedule_changed body
    then elim (calculate_initial_next_scheduled_at (effective_config body rule) now) [
      | none ↦ none
      | some day ↦ some (some (midnight day))
    ]
    else some none

-- the start date that an update stores
abbrev pub stored_start : Option ℕ → Rule → ℕ
stored_start none rule = rule.config.start_date
stored_start (some start) rule = midnight (normalize_recurring_date start)

-- the end date that an update stores
abbrev pub stored_end : Patch ℕ → Rule → Option ℕ
stored_end absent rule = rule.end_date
stored_end null rule = none
stored_end (value end) rule = some (midnight (normalize_recurring_date end))

-- `data` of update, applied to the row that is stored when it is written
abbrev pub revise : UpdateBody → (next_scheduled_at : Option ℕ) → Rule → Rule
revise body next r = record r {
  section_id = or_default body.section_id r.section_id;
  template = record r.template {
    title = elim body.title [ none ↦ r.template.title | some text ↦ trim text ];
    description = patched (trim_patch body.description) r.template.description;
    assignee_user_id = patched body.assignee_user_id r.template.assignee_user_id;
    priority = patched body.priority r.template.priority;
    tags = or_default body.tags r.template.tags;
  };
  config = record {
    frequency = or_default body.frequency r.config.frequency;
    interval = over body.interval r.config.interval;
    days_of_week = over body.days_of_week r.config.days_of_week;
    day_of_month = patched body.day_of_month r.config.day_of_month;
    start_date = stored_start body.start_date r;
  };
  end_date = stored_end body.end_date r;
  next_scheduled_at = over next r.next_scheduled_at;
  is_active = or_default body.is_active r.is_active;
}

abbrev pub check_title : Option Text → Result RuleError (Unit {0})
check_title none = ok tt
check_title (some title) = refuse (is_empty_text (trim title)) title_empty

abbrev pub check_section : Option ℕ → (project_id : ℕ) → List Section → Result RuleError (Unit {0})
check_section none p sections = ok tt
check_section (some id) p sections = refuse (not (any (is_section id p) sections)) section_not_found

-- the reading and the tests of update, for a `startDate` that is not null
unfoldable pub read_for_update :
    Directory → (now user id : ℕ) → UpdateBody → State → Result RuleError Rule
read_for_update d now user id body s = do
  rule ← or_fail (find (is_rule id) s.rules) rule_not_found
  authorize d now rule.project_id user
  check_title body.title
  check_section body.section_id rule.project_id s.sections
  let config = effective_config body rule
  validate_recurring_config config.frequency config.days_of_week config.day_of_month
  validate_date_window (normalize_recurring_date config.start_date) (effective_end_date body rule)
  ok rule

-- the transaction of update, for the rule as it was read
unfoldable pub commit_update :
    (now id : ℕ) → UpdateBody → (seen : Rule) → State → Result RuleError State
commit_update now id body seen s = do
  next ← or_fail (next_after_change body seen now) out_of_fuel
  row ← or_fail (find (is_rule id) s.rules) record_gone
  ok (record s {
    rules = update_where (is_rule id) (revise body next) s.rules;
    events = s.events ++ rule_updated seen (revise body next row) ∷ [];
  })

-- update, when nothing comes between its reading and its transaction
unfoldable pub update : Directory → (now user id : ℕ) → UpdateBody → State → Result RuleError State
update d now user id body s = do
  seen ← read_for_update d now user id body s
  commit_update now id body seen s

-- the reading of delete
unfoldable pub read_for_delete : Directory → (now user id : ℕ) → State → Result RuleError Rule
read_for_delete d now user id s = do
  rule ← or_fail (find (is_rule id) s.rules) rule_not_found
  authorize d now rule.project_id user
  ok rule

-- the transaction of delete
unfoldable pub commit_delete : (id : ℕ) → (seen : Rule) → State → Result RuleError State
commit_delete id seen s = do
  or_fail (find (is_rule id) s.rules) record_gone
  ok (record s {
    rules = select (λ r. not (is_rule id r)) s.rules;
    events = s.events ++ rule_deleted seen ∷ [];
  })

-- delete, when nothing comes between its reading and its transaction
unfoldable pub delete : Directory → (now user id : ℕ) → State → Result RuleError State
delete d now user id s = do seen ← read_for_delete d now user id s; commit_delete id seen s

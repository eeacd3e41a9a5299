-- ===== src/Webhooks/Examples.antt =====
-- The theorems at two events of a project, one of them delivered.
use atlaspm.Base.{
  ℕ, min, arith, ◌*◌, ◌≡◌, refl, inl, inr, find, none, some, Option, [], ◌∷◌, arith, true, ◌==◌,
  subst, Bool-cases,
}
use atlaspm.Base.Text.{Text}
use atlaspm.Payload.{Json, string, object, field, no_fields}
use atlaspm.Webhooks.{
  Settings, default_delay, unset, number, Webhook, OutboxEvent, Tables, project_key,
  process_due_events, finish_delivery, deliver_event, is_event, get_backoff_ms,
}
use atlaspm.Webhooks.Delays.{IsBase, IsGreatest, get_backoff_ms-doubles}
use atlaspm.Webhooks.Ticks.{IsWell, AllWell, process_due_events-AllWell}
use atlaspm.Webhooks.Outcomes.{Advanced, deliver_event-Advanced, finish_delivery-stale}
use atlaspm.Webhooks.Settled.{process_due_events-settled}

abbrev settings : Settings
settings = record {
  batch_size = unset;
  max_attempts = number 1;
  base_delay_ms = default_delay;
  max_delay_ms = default_delay;
  lock_ms = unset;
}

abbrev in_project : Json
in_project = object (field project_key (string (65 ∷ [])) no_fields)

abbrev fresh : OutboxEvent
fresh = record {
  id = 1;
  payload = in_project;
  delivery_attempts = 0;
  next_retry_at = none;
  delivered_at = none;
  dead_lettered_at = none;
  last_error = none;
}

abbrev sent : OutboxEvent
sent = record fresh { id = 2; delivered_at = some 5 }

abbrev hook : Webhook
hook = record { id = 66 ∷ []; project_id = 65 ∷ []; active = true }

abbrev tables : Tables
tables = record {
  events = fresh ∷ sent ∷ [];
  webhooks = hook ∷ [];
  tasks = [];
  sections = [];
  audit = [];
}

-- every endpoint answers 500
abbrev down : OutboxEvent → Webhook → Option Text
down e w = some (53 ∷ 48 ∷ 48 ∷ [])

fresh-IsWell : IsWell settings fresh
fresh-IsWell = record {
  apart = inl refl;
  alive = λ x. omega arith;
  dead = λ x. absurd (x refl);
  settled = λ x. refl;
}

sent-IsWell : IsWell settings sent
sent-IsWell = record {
  apart = inr refl;
  alive = λ x. omega arith;
  dead = λ x. absurd (x refl);
  settled = λ x. refl;
}

tables-AllWell : AllWell settings tables
tables-AllWell id e f = elim (Bool-cases (1 == id)) [
  | inl first ↦ let p : fresh ≡ e = ground arith in subst (IsWell settings) p fresh-IsWell
  | inr other ↦ elim (Bool-cases (2 == id)) [
    | inl second ↦ let p : sent ≡ e = ground arith in subst (IsWell settings) p sent-IsWell
    | inr neither ↦ absurd (ground arith)
  ]
]

get_backoff_ms-doubles_example :
    (base : ℕ) × (greatest : ℕ) × IsBase default_delay base
    × IsGreatest base default_delay greatest
    × (get_backoff_ms settings 1 ≡ min base greatest)
    × (get_backoff_ms settings 5 ≡ min (2 * get_backoff_ms settings 4) greatest)
get_backoff_ms-doubles_example = get_backoff_ms-doubles settings 3 (omega arith)

process_due_events-AllWell_example : AllWell settings (process_due_events settings down 10 tables).1
process_due_events-AllWell_example =
    process_due_events-AllWell settings down 10 tables tables-AllWell

deliver_event-Advanced_example :
    (e' : OutboxEvent) × (find (is_event 1) (deliver_event settings down 10 1 tables).1.events
      ≡ some e')
    × Advanced settings 10 fresh e'
deliver_event-Advanced_example =
    deliver_event-Advanced settings down 10 fresh tables refl (refl, refl)

process_due_events-settled_example :
    find (is_event 2) (process_due_events settings down 10 tables).1.events ≡ some sent
process_due_events-settled_example =
    process_due_events-settled settings down 10 2 sent tables refl refl

-- another worker has read the second event before it was delivered
finish_delivery-stale_example :
    (e' : OutboxEvent) × (find
        (is_event 2)
        (finish_delivery settings 10
          (record sent { delivered_at = none })
          ((66 ∷ []) ∷ [])
          tables).1.events
      ≡ some e')
    × (e'.delivered_at ≡ some 5)
    × (e'.dead_lettered_at ≡ some 10)
finish_delivery-stale_example =
    finish_delivery-stale settings 10 5 (record sent { delivered_at = none }) sent (66 ∷ []) []
      tables refl refl (omega arith)

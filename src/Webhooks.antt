-- ===== src/Webhooks.antt =====
-- WebhookDeliveryService (apps/core-api/src/webhooks/webhook-delivery.service.ts): delivering the
-- events of the outbox to webhooks, with retries and dead letters.
-- The endpoints are a parameter: what `fetch` comes to for an event and a webhook, `none` for an
-- answer that is ok and otherwise the status or the error's message. Requests, signatures and log
-- lines are left out. An id inside a payload is a text.
pub mod Delays
pub mod Ticks
pub mod Outcomes
pub mod Settled
pub mod Examples
use atlaspm.Base.{
  ℕ, zero, suc, ◌+◌, ◌*◌, ◌-◌, ◌^◌, min, max, ◌==◌, leb, Bool, true, false, not, ◌&&◌, ◌||◌, Option,
  none, some, List, [], ◌∷◌, ◌++◌, if◌then◌else◌, find, select, any, update_where, or_default,
}
use atlaspm.Base.Text.{Text, text_eq}
use atlaspm.Store.{is_none, is_some}
use atlaspm.Payload.{Json, mem_text, add_text, collect_string_values}

-- an environment variable that is read as a number: a finite one, of at least 0, by its whole part
pub data Setting : Type 0 where
  unset unusable : Setting
  number : ℕ → Setting

-- an environment variable that is read as a delay: left out, not a finite number of at least 0, or a
-- whole number of milliseconds. The code does not take the whole part of a delay, so that a delay of
-- a fraction of a millisecond is outside the model.
pub data Delay : Type 0 where
  default_delay unusable_delay : Delay
  whole_delay : ℕ → Delay

pub record Settings : Type 0 where
  pub batch_size : Setting
  pub max_attempts : Setting
  pub base_delay_ms : Delay
  pub max_delay_ms : Delay
  pub lock_ms : Setting

-- `Number.isFinite(raw) && raw >= least ? Math.floor(raw) : fallback`
abbrev pub at_least : (least fallback : ℕ) → Setting → ℕ
at_least least fallback unset = fallback
at_least least fallback unusable = fallback
at_least least fallback (number n) = if leb least n then n else fallback

-- getBatchSize
abbrev pub get_batch_size : Settings → ℕ
get_batch_size c = at_least 1 25 c.batch_size

-- getMaxAttempts
abbrev pub get_max_attempts : Settings → ℕ
get_max_attempts c = at_least 1 5 c.max_attempts

-- getProcessingLockMs
abbrev pub get_processing_lock_ms : Settings → ℕ
get_processing_lock_ms c = at_least 1000 30000 c.lock_ms

-- `safeBase` of getBackoffMs
abbrev pub safe_base : Settings → ℕ
safe_base c = elim c.base_delay_ms [
  | default_delay ↦ 5000
  | unusable_delay ↦ 5000
  | whole_delay n ↦ n
]

-- `safeMax` of getBackoffMs
abbrev pub safe_max : Settings → ℕ
safe_max c = elim c.max_delay_ms [
  | default_delay ↦ 60000
  | unusable_delay ↦ 60000
  | whole_delay n ↦ if leb (safe_base c) n then n else 60000
]

-- getBackoffMs, for 1 to 1024 attempts: past them `2 ** (attempts - 1)` is infinite, and with a base
-- of 0 the source's delay is then not a number. Up to there every step is exact: the product is a
-- whole double times a power of two, or infinite, which the minimum takes away.
pub get_backoff_ms : Settings → ℕ → ℕ
get_backoff_ms c attempts = min (safe_base c * max 1 (2 ^ (attempts - 1))) (safe_max c)

pub record Webhook : Type 0 where
  pub id : Text
  pub project_id : Text
  pub active : Bool

-- model OutboxEvent, the columns that delivery reads or writes
pub record OutboxEvent : Type 0 where
  pub id : ℕ
  pub payload : Json
  pub delivery_attempts : ℕ
  pub next_retry_at : Option ℕ
  pub delivered_at : Option ℕ
  pub dead_lettered_at : Option ℕ
  pub last_error : Option Text

-- the audit event of a dead letter
pub record DeadLetter : Type 0 where
  pub entity_id : ℕ
  pub attempts_before : ℕ
  pub next_retry_before : Option ℕ
  pub attempts_after : ℕ
  pub dead_lettered_at : ℕ
  pub error : Text

-- a row of the task or the section table: its id and its project
pub record Owned : Type 0 where
  pub id : Text
  pub project_id : Text

-- The events stand in the order of their creation.
pub record Tables : Type 0 where
  pub events : List OutboxEvent
  pub webhooks : List Webhook
  pub tasks : List Owned
  pub sections : List Owned
  pub audit : List DeadLetter

abbrev pub is_event : ℕ → OutboxEvent → Bool
is_event id e = e.id == id

abbrev pub has_come : ℕ → Option ℕ → Bool
has_come now none = true
has_come now (some t) = leb t now

-- `deliveredAt: null, deadLetteredAt: null, OR: [{ nextRetryAt: null }, { nextRetryAt: { lte: now } }]`
abbrev pub is_due : ℕ → OutboxEvent → Bool
is_due now e =
    is_none e.delivered_at && (is_none e.dead_lettered_at && has_come now e.next_retry_at)

abbrev pub take : ℕ → List OutboxEvent → List OutboxEvent
take zero es = []
take (suc n) [] = []
take (suc n) (e ∷ es) = e ∷ take n es

abbrev pub lock : Settings → ℕ → OutboxEvent → OutboxEvent
lock c now e = record e { next_retry_at = some (now + get_processing_lock_ms c) }

-- `outboxEvent.updateMany` of the claim: whether it changed a row, and the tables
pub claim : Settings → (now id : ℕ) → Tables → Bool × Tables
claim c now id s = (
  any (λ e. is_event id e && is_due now e) s.events,
  record s { events = update_where (λ e. is_event id e && is_due now e) (lock c now) s.events },
)

-- `for (const row of rows) projectIds.add(row.projectId)`, for the rows with one of the ids
abbrev pub add_projects : List Text → List Owned → List Text → List Text
add_projects ids [] found = found
add_projects ids (r ∷ rows) found =
    add_projects ids rows (if mem_text r.id ids then add_text r.project_id found else found)

abbrev pub project_key : Text
project_key = 112 ∷ 114 ∷ 111 ∷ 106 ∷ 101 ∷ 99 ∷ 116 ∷ 73 ∷ 100 ∷ []

abbrev pub task_key : Text
task_key = 116 ∷ 97 ∷ 115 ∷ 107 ∷ 73 ∷ 100 ∷ []

abbrev pub section_key : Text
section_key = 115 ∷ 101 ∷ 99 ∷ 116 ∷ 105 ∷ 111 ∷ 110 ∷ 73 ∷ 100 ∷ []

-- resolveProjectIds
pub resolve_project_ids : Tables → Json → List Text
resolve_project_ids s payload = elim (collect_string_values payload project_key) [
  | p ∷ ps ↦ p ∷ ps
  | [] ↦
      add_projects (collect_string_values payload section_key) s.sections
        (add_projects (collect_string_values payload task_key) s.tasks [])
]

-- `where: { active: true, projectId: { in: projectIds } }`; without a project there is none
abbrev pub webhooks_for : Tables → Json → List Webhook
webhooks_for s payload =
    select (λ w. w.active && mem_text w.project_id (resolve_project_ids s payload)) s.webhooks

-- `${webhook.id}:${…}` for each webhook that failed
abbrev pub failures : (Webhook → Option Text) → List Webhook → List Text
failures fetch [] = []
failures fetch (w ∷ ws) = elim (fetch w) [
  | none ↦ failures fetch ws
  | some reason ↦ (w.id ++ 58 ∷ reason) ∷ failures fetch ws
]

-- `join('; ')`
abbrev pub join : List Text → Text
join [] = []
join (t ∷ []) = t
join (t ∷ u ∷ ts) = t ++ 59 ∷ 32 ∷ join (u ∷ ts)

-- `slice(0, n)`
abbrev pub slice : ℕ → Text → Text
slice zero t = []
slice (suc n) [] = []
slice (suc n) (x ∷ xs) = x ∷ slice n xs

abbrev pub mark_delivered : ℕ → OutboxEvent → OutboxEvent
mark_delivered now e = record e { delivered_at = some now; next_retry_at = none; last_error = none }

abbrev pub mark_dead : (now attempts : ℕ) → Text → OutboxEvent → OutboxEvent
mark_dead now attempts error e = record e {
  delivery_attempts = attempts;
  dead_lettered_at = some now;
  next_retry_at = none;
  last_error = some error;
}

abbrev pub mark_retry : Settings → (now attempts : ℕ) → Text → OutboxEvent → OutboxEvent
mark_retry c now attempts error e = record e {
  delivery_attempts = attempts;
  next_retry_at = some (now + get_backoff_ms c attempts);
  last_error = some error;
}

abbrev pub change_event : ℕ → (OutboxEvent → OutboxEvent) → Tables → Tables
change_event id f s = record s { events = update_where (is_event id) f s.events }

-- the end of deliverEvent, for the event as it was read and the failures that its requests came to
pub finish_delivery : Settings → ℕ → OutboxEvent → List Text → Tables → Bool × Tables
finish_delivery c now seen [] s = (true, change_event seen.id (mark_delivered now) s)
finish_delivery c now seen (f ∷ fs) s =
    let attempts = suc seen.delivery_attempts in
    let error = slice 2000 (join (f ∷ fs)) in
    if leb (get_max_attempts c) attempts
    then (
      false,
      record (change_event seen.id (mark_dead now attempts error) s) {
        audit =
            s.audit
            ++ record {
              entity_id = seen.id;
              attempts_before = seen.delivery_attempts;
              next_retry_before = seen.next_retry_at;
              attempts_after = attempts;
              dead_lettered_at = now;
              error = error;
            }
              ∷ [];
      },
    )
    else (false, change_event seen.id (mark_retry c now attempts error) s)

-- deliverEvent: without a project or an active webhook there is nothing to fail
pub deliver_event :
    Settings → (OutboxEvent → Webhook → Option Text) → (now id : ℕ) → Tables → Bool × Tables
deliver_event c fetch now id s = elim (find (is_event id) s.events) [
  | none ↦ (false, s)
  | some e ↦
      if is_some e.delivered_at || is_some e.dead_lettered_at
      then (false, s)
      else finish_delivery c now e (failures (fetch e) (webhooks_for s e.payload)) s
]

-- the loop of processDueEvents
pub process_events :
    Settings → (OutboxEvent → Webhook → Option Text) → ℕ → List OutboxEvent → Tables → ℕ × Tables
process_events c fetch now [] s = (0, s)
process_events c fetch now (e ∷ es) s =
    let claimed = claim c now e.id s in
    let delivered = deliver_event c fetch now e.id claimed.1 in
    let next = if claimed.0 then delivered.1 else claimed.1 in
    let rest = process_events c fetch now es next in
    (if claimed.0 && delivered.0 then suc rest.0 else rest.0, rest.1)

-- processDueEvents
pub process_due_events : Settings → (OutboxEvent → Webhook → Option Text) → ℕ → Tables → ℕ × Tables
process_due_events c fetch now s =
    process_events c fetch now (take (get_batch_size c) (select (is_due now) s.events)) s

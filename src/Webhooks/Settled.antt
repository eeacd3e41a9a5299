-- ===== src/Webhooks/Settled.antt =====
-- An event that was delivered or given up stays as it is.
use atlaspm.Base.{
  ℕ, suc, ◌≡◌, ◌∙◌, sym, ap, subst, refl, inl, inr, Bool, false, ◌&&◌, ◌||◌, Option, some, List, [],
  ◌∷◌, arith, find, select, update_where, leb, Bool-cases, Option-cases, ==→eq, find-update_where,
  change_found, find_sound,
}
use atlaspm.Base.Text.{Text}
use atlaspm.Store.{is_none, is_some}
use atlaspm.Webhooks.{
  Settings, Webhook, OutboxEvent, Tables, is_event, is_due, lock, claim, get_max_attempts,
  mark_delivered, mark_dead, mark_retry, finish_delivery, deliver_event, process_events,
  process_due_events, failures, webhooks_for, slice, join, take, get_batch_size,
}

claim-settled :
    (c : Settings) (now id i : ℕ) (e : OutboxEvent) (s : Tables)
    → find (is_event i) s.events ≡ some e
    → (is_none e.delivered_at && is_none e.dead_lettered_at) ≡ false
    → find (is_event i) (claim c now id s).1.events ≡ some e
unfolding claim
claim-settled c now id i e s found over =
    let q : OutboxEvent → Bool = λ x. is_event id x && is_due now x in
    let k = find-update_where (is_event i) q (lock c now) s.events (λ x. refl) in
    let miss : q e ≡ false = ground arith in
    k ∙ ap (change_found q (lock c now)) found ∙ rw miss refl

found_same :
    (i : ℕ) (q : OutboxEvent → Bool) (f : OutboxEvent → OutboxEvent) (es : List OutboxEvent)
    (e : OutboxEvent)
    → ((x : OutboxEvent) → (f x).id ≡ x.id)
    → find (is_event i) es ≡ some e
    → q e ≡ false
    → find (is_event i) (update_where q f es) ≡ some e
found_same i q f es e keeps found miss =
    find-update_where (is_event i) q f es (λ x. ground (arith, keeps x))
    ∙ ap (change_found q f) found
    ∙ rw miss refl

finish_delivery-other :
    (c : Settings) (now i : ℕ) (seen e : OutboxEvent) (fs : List Text) (s : Tables)
    → find (is_event i) s.events ≡ some e
    → is_event seen.id e ≡ false
    → find (is_event i) (finish_delivery c now seen fs s).1.events ≡ some e
unfolding finish_delivery
finish_delivery-other c now i seen e [] s found miss =
    found_same i (is_event seen.id) (mark_delivered now) s.events e (λ x. refl) found miss
finish_delivery-other c now i seen e (t ∷ ts) s found miss =
    let n = suc seen.delivery_attempts in
    let error = slice 2000 (join (t ∷ ts)) in
    elim (Bool-cases (leb (get_max_attempts c) n)) [
      | inl last ↦
          rw (finish_delivery, last)
            (found_same i (is_event seen.id) (mark_dead now n error) s.events e (λ x. refl) found
              miss)
      | inr more ↦
          rw (finish_delivery, more)
            (found_same i (is_event seen.id) (mark_retry c now n error) s.events e (λ x. refl) found
              miss)
    ]

deliver_event-settled :
    (c : Settings) (fetch : OutboxEvent → Webhook → Option Text) (now id i : ℕ) (e : OutboxEvent)
    (s : Tables)
    → find (is_event i) s.events ≡ some e
    → (is_none e.delivered_at && is_none e.dead_lettered_at) ≡ false
    → find (is_event i) (deliver_event c fetch now id s).1.events ≡ some e
unfolding deliver_event
deliver_event-settled c fetch now id i e s found over =
    elim (Option-cases (find (is_event id) s.events)) [
      | inl gone ↦ rw (deliver_event, gone) found
      | inr (x, f) ↦ elim (Bool-cases (is_some x.delivered_at || is_some x.dead_lettered_at)) [
        | inl settled ↦ rw (deliver_event, f, settled) found
        | inr waits ↦
            let p : x.id ≡ id = ==→eq x.id id (find_sound (is_event id) s.events x f) in
            rw (deliver_event, f, waits)
              (finish_delivery-other c now i x e (failures (fetch x) (webhooks_for s x.payload)) s
                found
                (elim (Bool-cases (is_event x.id e)) [
                  | inr miss ↦ miss
                  | inl hit ↦
                      let q : e.id ≡ x.id = ==→eq e.id x.id hit in
                      let r : e.id ≡ i = ==→eq e.id i (find_sound (is_event i) s.events e found) in
                      let same : x ≡ e = cc (
                        f,
                        subst (λ j. find (is_event j) s.events ≡ some e) (sym r ∙ q ∙ p) found,
                      ) in
                      absurd (ground arith)
                ]))
      ]
    ]

process_events-settled :
    (c : Settings) (fetch : OutboxEvent → Webhook → Option Text) (now i : ℕ) (e : OutboxEvent)
    (es : List OutboxEvent) (s : Tables)
    → find (is_event i) s.events ≡ some e
    → (is_none e.delivered_at && is_none e.dead_lettered_at) ≡ false
    → find (is_event i) (process_events c fetch now es s).1.events ≡ some e
unfolding process_events
process_events-settled c fetch now i e [] s found over = found
process_events-settled c fetch now i e (x ∷ es) s found over =
    let k = claim-settled c now x.id i e s found over in
    elim (Bool-cases (claim c now x.id s).0) [
      | inl taken ↦ rw taken (
          process_events-settled c fetch now i e es
            (deliver_event c fetch now x.id (claim c now x.id s).1).1
            (deliver_event-settled c fetch now x.id i e (claim c now x.id s).1 k over) over)
      | inr not_taken ↦
          rw not_taken (process_events-settled c fetch now i e es (claim c now x.id s).1 k over)
    ]

-- An event that was delivered or is a dead letter stays, in all its columns, as it is through every
-- `processDueEvents` that runs alone.
pub process_due_events-settled :
    (c : Settings) (fetch : OutboxEvent → Webhook → Option Text) (now i : ℕ) (e : OutboxEvent)
    (s : Tables)
    → find (is_event i) s.events ≡ some e
    → (is_none e.delivered_at && is_none e.dead_lettered_at) ≡ false
    → find (is_event i) (process_due_events c fetch now s).1.events ≡ some e
unfolding process_due_events
process_due_events-settled c fetch now i e s =
    process_events-settled c fetch now i e (take (get_batch_size c) (select (is_due now) s.events))
      s

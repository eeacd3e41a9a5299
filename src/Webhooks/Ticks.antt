-- ===== src/Webhooks/Ticks.antt =====
-- What deliveries keep true of every event, and what they do to one.
use atlaspm.Base.{
  ℕ, suc, ◌<◌, ◌≡◌, ◌≢◌, ◌⊎◌, ◌∙◌, sym, subst, refl, inl, inr, Bool, true, false, ◌&&◌, ◌||◌,
  Option, none, some, List, [], ◌∷◌, arith, find, select, update_where, leb, Bool-cases,
  Option-cases, ==→eq, find-update_where, find_sound,
}
use atlaspm.Base.Text.{Text}
use atlaspm.Store.{is_none, is_some}
use atlaspm.Webhooks.{
  Settings, Webhook, OutboxEvent, Tables, is_event, is_due, lock, claim, get_max_attempts,
  mark_delivered, mark_dead, mark_retry, finish_delivery, deliver_event, process_events,
  process_due_events, failures, webhooks_for, slice, join, take, get_batch_size,
}

-- A delivered event is no dead letter; an event is a dead letter exactly if its attempts have come
-- to the greatest number; and neither has a next retry.
pub record IsWell (c : Settings) (e : OutboxEvent) : Type 0 where
  pub apart : (e.delivered_at ≡ none) ⊎ (e.dead_lettered_at ≡ none)
  pub alive : e.dead_lettered_at ≡ none → e.delivery_attempts < get_max_attempts c
  pub dead : e.dead_lettered_at ≢ none → e.delivery_attempts ≡ get_max_attempts c
  pub settled :
      (is_none e.delivered_at && is_none e.dead_lettered_at) ≡ false → e.next_retry_at ≡ none

-- so is every event that an id finds
abbrev pub AllWell : Settings → Tables → Type 0
AllWell c s = (id : ℕ) (e : OutboxEvent) → find (is_event id) s.events ≡ some e → IsWell c e

update-AllWell :
    (c : Settings) (q : OutboxEvent → Bool) (f : OutboxEvent → OutboxEvent) (s s' : Tables)
    → s'.events ≡ update_where q f s.events
    → ((e : OutboxEvent) → (f e).id ≡ e.id)
    → ((id : ℕ) (e : OutboxEvent)
        → find (is_event id) s.events ≡ some e
        → q e ≡ true
        → IsWell c e
        → IsWell c (f e))
    → AllWell c s
    → AllWell c s'
update-AllWell c q f s s' p keeps step h id e found =
    let k = find-update_where (is_event id) q f s.events (λ x. ground (arith, keeps x)) in
    elim (Option-cases (find (is_event id) s.events)) [
      | inl gone ↦ absurd (ground arith)
      | inr (x, was) ↦ elim (Bool-cases (q x)) [
        | inl hit ↦
            let r : f x ≡ e = ground arith in subst (IsWell c) r (step id x was hit (h id x was))
        | inr miss ↦ let r : x ≡ e = ground arith in subst (IsWell c) r (h id x was)
      ]
    ]

claim-AllWell :
    (c : Settings) (now id : ℕ) (s : Tables) → AllWell c s → AllWell c (claim c now id s).1
unfolding claim
claim-AllWell c now id s h =
    update-AllWell c (λ e. is_event id e && is_due now e) (lock c now) s (claim c now id s).1 refl
      (λ e. refl)
      (λ i e was hit w. record {
        apart = w.apart;
        alive = w.alive;
        dead = w.dead;
        settled = λ x. absurd (ground arith);
      })
      h

-- The event that was read is the one that its id finds.
read_again :
    (seen e : OutboxEvent) (i : ℕ) (es : List OutboxEvent)
    → find (is_event seen.id) es ≡ some seen
    → find (is_event i) es ≡ some e
    → is_event seen.id e ≡ true
    → seen ≡ e
read_again seen e i es f g hit =
    let p : e.id ≡ i = ==→eq e.id i (find_sound (is_event i) es e g) in
    let q : e.id ≡ seen.id = ==→eq e.id seen.id hit in
    let r : find (is_event i) es ≡ some seen =
      subst (λ j. find (is_event j) es ≡ some seen) (sym q ∙ p) f in
    cc (g, r)

finish_delivery-AllWell :
    (c : Settings) (now : ℕ) (seen : OutboxEvent) (fs : List Text) (s : Tables)
    → find (is_event seen.id) s.events ≡ some seen
    → seen.delivered_at ≡ none
    → seen.dead_lettered_at ≡ none
    → AllWell c s
    → AllWell c (finish_delivery c now seen fs s).1
unfolding finish_delivery
finish_delivery-AllWell c now seen [] s f live alive h =
    update-AllWell c (is_event seen.id) (mark_delivered now) s (finish_delivery c now seen [] s).1
      refl (λ e. refl)
      (λ i e was hit w.
        subst (λ x. IsWell c (mark_delivered now x)) (read_again seen e i s.events f was hit)
          (record {
            apart = inr alive;
            alive = λ x. (h seen.id seen f).alive alive;
            dead = λ x. absurd (x alive);
            settled = λ x. refl;
          }))
      h
finish_delivery-AllWell c now seen (t ∷ ts) s f live alive h =
    elim (Bool-cases (leb (get_max_attempts c) (suc seen.delivery_attempts))) [
      | inl last ↦
          update-AllWell c (is_event seen.id)
            (mark_dead now (suc seen.delivery_attempts) (slice 2000 (join (t ∷ ts)))) s
            (finish_delivery c now seen (t ∷ ts) s).1 (rw (finish_delivery, last) refl) (λ e. refl)
            (λ i e was hit w.
              subst
                (λ x.
                  IsWell c
                    (mark_dead now (suc seen.delivery_attempts) (slice 2000 (join (t ∷ ts))) x))
                (read_again seen e i s.events f was hit)
                (record {
                  apart = inl live;
                  alive = λ x. absurd (cc x);
                  dead = λ x.
                      last_attempt (get_max_attempts c) seen.delivery_attempts last
                        ((h seen.id seen f).alive alive);
                  settled = λ x. refl;
                }))
            h
      | inr more ↦
          update-AllWell c (is_event seen.id)
            (mark_retry c now (suc seen.delivery_attempts) (slice 2000 (join (t ∷ ts)))) s
            (finish_delivery c now seen (t ∷ ts) s).1 (rw (finish_delivery, more) refl) (λ e. refl)
            (λ i e was hit w.
              subst
                (λ x.
                  IsWell c
                    (mark_retry c now (suc seen.delivery_attempts) (slice 2000 (join (t ∷ ts))) x))
                (read_again seen e i s.events f was hit)
                (record {
                  apart = inl live;
                  alive = λ x. more_attempts (get_max_attempts c) seen.delivery_attempts more;
                  dead = λ x. absurd (x alive);
                  settled = λ x. absurd (ground arith);
                }))
            h
    ]
  where
    last_attempt : (m n : ℕ) → leb m (suc n) ≡ true → n < m → suc n ≡ m
    last_attempt m n h k = ground arith

    more_attempts : (m n : ℕ) → leb m (suc n) ≡ false → suc n < m
    more_attempts m n h = ground arith

deliver_event-AllWell :
    (c : Settings) (fetch : OutboxEvent → Webhook → Option Text) (now id : ℕ) (s : Tables)
    → AllWell c s
    → AllWell c (deliver_event c fetch now id s).1
unfolding deliver_event
deliver_event-AllWell c fetch now id s h = elim (Option-cases (find (is_event id) s.events)) [
  | inl gone ↦ rw (deliver_event, gone) h
  | inr (e, f) ↦ elim (Bool-cases (is_some e.delivered_at || is_some e.dead_lettered_at)) [
    | inl over ↦ rw (deliver_event, f, over) h
    | inr pending ↦
        let p : id ≡ e.id = sym (==→eq e.id id (find_sound (is_event id) s.events e f)) in
        rw (deliver_event, f, pending)
          (finish_delivery-AllWell c now e (failures (fetch e) (webhooks_for s e.payload)) s
            (subst (λ i. find (is_event i) s.events ≡ some e) p f) (ground arith) (ground arith) h)
  ]
]

process_events-AllWell :
    (c : Settings) (fetch : OutboxEvent → Webhook → Option Text) (now : ℕ) (es : List OutboxEvent)
    (s : Tables)
    → AllWell c s
    → AllWell c (process_events c fetch now es s).1
unfolding process_events
process_events-AllWell c fetch now [] s h = h
process_events-AllWell c fetch now (e ∷ es) s h =
    let k = claim-AllWell c now e.id s h in
    elim (Bool-cases (claim c now e.id s).0) [
      | inl taken ↦ rw taken (
          process_events-AllWell c fetch now es
            (deliver_event c fetch now e.id (claim c now e.id s).1).1
            (deliver_event-AllWell c fetch now e.id (claim c now e.id s).1 k))
      | inr not_taken ↦
          rw not_taken (process_events-AllWell c fetch now es (claim c now e.id s).1 k)
    ]

-- Whatever the endpoints answer, `processDueEvents`, run alone, keeps this of all events: none is
-- both delivered and a dead letter, one is a dead letter exactly if its attempts have come to the
-- greatest number (else they are fewer), and neither kind has a next retry.
pub process_due_events-AllWell :
    (c : Settings) (fetch : OutboxEvent → Webhook → Option Text) (now : ℕ) (s : Tables)
    → AllWell c s
    → AllWell c (process_due_events c fetch now s).1
unfolding process_due_events
process_due_events-AllWell c fetch now s =
    process_events-AllWell c fetch now (take (get_batch_size c) (select (is_due now) s.events)) s

-- ===== src/Webhooks/Outcomes.antt =====
-- What a delivery makes of an event, that a settled event stays, and what a late worker can do.
use atlaspm.Base.{
  ℕ, suc, ◌+◌, ◌≤◌, ◌<◌, ◌≡◌, ◌⊎◌, ◌∙◌, ap, refl, inl, inr, Bool, true, false, ◌&&◌, ◌||◌, Option,
  none, some, List, [], ◌∷◌, arith, find, leb, Bool-cases, find-update_where, change_found,
  find_sound, ==_self,
}
use atlaspm.Base.Text.{Text}
use atlaspm.Store.{is_some}
use atlaspm.Webhooks.{
  Settings, Webhook, OutboxEvent, Tables, is_event, is_due, lock, claim, get_max_attempts,
  get_backoff_ms, get_processing_lock_ms, mark_delivered, mark_dead, mark_retry, change_event,
  finish_delivery, deliver_event, failures, webhooks_for, slice, join,
}

abbrev pub IsPending : OutboxEvent → Type 0
IsPending e = (e.delivered_at ≡ none) × (e.dead_lettered_at ≡ none)

-- delivered now, given up now, or to be tried again after the delay
abbrev pub Advanced : Settings → ℕ → OutboxEvent → OutboxEvent → Type 0
Advanced c now e e' =
    ((e'.delivered_at ≡ some now) × (e'.delivery_attempts ≡ e.delivery_attempts))
    ⊎ ((e'.dead_lettered_at ≡ some now) × (e'.delivery_attempts ≡ suc e.delivery_attempts))
    ⊎ (IsPending e'
        × (e'.delivery_attempts ≡ suc e.delivery_attempts)
        × (suc e.delivery_attempts < get_max_attempts c)
        × (e'.next_retry_at ≡ some (now + get_backoff_ms c (suc e.delivery_attempts))))

found_change :
    (id : ℕ) (f : OutboxEvent → OutboxEvent) (s : Tables) (e : OutboxEvent)
    → ((x : OutboxEvent) → (f x).id ≡ x.id)
    → find (is_event id) s.events ≡ some e
    → find (is_event id) (change_event id f s).events ≡ some (f e)
found_change id f s e keeps found =
    let k =
      find-update_where (is_event id) (is_event id) f s.events (λ x. ground (arith, keeps x)) in
    let hit = find_sound (is_event id) s.events e found in
    k ∙ ap (change_found (is_event id) f) found ∙ rw hit refl

finish_delivery-Advanced :
    (c : Settings) (now : ℕ) (e : OutboxEvent) (fs : List Text) (s : Tables)
    → find (is_event e.id) s.events ≡ some e
    → IsPending e
    → (e' : OutboxEvent) × (find (is_event e.id) (finish_delivery c now e fs s).1.events ≡ some e')
      × Advanced c now e e'
unfolding finish_delivery
finish_delivery-Advanced c now e [] s found (live, alive) = (
  mark_delivered now e,
  found_change e.id (mark_delivered now) s e (λ x. refl) found,
  inl (refl, refl),
)
finish_delivery-Advanced c now e (t ∷ ts) s found (live, alive) =
    let n = suc e.delivery_attempts in
    let error = slice 2000 (join (t ∷ ts)) in
    elim (Bool-cases (leb (get_max_attempts c) n)) [
      | inl last ↦ (
        mark_dead now n error e,
        rw (finish_delivery, last)
            (found_change e.id (mark_dead now n error) s e (λ x. refl) found),
        inr (inl (refl, refl)),
      )
      | inr more ↦ (
        mark_retry c now n error e,
        rw (finish_delivery, more)
            (found_change e.id (mark_retry c now n error) s e (λ x. refl) found),
        inr (inr ((live, alive), refl, room (get_max_attempts c) n more, refl)),
      )
    ]
  where
    room : (m n : ℕ) → leb m n ≡ false → n < m
    room m n h = ground arith

-- Whatever the endpoints answer, a delivery settles a pending event, as delivered with the attempts
-- it had or as a dead letter with one more, or counts one more attempt, which is then still below
-- the greatest number, and sets the next retry after the delay of that attempt.
pub deliver_event-Advanced :
    (c : Settings) (fetch : OutboxEvent → Webhook → Option Text) (now : ℕ) (e : OutboxEvent)
    (s : Tables)
    → find (is_event e.id) s.events ≡ some e
    → IsPending e
    → (e' : OutboxEvent) × (find (is_event e.id) (deliver_event c fetch now e.id s).1.events
        ≡ some e')
      × Advanced c now e e'
unfolding deliver_event
deliver_event-Advanced c fetch now e s found (live, alive) =
    let waits : (is_some e.delivered_at || is_some e.dead_lettered_at) ≡ false = ground arith in
    rw (deliver_event, found, waits)
      (finish_delivery-Advanced c now e (failures (fetch e) (webhooks_for s e.payload)) s found
        (live, alive))

-- If another worker has delivered an event since this one read it, and this one's requests then
-- fail at the last attempt, this one's result makes the delivered event a dead letter as well.
pub finish_delivery-stale :
    (c : Settings) (now earlier : ℕ) (seen e : OutboxEvent) (f : Text) (fs : List Text) (s : Tables)
    → find (is_event seen.id) s.events ≡ some e
    → e.delivered_at ≡ some earlier
    → get_max_attempts c ≤ suc seen.delivery_attempts
    → (e' : OutboxEvent) × (find (is_event seen.id) (finish_delivery c now seen (f ∷ fs) s).1.events
        ≡ some e')
      × (e'.delivered_at ≡ some earlier)
      × (e'.dead_lettered_at ≡ some now)
unfolding finish_delivery
finish_delivery-stale c now earlier seen e f fs s found done_ most =
    let n = suc seen.delivery_attempts in
    let error = slice 2000 (join (f ∷ fs)) in
    let last : leb (get_max_attempts c) n ≡ true = last_try (get_max_attempts c) n most in
    (
      mark_dead now n error e,
      rw (finish_delivery, last)
          (found_change seen.id (mark_dead now n error) s e (λ x. refl) found),
      done_,
      refl,
    )
  where
    last_try : (m n : ℕ) → m ≤ n → leb m n ≡ true
    last_try m n h = ground arith

-- A claim is made for the time at which its round began: as soon as the lock's time after that
-- beginning is up, also if the claim itself was made later, a pending event that it locked is due.
claim-lapses :
    (c : Settings) (began clock : ℕ) (e : OutboxEvent) (s : Tables)
    → find (is_event e.id) s.events ≡ some e
    → is_due began e ≡ true
    → (e' : OutboxEvent) × (find (is_event e.id) (claim c began e.id s).1.events ≡ some e')
      × (((began + get_processing_lock_ms c ≤ clock) × (is_due clock e' ≡ true))
          ⊎ ((clock < began + get_processing_lock_ms c) × (is_due clock e' ≡ false)))
unfolding claim
claim-lapses c began clock e s found due =
    let q : OutboxEvent → Bool = λ x. is_event e.id x && is_due began x in
    let k = find-update_where (is_event e.id) q (lock c began) s.events (λ x. refl) in
    let hit : q e ≡ true = ground (arith, ==_self e.id) in
    (
      lock c began e,
      k ∙ ap (change_found q (lock c began)) found ∙ rw hit refl,
      elim (Bool-cases (leb (began + get_processing_lock_ms c) clock)) [
        | inl up ↦ inl (up_lem (began + get_processing_lock_ms c) clock up, ground arith)
        | inr held ↦ inr (held_lem (began + get_processing_lock_ms c) clock held, ground arith)
      ],
    )
  where
    up_lem : (a b : ℕ) → leb a b ≡ true → a ≤ b
    up_lem a b h = ground arith

    held_lem : (a b : ℕ) → leb a b ≡ false → b < a
    held_lem a b h = ground arith

-- ===== src/Approvals/Inbox.antt =====
-- Who has an open request for a task's approval in the inbox, after each change of the inbox.
use atlaspm.Base.{
  ℕ, ◌==◌, ◌≡◌, ◌≢◌, refl, true, false, not, ◌&&◌, none, List, [], ◌∷◌, ◌++◌, arith, inl, inr,
  if◌then◌else◌, find, select, update_where, Bool-cases, Option-cases,
}
use atlaspm.Store.{is_none}
use atlaspm.Approvals.{Notification, State, is_request, same_source, refresh, upsert_notification}

-- the users that the inbox asks for an answer about a task
pub recipients : ℕ → List Notification → List ℕ
recipients t [] = []
recipients t (n ∷ ns) = if is_request t n then n.user_id ∷ recipients t ns else recipients t ns

pub recipients-empty : (t : ℕ) → recipients t [] ≡ []
unfolding recipients
recipients-empty t = refl

pub recipients-drop :
    (t : ℕ) (ns : List Notification) → recipients t (select (λ n. not (is_request t n)) ns) ≡ []
unfolding recipients
recipients-drop t [] = refl
recipients-drop t (n ∷ ns) = ground (arith, recipients-drop t ns)

pub recipients-drop_other :
    (t u : ℕ) (ns : List Notification)
    → u ≢ t
    → recipients u (select (λ n. not (is_request t n)) ns) ≡ recipients u ns
unfolding recipients
recipients-drop_other t u [] ne = refl
recipients-drop_other t u (n ∷ ns) ne = ground (arith, recipients-drop_other t u ns ne)

recipients-refresh :
    (t trigger id : ℕ) (ns : List Notification)
    → recipients t (update_where (λ x. x.id == id) (refresh trigger) ns) ≡ recipients t ns
unfolding recipients
recipients-refresh t trigger id [] = refl
recipients-refresh t trigger id (n ∷ ns) = ground (arith, recipients-refresh t trigger id ns)

recipients-append_other :
    (t : ℕ) (ns : List Notification) (n : Notification)
    → is_request t n ≡ false
    → recipients t (ns ++ n ∷ []) ≡ recipients t ns
unfolding recipients
recipients-append_other t [] n h = ground arith
recipients-append_other t (m ∷ ns) n h = ground (arith, recipients-append_other t ns n h)

recipients-append_first :
    (t : ℕ) (ns : List Notification) (n : Notification)
    → is_request t n ≡ true
    → recipients t ns ≡ []
    → recipients t (ns ++ n ∷ []) ≡ n.user_id ∷ []
unfolding recipients
recipients-append_first t [] n h e = ground arith
recipients-append_first t (m ∷ ns) n h e = ground (arith, recipients-append_first t ns n h)

same_source-is_request :
    (t : ℕ) (n m : Notification)
    → is_request t n ≡ true
    → same_source n m ≡ true
    → is_request t m ≡ true
same_source-is_request t n m h s = ground arith

no_recipients-find :
    (t : ℕ) (n : Notification) (ns : List Notification)
    → is_request t n ≡ true
    → recipients t ns ≡ []
    → find (same_source n) ns ≡ none
unfolding recipients
no_recipients-find t n [] h e = refl
no_recipients-find t n (m ∷ ns) h e = elim (Bool-cases (same_source n m)) [
  | inl same ↦ let r = same_source-is_request t n m h same in absurd (ground arith)
  | inr differs ↦ elim (Bool-cases (is_request t m)) [
    | inl asks ↦ absurd (ground arith)
    | inr quiet ↦ let k = no_recipients-find t n ns h (ground arith) in ground arith
  ]
]

-- A notification that is no request for the task leaves its requests as they are.
pub upsert_notification-recipients :
    (t : ℕ) (n : Notification) (s : State)
    → is_request t n ≡ false
    → recipients t (upsert_notification n s).notifications ≡ recipients t s.notifications
unfolding upsert_notification
upsert_notification-recipients t n s h =
    elim (Option-cases (find (same_source n) s.notifications)) [
      | inl new ↦ rw (upsert_notification, new) (recipients-append_other t s.notifications n h)
      | inr (m, old) ↦
          elim (Bool-cases
            (is_none m.read_at && (m.triggered_by_user_id == n.triggered_by_user_id))) [
              | inl unread ↦ rw (upsert_notification, old, unread) refl
              | inr read ↦
                  rw (upsert_notification, old, read)
                    (recipients-refresh t n.triggered_by_user_id m.id s.notifications)
            ]
    ]

-- A request for a task that has none is the only one then.
pub upsert_notification-request :
    (t : ℕ) (n : Notification) (s : State)
    → is_request t n ≡ true
    → recipients t s.notifications ≡ []
    → recipients t (upsert_notification n s).notifications ≡ n.user_id ∷ []
unfolding upsert_notification
upsert_notification-request t n s h e =
    rw (upsert_notification, no_recipients-find t n s.notifications h e)
      (recipients-append_first t s.notifications n h e)

-- Notifications leave tasks and approvals alone.
pub upsert_notification-keeps :
    (n : Notification) (s : State)
    → ((upsert_notification n s).approvals ≡ s.approvals)
      × ((upsert_notification n s).tasks ≡ s.tasks)
unfolding upsert_notification
upsert_notification-keeps n s = elim (Option-cases (find (same_source n) s.notifications)) [
  | inl new ↦ rw (upsert_notification, new) (refl, refl)
  | inr (m, old) ↦
      elim (Bool-cases (is_none m.read_at && (m.triggered_by_user_id == n.triggered_by_user_id))) [
        | inl unread ↦ rw (upsert_notification, old, unread) (refl, refl)
        | inr read ↦ rw (upsert_notification, old, read) (refl, refl)
      ]
]

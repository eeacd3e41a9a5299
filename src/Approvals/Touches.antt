-- ===== src/Approvals/Touches.antt =====
-- When approvals and inbox match, and how a transaction on one task keeps them so.
use atlaspm.Base.{
  ℕ, ◌==◌, ◌≡◌, ◌≢◌, ◌⊎◌, ◌↔◌, ◌∙◌, sym, subst, refl, false, none, some, [], ◌∷◌, arith, inl, inr,
  find, Bool-cases, Option-cases, ==→eq, ok,
}
use atlaspm.Approvals.{
  Approval, ApprovalTask, Notification, Response, approve, reject, pending, approval_of, State,
  is_request, response_type, finish_task, notify_assignee,
}
use atlaspm.Approvals.Inbox.{recipients, upsert_notification-recipients, upsert_notification-keeps}

-- the inbox asks nobody about the task, or just the approver of a pending approval
abbrev pub InboxMatches : State → ℕ → Type 0
InboxMatches s t =
    (recipients t s.notifications ≡ [])
    ⊎ ((a : Approval) × (u : ℕ) × (approval_of t s ≡ some a)
        × (a.status ≡ pending)
        × (a.approver_user_id ≡ some u)
        × (recipients t s.notifications ≡ u ∷ []))

-- a pending approval has no time of an answer, any other has one
abbrev pub IsTimed : Approval → Type 0
IsTimed a = (a.status ≡ pending) ↔ (a.responded_at ≡ none)

pub record Sound (s : State) : Type 0 where
  pub timed : (t : ℕ) (a : Approval) → approval_of t s ≡ some a → IsTimed a
  pub inbox : (t : ℕ) → InboxMatches s t

-- What a transaction does about one task, and that it leaves the others alone.
pub record Touches (s s' : State) (t : ℕ) : Type 0 where
  pub approvals_of_others : (u : ℕ) → u ≢ t → approval_of u s' ≡ approval_of u s
  pub inbox_of_others :
      (u : ℕ) → u ≢ t → recipients u s'.notifications ≡ recipients u s.notifications

pub Touches-Sound :
    (s s' : State) (t : ℕ)
    → Sound s
    → Touches s s' t
    → ((a : Approval) → approval_of t s' ≡ some a → IsTimed a)
    → InboxMatches s' t
    → Sound s'
Touches-Sound s s' t h k timed inbox = record {
  timed = λ u a f. elim (Bool-cases (u == t)) [
    | inl same ↦ let e = ==→eq u t same in timed a (subst (λ v. approval_of v s' ≡ some a) e f)
    | inr other ↦ h.timed u a (sym (k.approvals_of_others u (ground arith)) ∙ f)
  ];
  inbox = λ u. elim (Bool-cases (u == t)) [
    | inl same ↦ subst (InboxMatches s') (sym (==→eq u t same)) inbox
    | inr other ↦
        let p = k.approvals_of_others u (ground arith) in
        let q = k.inbox_of_others u (ground arith) in
        elim (h.inbox u) [
          | inl none_asked ↦ inl (q ∙ none_asked)
          | inr (a, v, f, st, ap_, r) ↦ inr (a, v, p ∙ f, st, ap_, q ∙ r)
        ]
  ];
}

-- The notification of an answer is no request.
pub notify_assignee-keeps :
    (r : Response) (user id : ℕ) (t : ApprovalTask) (s : State)
    → ((notify_assignee r user id t s).approvals ≡ s.approvals)
      × ((notify_assignee r user id t s).tasks ≡ s.tasks)
      × ((u : ℕ)
          → recipients u (notify_assignee r user id t s).notifications
            ≡ recipients u s.notifications)
notify_assignee-keeps r user id t s = elim (Option-cases t.assignee_user_id) [
  | inl nobody ↦ rw nobody (refl, refl, λ u. refl)
  | inr (v, somebody) ↦
      let n : Notification = record {
        id = id;
        user_id = v;
        project_id = t.project_id;
        task_id = t.id;
        type = response_type r;
        triggered_by_user_id = user;
        read_at = none;
      } in
      let k = upsert_notification-keeps n s in
      rw somebody (k.0, k.1, λ u. upsert_notification-recipients u n s (quiet r u n refl))
]
  where
    quiet :
        (r : Response) (u : ℕ) (n : Notification)
        → n.type ≡ response_type r
        → is_request u n ≡ false
    quiet approve u n e = ground arith
    quiet reject u n e = ground arith

pub finish_task-keeps :
    (r : Response) (now : ℕ) (t : ApprovalTask) (s s' : State)
    → finish_task r now t s ≡ ok s'
    → (s'.approvals ≡ s.approvals) × (s'.notifications ≡ s.notifications)
finish_task-keeps reject now t s s' e = (ground arith, ground arith)
finish_task-keeps approve now t s s' e = elim (Option-cases (find (λ x. x.id == t.id) s.tasks)) [
  | inl gone ↦ absurd (ground arith)
  | inr (x, f) ↦ (ground arith, ground arith)
]

-- ===== src/Approvals/Soundness.antt =====
-- Approvals and the inbox after any sequence of transactions, whatever each of them read before.
use atlaspm.Base.{
  ℕ, ◌≡◌, ◌∙◌, ap, subst, refl, true, not, none, some, List, [], ◌∷◌, ◌++◌, arith, inl, inr, find,
  any, select, update_where, Option, Bool-cases, Option-cases, ok, Result-cases,
}
use atlaspm.Base.Text.{Text}
use atlaspm.Approvals.{
  Approval, ApprovalTask, Response, approve, reject, pending, State, for_task, is_request,
  upsert_approval, new_approval, renew, answer, finish_task, notify_assignee, drop_requests,
  upsert_notification, request_notification, commit_request, commit_response, commit_cancel,
  requested, responded, cancelled,
}
use atlaspm.Approvals.Rows.{
  find-change, find-change_other, find-cancel, find-cancel_other, find-add, find-upsert_other,
  find-any,
}
use atlaspm.Approvals.Inbox.{
  recipients, recipients-empty, recipients-drop, recipients-drop_other,
  upsert_notification-recipients, upsert_notification-request, upsert_notification-keeps,
}
use atlaspm.Approvals.Touches.{
  Sound, IsTimed, Touches-Sound, notify_assignee-keeps, finish_task-keeps,
}

-- the approval that a request leaves
find-upsert :
    (t approver now id : ℕ) (comment : Option Text) (rows : List Approval)
    → (a : Approval) × (find (for_task t) (
          upsert_approval
            (new_approval id t approver now comment)
            (renew approver now comment)
            rows)
        ≡ some a)
      × (a.status ≡ pending)
      × (a.responded_at ≡ none)
      × (a.approver_user_id ≡ some approver)
find-upsert t approver now id comment rows = elim (Bool-cases (any (for_task t) rows)) [
  | inl there ↦
      let (a, f) = find-any t rows there in
      (
        renew approver now comment a,
        rw there (find-change t (renew approver now comment) rows a (λ x. refl) f),
        refl,
        refl,
        refl,
      )
  | inr fresh ↦
      let a = new_approval id t approver now comment in
      (a, rw fresh (find-add a rows fresh), refl, refl, refl)
]

commit_request-Sound :
    (now user approver approval_id notification_id : ℕ) (comment : Option Text) (t : ApprovalTask)
    (before : Option Approval) (s s' : State)
    → Sound s
    → commit_request now user approver approval_id notification_id comment (t, before) s ≡ ok s'
    → Sound s'
unfolding commit_request
commit_request-Sound now user approver approval_id notification_id comment t before s s' h e =
    let (a, f, st, re, who) = find-upsert t.id approver now approval_id comment s.approvals in
    let n = request_notification notification_id approver user t in
    let s1 : State = record s {
      approvals =
          upsert_approval (new_approval approval_id t.id approver now comment)
            (renew approver now comment) s.approvals;
      notifications = select (λ m. not (is_request t.id m)) s.notifications;
      events = s.events ++ requested before a ∷ [];
    } in
    let q : upsert_notification n s1 ≡ s' = ground arith in
    let k = upsert_notification-keeps n s1 in
    let asks : is_request t.id n ≡ true = ground arith in
    subst Sound q (
      Touches-Sound s (upsert_notification n s1) t.id h
        (record {
          approvals_of_others = λ u ne.
              ap (find (for_task u)) k.0
              ∙ find-upsert_other (new_approval approval_id t.id approver now comment)
                  (renew approver now comment) u s.approvals (λ x. refl) ne;
          inbox_of_others = λ u ne.
              upsert_notification-recipients u n s1 (ground arith)
              ∙ recipients-drop_other t.id u s.notifications ne;
        })
        (λ b g. let b_a : a ≡ b = ground (arith, k) in subst IsTimed b_a (ground arith))
        (inr (
          a,
          approver,
          ap (find (for_task t.id)) k.0 ∙ f,
          st,
          who,
          upsert_notification-request t.id n s1 asks (recipients-drop t.id s.notifications),
        )))

commit_response-Sound :
    (r : Response) (now user notification_id : ℕ) (comment : Option Text) (t : ApprovalTask)
    (before : Approval) (s s' : State)
    → Sound s
    → commit_response r now user notification_id comment (t, before) s ≡ ok s'
    → Sound s'
unfolding commit_response
commit_response-Sound r now user notification_id comment t before s s' h e =
    elim (Option-cases (find (for_task t.id) s.approvals)) [
      | inl gone ↦ absurd (ground arith)
      | inr (a, f) ↦
          let s1 : State = record s {
            approvals = update_where (for_task t.id) (answer r now comment) s.approvals;
            events = s.events ++ responded before (answer r now comment a) ∷ [];
          } in
          elim (Result-cases (finish_task r now t s1)) [
            | inr (bad, p) ↦ absurd (ground arith)
            | inl (s2, p) ↦
                let s3 = drop_requests t.id s2 in
                let q : notify_assignee r user notification_id t s3 ≡ s' = ground arith in
                let k = notify_assignee-keeps r user notification_id t s3 in
                let m = finish_task-keeps r now t s1 s2 p in
                let rows = k.0 ∙ m.0 in
                let drop : (u : ℕ)
                    → recipients u (notify_assignee r user notification_id t s3).notifications
                      ≡ recipients u (select (λ x. not (is_request t.id x)) s.notifications) =
                  λ u.
                    k.2 u
                    ∙ ap (λ ns. recipients u (select (λ x. not (is_request t.id x)) ns)) m.1 in
                subst Sound q (
                  Touches-Sound s (notify_assignee r user notification_id t s3) t.id h
                    (record {
                      approvals_of_others = λ u ne.
                          ap (find (for_task u)) rows
                          ∙ find-change_other t.id u (answer r now comment) s.approvals (λ x. refl)
                              ne;
                      inbox_of_others =
                          λ u ne. drop u ∙ recipients-drop_other t.id u s.notifications ne;
                    })
                    (λ b g.
                      let g2 =
                        find-change t.id (answer r now comment) s.approvals a (λ x. refl) f in
                      let b_a : answer r now comment a ≡ b = ground (arith, rows, g2, g) in
                      subst IsTimed b_a (answered r now comment a))
                    (inl (drop t.id ∙ recipients-drop t.id s.notifications)))
          ]
    ]
  where
    answered :
        (r : Response) (now : ℕ) (comment : Option Text) (a : Approval)
        → IsTimed (answer r now comment a)
    answered approve now comment a = ((λ x. absurd (cc x)), (λ x. absurd (cc x)))
    answered reject now comment a = ((λ x. absurd (cc x)), (λ x. absurd (cc x)))

commit_cancel-Sound :
    (t : ApprovalTask) (before : Approval) (s s' : State)
    → Sound s
    → commit_cancel (t, before) s ≡ ok s'
    → Sound s'
unfolding commit_cancel
commit_cancel-Sound t before s s' h e = elim (Option-cases (find (for_task t.id) s.approvals)) [
  | inl gone ↦ absurd (ground arith)
  | inr (a, f) ↦
      let s1 : State = record s {
        approvals = select (λ x. not (for_task t.id x)) s.approvals;
        notifications = select (λ m. not (is_request t.id m)) s.notifications;
        events = s.events ++ cancelled before ∷ [];
      } in
      let q : s1 ≡ s' = ground arith in
      subst Sound q (
        Touches-Sound s s1 t.id h
          (record {
            approvals_of_others = λ u ne. find-cancel_other t.id u s.approvals ne;
            inbox_of_others = λ u ne. recipients-drop_other t.id u s.notifications ne;
          })
          (λ b g. absurd (cc (g, find-cancel t.id s.approvals)))
          (inl (recipients-drop t.id s.notifications)))
]

-- The states that transactions lead to, from tasks without approvals. A transaction may come for
-- whatever task and approval its request has read, at whatever time.
pub data Reached : State → Type 0 where
  start :
      (users : List ℕ) (tasks : List ApprovalTask)
      → Reached
          (record { users = users; tasks = tasks; approvals = []; notifications = []; events = [] })
  asked :
      {s s' : State} (now user approver approval_id notification_id : ℕ) (comment : Option Text)
      (t : ApprovalTask) (before : Option Approval)
      → Reached s
      → commit_request now user approver approval_id notification_id comment (t, before) s ≡ ok s'
      → Reached s'
  answered_by :
      {s s' : State} (r : Response) (now user notification_id : ℕ) (comment : Option Text)
      (t : ApprovalTask) (before : Approval)
      → Reached s
      → commit_response r now user notification_id comment (t, before) s ≡ ok s'
      → Reached s'
  withdrawn :
      {s s' : State} (t : ApprovalTask) (before : Approval)
      → Reached s
      → commit_cancel (t, before) s ≡ ok s'
      → Reached s'

-- After any sequence of the transactions of requestApproval, respondApproval and cancelApproval,
-- also where one comes for an approval that has changed since it was read: an approval is pending
-- exactly if it has no time of an answer, and the inbox asks about a task nobody, or just the
-- approver of its pending approval, once.
pub Reached-Sound : {s : State} → Reached s → Sound s
Reached-Sound (start users tasks) = record {
  timed = λ t a f. absurd (cc f);
  inbox = λ t. inl (recipients-empty t);
}
Reached-Sound (asked {s} {s'} now user approver a_id n_id comment t before h e) =
    commit_request-Sound now user approver a_id n_id comment t before s s' (Reached-Sound h) e
Reached-Sound (answered_by {s} {s'} r now user n_id comment t before h e) =
    commit_response-Sound r now user n_id comment t before s s' (Reached-Sound h) e
Reached-Sound (withdrawn {s} {s'} t before h e) =
    commit_cancel-Sound t before s s' (Reached-Sound h) e

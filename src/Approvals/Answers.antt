-- ===== src/Approvals/Answers.antt =====
-- What an answer does, that it is the last one, and what two answers at once do.
use atlaspm.Base.{
  ℕ, ◌==◌, ◌≡◌, ◌⊎◌, ◌∙◌, sym, ap, subst, refl, true, false, some, List, [], ◌∷◌, ◌++◌, arith, inl,
  inr, find, update_where, Option, Bool-cases, Option-cases, >>=-eq-ok, ok, err, Result-cases,
}
use atlaspm.Base.Text.{Text}
use atlaspm.Store.{has_id_lem, done, has_id}
use atlaspm.Access.{Directory, ProjectMembership, admin, require_project_role}
use atlaspm.Approvals.{
  Approval, ApprovalTask, Response, approve, reject, ApprovalStatus, pending, approved, rejected,
  approval_of, State, for_task, is_live_task, is_pending, answer, complete, finish_task,
  notify_assignee, drop_requests, read_for_response, commit_response, respond_approval, not_pending,
  responded,
}
use atlaspm.Approvals.Rows.{find-change}
use atlaspm.Approvals.Touches.{notify_assignee-keeps, finish_task-keeps}

-- the tasks after an answer
abbrev pub tasks_after : Response → ℕ → ApprovalTask → List ApprovalTask → List ApprovalTask
tasks_after reject now t tasks = tasks
tasks_after approve now t tasks = update_where (λ x. x.id == t.id) (complete now) tasks

finish_task-tasks :
    (r : Response) (now : ℕ) (t : ApprovalTask) (s s' : State)
    → finish_task r now t s ≡ ok s'
    → s'.tasks ≡ tasks_after r now t s.tasks
finish_task-tasks reject now t s s' e = ground arith
finish_task-tasks approve now t s s' e = elim (Option-cases (find (λ x. x.id == t.id) s.tasks)) [
  | inl gone ↦ absurd (ground arith)
  | inr (x, f) ↦ ground arith
]

-- what the transaction of an answer leaves, whatever it has read
pub commit_response-leaves :
    (r : Response) (now user notification_id : ℕ) (comment : Option Text) (t : ApprovalTask)
    (before : Approval) (s s' : State)
    → commit_response r now user notification_id comment (t, before) s ≡ ok s'
    → (a : Approval) × (approval_of t.id s ≡ some a)
      × (approval_of t.id s' ≡ some (answer r now comment a))
      × (s'.tasks ≡ tasks_after r now t s.tasks)
unfolding commit_response
commit_response-leaves r now user notification_id comment t before s s' e =
    elim (Option-cases (find (for_task t.id) s.approvals)) [
      | inl gone ↦ absurd (ground arith)
      | inr (a, f) ↦
          let s1 : State = record s {
            approvals = update_where (for_task t.id) (answer r now comment) s.approvals;
            events = s.events ++ responded before (answer r now comment a) ∷ [];
          } in
          elim (Result-cases (finish_task r now t s1)) [
            | inr (bad, p) ↦ absurd (ground arith)
            | inl (s2, p) ↦
                let s3 = drop_requests t.id s2 in
                let q : notify_assignee r user notification_id t s3 ≡ s' = ground arith in
                let k = notify_assignee-keeps r user notification_id t s3 in
                let m = finish_task-keeps r now t s1 s2 p in
                (
                  a,
                  f,
                  ap (approval_of t.id) (sym q)
                      ∙ ap (find (for_task t.id)) (k.0 ∙ m.0)
                      ∙ find-change t.id (answer r now comment) s.approvals a (λ x. refl) f,
                  ap (λ x. x.tasks) (sym q) ∙ k.1 ∙ finish_task-tasks r now t s1 s2 p,
                )
          ]
    ]

find_live-id :
    (id : ℕ) (ts : List ApprovalTask) (t : ApprovalTask)
    → find (is_live_task id) ts ≡ some t
    → t.id ≡ id
find_live-id id [] t f = absurd (cc f)
find_live-id id (x ∷ ts) t f = ground (arith, find_live-id id ts t)

find_live-complete :
    (id now : ℕ) (ts : List ApprovalTask) (t : ApprovalTask)
    → find (is_live_task id) ts ≡ some t
    → find (is_live_task id) (update_where (λ x. x.id == id) (complete now) ts)
      ≡ some (complete now t)
find_live-complete id now [] t f = absurd (cc f)
find_live-complete id now (x ∷ ts) t f = ground (arith, find_live-complete id now ts t)

-- the task after an answer
abbrev pub task_after : Response → ℕ → ApprovalTask → ApprovalTask
task_after reject now t = t
task_after approve now t = complete now t

find_live-after :
    (r : Response) (id now : ℕ) (ts : List ApprovalTask) (t : ApprovalTask)
    → find (is_live_task id) ts ≡ some t
    → find (is_live_task id) (tasks_after r now t ts) ≡ some (task_after r now t)
find_live-after reject id now ts t f = f
find_live-after approve id now ts t f =
    let p = find_live-id id ts t f in
    subst
      (λ i.
        find (is_live_task id) (update_where (λ x. x.id == i) (complete now) ts)
        ≡ some (complete now t))
      (sym p) (find_live-complete id now ts t f)

-- the approval of a live task is pending, and the user is its approver or an admin
abbrev pub MayAnswer : Directory → (now user task_id : ℕ) → State → ApprovalTask → Approval → Type 0
MayAnswer d now user task_id s t a =
    (find (is_live_task task_id) s.tasks ≡ some t)
    × (approval_of task_id s ≡ some a)
    × (a.status ≡ pending)
    × ((a.approver_user_id ≡ some user)
        ⊎ ((m : ProjectMembership) × (require_project_role d now t.project_id user admin ≡ ok m)))

is_pending_lem : (x : ApprovalStatus) → is_pending x ≡ true → x ≡ pending
is_pending_lem pending h = refl
is_pending_lem approved h = absurd (cc h)
is_pending_lem rejected h = absurd (cc h)

read_for_response-MayAnswer :
    (d : Directory) (now user task_id : ℕ) (s : State) (t : ApprovalTask) (a : Approval)
    → read_for_response d now user task_id s ≡ ok (t, a)
    → MayAnswer d now user task_id s t a
unfolding read_for_response
read_for_response-MayAnswer d now user task_id s t a e =
    elim (Option-cases (find (is_live_task task_id) s.tasks)) [
      | inl none_there ↦ absurd (ground arith)
      | inr (t2, f) ↦ elim (Option-cases (approval_of task_id s)) [
        | inl nothing ↦ absurd (ground arith)
        | inr (b, g) ↦ elim (Bool-cases (is_pending b.status)) [
          | inr late ↦ absurd (ground arith)
          | inl waits ↦
              let pend = is_pending_lem b.status waits in
              elim (Bool-cases (has_id user b.approver_user_id)) [
                | inl named ↦
                    moved t2 b (f, g, pend, inl (has_id_lem user b.approver_user_id named))
                      (ground arith) (ground arith)
                | inr other ↦
                    elim (Result-cases (require_project_role d now t2.project_id user admin)) [
                      | inr (bad, p) ↦ absurd (ground arith)
                      | inl (m, p) ↦
                          moved t2 b (f, g, pend, inr (m, p)) (ground arith) (ground arith)
                    ]
              ]
        ]
      ]
    ]
  where
    moved :
        (t2 : ApprovalTask) (b : Approval)
        → MayAnswer d now user task_id s t2 b
        → t2 ≡ t
        → b ≡ a
        → MayAnswer d now user task_id s t a
    moved t2 b h p q =
        subst (λ y. MayAnswer d now user task_id s t y) q
          (subst (λ x. MayAnswer d now user task_id s x b) p h)

-- What a `respondApproval` that succeeds has read and leaves, in the terms of the code.
pub respond_approval-leaves :
    (d : Directory) (r : Response) (now user task_id notification_id : ℕ) (comment : Option Text)
    (s s' : State)
    → respond_approval d r now user task_id notification_id comment s ≡ ok s'
    → (t : ApprovalTask) × (a : Approval) × MayAnswer d now user task_id s t a
      × (approval_of task_id s' ≡ some (answer r now comment a))
      × (s'.tasks ≡ tasks_after r now t s.tasks)
      × (find (is_live_task task_id) s'.tasks ≡ some (task_after r now t))
unfolding respond_approval
respond_approval-leaves d r now user task_id n comment s s' e =
    let ((t, a), p, q) =
      >>=-eq-ok (λ seen. commit_response r now user n comment seen s)
        (read_for_response d now user task_id s) e in
    let may = read_for_response-MayAnswer d now user task_id s t a p in
    let (b, f, g, k) = commit_response-leaves r now user n comment t a s s' q in
    let i = find_live-id task_id s.tasks t may.0 in
    let same : b ≡ a = ground (arith, subst (λ j. approval_of j s ≡ some b) i f) in
    (
      t,
      a,
      may,
      subst (λ x. approval_of task_id s' ≡ some (answer r now comment x)) same
          (subst (λ j. approval_of j s' ≡ some (answer r now comment b)) i g),
      k,
      ap (find (is_live_task task_id)) k ∙ find_live-after r task_id now s.tasks t may.0,
    )

-- After a `respondApproval` that succeeded, any other answer about the task is refused as an answer
-- to no pending request.
pub respond_twice :
    (d d2 : Directory) (r r2 : Response) (now now2 user user2 task_id n n2 : ℕ)
    (comment c2 : Option Text) (s s' : State)
    → respond_approval d r now user task_id n comment s ≡ ok s'
    → respond_approval d2 r2 now2 user2 task_id n2 c2 s' ≡ err not_pending
unfolding respond_approval read_for_response
respond_twice d d2 r r2 now now2 user user2 task_id n n2 comment c2 s s' e =
    let (t, a, may, g, k, f) = respond_approval-leaves d r now user task_id n comment s s' e in
    let closed = answered r now comment a in rw (f, g, closed) refl
  where
    answered :
        (r : Response) (now : ℕ) (comment : Option Text) (a : Approval)
        → is_pending (answer r now comment a).status ≡ false
    answered approve now comment a = refl
    answered reject now comment a = refl

-- Two requests may both read the same pending approval. If one approves and then the other rejects,
-- and both transactions succeed, the approval ends as rejected while the task is DONE.
pub reject-after_approve :
    (now now2 user user2 task_id n n2 : ℕ) (comment c2 : Option Text) (t : ApprovalTask)
    (a : Approval) (s s1 s2 : State)
    → find (is_live_task task_id) s.tasks ≡ some t
    → commit_response approve now user n comment (t, a) s ≡ ok s1
    → commit_response reject now2 user2 n2 c2 (t, a) s1 ≡ ok s2
    → ((b : Approval) × (approval_of task_id s2 ≡ some b) × (b.status ≡ rejected))
      × ((u : ApprovalTask) × (find (is_live_task task_id) s2.tasks ≡ some u) × (u.status ≡ done))
reject-after_approve now now2 user user2 task_id n n2 comment c2 t a s s1 s2 f e1 e2 =
    let (b1, f1, g1, k1) = commit_response-leaves approve now user n comment t a s s1 e1 in
    let (b2, f2, g2, k2) = commit_response-leaves reject now2 user2 n2 c2 t a s1 s2 e2 in
    let i = find_live-id task_id s.tasks t f in
    (
      (
        answer reject now2 c2 b2,
        subst (λ j. approval_of j s2 ≡ some (answer reject now2 c2 b2)) i g2,
        refl,
      ),
      (
        complete now t,
        ap (find (is_live_task task_id)) (k2 ∙ k1)
            ∙ find_live-after approve task_id now s.tasks t f,
        refl,
      ),
    )

-- ===== src/Approvals/Answered.antt =====
-- What an answer changes, in terms of the rows and their columns.
use atlaspm.Base.{
  ℕ, ◌==◌, ◌≡◌, ◌≢◌, ◌⊎◌, sym, subst, refl, none, some, List, [], ◌∷◌, arith, inl, inr, find,
  update_where, Option, Bool-cases, ==→eq, ok, In,
}
use atlaspm.Base.Text.{Text, trim_or_null}
use atlaspm.Store.{is_none_lem, done}
use atlaspm.Access.{
  Directory, ProjectRole, viewer, member, ProjectMembership, admin, require_project_role,
}
use atlaspm.Access.Entitled.{Entitled, AtLeast, admin_admin}
use atlaspm.Access.Roles.{require_project_role-Entitled}
use atlaspm.Approvals.{
  Approval, ApprovalTask, Response, approve, reject, ApprovalStatus, pending, approved, rejected,
  State, for_task, is_live_task, complete, answer, respond_approval,
}
use atlaspm.Approvals.Answers.{tasks_after, respond_approval-leaves}

abbrev pub verdict : Response → ApprovalStatus
verdict approve = approved
verdict reject = rejected

-- the comment without its outer white space, or none if nothing is left
abbrev pub words : Option Text → Option Text
words none = none
words (some text) = trim_or_null text

-- the approval `b` is the approval `a` with an answer
pub record IsAnswer (r : Response) (now : ℕ) (comment : Option Text) (a b : Approval) : Type 0 where
  pub status : b.status ≡ verdict r
  pub comment_kept : b.comment ≡ words comment
  pub responded_at : b.responded_at ≡ some now
  pub id : b.id ≡ a.id
  pub task_id : b.task_id ≡ a.task_id
  pub approver_user_id : b.approver_user_id ≡ a.approver_user_id
  pub requested_at : b.requested_at ≡ a.requested_at

-- the task `u` is the task `t`, done
pub record IsCompletion (now : ℕ) (t u : ApprovalTask) : Type 0 where
  pub status : u.status ≡ done
  pub completed_at : u.completed_at ≡ some now
  pub progress_percent : u.progress_percent ≡ t.progress_percent
  pub version : u.version ≡ t.version
  pub id : u.id ≡ t.id
  pub project_id : u.project_id ≡ t.project_id
  pub type : u.type ≡ t.type
  pub deleted_at : u.deleted_at ≡ t.deleted_at
  pub assignee_user_id : u.assignee_user_id ≡ t.assignee_user_id

-- the task of that id is done, and every other task is as it was
abbrev pub OneDone : (now id : ℕ) → List ApprovalTask → List ApprovalTask → Type 0
OneDone now id [] [] = Unit {0}
OneDone now id [] (u ∷ us) = ⊥
OneDone now id (t ∷ ts) [] = ⊥
OneDone now id (t ∷ ts) (u ∷ us) =
    (t.id ≡ id → IsCompletion now t u) × (t.id ≢ id → u ≡ t) × OneDone now id ts us

abbrev pub TasksAfter : Response → (now id : ℕ) → (before after : List ApprovalTask) → Type 0
TasksAfter approve now id before after = OneDone now id before after
TasksAfter reject now id before after = after ≡ before

-- what an answer that succeeds has found and leaves
pub record IsAnswered (d : Directory) (r : Response) (now user task_id : ℕ) (comment : Option Text)
    (s s' : State) : Type 0 where
  pub asked : ApprovalTask
  pub asked_row : In asked s.tasks
  pub asked_id : asked.id ≡ task_id
  pub asked_live : asked.deleted_at ≡ none
  pub before : Approval
  pub before_row : In before s.approvals
  pub before_task : before.task_id ≡ task_id
  pub before_pending : before.status ≡ pending
  pub allowed : (before.approver_user_id ≡ some user) ⊎ Entitled d now asked.project_id user admin
  pub after : Approval
  pub after_row : In after s'.approvals
  pub after_answer : IsAnswer r now comment before after
  pub tasks : TasksAfter r now task_id s.tasks s'.tasks

answer-IsAnswer :
    (r : Response) (now : ℕ) (comment : Option Text) (a : Approval)
    → IsAnswer r now comment a (answer r now comment a)
answer-IsAnswer r now comment a = record {
  status = status_lem r;
  comment_kept = comment_lem comment;
  responded_at = refl;
  id = refl;
  task_id = refl;
  approver_user_id = refl;
  requested_at = refl;
}
  where
    status_lem : (r : Response) → (answer r now comment a).status ≡ verdict r
    status_lem approve = refl
    status_lem reject = refl

    comment_lem : (c : Option Text) → (answer r now c a).comment ≡ words c
    comment_lem none = refl
    comment_lem (some text) = refl

complete-OneDone :
    (now id : ℕ) (ts : List ApprovalTask)
    → OneDone now id ts (update_where (λ x. x.id == id) (complete now) ts)
complete-OneDone now id [] = tt
complete-OneDone now id (t ∷ ts) = elim (Bool-cases (t.id == id)) [
  | inl hit ↦ rw hit (
    (λ e. record {
      status = refl;
      completed_at = refl;
      progress_percent = refl;
      version = refl;
      id = refl;
      project_id = refl;
      type = refl;
      deleted_at = refl;
      assignee_user_id = refl;
    }),
    (λ n. absurd (n (==→eq t.id id hit))),
    complete-OneDone now id ts,
  )
  | inr miss ↦ rw miss ((λ e. absurd (ground (arith, e))), (λ n. refl), complete-OneDone now id ts)
]

tasks_after-TasksAfter :
    (r : Response) (now : ℕ) (t : ApprovalTask) (ts : List ApprovalTask)
    → TasksAfter r now t.id ts (tasks_after r now t ts)
tasks_after-TasksAfter approve now t ts = complete-OneDone now t.id ts
tasks_after-TasksAfter reject now t ts = refl

find_live-row :
    (id : ℕ) (ts : List ApprovalTask) (t : ApprovalTask)
    → find (is_live_task id) ts ≡ some t
    → In t ts × (t.id ≡ id) × (t.deleted_at ≡ none)
find_live-row id [] t f = absurd (cc f)
find_live-row id (x ∷ ts) t f = elim (Bool-cases (is_live_task id x)) [
  | inl hit ↦
      let k : x ≡ t = ground arith in
      (
        inl k,
        subst (λ y. y.id ≡ id) k (==→eq x.id id (ground arith)),
        subst (λ y. y.deleted_at ≡ none) k (is_none_lem x.deleted_at (ground arith)),
      )
  | inr miss ↦ let (i, a, b) = find_live-row id ts t (ground arith) in (inr i, a, b)
]

find-approval_row :
    (id : ℕ) (rows : List Approval) (a : Approval)
    → find (for_task id) rows ≡ some a
    → In a rows × (a.task_id ≡ id)
find-approval_row id [] a f = absurd (cc f)
find-approval_row id (x ∷ rows) a f = elim (Bool-cases (for_task id x)) [
  | inl hit ↦
      let k : x ≡ a = ground arith in
      (inl k, subst (λ y. y.task_id ≡ id) k (==→eq x.task_id id (ground arith)))
  | inr miss ↦ let (i, e) = find-approval_row id rows a (ground arith) in (inr i, e)
]

only_admin : (role : ProjectRole) → AtLeast admin role → role ≡ admin
only_admin admin admin_admin = refl
only_admin viewer h = elim h [ ]
only_admin member h = elim h [ ]

-- Who passes as an admin has that role.
passed-Entitled :
    (d : Directory) (now p u : ℕ) (m : ProjectMembership)
    → require_project_role d now p u admin ≡ ok m
    → Entitled d now p u admin
passed-Entitled d now p u m e =
    let (h, least) = require_project_role-Entitled d now p u admin m e in
    subst (Entitled d now p u) (only_admin m.role least) h

-- When `respondApproval` succeeds, with nothing between its reading and its transaction: there was a
-- live task of that id with a pending approval, whose named approver the user is unless the user has
-- the role of an admin in the project; the table holds that approval as approved or rejected, as the
-- answer says, with the trimmed comment and the time of the answer, its other columns kept; an
-- approval completes the task of that id (its version and its progress stay as they were) and no
-- other, and a rejection changes no task.
pub respond_approval-IsAnswered :
    (d : Directory) (r : Response) (now user task_id notification_id : ℕ) (comment : Option Text)
    (s s' : State)
    → respond_approval d r now user task_id notification_id comment s ≡ ok s'
    → IsAnswered d r now user task_id comment s s'
respond_approval-IsAnswered d r now user task_id n comment s s' e =
    let (t, a, may, g, k, f) = respond_approval-leaves d r now user task_id n comment s s' e in
    let (t_row, t_id, t_live) = find_live-row task_id s.tasks t may.0 in
    let (a_row, a_task) = find-approval_row task_id s.approvals a may.1 in
    let (b_row, b_task) = find-approval_row task_id s'.approvals (answer r now comment a) g in
    record {
      asked = t;
      asked_row = t_row;
      asked_id = t_id;
      asked_live = t_live;
      before = a;
      before_row = a_row;
      before_task = a_task;
      before_pending = may.2;
      allowed = elim may.3 [
        | inl named ↦ inl named
        | inr (m, p) ↦ inr (passed-Entitled d now t.project_id user m p)
      ];
      after = answer r now comment a;
      after_row = b_row;
      after_answer = answer-IsAnswer r now comment a;
      tasks =
          subst (λ ts. TasksAfter r now task_id s.tasks ts) (sym k)
            (subst (λ i. TasksAfter r now i s.tasks (tasks_after r now t s.tasks)) t_id
              (tasks_after-TasksAfter r now t s.tasks));
    }

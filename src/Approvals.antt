-- ===== src/Approvals.antt =====
-- TaskApprovalController (apps/core-api/src/task-approvals/task-approval.controller.ts) with the
-- inbox notifications that it keeps (upsertNotification of notifications/notifications.service.ts).
-- Each operation reads before its transaction starts, so each is a reading and a commit. An audit
-- event and its outbox event are one `Event`; their actor and correlation id are the request's.
pub mod Inbox
pub mod Rows
pub mod Touches
pub mod Soundness
pub mod Answers
pub mod Answered
pub mod Examples
use atlaspm.Base.{
  ℕ, ◌==◌, Bool, true, false, not, ◌&&◌, Option, none, some, List, [], ◌∷◌, ◌++◌, if◌then◌else◌,
  find, select, any, mem, update_where, Result, ok, err, ◌>>=◌, ◌>>◌, refuse, or_fail,
}
use atlaspm.Base.Text.{Text, trim_or_null}
use atlaspm.Store.{TaskStatus, done, TaskType, approval, is_none, has_id}
use atlaspm.Access.{
  Directory, ProjectRole, ProjectMembership, AccessError, viewer, member, admin,
  require_project_role,
}

-- the columns of a task that approvals read or write
pub record ApprovalTask : Type 0 where
  pub id : ℕ
  pub project_id : ℕ
  pub type : TaskType
  pub status : TaskStatus
  pub progress_percent : ℕ
  pub completed_at : Option ℕ
  pub deleted_at : Option ℕ
  pub assignee_user_id : Option ℕ
  pub version : ℕ

pub data ApprovalStatus : Type 0 where
  pending approved rejected : ApprovalStatus

-- the `status` of a RespondApprovalDto
pub data Response : Type 0 where
  approve reject : Response

abbrev pub status_of : Response → ApprovalStatus
status_of approve = approved
status_of reject = rejected

pub record Approval : Type 0 where
  pub id : ℕ
  pub task_id : ℕ
  pub status : ApprovalStatus
  pub approver_user_id : Option ℕ
  pub comment : Option Text
  pub requested_at : ℕ
  pub responded_at : Option ℕ

-- the types of inbox notifications whose source is a task's approval
pub data NotificationType : Type 0 where
  approval_requested approval_approved approval_rejected : NotificationType

-- a notification of such a type: its sourceType is 'task' and its sourceId is the task
pub record Notification : Type 0 where
  pub id : ℕ
  pub user_id : ℕ
  pub project_id : ℕ
  pub task_id : ℕ
  pub type : NotificationType
  pub triggered_by_user_id : ℕ
  pub read_at : Option ℕ

pub data Event : Type 0 where
  requested : Option Approval → Approval → Event
  responded : Approval → Approval → Event
  task_completed : ApprovalTask → ApprovalTask → Event
  cancelled : Approval → Event
  notification_created : Notification → Event
  notification_reopened : Notification → Notification → Event

pub record State : Type 0 where
  pub users : List ℕ
  pub tasks : List ApprovalTask
  pub approvals : List Approval
  pub notifications : List Notification
  pub events : List Event

pub data ApprovalError : Type 0 where
  task_not_found not_an_approval already_pending approver_not_found : ApprovalError
  no_request not_pending : ApprovalError
  denied : AccessError → ApprovalError
  -- P2025: the row that an update or a delete names is gone
  record_gone : ApprovalError

abbrev pub authorize :
    Directory → (now project_id user_id : ℕ) → ProjectRole → Result ApprovalError ProjectMembership
authorize d now p u least = elim (require_project_role d now p u least) [
  | ok m ↦ ok m
  | err e ↦ err (denied e)
]

abbrev pub is_live_task : ℕ → ApprovalTask → Bool
is_live_task id t = (t.id == id) && is_none t.deleted_at

-- the unique key of an approval
abbrev pub for_task : ℕ → Approval → Bool
for_task t a = a.task_id == t

abbrev pub is_approval_type : TaskType → Bool
is_approval_type approval = true
is_approval_type _ = false

abbrev pub is_pending : ApprovalStatus → Bool
is_pending pending = true
is_pending _ = false

abbrev pub is_pending_request : Option Approval → Bool
is_pending_request none = false
is_pending_request (some a) = is_pending a.status

abbrev pub same_type : NotificationType → NotificationType → Bool
same_type approval_requested approval_requested = true
same_type approval_approved approval_approved = true
same_type approval_rejected approval_rejected = true
same_type _ _ = false

-- `body.comment?.trim() || null`
abbrev pub trimmed : Option Text → Option Text
trimmed none = none
trimmed (some text) = trim_or_null text

-- `inboxNotification.deleteMany` of all three operations
abbrev pub is_request : ℕ → Notification → Bool
is_request t n = (n.task_id == t) && same_type n.type approval_requested

abbrev pub drop_requests : ℕ → State → State
drop_requests t s = record s { notifications = select (λ n. not (is_request t n)) s.notifications }

-- the unique key `userId_projectId_type_sourceType_sourceId`
abbrev pub same_source : Notification → Notification → Bool
same_source n m =
    (m.user_id == n.user_id)
    && ((m.project_id == n.project_id) && (same_type m.type n.type && (m.task_id == n.task_id)))

abbrev pub refresh : ℕ → Notification → Notification
refresh trigger m = record m { triggered_by_user_id = trigger; read_at = none }

-- upsertNotification; `n` is the row that it would create
pub upsert_notification : Notification → State → State
upsert_notification n s = elim (find (same_source n) s.notifications) [
  | none ↦ record s {
    notifications = s.notifications ++ n ∷ [];
    events = s.events ++ notification_created n ∷ [];
  }
  | some m ↦
      if is_none m.read_at && (m.triggered_by_user_id == n.triggered_by_user_id)
      then s
      else (record s {
        notifications =
            update_where (λ x. x.id == m.id) (refresh n.triggered_by_user_id) s.notifications;
        events = s.events ++ notification_reopened m (refresh n.triggered_by_user_id m) ∷ [];
      })
]

-- `taskApproval.upsert({ where: { taskId } })`
abbrev pub upsert_approval : Approval → (Approval → Approval) → List Approval → List Approval
upsert_approval a change rows =
    if any (for_task a.task_id) rows
    then update_where (for_task a.task_id) change rows
    else rows ++ a ∷ []

-- `include: { approval: true }`
abbrev pub approval_of : ℕ → State → Option Approval
approval_of t s = find (for_task t) s.approvals

-- getApproval
pub get_approval :
    Directory → (now user task_id : ℕ) → State → Result ApprovalError (Option Approval)
get_approval d now user task_id s = do
  t ← or_fail (find (is_live_task task_id) s.tasks) task_not_found
  authorize d now t.project_id user viewer
  ok (approval_of task_id s)

-- the reading of requestApproval
pub read_for_request :
    Directory
    → (now user task_id approver : ℕ) → State
    → Result ApprovalError (ApprovalTask × Option Approval)
read_for_request d now user task_id approver s = do
  t ← or_fail (find (is_live_task task_id) s.tasks) task_not_found
  refuse (not (is_approval_type t.type)) not_an_approval
  authorize d now t.project_id user member
  refuse (is_pending_request (approval_of task_id s)) already_pending
  refuse (not (mem approver s.users)) approver_not_found
  ok (t, approval_of task_id s)

-- the notification that a request creates, under the new id `id`
abbrev pub request_notification : (id approver user : ℕ) → ApprovalTask → Notification
request_notification id approver user t = record {
  id = id;
  user_id = approver;
  project_id = t.project_id;
  task_id = t.id;
  type = approval_requested;
  triggered_by_user_id = user;
  read_at = none;
}

-- the row that the upsert of requestApproval creates
abbrev pub new_approval : (id task_id approver now : ℕ) → Option Text → Approval
new_approval id task_id approver now comment = record {
  id = id;
  task_id = task_id;
  status = pending;
  approver_user_id = some approver;
  comment = trimmed comment;
  requested_at = now;
  responded_at = none;
}

-- the change that it makes to an old row
abbrev pub renew : (approver now : ℕ) → Option Text → Approval → Approval
renew approver now comment a = record a {
  status = pending;
  approver_user_id = some approver;
  comment = trimmed comment;
  requested_at = now;
  responded_at = none;
}

-- the transaction of requestApproval, for the task and the approval as they were read; the ids of
-- the rows that it may create come from the database
pub commit_request :
    (now user approver approval_id notification_id : ℕ)
    → Option Text
    → ApprovalTask × Option Approval
    → State
    → Result ApprovalError State
commit_request now user approver approval_id notification_id comment (t, before) s = do
  let rows =
      upsert_approval (new_approval approval_id t.id approver now comment)
        (renew approver now comment) s.approvals
  a ← or_fail (find (for_task t.id) rows) record_gone
  let asked = record s { approvals = rows; events = s.events ++ requested before a ∷ [] }
  ok (
      upsert_notification (request_notification notification_id approver user t)
        (drop_requests t.id asked))

-- requestApproval, when nothing comes between its reading and its transaction
pub request_approval :
    Directory
    → (now user task_id approver approval_id notification_id : ℕ) → Option Text
    → State
    → Result ApprovalError State
request_approval d now user task_id approver approval_id notification_id comment s = do
  seen ← read_for_request d now user task_id approver s
  commit_request now user approver approval_id notification_id comment seen s

-- `if (task.approval.approverUserId !== req.user.sub) { … }`
abbrev pub may_respond :
    Directory → (now user : ℕ) → ApprovalTask → Approval → Result ApprovalError (Unit {0})
may_respond d now user t a = elim (has_id user a.approver_user_id) [
  | true ↦ ok tt
  | false ↦ elim (require_project_role d now t.project_id user admin) [
    | ok m ↦ ok tt
    | err e ↦ err (denied e)
  ]
]

-- the reading of respondApproval: the named approver may answer, and so may an admin
pub read_for_response :
    Directory → (now user task_id : ℕ) → State → Result ApprovalError (ApprovalTask × Approval)
read_for_response d now user task_id s = do
  t ← or_fail (find (is_live_task task_id) s.tasks) task_not_found
  a ← or_fail (approval_of task_id s) no_request
  refuse (not (is_pending a.status)) not_pending
  may_respond d now user t a
  ok (t, a)

abbrev pub answer : Response → (now : ℕ) → Option Text → Approval → Approval
answer r now comment a = record a {
  status = status_of r;
  comment = trimmed comment;
  responded_at = some now;
}

-- `data: { status: DONE, completedAt: new Date() }`
abbrev pub complete : ℕ → ApprovalTask → ApprovalTask
complete now t = record t { status = done; completed_at = some now }

-- `if (body.status === 'APPROVED') { … }`
abbrev pub finish_task : Response → (now : ℕ) → ApprovalTask → State → Result ApprovalError State
finish_task reject now seen s = ok s
finish_task approve now seen s = do
  t ← or_fail (find (λ x. x.id == seen.id) s.tasks) record_gone
  ok (record s {
    tasks = update_where (λ x. x.id == seen.id) (complete now) s.tasks;
    events = s.events ++ task_completed seen (complete now t) ∷ [];
  })

abbrev pub response_type : Response → NotificationType
response_type approve = approval_approved
response_type reject = approval_rejected

-- createApprovalResponseNotification for the assignee, if there is one
abbrev pub notify_assignee : Response → (user id : ℕ) → ApprovalTask → State → State
notify_assignee r user id t s = elim t.assignee_user_id [
  | none ↦ s
  | some assignee ↦
      upsert_notification
        (record {
          id = id;
          user_id = assignee;
          project_id = t.project_id;
          task_id = t.id;
          type = response_type r;
          triggered_by_user_id = user;
          read_at = none;
        })
        s
]

-- the transaction of respondApproval, for the task and the approval as they were read
pub commit_response :
    Response
    → (now user notification_id : ℕ) → Option Text
    → ApprovalTask × Approval
    → State
    → Result ApprovalError State
commit_response r now user notification_id comment (t, before) s = do
  a ← or_fail (find (for_task t.id) s.approvals) record_gone
  finished ← finish_task r now t (record s {
    approvals = update_where (for_task t.id) (answer r now comment) s.approvals;
    events = s.events ++ responded before (answer r now comment a) ∷ [];
  })
  ok (notify_assignee r user notification_id t (drop_requests t.id finished))

-- respondApproval, when nothing comes between its reading and its transaction
pub respond_approval :
    Directory
    → Response
    → (now user task_id notification_id : ℕ) → Option Text
    → State
    → Result ApprovalError State
respond_approval d r now user task_id notification_id comment s = do
  seen ← read_for_response d now user task_id s
  commit_response r now user notification_id comment seen s

-- the reading of cancelApproval
pub read_for_cancel :
    Directory → (now user task_id : ℕ) → State → Result ApprovalError (ApprovalTask × Approval)
read_for_cancel d now user task_id s = do
  t ← or_fail (find (is_live_task task_id) s.tasks) task_not_found
  a ← or_fail (approval_of task_id s) no_request
  authorize d now t.project_id user member
  ok (t, a)

-- the transaction of cancelApproval
pub commit_cancel : ApprovalTask × Approval → State → Result ApprovalError State
commit_cancel (t, before) s = do
  a ← or_fail (find (for_task t.id) s.approvals) record_gone
  ok (
      drop_requests t.id (record s {
        approvals = select (λ x. not (for_task t.id x)) s.approvals;
        events = s.events ++ cancelled before ∷ [];
      }))

-- cancelApproval, when nothing comes between its reading and its transaction
pub cancel_approval : Directory → (now user task_id : ℕ) → State → Result ApprovalError State
cancel_approval d now user task_id s = do
  seen ← read_for_cancel d now user task_id s
  commit_cancel seen s

-- ===== src/Approvals/Examples.antt =====
-- The theorems at a task whose approval is requested from its requester.
use atlaspm.Base.{◌≡◌, refl, find, none, some, [], ◌∷◌, ok, err}
use atlaspm.Store.{todo, done, approval}
use atlaspm.Access.{require_project_role}
use atlaspm.Access.Examples.{directory}
use atlaspm.Approvals.{
  ApprovalTask, Approval, Notification, State, approve, reject, pending, approved, rejected,
  approval_of, approval_requested, requested, responded, task_completed, notification_created,
  commit_request, commit_response, respond_approval, read_for_response, request_approval,
  read_for_request, upsert_notification, is_live_task, not_pending,
}
use atlaspm.Approvals.Touches.{Sound}
use atlaspm.Approvals.Soundness.{start, asked, answered_by, Reached-Sound}
use atlaspm.Approvals.Answered.{IsAnswered, respond_approval-IsAnswered}
use atlaspm.Approvals.Answers.{respond_twice, reject-after_approve}

abbrev review : ApprovalTask
review = record {
  id = 10;
  project_id = 7;
  type = approval;
  status = todo;
  progress_percent = 0;
  completed_at = none;
  deleted_at = none;
  assignee_user_id = none;
  version = 1;
}

abbrev open_request : Approval
open_request = record {
  id = 80;
  task_id = 10;
  status = pending;
  approver_user_id = some 1;
  comment = none;
  requested_at = 20;
  responded_at = none;
}

abbrev note : Notification
note = record {
  id = 90;
  user_id = 1;
  project_id = 7;
  task_id = 10;
  type = approval_requested;
  triggered_by_user_id = 1;
  read_at = none;
}

abbrev before_request : State
before_request = record {
  users = 1 ∷ [];
  tasks = review ∷ [];
  approvals = [];
  notifications = [];
  events = [];
}

abbrev waiting : State
waiting = record before_request {
  approvals = open_request ∷ [];
  notifications = note ∷ [];
  events = requested none open_request ∷ notification_created note ∷ [];
}

abbrev accepted : Approval
accepted = record open_request { status = approved; responded_at = some 30 }

abbrev reviewed : ApprovalTask
reviewed = record review { status = done; completed_at = some 30 }

abbrev closed : State
closed = record waiting {
  tasks = reviewed ∷ [];
  approvals = accepted ∷ [];
  notifications = [];
  events =
      requested none open_request
      ∷ notification_created note
      ∷ responded open_request accepted
      ∷ task_completed review reviewed
      ∷ [];
}

abbrev refused : Approval
refused = record open_request { status = rejected; responded_at = some 31 }

abbrev overruled : State
overruled = record closed {
  approvals = refused ∷ [];
  events =
      requested none open_request
      ∷ notification_created note
      ∷ responded open_request accepted
      ∷ task_completed review reviewed
      ∷ responded open_request refused
      ∷ [];
}

request_is_made : request_approval directory 20 1 10 1 80 90 none before_request ≡ ok waiting
unfolding request_approval read_for_request commit_request upsert_notification require_project_role
request_is_made = refl

request_is_committed : commit_request 20 1 1 80 90 none (review, none) before_request ≡ ok waiting
unfolding commit_request upsert_notification
request_is_committed = refl

answer_is_committed :
    commit_response approve 30 1 91 none (review, open_request) waiting ≡ ok closed
unfolding commit_response upsert_notification
answer_is_committed = refl

request_is_answered : respond_approval directory approve 30 1 10 91 none waiting ≡ ok closed
unfolding respond_approval read_for_response commit_response upsert_notification
request_is_answered = refl

late_answer : commit_response reject 31 1 92 none (review, open_request) closed ≡ ok overruled
unfolding commit_response upsert_notification
late_answer = refl

Reached-Sound_example : Sound closed
Reached-Sound_example = Reached-Sound (
    answered_by approve 30 1 91 none review open_request
      (asked 20 1 1 80 90 none review none (start (1 ∷ []) (review ∷ [])) request_is_committed)
      answer_is_committed)

respond_approval-IsAnswered_example : IsAnswered directory approve 30 1 10 none waiting closed
respond_approval-IsAnswered_example =
    respond_approval-IsAnswered directory approve 30 1 10 91 none waiting closed request_is_answered

respond_twice_example : respond_approval directory reject 40 1 10 93 none closed ≡ err not_pending
respond_twice_example =
    respond_twice directory directory approve reject 30 40 1 1 10 91 93 none none waiting closed
      request_is_answered

reject-after_approve_example :
    ((b : Approval) × (approval_of 10 overruled ≡ some b) × (b.status ≡ rejected))
    × ((u : ApprovalTask) × (find (is_live_task 10) overruled.tasks ≡ some u) × (u.status ≡ done))
reject-after_approve_example =
    reject-after_approve 30 31 1 1 10 91 92 none none review open_request waiting closed overruled
      refl answer_is_committed late_answer

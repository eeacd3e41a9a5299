-- ===== src/Lib.antt =====
-- Verification of AtlasPM, a project management service: its core rules as executable definitions,
-- and the theorems that make them correct.
--
-- The program is a monorepo. packages/domain/src has the pure rules (entities, value objects, use
-- cases over ports); apps/core-api/src has the NestJS services and controllers that run them on a
-- PostgreSQL database through Prisma. A service reads rows, decides, writes rows and appends an
-- audit event and an outbox event, inside one transaction. A transaction is modelled as one
-- function from the old tables to the new ones, or to an error with no tables; where the code reads
-- outside its transaction, the reading and the commit are two functions.
--
-- Files:
--   Base and below: tests, lists, results, integers, JavaScript numbers, text
--     and rows apart by a key.
--   Store: the task row and the enums of packages/domain/src/value-objects.
--   Calendar: JavaScript's Date in UTC, by days from Sunday 1 January 1967.
--   Recurrence: apps/core-api/src/recurring-tasks/recurrence-policy.ts. Steps is about rounding up to
--     a multiple, Schedule says which days a rule names, Rounds and Monthly are about the two `while`
--     loops, which run on a fuel of 2, Next about nextScheduledAtOrAfter, Due about
--     collectDueScheduledAtTimes. Dates before 1967 are not modelled.
--   RecurringTasks: processDueRecurringTasks of
--     apps/core-api/src/recurring-tasks/recurring-task.worker.ts and what it calls. A transaction is
--     the one place that writes; what the database throws is a parameter (World). Rows has the
--     tables, Passes and CatchUp are about a run over due days.
--   RecurringRetries: retryFailedGenerations of the same file. Effects says what a transaction writes,
--     Once what stays true of the tables, Runs and Rounds that both runs are made of transactions.
--   RecurringRules: apps/core-api/src/recurring-tasks/recurring-tasks.controller.ts. Changes has update
--     and delete, each a reading and a commit, Valid is about single calls, History about any number of them.
--   Dependencies: apps/core-api/src/tasks/cycle-detection.service.ts (wouldCreateCycleWithTx as
--     would_create_cycle, hasCycle as has_cycle), addDependency and removeDependencyWithAudit of
--     apps/core-api/src/tasks/subtask.service.ts, and appendAuditOutbox of
--     apps/core-api/src/common/audit-outbox.service.ts. Dependencies/Walk says what a walk and an
--     acyclic table are, Search and its children are about the depth-first search, Answers about
--     the answer it gives, Adding and History about the two operations. Queries has getDependencies,
--     getDependents, isBlocked and getDependencyGraph, Hierarchy validateHierarchyDepth and
--     createSubtask.
--   Closure: getAllDependencies and getAllDependents of
--     apps/core-api/src/tasks/cycle-detection.service.ts. Search is about what a visit adds, Reach about
--     the answer; one round more than there are rows is enough.
--   Subtasks: getSubtasks, getSubtaskTree, getRootTask and getBreadcrumbPath of
--     apps/core-api/src/tasks/subtask.service.ts. Children is about getSubtasks, Levels about the tree, Climb about the other two.
--   Progress: ProgressPercent, normalizeTaskProgressForType, applyTaskProgressAutomation and
--     deriveTaskCompletionTransition of packages/domain/src.
--   Task: the entity packages/domain/src/entities/task.ts.
--   Lifecycle: completeTaskLifecycle (packages/domain/src/services/complete-task-lifecycle.ts) over
--     PrismaTaskLifecycleRepository (apps/core-api/src/tasks/task-lifecycle-prisma.adapter.ts). Descendants and its child
--     are about collectDescendantIds, Saving and Saved about saveLifecycleState, Completion about the
--     use case.
--   Access: apps/core-api/src/common/authorization.service.ts. Entitled says why a user may act in a
--     project, Rows is about what is looked up, Roles about requireProjectRole.
--   TimeTracking: apps/core-api/src/task-time-tracking/task-time-tracking.controller.ts.
--   Approvals: apps/core-api/src/task-approvals/task-approval.controller.ts, with upsertNotification
--     of apps/core-api/src/notifications/notifications.service.ts. Rows and Inbox are about the two
--     tables, Touches and Soundness about all transactions, Answers and Answered about one answer and two.
--   Payload and Webhooks: apps/core-api/src/webhooks/webhook-delivery.service.ts. Payload/Found is
--     about collectStringValues, Delays about getBackoffMs (delays of whole milliseconds, up to 1,024
--     attempts), Ticks and Settled about
--     processDueEvents run alone, Outcomes about one delivery and about workers that overlap.
--   Timeline: the packing loop of buildCompactRowPlacement
--     (packages/domain/src/services/timeline-layout.ts). Rows is about the rows, Apart about the
--     tasks in them.
--   TimelineInteraction: packages/domain/src/services/timeline-interaction.ts. Lanes is about
--     normalizeTimelineLaneOrder, Drops about deriveTimelineDropSchedule.
--   Each Examples file has concrete data, and the theorems applied to it.
--
-- Ids are UUIDs that the code only compares: numbers here. A `Date` is its milliseconds since 1970,
-- and since the beginning of 1967 in Calendar and the modules on recurring tasks;
-- the current time and the ids of new rows, which come from outside, are arguments. A table is the
-- list of its rows in the order a query returns them.
--
-- Fuel: the depth-first search recurses into a task it has not visited, so the number of dependency
-- rows is enough; the breadth-first search below a task visits a new task in each round, so the
-- number of tasks and two more is enough. Both are theorems, and so is that two rounds of the loops of
-- the recurrence policy are enough. getRootTask and getBreadcrumbPath have no bound: where parents
-- form a circle they do not end.
--
-- Not modelled: the web interface, the collaboration server, request parsing and HTTP codes, the
-- database's isolation (a transaction runs alone), the HTTP requests to webhooks (what they come to is
-- a parameter), the other controllers.
pub mod Base
pub mod Store
pub mod Calendar
pub mod Recurrence
pub mod RecurringTasks
pub mod RecurringRetries
pub mod RecurringRules
pub mod Dependencies
pub mod Closure
pub mod Subtasks
pub mod Progress
pub mod Task
pub mod Lifecycle
pub mod Access
pub mod TimeTracking
pub mod Approvals
pub mod Payload
pub mod Webhooks
pub mod Timeline
pub mod TimelineInteraction

-- ===== src/Tasks.antt =====
-- packages/platform-modules/task-center/src/{types,errors}.ts. Times in records are the texts of the
-- source, the clock counts milliseconds.
pub mod Store
pub mod Service
pub mod Tests
use ai_crm_step.Base.{ℕ, String, List, Option}

-- `TaskCenterErrorCode`
pub data TaskError : Type 0 where
  input_invalid not_found operation_denied authorization_failed audit_failed : TaskError
  command_conflict command_in_progress source_unavailable storage_unavailable : TaskError

pub data TaskProjectionStatus : Type 0 where
  cancelled completed open_task : TaskProjectionStatus

pub data TaskOperation : Type 0 where
  task_complete task_detail task_list task_reconcile : TaskOperation

pub record TaskActor : Type 0 where
  pub active_assignment_ids : Option (List String)
  pub principal_id : String

pub record TaskDeepLink : Type 0 where
  pub app_id : String
  pub route_id : String

pub record TaskProjectionKey : Type 0 where
  pub source_type : String
  pub source_task_id : String

pub record TaskProjection : Type 0 where
  pub key : TaskProjectionKey
  pub projection_id : String
  pub source_version : ℕ
  pub status : TaskProjectionStatus
  pub deep_link : TaskDeepLink
  pub created_at : String
  pub updated_at : String
  pub assignee_reference : Option String
  pub candidate_scope_reference : Option String
  pub due_at : Option String

pub record TaskLifecycleEvent : Type 0 where
  pub key : TaskProjectionKey
  pub event_id : String
  pub source_version : ℕ
  pub occurred_at : String
  pub status : TaskProjectionStatus
  pub deep_link : TaskDeepLink
  pub assignee_reference : Option String
  pub candidate_scope_reference : Option String
  pub due_at : Option String

pub record TaskCommandResult : Type 0 where
  pub source_command_id : String

pub data TaskCommandClaim : Type 0 where
  claimed : String → TaskCommandClaim
  running : TaskCommandClaim
  accepted : TaskCommandResult → TaskCommandClaim

pub data ApplyStatus : Type 0 where
  applied duplicate stale : ApplyStatus

pub record ProjectionApplyResult : Type 0 where
  pub status : ApplyStatus
  pub projection : TaskProjection

pub record TaskPage : Type 0 where
  pub items : List TaskProjection
  pub next_cursor : Option String

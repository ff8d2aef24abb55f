-- ===== src/Domain.antt =====
-- internal/domain/models.go: the records that the components exchange. Timestamps are left out,
-- but for whether an optional one is set; a `json.RawMessage` is its text.
use enterprise_security_reco.Prelude.{ℕ, String, Bool, Option, List, ℤ}

pub data TaskStatus : Type 0 where
  pending running paused completed failed cancelled : TaskStatus

pub data RunStatus : Type 0 where
  pending running paused completed failed cancelled : RunStatus

pub data StepStatus : Type 0 where
  pending blocked awaiting_approval queued running : StepStatus
  succeeded failed retryable skipped cancelled : StepStatus

pub record Task : Type 0 where
  pub id : String
  pub program_id : String
  pub objective : String
  pub workflow_definition_id : String
  pub status : TaskStatus
  pub requested_by : String

-- `is_completed` says that `CompletedAt` is set.
pub record WorkflowRun : Type 0 where
  pub id : String
  pub task_id : String
  pub workflow_definition_id : String
  pub workflow_version : String
  pub status : RunStatus
  pub is_completed : Bool
  pub trigger_source : String
  pub summary : String

pub record StepRun : Type 0 where
  pub id : String
  pub workflow_run_id : String
  pub step_definition_id : String
  pub capability : String
  pub status : StepStatus
  pub attempt_count : ℕ
  pub input : String
  pub output : String
  pub error_classification : String
  pub error_details : String
  pub is_started : Bool
  pub is_completed : Bool
  pub idempotency_key : String
  pub approval_state : String

pub record ToolRun : Type 0 where
  pub id : String
  pub step_run_id : String
  pub capability : String
  pub provider : String
  pub tool_version : String
  pub sanitized_arguments : String
  pub execution_environment : String
  pub exit_code : Option ℤ
  pub timed_out : Bool
  pub artifact_ids : List String
  pub stdout_artifact_id : Option String
  pub stderr_artifact_id : Option String

pub record ActionRequest : Type 0 where
  pub id : String
  pub task_id : String
  pub workflow_run_id : String
  pub step_run_id : String
  pub requested_by : String
  pub capability : String
  pub reason : String
  pub input : String
  pub idempotency_key : String

pub record StructuredError : Type 0 where
  pub classification : String
  pub message : String
  pub retryable : Bool

pub record ActionResult : Type 0 where
  pub request_id : String
  pub status : String
  pub summary : String
  pub output : String
  pub artifact_ids : List String
  pub error : Option StructuredError

pub record Artifact : Type 0 where
  pub id : String
  pub task_id : String
  pub workflow_run_id : String
  pub step_run_id : String
  pub tool_run_id : String
  pub type : String
  pub content_type : String
  pub size : ℕ
  pub sha256 : String
  pub storage_location : String
  pub redaction_state : String
  pub sensitive : Bool

-- ===== src/Workflow.antt =====
-- internal/workflow/workflow.go: workflows as they are defined, and the state of a run of one.
-- Timestamps are left out.
pub mod Graph
pub mod Checks
pub mod Keys
pub mod Layers
pub mod Acyclic
pub mod Cycles
pub mod Order
pub mod Valid
pub mod Schedule
pub mod Ancestors
pub mod Fuel
pub mod Attempts
pub mod Tries
pub mod Retries
pub mod Condition
pub mod Faults
pub mod Input
pub mod Records
pub mod Plans
pub mod Wave
pub mod Run
mod Tests
mod FaultTests
mod RetryTests
use enterprise_security_reco.Prelude.{String, Bool, ℤ, List}
use enterprise_security_reco.Domain.{StepRun, WorkflowRun}

-- A delay is a number of nanoseconds.
pub record RetryPolicy : Type 0 where
  pub max_attempts : ℤ
  pub base_delay : ℤ

-- `bindings` is a map; `input` is the text of a JSON value.
pub record Step : Type 0 where
  pub id : String
  pub capability : String
  pub provider : String
  pub depends_on : List String
  pub condition : String
  pub input : String
  pub bindings : List (String × String)
  pub retry : RetryPolicy
  pub timeout : ℤ
  pub approval_required : Bool
  pub rerun_on_input_change : Bool

pub record Definition : Type 0 where
  pub id : String
  pub name : String
  pub version : String
  pub description : String
  pub steps : List Step
  pub default_policy_requirements : String

pub record StepState : Type 0 where
  pub run : StepRun
  pub input_hash : String

pub record Event : Type 0 where
  pub type : String
  pub step_id : String
  pub message : String

-- `steps` is a map from the ids of the steps.
pub record State : Type 0 where
  pub run : WorkflowRun
  pub steps : List (String × StepState)
  pub events : List Event

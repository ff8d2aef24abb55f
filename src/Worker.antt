-- ===== src/Worker.antt =====
-- internal/worker/service.go: `handle`, what a worker does with one delivery. The refresh of its
-- lease on the message runs beside it and is left out.
pub mod Settled
pub mod Handled
mod Tests
use Prim.Native.String.{◌++◌ as append}
use enterprise_security_reco.Prelude.{
  ℕ, String, Bool, true, false, ◌&&◌, not, Option, none, some, List, [], ◌∷◌, ◌++◌, if◌then◌else◌,
  ℤ,
}
use enterprise_security_reco.Strings.{is_empty}
use enterprise_security_reco.Errors.{Error}
use enterprise_security_reco.Json.{Json}
use enterprise_security_reco.Domain.{StepStatus, StepRun, ToolRun, ActionResult, Artifact}
use enterprise_security_reco.Policy.{Common}
use enterprise_security_reco.Scope.{Library, Scope, Compilation, compile}
use enterprise_security_reco.Scope.Match.{allows}
use enterprise_security_reco.Budget
use enterprise_security_reco.Budget.Hosts.{hosts_from_input}
use enterprise_security_reco.Capability.{
  Either, ok, err, Registry, Request, Result, PolicyDecisionRecord, get, execute,
}
use enterprise_security_reco.Workflow.Input.{Outcome, value, failed, panics}
use enterprise_security_reco.Workflow.Attempts.{is_retryable}
use enterprise_security_reco.Queue.{Streams, Job, Delivery}
use enterprise_security_reco.Queue.Operations.{ack, fail_delivery}

-- `artifact.PutRequest`.
pub record PutRequest : Type 0 where
  pub program_id : String
  pub task_id : String
  pub workflow_run_id : String
  pub step_run_id : String
  pub tool_run_id : String
  pub type : String
  pub content_type : String
  pub name : String
  pub sensitive : Bool
  pub retention : ℤ
  pub content : String

abbrev pub Recorder : Type 0 → Type 0
Recorder W = PolicyDecisionRecord → W → Option Error × W

-- `Service`, as far as `handle` uses it. `results_recorder` is the result store, if it records
-- decisions as well.
pub record Service (W Regexp : Type 0) : Type 0 where
  pub queue : Streams W
  pub registry : Registry W
  pub library : Library Regexp
  pub decode_common : String → Option Common
  pub already_succeeded : String → W → Either Bool × W
  pub persist_result :
      String → StepRun → ToolRun → List Artifact → ActionResult → W → Option Error × W
  pub put : PutRequest → W → Either Artifact × W
  pub budget : Option (Budget.Request → W → Either (W → W) × W)
  pub policy_auditor : Option (Recorder W)
  pub results_recorder : Option (Recorder W)
  pub error_text : Error → String
  pub unmarshal : String → Option Json
  pub host_from_candidate : String → String

abbrev pub auditor_of :
    {W : Type 0} → Option (Recorder W) → Option (Recorder W) → Option (Recorder W)
auditor_of none recorder = recorder
auditor_of (some auditor) recorder = some auditor

abbrev pub first_provider : List String → String
first_provider [] = ""
first_provider (p ∷ providers) = p

module _ {W Regexp : Type 0} (s : Service W Regexp) where
  -- The first provider of the capability, if the registry has it.
  unfoldable pub registered_provider : String → String
  registered_provider name = elim (get s.registry name) [
    | none ↦ ""
    | some c ↦ first_provider c.manifest.supported_providers
  ]

  -- The provider that the budget is asked for.
  unfoldable pub budget_provider : Job → String
  budget_provider j =
      let registered = registered_provider j.action.capability in
      if not (is_empty j.provider)
      then j.provider
      else if not (is_empty registered)
      then registered
      else j.action.capability

  unfoldable pub job_request : Job → Scope Regexp → Request W
  job_request j sc = record {
    action = j.action;
    program_id = j.program_id;
    provider = j.provider;
    approved = j.approved;
    policy = j.policy;
    scope = allows s.library sc;
    policy_phase = "execution";
    decision_recorder = auditor_of s.policy_auditor s.results_recorder;
  }

  unfoldable pub tool_version_of : String → String
  tool_version_of name = elim (get s.registry name) [ none ↦ "1" | some c ↦ c.manifest.version ]

  -- The record of a run in the process, for a capability that has none of its own.
  unfoldable pub own_tool : Job → String → ToolRun
  own_tool j id = record {
    id = id;
    step_run_id = j.action.step_run_id;
    capability = j.action.capability;
    provider = "platform";
    tool_version = tool_version_of j.action.capability;
    sanitized_arguments = "{}";
    execution_environment = "{\"kind\":\"in-process\"}";
    exit_code = none;
    timed_out = false;
    artifact_ids = [];
    stdout_artifact_id = none;
    stderr_artifact_id = none;
  }

  abbrev pub tool_of : Job → Option ToolRun → W → ToolRun × W
  tool_of j (some tool) w = (tool, w)
  tool_of j none w = let (id, w') = s.queue.new_id w in (own_tool j id, w')

  unfoldable pub put_request : Job → ToolRun → ActionResult → PutRequest
  put_request j tool action = record {
    program_id = j.program_id;
    task_id = j.action.task_id;
    workflow_run_id = j.action.workflow_run_id;
    step_run_id = j.action.step_run_id;
    tool_run_id = tool.id;
    type = "normalized-result";
    content_type = "application/json";
    name = "result.json";
    sensitive = false;
    retention = j.policy.artifact_retention;
    content = action.output;
  }

  unfoldable pub finished_step : Job → ActionResult → StepRun
  finished_step j action = record {
    id = j.action.step_run_id;
    workflow_run_id = j.action.workflow_run_id;
    step_definition_id = "";
    capability = j.action.capability;
    status = StepStatus.succeeded;
    attempt_count = 0;
    input = "";
    output = action.output;
    error_classification = "";
    error_details = "";
    is_started = false;
    is_completed = true;
    idempotency_key = j.action.idempotency_key;
    approval_state = "";
  }

  -- The result is acknowledged once it is stored.
  abbrev pub persisted : Delivery → ActionResult → Option Error × W → Outcome Unit × W
  persisted d action (some e, w) = (failed e, w)
  persisted d action (none, w) = ack s.queue d.message_id action w

  unfoldable pub persist : Delivery → ActionResult → ToolRun → List Artifact → W → Outcome Unit × W
  persist d action tool artifacts w =
      persisted d action
        (s.persist_result d.job.program_id (finished_step d.job action) tool artifacts action w)

  abbrev pub with_artifact :
      Delivery → ActionResult → ToolRun → Either Artifact × W → Outcome Unit × W
  with_artifact d action tool (err e, w) =
      fail_delivery s.queue d.message_id d.job (append "artifact: " (s.error_text e)) true w
  with_artifact d action tool (ok a, w) =
      persist d (record action { artifact_ids = action.artifact_ids ++ a.id ∷ [] })
        (record tool {
          artifact_ids = tool.artifact_ids ++ a.id ∷ [];
          stdout_artifact_id = some a.id;
        })
        (a ∷ []) w

  unfoldable pub store : Delivery → ActionResult → ToolRun × W → Outcome Unit × W
  store d action (tool, w) =
      if not (is_empty action.output)
      then with_artifact d action tool (s.put (put_request d.job tool action) w)
      else persist d action tool [] w

  abbrev pub executed : Delivery → (Result × Option Error) × W → Outcome Unit × W
  executed d ((result, some e), w) =
      fail_delivery s.queue d.message_id d.job (s.error_text e) (is_retryable result) w
  executed d ((result, none), w) = store d result.action (tool_of d.job result.tool_run w)

  unfoldable pub run_job : Delivery → Scope Regexp → W → Outcome Unit × W
  run_job d sc w = executed d (execute s.decode_common s.registry (job_request d.job sc) w)

  abbrev pub leased : Delivery → Scope Regexp → Either (W → W) × W → Outcome Unit × W
  leased d sc (err e, w) = (failed e, w)
  leased d sc (ok release, w) = let (out, w') = run_job d sc w in (out, release w')

  abbrev pub with_budget :
      Delivery
      → Scope Regexp
      → Option (Budget.Request → W → Either (W → W) × W)
      → W
      → Outcome Unit × W
  with_budget d sc none w = run_job d sc w
  with_budget d sc (some acquire) w = leased d sc (
      acquire
        (record {
          program_id = d.job.program_id;
          provider = budget_provider d.job;
          hosts = hosts_from_input s.unmarshal s.host_from_candidate d.job.action.input;
        })
        w)

  abbrev pub scoped : Delivery → Compilation (Scope Regexp) → W → Outcome Unit × W
  scoped d (Compilation.err e) w =
      fail_delivery s.queue d.message_id d.job (append "invalid_scope: " (s.error_text e)) false w
  scoped d (Compilation.ok sc) w = with_budget d sc s.budget w

  abbrev pub duplicate_result : Job → ActionResult
  duplicate_result j = record {
    request_id = j.action.id;
    status = "succeeded";
    summary = "duplicate delivery already completed";
    output = "";
    artifact_ids = [];
    error = none;
  }

  abbrev pub unless_done : Delivery → Either Bool × W → Outcome Unit × W
  unless_done d (err e, w) = (failed e, w)
  unless_done d (ok true, w) = ack s.queue d.message_id (duplicate_result d.job) w
  unless_done d (ok false, w) =
      scoped d (compile s.library d.job.scope_includes d.job.scope_excludes) w

  unfoldable pub handle : Delivery → W → Outcome Unit × W
  handle d w = unless_done d (s.already_succeeded d.job.action.idempotency_key w)

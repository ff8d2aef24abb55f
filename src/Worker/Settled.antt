-- ===== src/Worker/Settled.antt =====
-- What `handle` of internal/worker/service.go can have done with a delivery.
use Prim.Native.String.{◌++◌ as append}
use enterprise_security_reco.Prelude.{
  String, ◌≡◌, ◌≢◌, ◌↔◌, Bool, true, false, Option, none, some, List, [], ◌∷◌, ◌++◌, Memᴰ,
}
use enterprise_security_reco.Errors.{Error}
use enterprise_security_reco.Domain.{StepStatus, StepRun, ToolRun, ActionResult, Artifact}
use enterprise_security_reco.Scope.{Scope, Compilation, compile}
use enterprise_security_reco.Scope.Match.{allows}
use enterprise_security_reco.Budget
use enterprise_security_reco.Capability.{Either, ok, err, Request, Result, execute}
use enterprise_security_reco.Workflow.Input.{value}
use enterprise_security_reco.Workflow.Tries.{Retryable}
use enterprise_security_reco.Queue.{Delivery, Command}
use enterprise_security_reco.Queue.Operations.{fail_delivery}
use enterprise_security_reco.Worker.{Service, PutRequest}

module _ {W Regexp : Type 0} (s : Service W Regexp) where
  -- One transaction published the result and took the delivery from the queue.
  pub record Acknowledged (d : Delivery) (action : ActionResult) (w w' : W) : Type 0 where
    pub payload : String
    pub encoded : s.queue.encode_result action ≡ ok payload
    pub commands : List Command
    pub replies : List String
    pub ran : s.queue.exec commands w ≡ (ok replies, w')
    pub published :
        Memᴰ
          (Command.x_add s.queue.names.results
            (("payload", payload) ∷ ("request_id", action.request_id) ∷ []))
          commands
    pub acked : Memᴰ (Command.x_ack s.queue.names.jobs s.queue.group d.message_id) commands
    pub deleted : Memᴰ (Command.x_del s.queue.names.jobs d.message_id) commands

  -- The step of the job, which has succeeded with the output of the action.
  pub record Finished (d : Delivery) (action : ActionResult) (step : StepRun) : Type 0 where
    pub id : step.id ≡ d.job.action.step_run_id
    pub workflow_run_id : step.workflow_run_id ≡ d.job.action.workflow_run_id
    pub capability : step.capability ≡ d.job.action.capability
    pub status : step.status ≡ StepStatus.succeeded
    pub output : step.output ≡ action.output
    pub idempotency_key : step.idempotency_key ≡ d.job.action.idempotency_key

  -- The action was stored, and acknowledged after that.
  pub record Stored (d : Delivery) (action : ActionResult) (tool : ToolRun)
      (artifacts : List Artifact) (w w' : W) : Type 0 where
    pub step : StepRun
    pub finished : Finished d action step
    pub kept_in : W
    pub kept : s.persist_result d.job.program_id step tool artifacts action w ≡ (none, kept_in)
    pub acknowledged : Acknowledged d action kept_in w'

  -- The run of the tool: that of the result, or else one of the platform with a new id.
  pub data Tooled (d : Delivery) (result : Result) (w : W) : ToolRun → W → Type 0 where
    reported : (tool : ToolRun) → result.tool_run ≡ some tool → Tooled d result w tool w
    own :
        (tool : ToolRun) (w' : W)
        → result.tool_run ≡ none
        → s.queue.new_id w ≡ (tool.id, w')
        → tool.step_run_id ≡ d.job.action.step_run_id
        → tool.capability ≡ d.job.action.capability
        → Tooled d result w tool w'

  -- The output was offered to the artifacts of the program, as the normalized result of the tool's run.
  pub record Offered (d : Delivery) (action : ActionResult) (tool : ToolRun) (w : W)
      (out : Either Artifact) (w' : W) : Type 0 where
    pub has_output : action.output ≢ ""
    pub request : PutRequest
    pub content : request.content ≡ action.output
    pub program_id : request.program_id ≡ d.job.program_id
    pub step_run_id : request.step_run_id ≡ d.job.action.step_run_id
    pub tool_run_id : request.tool_run_id ≡ tool.id
    pub retention : request.retention ≡ d.job.policy.artifact_retention
    pub answer : s.put request w ≡ (out, w')

  -- The request for the action of the job, in its scope.
  pub record Asks (d : Delivery) (sc : Scope Regexp) (req : Request W) : Type 0 where
    pub action : req.action ≡ d.job.action
    pub program_id : req.program_id ≡ d.job.program_id
    pub provider : req.provider ≡ d.job.provider
    pub approved : req.approved ≡ d.job.approved
    pub policy : req.policy ≡ d.job.policy
    pub scope : (target : String) → req.scope target ≡ allows s.library sc target
    pub policy_phase : req.policy_phase ≡ "execution"
    pub auditor : s.policy_auditor ≢ none → req.decision_recorder ≡ s.policy_auditor
    pub results : s.policy_auditor ≡ none → req.decision_recorder ≡ s.results_recorder

  -- The registry executed the job's own request, with this result and error.
  pub record Executed (d : Delivery) (sc : Scope Regexp) (w : W) (result : Result)
      (error : Option Error) (w' : W) : Type 0 where
    pub req : Request W
    pub asks : Asks d sc req
    pub ran : execute s.decode_common s.registry req w ≡ ((result, error), w')

  -- The action of a result with an artifact.
  abbrev pub with_artifact_id : ActionResult → Artifact → ActionResult
  with_artifact_id action a = record action { artifact_ids = action.artifact_ids ++ a.id ∷ [] }

  -- The queue took the delivery back, to the retries or the dead letters.
  abbrev pub Returned : Delivery → String → Bool → W → W → Type 0
  Returned d classified retryable w w' =
      fail_delivery s.queue d.message_id d.job classified retryable w ≡ (value tt, w')

  -- The request was executed, and then its result stored and acknowledged, with an artifact if it has
  -- an output; or the delivery was returned, with the error of the execution or of the artifact.
  pub data Worked (d : Delivery) (sc : Scope Regexp) (w w' : W) : Type 0 where
    silent :
        (result : Result) (u v : W) (tool : ToolRun)
        → Executed d sc w result none u
        → Tooled d result u tool v
        → result.action.output ≡ ""
        → Stored d result.action tool [] v w'
        → Worked d sc w w'
    spoken :
        (result : Result) (u v x : W) (tool : ToolRun) (a : Artifact)
        → Executed d sc w result none u
        → Tooled d result u tool v
        → Offered d result.action tool v (ok a) x
        → Stored d
            (with_artifact_id result.action a)
            (record tool {
              artifact_ids = tool.artifact_ids ++ a.id ∷ [];
              stdout_artifact_id = some a.id;
            })
            (a ∷ [])
            x
            w'
        → Worked d sc w w'
    unkept :
        (result : Result) (u v x : W) (tool : ToolRun) (e : Error)
        → Executed d sc w result none u
        → Tooled d result u tool v
        → Offered d result.action tool v (err e) x
        → Returned d (append "artifact: " (s.error_text e)) true x w'
        → Worked d sc w w'
    broken :
        (result : Result) (u : W) (e : Error) (retryable : Bool)
        → Executed d sc w result (some e) u
        → (retryable ≡ true) ↔ Retryable result
        → Returned d (s.error_text e) retryable u w'
        → Worked d sc w w'

  -- What was done under a lease for the program, if there is a budget, that was released after it.
  pub data Leased (d : Delivery) (P : W → W → Type 0) (w w' : W) : Type 0 where
    unlimited : s.budget ≡ none → P w w' → Leased d P w w'
    limited :
        (acquire : Budget.Request → W → Either (W → W) × W) (req : Budget.Request) (release : W → W)
        (u v : W)
        → s.budget ≡ some acquire
        → req.program_id ≡ d.job.program_id
        → acquire req w ≡ (ok release, u)
        → P u v
        → w' ≡ release v
        → Leased d P w w'

  pub data Settled (d : Delivery) (w w' : W) : Type 0 where
    duplicate :
        (u : W) (action : ActionResult)
        → s.already_succeeded d.job.action.idempotency_key w ≡ (ok true, u)
        → action.request_id ≡ d.job.action.id
        → action.status ≡ "succeeded"
        → Acknowledged d action u w'
        → Settled d w w'
    unscoped :
        (u : W) (e : Error)
        → s.already_succeeded d.job.action.idempotency_key w ≡ (ok false, u)
        → compile s.library d.job.scope_includes d.job.scope_excludes ≡ Compilation.err e
        → Returned d (append "invalid_scope: " (s.error_text e)) false u w'
        → Settled d w w'
    worked :
        (u : W) (sc : Scope Regexp)
        → s.already_succeeded d.job.action.idempotency_key w ≡ (ok false, u)
        → compile s.library d.job.scope_includes d.job.scope_excludes ≡ Compilation.ok sc
        → Leased d (Worked d sc) u w'
        → Settled d w w'

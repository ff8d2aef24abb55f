-- ===== src/Workflow/Records.antt =====
-- internal/workflow/workflow.go: the state of a run and its records: `newStep`, `transitionStep`,
-- `event`, `save`, `terminal`, `fail`, and what the engine is given.
use Prim.Native.String.{◌++◌ as append}
use enterprise_security_reco.Prelude.{
  String, Bool, true, false, ◌||◌, not, Option, none, some, List, [], ◌∷◌, ◌++◌, ◌==◌,
  if◌then◌else◌, lookup, insert, ℤ,
}
use enterprise_security_reco.Strings.{is_empty}
use enterprise_security_reco.Errors.{Error, is_deadline_exceeded, is_canceled}
use enterprise_security_reco.Domain.{StepStatus, RunStatus}
use enterprise_security_reco.Json.{Json}
use enterprise_security_reco.Policy.{Policy, Risk}
use enterprise_security_reco.Budget
use enterprise_security_reco.Capability.{Registry, Either, Request, Result}
use enterprise_security_reco.Workflow.{Step, State, StepState}
use enterprise_security_reco.Workflow.Attempts.{StepPlan}
use enterprise_security_reco.Workflow.Condition.{has_succeeded}
use enterprise_security_reco.Workflow.Input.{is_skipped}

-- `Engine`. A lease of the budget is its release function.
pub record Engine (W : Type 0) : Type 0 where
  pub registry : Registry W
  pub execute : Request W → W → (Result × Option Error) × W
  pub persister : Option (State → W → Option Error × W)
  pub approval : Option (Step → Risk → W → (Bool × Option Error) × W)
  pub policy : Policy
  pub scope : String → Bool
  pub budget : Option (Budget.Request → W → Either (W → W) × W)
  pub max_parallel : ℤ

-- What the engine meets around it. `meanwhile` is what others do before a round begins;
-- `controls` reads `paused` and `cancelled`; `context_err` and `run_err` are the errors of the
-- caller's context and of the one that is cancelled with it or by `Cancel`; `arrival` is the order
-- in which the steps of a wave end.
pub record Surroundings (W : Type 0) : Type 0 where
  pub meanwhile : W → W
  pub controls : W → Bool × Bool
  pub context_err : W → Option Error
  pub run_err : W → Option Error
  pub wait : ℤ → W → Option Error × W
  pub new_id : W → String × W
  pub arrival : List StepPlan → W → List StepPlan
  pub sha256_hex : String → String
  pub unmarshal : String → Option Json
  pub marshal : Json → String
  pub error_text : Error → String
  pub host_from_candidate : String → String

-- What a run returns; it may also panic.
pub data Ending : Type 0 where
  returned : Option State → Option Error → Ending
  panicked : Ending

abbrev pub add_event : State → String → String → String → State
add_event s type step message = record s {
  events = s.events ++ record { type = type; step_id = step; message = message } ∷ [];
}

abbrev pub set_step : String → StepState → State → State
set_step id ss s = record s { steps = insert id ss s.steps }

abbrev pub status_text : RunStatus → String
status_text RunStatus.pending = "pending"
status_text RunStatus.running = "running"
status_text RunStatus.paused = "paused"
status_text RunStatus.completed = "completed"
status_text RunStatus.failed = "failed"
status_text RunStatus.cancelled = "cancelled"

-- What `terminal` and `fail` make of the state before they save it.
abbrev pub terminal_state : State → RunStatus → String → State
terminal_state s status type =
    add_event (record s { run = record s.run { status = status; is_completed = true } }) type ""
      (status_text status)

abbrev pub failed_state : State → String → String → State
failed_state s step message =
    add_event (record s { run = record s.run { status = RunStatus.failed } }) "workflow_failed" step
      message

abbrev pub paused_state : State → String → State
paused_state s message =
    add_event (record s { run = record s.run { status = RunStatus.paused } }) "workflow_paused" ""
      message

unfoldable pub dependencies_in : List (String × StepState) → List String → Bool
dependencies_in steps [] = true
dependencies_in steps (d ∷ deps) =
    let rest = dependencies_in steps deps in
    elim (lookup d steps) [
      | none ↦ false
      | some s ↦ if has_succeeded s.run.status || is_skipped s.run.status then rest else false
    ]

unfoldable pub dependencies_succeeded : Step → State → Bool
dependencies_succeeded s state = dependencies_in state.steps s.depends_on

unfoldable pub execution_classification : Result → Error → String
execution_classification result e = elim result.action.error [
  | some se ↦
      if not (is_empty se.classification)
      then se.classification
      else if is_deadline_exceeded e
      then "timeout"
      else if is_canceled e
      then "cancelled"
      else "execution"
  | none ↦
      if is_deadline_exceeded e
      then "timeout"
      else if is_canceled e
      then "cancelled"
      else "execution"
]

unfoldable pub new_step :
    (String → String) → String → State → Step → String → String → StepStatus → StepState
new_step sha256_hex id state s input hash status = record {
  run = record {
    id = id;
    workflow_run_id = state.run.id;
    step_definition_id = s.id;
    capability = s.capability;
    status = status;
    attempt_count = 0;
    input = input;
    output = "";
    error_classification = "";
    error_details = "";
    is_started = false;
    is_completed = false;
    idempotency_key =
        sha256_hex (append state.run.id (append "\0" (append s.id (append "\0" hash))));
    approval_state = "not_required";
  };
  input_hash = hash;
}

-- A step keeps the id of its earlier run if its idempotency key is the same.
unfoldable pub keep_id : StepState → Option StepState → StepState
keep_id next none = next
keep_id next (some previous) =
    if previous.run.idempotency_key == next.run.idempotency_key
    then record next { run = record next.run { id = previous.run.id } }
    else next

abbrev pub persist_with :
    {W : Type 0} → Option (State → W → Option Error × W) → State → W → Option Error × W
persist_with none s w = (none, w)
persist_with (some persist) s w = persist s w

module _ {W : Type 0} (e : Engine W) (around : Surroundings W) where
  -- `save`, under a context of its own where the run's has ended.
  unfoldable pub save : State → W → Option Error × W
  save s w = persist_with e.persister s w

  unfoldable pub transition_step : State → Step → String → String → StepStatus → W → StepState × W
  transition_step state s input hash status w =
      let (id, w') = around.new_id w in
      (
        keep_id (new_step around.sha256_hex id state s input hash status) (lookup s.id state.steps),
        w',
      )

  unfoldable pub terminal : State → RunStatus → String → Option Error → W → Ending × W
  terminal s status type joined w =
      let final = terminal_state s status type in
      let (err, w') = save final w in
      (
        returned (some final) (elim joined [
          | none ↦ err
          | some c ↦ some (elim err [ none ↦ c | some f ↦ Error.joined c f ])
        ]),
        w',
      )

  unfoldable pub fail : State → String → String → Error → W → Ending × W
  fail s step class err w =
      let final = failed_state s step (append class (append ": " (around.error_text err))) in
      let (ignored, w') = save final w in (returned (some final) (some err), w')

  unfoldable pub pause : State → String → W → Ending × W
  pause s message w =
      let final = paused_state s message in
      let (ignored, w') = save final w in (returned (some final) none, w')

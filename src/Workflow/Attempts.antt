-- ===== src/Workflow/Attempts.antt =====
-- internal/workflow/workflow.go: the attempts of `executeStep`, once its lease is taken. The time
-- stamps and the timeout of an attempt's context are left out.
use enterprise_security_reco.Prelude.{
  ℕ, zero, suc, ◌-◌, ◌*◌, ◌^◌, ◌%◌, String, Bool, true, false, Option, none, some, ℤ, pos, negsuc,
  ltb, if◌then◌else◌,
}
use Prim.Native.String.{◌++◌ as append}
use enterprise_security_reco.Errors.{Error}
use enterprise_security_reco.Domain.{Task}
use enterprise_security_reco.Policy.{Policy, parallel_share}
use enterprise_security_reco.Capability.{Request, Result, empty_result}
use enterprise_security_reco.Workflow.{Step, StepState, RetryPolicy}

pub record StepPlan : Type 0 where
  pub definition : Step
  pub state : StepState
  pub input : String
  pub approved : Bool
  pub provider : String
  pub parallel_share : ℕ

pub record StepOutcome : Type 0 where
  pub definition : Step
  pub state : StepState
  pub result : Result
  pub err : Option Error
  pub primary_failure : Bool

unfoldable pub max_attempts_of : RetryPolicy → ℕ
max_attempts_of retry = elim retry.max_attempts [ negsuc n ↦ 1 | pos n ↦ if ltb n 1 then 1 else n ]

-- A 64-bit number, read as a signed one.
unfoldable pub int64 : ℕ → ℤ
int64 n = let m = n % 2 ^ 64 in if ltb m (2 ^ 63) then pos m else negsuc (2 ^ 64 - 1 - m)

-- The wait after an attempt, in nanoseconds: a second where the base is not positive.
unfoldable pub delay_after : ℤ → ℕ → ℤ
delay_after (pos zero) attempt = int64 (1000000000 * 2 ^ (attempt - 1))
delay_after (pos (suc n)) attempt = int64 (suc n * 2 ^ (attempt - 1))
delay_after (negsuc n) attempt = int64 (1000000000 * 2 ^ (attempt - 1))

unfoldable pub is_retryable : Result → Bool
is_retryable result = elim result.action.error [ none ↦ false | some e ↦ e.retryable ]

-- Whether an attempt is followed by another, of which `left` may be.
unfoldable pub wants_retry : ℕ → Result → Option Error → Bool
wants_retry left result none = false
wants_retry zero result (some e) = false
wants_retry (suc left) result (some e) = is_retryable result

abbrev pub start_outcome : StepPlan → StepOutcome
start_outcome plan = record {
  definition = plan.definition;
  state = plan.state;
  result = empty_result;
  err = none;
  primary_failure = false;
}

abbrev pub complete_step : StepOutcome → StepOutcome
complete_step o = record o {
  state = record o.state { run = record o.state.run { is_completed = true } };
}

abbrev pub attempted : ℕ → Result → Option Error → StepOutcome → StepOutcome
attempted attempt result err o = record o {
  state = record o.state { run = record o.state.run { attempt_count = attempt } };
  result = result;
  err = err;
}

-- The request of an attempt, whose action has the given id.
unfoldable pub request_of :
    {W : Type 0} → Policy → (String → Bool) → Task → String → StepPlan → String → Request W
request_of policy scope task run_id p id = record {
  action = record {
    id = id;
    task_id = task.id;
    workflow_run_id = run_id;
    step_run_id = p.state.run.id;
    requested_by = "workflow";
    capability = p.definition.capability;
    reason = append "deterministic workflow step " p.definition.id;
    input = p.input;
    idempotency_key = p.state.run.idempotency_key;
  };
  program_id = "";
  provider = p.definition.provider;
  approved = p.approved;
  policy = parallel_share policy p.parallel_share;
  scope = scope;
  policy_phase = "";
  decision_recorder = none;
}

-- After the wait: `again` has the attempts to come; the context's error ends the step.
abbrev pub after_wait :
    {W : Type 0} → Option Error → StepOutcome → W → StepOutcome × W → StepOutcome × W
after_wait none tried w again = again
after_wait (some e) tried w again = (complete_step (record tried { err = some e }), w)

-- `execute` is the executor; `new_id` is `domain.NewID`; `wait` is the `select` on the timer and
-- the context, with the context's error if that ends first.
module _ {W : Type 0} (execute : Request W → W → (Result × Option Error) × W)
    (new_id : W → String × W) (wait : ℤ → W → Option Error × W) (policy : Policy)
    (scope : String → Bool) (task : Task) (run_id : String) (plan : StepPlan) where
  -- The loop, with `left` attempts to go, of which the next has the number `attempt`.
  unfoldable pub attempt_loop : ℕ → ℕ → StepOutcome → W → StepOutcome × W
  attempt_loop zero attempt o w = (complete_step o, w)
  attempt_loop (suc left) attempt o w =
      let again = attempt_loop left (suc attempt) in
      let (id, w₁) = new_id w in
      let ((result, err), w₂) = execute (request_of policy scope task run_id plan id) w₁ in
      let tried = attempted attempt result err o in
      let (ended, w₃) = wait (delay_after plan.definition.retry.base_delay attempt) w₂ in
      if wants_retry left result err
      then after_wait ended tried w₃ (again tried w₃)
      else (complete_step tried, w₂)

  unfoldable pub run_attempts : W → StepOutcome × W
  run_attempts w = attempt_loop (max_attempts_of plan.definition.retry) 1 (start_outcome plan) w

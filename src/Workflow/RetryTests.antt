-- ===== src/Workflow/RetryTests.antt =====
-- An executor that fails twice with an error worth a retry, and then succeeds.
use enterprise_security_reco.Prelude.{
  ℕ, suc, String, ◌≡◌, refl, Bool, true, false, Option, none, some, [], ◌∷◌, ℤ, pos, ltb,
  if◌then◌else◌,
}
use enterprise_security_reco.Errors.{Error, raised}
use enterprise_security_reco.Domain.{Task, TaskStatus, StepStatus}
use enterprise_security_reco.Policy.{Policy}
use enterprise_security_reco.Capability.{Request, Result, empty_result}
use enterprise_security_reco.Workflow.Attempts.{
  StepPlan, max_attempts_of, delay_after, int64, is_retryable, wants_retry, attempt_loop,
  run_attempts,
}
use enterprise_security_reco.Workflow.Retries.{run_attempts-Attempted}
use enterprise_security_reco.Workflow.Tries.{Attempted}

abbrev failing : Result
failing = record empty_result {
  action = record empty_result.action {
    error = some (record { classification = "timeout"; message = ""; retryable = true });
  };
}

-- The state counts the calls.
abbrev execute : Request ℕ → ℕ → (Result × Option Error) × ℕ
execute req calls =
    if ltb calls 2
    then ((failing, some (raised "slow")), suc calls)
    else ((empty_result, none), suc calls)

abbrev new_id : ℕ → String × ℕ
new_id calls = ("id", calls)

abbrev wait : ℤ → ℕ → Option Error × ℕ
wait delay calls = (none, calls)

abbrev policy : Policy
policy = record {
  id = "wide";
  allowed_capabilities = "probe.http" ∷ "scan.nuclei" ∷ [];
  denied_capabilities = "exploit" ∷ [];
  rate_limit = pos 50;
  concurrency = pos 10;
  provider_concurrency = pos 5;
  host_concurrency = pos 2;
  scan_windows = "Mon 22:00-06:00 UTC" ∷ [];
  allowed_http_methods = "GET" ∷ "HEAD" ∷ [];
  authentication_usage = false;
  headless_browser = false;
  directory_fuzzing = false;
  template_tags = [];
  excluded_template_tags = "dos" ∷ [];
  maximum_payload_size = pos 4096;
  follow_redirects = false;
  cross_origin = true;
  intrusive_checks = false;
  artifact_retention = pos 0;
  moderate_approved = false;
}

abbrev task : Task
task = record {
  id = "t";
  program_id = "p";
  objective = "";
  workflow_definition_id = "";
  status = TaskStatus.running;
  requested_by = "";
}

abbrev plan : StepPlan
plan = record {
  definition = record {
    id = "probe";
    capability = "probe.http";
    provider = "";
    depends_on = [];
    condition = "";
    input = "{}";
    bindings = [];
    retry = record { max_attempts = pos 5; base_delay = pos 0 };
    timeout = pos 0;
    approval_required = false;
    rerun_on_input_change = false;
  };
  state = record {
    run = record {
      id = "1";
      workflow_run_id = "run";
      step_definition_id = "probe";
      capability = "probe.http";
      status = StepStatus.running;
      attempt_count = 0;
      input = "{}";
      output = "";
      error_classification = "";
      error_details = "";
      is_started = true;
      is_completed = false;
      idempotency_key = "key";
      approval_state = "not_required";
    };
    input_hash = "";
  };
  input = "{}";
  approved = false;
  provider = "probe.http";
  parallel_share = 1;
}

abbrev no_scope : String → Bool
no_scope target = false

third_succeeds :
    (run_attempts execute new_id wait policy no_scope task "run" plan 0).0.state.run.attempt_count
    ≡ 3
unfolding run_attempts attempt_loop max_attempts_of wants_retry is_retryable delay_after int64
third_succeeds = refl

run_attempts-Attempted_example :
    Attempted execute new_id wait policy no_scope task "run" plan 0
      (run_attempts execute new_id wait policy no_scope task "run" plan 0).0
      (run_attempts execute new_id wait policy no_scope task "run" plan 0).1
run_attempts-Attempted_example =
    run_attempts-Attempted execute new_id wait policy no_scope task "run" plan 0

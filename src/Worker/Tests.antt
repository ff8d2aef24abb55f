-- ===== src/Worker/Tests.antt =====
-- A worker that logs what it calls, on a delivery of a job for a capability that writes an output.
use Prim.Native.String.{len, ◌++◌ as append}
use enterprise_security_reco.Prelude.{
  String, ◌≡◌, refl, true, false, Option, none, some, List, [], ◌∷◌, pos, ◌==◌, if◌then◌else◌,
  lookup, contains,
}
use enterprise_security_reco.Strings.{is_empty}
use enterprise_security_reco.Sorting.{sort, sorted_insert}
use enterprise_security_reco.Policy.{
  Policy, Common, low, evaluate_at, name_denial, window_denial, requirement_denial, payload_denial,
  input_denial, by_risk,
}
use enterprise_security_reco.Policy.Window.{within_scan_windows}
use enterprise_security_reco.Scope.{
  Rule, Library, Scope, Compilation, normalize_rule, compile_rule, compile_rules, compile_kind,
  compile, copied_rules, digest_rules,
}
use enterprise_security_reco.Capability.{
  Capability, ok, Result, empty_result, execute, execute_authorized, run_validated, authorize, get,
  gate, record_decision, decision_for, audit_of, phase_of, PolicyDecisionRecord, validate,
  validate_authorized,
}
use enterprise_security_reco.Workflow.Input.{value}
use enterprise_security_reco.Queue.{Streams, Job, Delivery, default_names}
use enterprise_security_reco.Queue.Operations.{ack, enqueue, stamped, add_job}
use enterprise_security_reco.Queue.Dispatch.{dispatch, dispatch_request}
use enterprise_security_reco.Queue.Dispatched.{Dispatched, dispatch-Authorized}
use enterprise_security_reco.Errors.{Error}
use enterprise_security_reco.Worker.{
  Service, job_request, put_request, finished_step, own_tool, tool_version_of, persist, store,
  run_job, handle,
}
use enterprise_security_reco.Worker.Settled.{Settled}
use enterprise_security_reco.Worker.Handled.{handle-settles}

abbrev Log : Type 0
Log = List String

abbrev found : Result
found = record empty_result {
  action = record empty_result.action { status = "succeeded"; output = "{\"hosts\":[]}" };
}

abbrev probe : Capability Log
probe = record {
  manifest = record {
    name = "probe.http";
    description = "";
    version = "1";
    risk = low;
    input_schema = "{}";
    output_schema = "{}";
    required_scope_type = "none";
    approval_required = false;
    retry_safe = true;
    idempotent = true;
    supported_providers = [];
    produced_artifact_types = [];
    required_secrets = [];
    policy_requirements = record {
      authentication = false;
      directory_fuzzing = false;
      cross_origin = false;
      intrusive_checks = false;
    };
    default_timeout = pos 0;
  };
  validate = λ req log. (none, log);
  execute = λ req log. ((found, none), "execute" ∷ log);
  validate_definition = none;
}

abbrev open_policy : Policy
open_policy = record {
  id = "open";
  allowed_capabilities = [];
  denied_capabilities = [];
  rate_limit = pos 10;
  concurrency = pos 4;
  provider_concurrency = pos 2;
  host_concurrency = pos 2;
  scan_windows = [];
  allowed_http_methods = "GET" ∷ [];
  authentication_usage = false;
  headless_browser = false;
  directory_fuzzing = false;
  template_tags = [];
  excluded_template_tags = [];
  maximum_payload_size = pos 0;
  follow_redirects = false;
  cross_origin = false;
  intrusive_checks = false;
  artifact_retention = pos 0;
  moderate_approved = false;
}

abbrev toy : Library String
toy = record {
  compile_regexp = λ s. some s;
  find_string_index = λ r v. if r == v then some (0, len v) else none;
  parse_url = λ raw. none;
  canonical_json = λ kind p h o f. append p (append h (append o f));
  rules_json = λ rules. "";
  sha256_hex = λ s. s;
}

abbrev inside : Rule
inside = record { protocol = "https"; host = "a.test"; port = "443"; file = ""; enabled = true }

abbrev job : Job
job = record {
  id = "job";
  program_id = "p";
  action = record {
    id = "a";
    task_id = "t";
    workflow_run_id = "r";
    step_run_id = "s";
    requested_by = "workflow";
    capability = "probe.http";
    reason = "";
    input = "{}";
    idempotency_key = "key";
  };
  provider = "";
  policy = open_policy;
  scope_includes = inside ∷ [];
  scope_excludes = [];
  approved = false;
  attempt = pos 0;
  enqueued_at = none;
  available_at = none;
}

abbrev delivery : Delivery
delivery = record { message_id = "1-0"; job = job }

abbrev queue : Streams Log
queue = record {
  group = "workers";
  consumer = "one";
  max_retries = pos 3;
  retry_base = pos 1000;
  names = default_names;
  encode = λ j. ok "job";
  decode = λ payload. ok job;
  encode_result = λ r. ok "result";
  decimal = λ n. "1";
  now = λ w. pos 7;
  add_time = λ a b. a;
  unix_milli = λ t. t;
  format_time = λ t. "now";
  new_id = λ w. ("id", w);
  exec = λ commands w. (ok [], "transaction" ∷ w);
  x_read_group = λ block count w. (ok [], w);
  x_auto_claim = λ idle count w. (ok [], w);
  is_redis_nil = λ e. true;
  z_range_by_score = λ set max limit w. (ok [], w);
  x_range_one = λ stream id w. (ok [], w);
}

abbrev service : Service Log String
service = record {
  queue = queue;
  registry = record {
    items = ("probe.http", probe) ∷ [];
    now = λ log. record { weekday = 3; hour = 12; minute = 0 };
  };
  library = toy;
  decode_common = λ raw. none;
  already_succeeded = λ key w. (ok false, w);
  persist_result = λ program step tool artifacts action w. (none, "store" ∷ w);
  put = λ request w. (
    ok (record {
      id = "artifact";
      task_id = request.task_id;
      workflow_run_id = request.workflow_run_id;
      step_run_id = request.step_run_id;
      tool_run_id = request.tool_run_id;
      type = request.type;
      content_type = request.content_type;
      size = len request.content;
      sha256 = "";
      storage_location = request.name;
      redaction_state = "redacted";
      sensitive = request.sensitive;
    }),
    "artifact" ∷ w,
  );
  budget = none;
  policy_auditor = some (λ decision log. (none, "audit" ∷ log));
  results_recorder = none;
  error_text = λ e. "error";
  unmarshal = λ raw. none;
  host_from_candidate = λ c. c;
}

-- The result is stored before the message is acknowledged.
calls :
    handle service delivery []
    ≡ (value tt, "transaction" ∷ "store" ∷ "artifact" ∷ "execute" ∷ "audit" ∷ [])
unfolding handle run_job store persist ack job_request put_request finished_step own_tool
    tool_version_of execute execute_authorized run_validated authorize get lookup gate
    record_decision decision_for audit_of phase_of evaluate_at name_denial window_denial
    requirement_denial payload_denial input_denial by_risk within_scan_windows is_empty contains
    compile compile_kind compile_rules compile_rule normalize_rule sort sorted_insert digest_rules
    copied_rules
calls = refl

handle-settles_example :
    Settled service delivery [] ("transaction" ∷ "store" ∷ "artifact" ∷ "execute" ∷ "audit" ∷ [])
handle-settles_example =
    handle-settles service delivery []
      ("transaction" ∷ "store" ∷ "artifact" ∷ "execute" ∷ "audit" ∷ []) calls

abbrev audit : Option (PolicyDecisionRecord → Log → Option Error × Log)
audit = some (λ decision log. (none, "audit" ∷ log))

abbrev undecodable : String → Option Common
undecodable raw = none

dispatches :
    dispatch toy undecodable queue service.registry audit job []
    ≡ (value "", "transaction" ∷ "audit" ∷ [])
unfolding dispatch dispatch_request enqueue stamped add_job validate validate_authorized authorize
    get lookup gate record_decision decision_for audit_of phase_of evaluate_at name_denial
    window_denial requirement_denial payload_denial input_denial by_risk within_scan_windows
    is_empty contains compile compile_kind compile_rules compile_rule normalize_rule sort
    sorted_insert digest_rules copied_rules
dispatches = refl

dispatch-Authorized_example :
    (sc : Scope String) × (compile toy job.scope_includes job.scope_excludes ≡ Compilation.ok sc)
    × Dispatched toy undecodable queue service.registry audit job sc "" []
        ("transaction" ∷ "audit" ∷ [])
dispatch-Authorized_example =
    dispatch-Authorized toy undecodable queue service.registry audit job "" []
      ("transaction" ∷ "audit" ∷ []) dispatches

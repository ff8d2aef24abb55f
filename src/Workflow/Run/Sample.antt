-- ===== src/Workflow/Run/Sample.antt =====
-- A workflow of two steps, the second of which needs an approval, and an engine for it.
use enterprise_security_reco.Prelude.{
  ℕ, suc, String, ◌≡◌, ◌≢◌, refl, Bool, true, false, inl, inr, ◌⊎◌, Option, none, some, List, [],
  ◌∷◌, pos,
}
use enterprise_security_reco.Sorting.Laws.{perm_refl}
use enterprise_security_reco.Errors.{Error, raised}
use enterprise_security_reco.Json.{object, no_members}
use enterprise_security_reco.Domain.{Task, TaskStatus}
use enterprise_security_reco.Policy.{Policy, low}
use enterprise_security_reco.Capability.{Capability, empty_result}
use enterprise_security_reco.Workflow.{Step, Definition}
use enterprise_security_reco.Workflow.Records.{Engine, Surroundings}
use enterprise_security_reco.Workflow.Run.Stays.{Orderly}

-- The number of calls of the executor, and whether the run is cancelled.
pub record World : Type 0 where
  pub calls : ℕ
  pub stopped : Bool

abbrev pub probe : Capability World
probe = record {
  manifest = record {
    name = "probe";
    description = "";
    version = "1";
    risk = low;
    input_schema = "{}";
    output_schema = "{}";
    required_scope_type = "none";
    approval_required = false;
    retry_safe = true;
    idempotent = true;
    supported_providers = [];
    produced_artifact_types = [];
    required_secrets = [];
    policy_requirements = record {
      authentication = false;
      directory_fuzzing = false;
      cross_origin = false;
      intrusive_checks = false;
    };
    default_timeout = pos 0;
  };
  validate = λ req w. (none, w);
  execute = λ req w. ((empty_result, none), w);
  validate_definition = none;
}

abbrev pub policy : Policy
policy = record {
  id = "wide";
  allowed_capabilities = "probe" ∷ [];
  denied_capabilities = [];
  rate_limit = pos 50;
  concurrency = pos 10;
  provider_concurrency = pos 5;
  host_concurrency = pos 2;
  scan_windows = "*" ∷ [];
  allowed_http_methods = "GET" ∷ [];
  authentication_usage = false;
  headless_browser = false;
  directory_fuzzing = false;
  template_tags = [];
  excluded_template_tags = [];
  maximum_payload_size = pos 4096;
  follow_redirects = false;
  cross_origin = true;
  intrusive_checks = false;
  artifact_retention = pos 0;
  moderate_approved = false;
}

-- Every approval is given; each call of the executor succeeds and is counted.
abbrev pub engine : Engine World
engine = record {
  registry = record {
    items = ("probe", probe) ∷ [];
    now = λ w. record { weekday = 0; hour = 0; minute = 0 };
  };
  execute = λ req w. ((empty_result, none), record w { calls = suc w.calls });
  persister = none;
  approval = some (λ s risk w. ((true, none), w));
  policy = policy;
  scope = λ target. true;
  budget = none;
  max_parallel = pos 2;
}

abbrev pub stop_error : Bool → Option Error
stop_error true = some (raised "context canceled")
stop_error false = none

abbrev pub around : Surroundings World
around = record {
  meanwhile = λ w. w;
  controls = λ w. (false, w.stopped);
  context_err = λ w. none;
  run_err = λ w. stop_error w.stopped;
  wait = λ delay w. (none, w);
  new_id = λ w. ("id", w);
  arrival = λ plans w. plans;
  sha256_hex = λ s. s;
  unmarshal = λ s. some (object no_members);
  marshal = λ j. "{}";
  error_text = λ e. "error";
  host_from_candidate = λ s. s;
}

cancelled_seen : (stopped : Bool) → stop_error stopped ≢ none → (stopped ≡ true) ⊎ (false ≡ true)
cancelled_seen true h = inl refl
cancelled_seen false h = elim (h refl) [ ]

pub around-Orderly : Orderly engine around
around-Orderly = record {
  execute = λ req w h. h;
  new_id = λ w h. h;
  wait = λ delay w h. h;
  persist = λ f same s w h. cc;
  acquire = λ f same req w h. cc;
  release = λ f same req w give got v h. cc;
  seen = λ w h. elim (cancelled_seen w.stopped h) [ inl c ↦ inl c | inr never ↦ cc ];
  arrival = λ plans w. perm_refl plans;
}

abbrev pub step : String → List String → Bool → Step
step id deps approval = record {
  id = id;
  capability = "probe";
  provider = "";
  depends_on = deps;
  condition = "";
  input = "{}";
  bindings = [];
  retry = record { max_attempts = pos 1; base_delay = pos 0 };
  timeout = pos 0;
  approval_required = approval;
  rerun_on_input_change = false;
}

abbrev pub crawl : Step
crawl = step "crawl" ("dns" ∷ []) true

abbrev pub dns : Step
dns = step "dns" [] false

abbrev pub sample : Definition
sample = record {
  id = "d";
  name = "sample";
  version = "1";
  description = "";
  steps = crawl ∷ dns ∷ [];
  default_policy_requirements = "";
}

abbrev pub task : Task
task = record {
  id = "t";
  program_id = "p";
  objective = "";
  workflow_definition_id = "d";
  status = TaskStatus.running;
  requested_by = "analyst";
}

abbrev pub any_json : String → Bool
any_json raw = true

abbrev pub idle : World
idle = record { calls = 0; stopped = false }

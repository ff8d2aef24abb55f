-- ===== src/Capability/Tests.antt =====
-- The registry at concrete capabilities, over a state that logs what happened.
use enterprise_security_reco.Prelude.{
  String, ◌≡◌, refl, true, false, Option, none, some, List, [], ◌∷◌, pos, inl, lookup, contains,
}
use enterprise_security_reco.Strings.{is_empty}
use enterprise_security_reco.Sorting.{sort_strings, sort, sorted_insert}
use enterprise_security_reco.Errors.{Error}
use enterprise_security_reco.Policy.{
  Policy, Risk, low, high, moderate, allow, Requirements, Common, evaluate_at, name_denial,
  window_denial, requirement_denial, payload_denial, input_denial, by_risk,
}
use enterprise_security_reco.Policy.Window.{Instant, within_scan_windows}
use enterprise_security_reco.Policy.Decide.{Permitted}
use enterprise_security_reco.Capability.{
  Manifest, Request, Capability, Registry, ok, empty_result, get, record_decision, audit_of,
  decision_for, authorize, gate, execute, execute_authorized, run_validated, phase_of,
}
use enterprise_security_reco.Capability.Gate.{Authorized, execute_success, execute_stops}
use enterprise_security_reco.Capability.Multi.{
  Multi, new_multi, provider, merge_providers, sort_providers, merge_requirements,
}
use enterprise_security_reco.Capability.Providers.{new_multi-allow}

abbrev Log : Type 0
Log = List String

abbrev quiet : Requirements
quiet = record {
  authentication = false;
  directory_fuzzing = false;
  cross_origin = false;
  intrusive_checks = false;
}

abbrev manifest_of : String → Risk → Requirements → Manifest
manifest_of name risk requirements = record {
  name = name;
  description = "";
  version = "1";
  risk = risk;
  input_schema = "{}";
  output_schema = "{}";
  required_scope_type = "none";
  approval_required = false;
  retry_safe = true;
  idempotent = true;
  supported_providers = [];
  produced_artifact_types = [];
  required_secrets = [];
  policy_requirements = requirements;
  default_timeout = pos 0;
}

-- A capability that logs each of its calls.
abbrev logging : String → Risk → Requirements → Capability Log
logging name risk requirements = record {
  manifest = manifest_of name risk requirements;
  validate = λ req log. (none, "validate" ∷ log);
  execute = λ req log. ((empty_result, none), "execute" ∷ log);
  validate_definition = none;
}

abbrev noon : Instant
noon = record { weekday = 3; hour = 12; minute = 0 }

abbrev registry : Registry Log
registry = record {
  items =
      ("probe.http", logging "probe.http" low quiet)
      ∷ ("exploit", logging "exploit" high quiet)
      ∷ [];
  now = λ log. noon;
}

abbrev open_policy : Policy
open_policy = record {
  id = "open";
  allowed_capabilities = [];
  denied_capabilities = [];
  rate_limit = pos 10;
  concurrency = pos 4;
  provider_concurrency = pos 2;
  host_concurrency = pos 2;
  scan_windows = [];
  allowed_http_methods = "GET" ∷ [];
  authentication_usage = false;
  headless_browser = false;
  directory_fuzzing = false;
  template_tags = [];
  excluded_template_tags = [];
  maximum_payload_size = pos 0;
  follow_redirects = false;
  cross_origin = false;
  intrusive_checks = false;
  artifact_retention = pos 0;
  moderate_approved = false;
}

abbrev request : String → Request Log
request capability = record {
  action = record {
    id = "a1";
    task_id = "t1";
    workflow_run_id = "w1";
    step_run_id = "s1";
    requested_by = "workflow";
    capability = capability;
    reason = "";
    input = "{}";
    idempotency_key = "k1";
  };
  program_id = "p1";
  provider = "";
  approved = false;
  policy = open_policy;
  scope = λ target. true;
  policy_phase = "";
  decision_recorder = some (λ decision log. (none, "audit" ∷ log));
}

abbrev undecodable : String → Option Common
undecodable s = none

probe_runs :
    execute undecodable registry (request "probe.http") []
    ≡ ((empty_result, none), "execute" ∷ "validate" ∷ "audit" ∷ [])
unfolding execute execute_authorized run_validated authorize get lookup gate record_decision
    decision_for audit_of phase_of evaluate_at name_denial window_denial requirement_denial
    payload_denial input_denial by_risk within_scan_windows is_empty contains
probe_runs = refl

execute_success_example :
    (c : Capability Log) × (w₁ w₂ : Log) × Authorized undecodable registry
      (request "probe.http")
      []
      c
      w₁
    × (c.validate (request "probe.http") w₁ ≡ (none, w₂))
    × (c.execute (request "probe.http") w₂
        ≡ ((empty_result, none), "execute" ∷ "validate" ∷ "audit" ∷ []))
execute_success_example =
    execute_success undecodable registry (request "probe.http") []
      ("execute" ∷ "validate" ∷ "audit" ∷ []) empty_result probe_runs

found_exploit : get registry "exploit" ≡ some (logging "exploit" high quiet)
unfolding get lookup
found_exploit = refl

unapproved : ¬ Permitted undecodable open_policy "exploit" high false quiet "{}" noon
unapproved p = cc (p.cleared)

execute_stops_example :
    (e : Error) × (execute undecodable registry (request "exploit") [] ≡ (
      (empty_result, some e),
      (record_decision
          (request "exploit")
          (audit_of undecodable registry (logging "exploit" high quiet) (request "exploit") [])
          []).1,
    ))
execute_stops_example =
    execute_stops undecodable registry (request "exploit") [] (logging "exploit" high quiet)
      found_exploit (inl unapproved)

abbrev scanners : List (String × Capability Log)
scanners =
    ("fast", logging "scan" moderate (record quiet { cross_origin = true }))
    ∷ ("slow", logging "scan" moderate quiet)
    ∷ []

abbrev scan : Multi Log
scan = record {
  manifest = record (manifest_of "scan" moderate (record quiet { cross_origin = true })) {
    supported_providers = "fast" ∷ "slow" ∷ [];
  };
  default_provider = "slow";
  providers = scanners;
}

scan_made : new_multi "slow" scanners ≡ ok scan
unfolding new_multi lookup merge_providers sort_providers merge_requirements sort_strings sort
    sorted_insert
scan_made = refl

slow_found : provider scan "" ≡ some (logging "scan" moderate quiet)
unfolding provider lookup is_empty
slow_found = refl

abbrev scan_policy : Policy
scan_policy = record open_policy { cross_origin = true }

scan_allowed :
    (evaluate_at undecodable scan_policy "scan" moderate true scan.manifest.policy_requirements "{}"
      noon).decision
    ≡ allow
unfolding evaluate_at name_denial window_denial requirement_denial payload_denial input_denial
    by_risk within_scan_windows is_empty contains
scan_allowed = refl

new_multi-allow_example :
    (evaluate_at undecodable scan_policy "scan" moderate true quiet "{}" noon).decision ≡ allow
new_multi-allow_example =
    new_multi-allow undecodable "slow" scanners scan "" (logging "scan" moderate quiet) scan_policy
      moderate true "{}" noon scan_made slow_found scan_allowed

-- ===== src/Workflow/Tests.antt =====
-- A workflow of three steps: its order, its checks, and a cycle that is found.
use mathlib.Core.Path.{subst}
use enterprise_security_reco.Prelude.{
  String, ◌≡◌, ◌≢◌, refl, ◌↔◌, Bool, true, false, none, some, List, [], ◌∷◌, Memᴰ, pos, map,
  contains, lookup,
}
use enterprise_security_reco.Strings.{split, cut, is_empty, has_prefix}
use enterprise_security_reco.Sorting.{sort, sorted_insert, sort_strings}
use enterprise_security_reco.Policy.{low}
use enterprise_security_reco.Capability.{
  Capability, Registry, empty_result, get, validate_definition_input,
}
use enterprise_security_reco.Workflow.{Step, Definition}
use enterprise_security_reco.Workflow.Graph.{
  by_id, ids_of, step_of, visit, visit_all, close_visit, search_from, search_all,
  transitively_depends_on, topological, add, put_out,
}
use enterprise_security_reco.Workflow.Checks.{
  validate, no_fuel, when, first_error, check_steps, step_error, capability_error, schema_error,
  check_references, check_dependency, check_binding, check_cycles, visit_error, check_sources,
  check_source, binding_source, condition_source, cyclic_dependency,
}
use enterprise_security_reco.Workflow.Acyclic.{Closed, deps_in}
use enterprise_security_reco.Workflow.Order.{DepsFirst}
use enterprise_security_reco.Workflow.Schedule.{validate-schedules}
use enterprise_security_reco.Workflow.Ancestors.{ReadsAbove, validate-ReadsAbove}
use enterprise_security_reco.Workflow.Fuel.{Layering, check_cycles_iff, validate_fuelled}

abbrev silent : Capability Unit
silent = record {
  manifest = record {
    name = "probe";
    description = "";
    version = "1";
    risk = low;
    input_schema = "{}";
    output_schema = "{}";
    required_scope_type = "none";
    approval_required = false;
    retry_safe = true;
    idempotent = true;
    supported_providers = [];
    produced_artifact_types = [];
    required_secrets = [];
    policy_requirements = record {
      authentication = false;
      directory_fuzzing = false;
      cross_origin = false;
      intrusive_checks = false;
    };
    default_timeout = pos 0;
  };
  validate = λ req w. (none, w);
  execute = λ req w. ((empty_result, none), w);
  validate_definition = none;
}

abbrev registry : Registry Unit
registry = record {
  items = ("probe", silent) ∷ [];
  now = λ w. record { weekday = 0; hour = 0; minute = 0 };
}

abbrev any_json : String → Bool
any_json raw = true

abbrev plain : String → List String → Step
plain id deps = record {
  id = id;
  capability = "probe";
  provider = "";
  depends_on = deps;
  condition = "";
  input = "{}";
  bindings = [];
  retry = record { max_attempts = pos 1; base_delay = pos 0 };
  timeout = pos 0;
  approval_required = false;
  rerun_on_input_change = false;
}

abbrev report : Step
report = record (plain "report" ("crawl" ∷ [])) {
  condition = "success:crawl";
  bindings = ("hosts", "dns.output.hosts") ∷ [];
}

abbrev of_steps : List Step → Definition
of_steps steps = record {
  id = "";
  name = "sample";
  version = "1";
  description = "";
  steps = steps;
  default_policy_requirements = "";
}

abbrev sample : Definition
sample = of_steps (report ∷ plain "crawl" ("dns" ∷ []) ∷ plain "dns" [] ∷ [])

sample_valid : validate any_json registry sample ≡ none
unfolding validate when first_error check_steps step_error capability_error schema_error
    check_references check_dependency check_binding check_cycles visit_error check_sources
    check_source binding_source condition_source by_id ids_of step_of visit visit_all close_visit
    search_from search_all transitively_depends_on split cut is_empty has_prefix get
    validate_definition_input contains lookup
sample_valid = refl

sample_order : map (λ s. s.id) (topological sample) ≡ "dns" ∷ "crawl" ∷ "report" ∷ []
unfolding topological add put_out by_id ids_of step_of sort sorted_insert sort_strings contains
    lookup
sample_order = refl

validate-schedules_example :
    DepsFirst [] (topological sample)
    × ((s : Step) → Memᴰ s (topological sample) ↔ Memᴰ s sample.steps)
validate-schedules_example = validate-schedules any_json registry sample sample_valid

validate-ReadsAbove_example : ReadsAbove (by_id sample.steps) report
validate-ReadsAbove_example =
    validate-ReadsAbove any_json registry sample sample_valid report (Memᴰ.head refl)

validate_fuelled_example : validate any_json registry sample ≢ some no_fuel
validate_fuelled_example = validate_fuelled any_json registry sample

abbrev looped : Definition
looped = of_steps (plain "crawl" ("dns" ∷ []) ∷ plain "dns" ("crawl" ∷ []) ∷ [])

looped_refused : validate any_json registry looped ≡ some (cyclic_dependency "crawl")
unfolding validate when first_error check_steps step_error capability_error schema_error
    check_references check_dependency check_binding check_cycles visit_error by_id ids_of step_of
    visit visit_all is_empty has_prefix get validate_definition_input contains lookup close_visit
looped_refused = refl

abbrev pair : List (String × Step)
pair = ("crawl", plain "crawl" ("dns" ∷ [])) ∷ ("dns", plain "dns" []) ∷ []

pair-Closed : Closed pair
unfolding ids_of step_of lookup
pair-Closed id dep (Memᴰ.head e) on =
    let on' : Memᴰ dep ("dns" ∷ []) = subst (λ w. Memᴰ dep (deps_in pair w)) e on in Memᴰ.tail on'
pair-Closed id dep (Memᴰ.tail (Memᴰ.head e)) on =
    let on' : Memᴰ dep [] = subst (λ w. Memᴰ dep (deps_in pair w)) e on in elim on' [ ]
pair-Closed id dep (Memᴰ.tail (Memᴰ.tail p)) on = elim p [ ]

check_cycles_iff_example : (check_cycles pair ≡ none) ↔ Layering pair
check_cycles_iff_example = check_cycles_iff pair pair-Closed

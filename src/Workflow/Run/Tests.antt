-- ===== src/Workflow/Run/Tests.antt =====
-- A run of two steps, the second of which needs an approval.
use mathlib.Core.Path.{subst}
use enterprise_security_reco.Prelude.{
  ℕ, String, ◌≡◌, refl, sym, ap, ◌||◌, true, false, Option, none, some, List, [], ◌∷◌, Memᴰ, Permᴰ,
  contains, lookup, insert, ◌<◌, Distinct,
}
use enterprise_security_reco.Strings.{split, cut, is_empty, has_prefix}
use enterprise_security_reco.Sorting.{sort, sorted_insert, sort_strings}
use enterprise_security_reco.Domain.{RunStatus, StepStatus}
use enterprise_security_reco.Capability.{get, validate_definition_input}
use enterprise_security_reco.Workflow.{Step, State, StepState}
use enterprise_security_reco.Workflow.Graph.{
  by_id, ids_of, step_of, visit, visit_all, close_visit, search_from, search_all,
  transitively_depends_on, topological, add, put_out,
}
use enterprise_security_reco.Workflow.Checks.{
  validate, when, first_error, check_steps, step_error, capability_error, schema_error,
  check_references, check_dependency, check_binding, check_cycles, visit_error, check_sources,
  check_source, binding_source, condition_source,
}
use enterprise_security_reco.Workflow.Keys.{step_ids}
use enterprise_security_reco.Workflow.Attempts.{
  StepPlan, StepOutcome, start_outcome, max_attempts_of, wants_retry, is_retryable, delay_after,
  int64, attempt_loop, run_attempts,
}
use enterprise_security_reco.Workflow.Condition.{condition, has_succeeded}
use enterprise_security_reco.Workflow.Input.{is_skipped, bind_all, decode_target, resolve_input}
use enterprise_security_reco.Workflow.Records.{
  Ending, returned, save, terminal, dependencies_in, dependencies_succeeded, new_step, keep_id,
  transition_step,
}
use enterprise_security_reco.Workflow.Plans.{
  Round, Progress, going, ended, mark, provider_of, start_step, answer_step, approve_step,
  check_step, input_step, plan_step, plan_ready,
}
use enterprise_security_reco.Workflow.Wave.{
  rank_in, attempts_of, execute_step, run_plan, run_plans, execute_wave, by_rank, Recorded,
  summarise, record_outcome, record_outcomes,
}
use enterprise_security_reco.Workflow.Run.{
  Standing, parallelism, ready_steps, after_wave, execute_plans, after_plans, with_ready, one_round,
  rounds, already_done, first_standing, new_state, run_from, starting, run,
}
use enterprise_security_reco.Workflow.Run.Sets.{remaining}
use enterprise_security_reco.Workflow.Run.Planning.{IsDone, Finished}
use enterprise_security_reco.Workflow.Run.Ends.{fresh_round, round-advances}
use enterprise_security_reco.Workflow.Run.Results.{run-ends}
use enterprise_security_reco.Workflow.Run.Completed.{run-completed}
use enterprise_security_reco.Workflow.Run.Determined.{record_outcomes-order}
use enterprise_security_reco.Workflow.Run.Approved.{DependencyMet, planned-approved, planned-ready}
use enterprise_security_reco.Workflow.Run.Effects.{Granted}
use enterprise_security_reco.Workflow.Run.Sample.{
  World, around-Orderly, probe, engine, around, crawl, dns, sample, task, any_json, idle,
}

run-ends_example :
    (out : Ending × World) × (run any_json engine around sample none task idle ≡ some out)
run-ends_example = run-ends any_json engine around around-Orderly sample none task idle

abbrev zero_state : State
zero_state = record {
  run = record {
    id = "";
    task_id = "";
    workflow_definition_id = "";
    workflow_version = "";
    status = RunStatus.pending;
    is_completed = false;
    trigger_source = "";
    summary = "";
  };
  steps = [];
  events = [];
}

abbrev state_of : Option (Ending × World) → State
state_of (some (returned (some s) err, w)) = s
state_of other = zero_state

abbrev calls_of : Option (Ending × World) → ℕ
calls_of (some (ending, w)) = w.calls
calls_of none = 0

abbrev sample_run : Option (Ending × World)
sample_run = run any_json engine around sample none task idle

abbrev afterwards : World
afterwards = record { calls = 2; stopped = false }

sample_completes :
    (sample_run ≡ some (returned (some (state_of sample_run)) none, afterwards))
    × ((state_of sample_run).run.status ≡ RunStatus.completed)
unfolding run starting new_state run_from first_standing already_done rounds one_round ready_steps
    with_ready parallelism plan_ready plan_step input_step check_step approve_step answer_step
    start_step transition_step new_step keep_id save after_plans execute_plans execute_wave
    run_plans run_plan execute_step attempts_of run_attempts attempt_loop max_attempts_of
    wants_retry is_retryable delay_after int64 by_rank rank_in record_outcomes record_outcome
    summarise after_wave terminal dependencies_succeeded dependencies_in has_succeeded is_skipped
    mark provider_of resolve_input decode_target bind_all condition topological add put_out by_id
    ids_of step_of sort sorted_insert sort_strings contains lookup insert validate when first_error
    check_steps step_error capability_error schema_error check_references check_dependency
    check_binding check_cycles visit_error check_sources check_source binding_source
    condition_source visit visit_all close_visit search_from search_all transitively_depends_on
    split cut is_empty has_prefix get validate_definition_input
sample_completes = (refl, refl)

run-completed_example : IsDone (state_of sample_run) "crawl"
run-completed_example =
    run-completed any_json engine around around-Orderly sample none task idle afterwards
      (state_of sample_run) none crawl sample_completes.0 sample_completes.1 (Memᴰ.head refl)

-- The steps that the round is about, in the order of their execution.
abbrev ordered : List Step
ordered = dns ∷ crawl ∷ []

abbrev resolved : StepState
resolved = record {
  run = record {
    id = "1";
    workflow_run_id = "";
    step_definition_id = "dns";
    capability = "probe";
    status = StepStatus.succeeded;
    attempt_count = 1;
    input = "{}";
    output = "";
    error_classification = "";
    error_details = "";
    is_started = true;
    is_completed = true;
    idempotency_key = "";
    approval_state = "not_required";
  };
  input_hash = "";
}

abbrev half_way : Standing
half_way = record {
  state = record zero_state { steps = ("dns", resolved) ∷ [] };
  finished = "dns" ∷ [];
  blocked = [];
}

abbrev planned : Progress Round World
planned =
    plan_ready engine around 2 (ready_steps ordered half_way) (going (fresh_round half_way) idle)

abbrev round_of : Progress Round World → Round
round_of (going r w) = r
round_of (ended ending w) = fresh_round half_way

abbrev no_plan : StepPlan
no_plan = record {
  definition = dns;
  state = resolved;
  input = "";
  approved = false;
  provider = "";
  parallel_share = 0;
}

abbrev first_plan : List StepPlan → StepPlan
first_plan [] = no_plan
first_plan (p ∷ plans) = p

abbrev plan : StepPlan
plan = first_plan (round_of planned).plans

crawl_planned :
    (planned ≡ going (round_of planned) idle)
    × ((round_of planned).plans ≡ plan ∷ [])
    × (plan.definition ≡ crawl)
unfolding ready_steps plan_ready plan_step input_step check_step approve_step answer_step start_step
    transition_step new_step keep_id dependencies_succeeded dependencies_in has_succeeded is_skipped
    mark provider_of resolve_input decode_target bind_all condition contains lookup insert split cut
    is_empty has_prefix get
crawl_planned = (refl, refl, refl)

crawl_listed : Memᴰ plan (round_of planned).plans
crawl_listed = subst (λ ps. Memᴰ plan ps) (sym crawl_planned.1) (Memᴰ.head refl)

probe_known : get engine.registry plan.definition.capability ≡ some probe
unfolding get lookup
probe_known =
    let same = crawl_planned.2 in
    subst (λ s. get engine.registry s.capability ≡ some probe) (sym same) refl

planned-approved_example :
    (plan.approved ≡ true) × Granted engine plan.definition probe.manifest.risk
planned-approved_example =
    planned-approved engine around ordered 2 half_way (round_of planned) plan idle idle probe
      crawl_planned.0 crawl_listed probe_known
      (ap (λ s. s.approval_required || false) crawl_planned.2)

planned-ready_example :
    Memᴰ plan.definition ordered
    × ((d : String) → Memᴰ d plan.definition.depends_on → DependencyMet half_way.state d)
    × (¬ Memᴰ plan.definition.id half_way.finished)
    × (¬ Memᴰ plan.definition.id half_way.blocked)
planned-ready_example =
    planned-ready engine around ordered 2 half_way (round_of planned) plan idle idle crawl_planned.0
      crawl_listed

half_way-Finished : Finished (step_ids ordered) half_way.state half_way.finished
unfolding lookup has_succeeded is_skipped
half_way-Finished = record {
  done = λ x m. elim m [
    | Memᴰ.head same ↦
        subst (λ w. IsDone half_way.state w) (sym same)
          (record { found = resolved; listed = refl; done = refl })
    | Memᴰ.tail m' ↦ elim m' [ ]
  ];
  distinct = (λ m. elim m [ ], tt);
  inside = λ x m. elim m [ Memᴰ.head same ↦ Memᴰ.head same | Memᴰ.tail m' ↦ elim m' [ ] ];
}

ordered-Distinct : Distinct (step_ids ordered)
ordered-Distinct =
    (λ m. elim m [ Memᴰ.head same ↦ cc | Memᴰ.tail m' ↦ elim m' [ ] ], (λ m. elim m [ ], tt))

abbrev next : Progress Standing World
next = one_round engine around task ordered half_way idle

abbrev standing_of : Progress Standing World → Standing
standing_of (going at w) = at
standing_of (ended ending w) = half_way

abbrev one_call : World
one_call = record { calls = 1; stopped = false }

round_goes : next ≡ going (standing_of next) one_call
unfolding run starting new_state run_from first_standing already_done rounds one_round ready_steps
    with_ready parallelism plan_ready plan_step input_step check_step approve_step answer_step
    start_step transition_step new_step keep_id save after_plans execute_plans execute_wave
    run_plans run_plan execute_step attempts_of run_attempts attempt_loop max_attempts_of
    wants_retry is_retryable delay_after int64 by_rank rank_in record_outcomes record_outcome
    summarise after_wave terminal dependencies_succeeded dependencies_in has_succeeded is_skipped
    mark provider_of resolve_input decode_target bind_all condition topological add put_out by_id
    ids_of step_of sort sorted_insert sort_strings contains lookup insert validate when first_error
    check_steps step_error capability_error schema_error check_references check_dependency
    check_binding check_cycles visit_error check_sources check_source binding_source
    condition_source visit visit_all close_visit search_from search_all transitively_depends_on
    split cut is_empty has_prefix get validate_definition_input
round_goes = refl

round-advances_example :
    Finished (step_ids ordered) (standing_of next).state (standing_of next).finished
    × (remaining ordered (standing_of next).finished (standing_of next).blocked
        < remaining ordered half_way.finished half_way.blocked)
round-advances_example =
    round-advances engine around around-Orderly task ordered ordered-Distinct half_way
      (standing_of next) idle one_call round_goes half_way-Finished

abbrev dns_outcome : StepOutcome
dns_outcome = start_outcome no_plan

abbrev crawl_outcome : StepOutcome
crawl_outcome = start_outcome (record no_plan { definition = crawl })

abbrev before_record : Progress Recorded World
before_record = going (record { state = zero_state; finished = []; primary = none }) idle

record_outcomes-order_example :
    record_outcomes engine around (by_rank ordered (crawl_outcome ∷ dns_outcome ∷ [])) before_record
    ≡ record_outcomes engine around
        (by_rank ordered (dns_outcome ∷ crawl_outcome ∷ []))
        before_record
record_outcomes-order_example =
    record_outcomes-order engine around ordered (crawl_outcome ∷ dns_outcome ∷ [])
      (dns_outcome ∷ crawl_outcome ∷ []) before_record (Permᴰ.swap refl refl)
      (λ m. elim m [ Memᴰ.head same ↦ cc | Memᴰ.tail m' ↦ elim m' [ ] ], (λ m. elim m [ ], tt))
      (λ x m. elim m [
        | Memᴰ.head same ↦ Memᴰ.tail (Memᴰ.head same)
        | Memᴰ.tail m' ↦ elim m' [ Memᴰ.head same ↦ Memᴰ.head same | Memᴰ.tail m'' ↦ elim m'' [ ] ]
      ])

-- ===== src/Workflow/Wave.antt =====
-- internal/workflow/workflow.go: `executeStep`, `executeWave`, and what `Run` makes of the
-- outcomes of a wave. The steps of a wave run one after another here, in the order in which they
-- end.
use enterprise_security_reco.Prelude.{
  ℕ, suc, String, Bool, true, false, ◌&&◌, not, Option, none, some, List, [], ◌∷◌, ◌==◌,
  if◌then◌else◌, leb,
}
use enterprise_security_reco.Strings.{is_empty}
use enterprise_security_reco.Sorting.{sort}
use enterprise_security_reco.Errors.{Error}
use enterprise_security_reco.Domain.{StepStatus, Task}
use enterprise_security_reco.Budget.Hosts.{hosts_from_input}
use enterprise_security_reco.Capability.{Either, ok, err}
use enterprise_security_reco.Workflow.{Step, State, StepState}
use enterprise_security_reco.Workflow.Attempts.{
  StepPlan, StepOutcome, start_outcome, complete_step, run_attempts,
}
use enterprise_security_reco.Workflow.Records.{
  Engine, Surroundings, returned, add_event, set_step, save, execution_classification,
}
use enterprise_security_reco.Workflow.Plans.{Progress, going, ended, mark}

-- Sets the parallel share of every plan of the wave.
abbrev pub share_among : ℕ → List StepPlan → List StepPlan
share_among n [] = []
share_among n (p ∷ plans) = record p { parallel_share = n } ∷ share_among n plans

-- The place of a step in the order of execution; a step that it lacks has the zero of a map.
unfoldable pub rank_in : List Step → String → ℕ
rank_in [] id = 0
rank_in (s ∷ ordered) id = let later = rank_in ordered id in if s.id == id then 0 else suc later

-- The outcome of a step that did not get its lease.
abbrev pub unleased : StepPlan → Error → StepOutcome
unleased plan failure = complete_step (record (start_outcome plan) { err = some failure })

abbrev pub is_nil_error : Option Error → Bool
is_nil_error none = true
is_nil_error (some e) = false

module _ {W : Type 0} (e : Engine W) (around : Surroundings W) (task : Task) (run_id : String) where
  unfoldable pub attempts_of : StepPlan → W → StepOutcome × W
  attempts_of plan w =
      run_attempts e.execute around.new_id around.wait e.policy e.scope task run_id plan w

  -- The attempts under a lease, which is given back at the end.
  unfoldable pub under_lease : StepPlan → Either (W → W) × W → StepOutcome × W
  under_lease plan (err failure, w) = (unleased plan failure, w)
  under_lease plan (ok release, w) = let (o, w') = attempts_of plan w in (o, release w')

  unfoldable pub execute_step : StepPlan → W → StepOutcome × W
  execute_step plan w = elim e.budget [
    | none ↦ attempts_of plan w
    | some acquire ↦ under_lease plan (
        acquire
          (record {
            program_id = task.program_id;
            provider = plan.provider;
            hosts = hosts_from_input around.unmarshal around.host_from_candidate plan.input;
          })
          w)
  ]

  -- The goroutine of a plan.
  unfoldable pub run_plan : StepPlan → W → StepOutcome × W
  run_plan plan w =
      let (o, w') = execute_step plan w in
      (
        record o { primary_failure = not (is_nil_error o.err) && is_nil_error (around.run_err w') },
        w',
      )

  unfoldable pub run_plans : List StepPlan → W → List StepOutcome × W
  run_plans [] w = ([], w)
  run_plans (plan ∷ plans) w =
      let (o, w') = run_plan plan w in let (os, w'') = run_plans plans w' in (o ∷ os, w'')

  unfoldable pub execute_wave : List StepPlan → W → List StepOutcome × W
  execute_wave plans w = run_plans (around.arrival plans w) w

-- `sort.Slice` by rank.
unfoldable pub by_rank : List Step → List StepOutcome → List StepOutcome
by_rank ordered outcomes =
    sort (λ a b. leb (rank_in ordered a.definition.id) (rank_in ordered b.definition.id)) outcomes

-- What the recording of a wave's outcomes has made so far.
pub record Recorded : Type 0 where
  pub state : State
  pub finished : List String
  pub primary : Option StepOutcome

abbrev pub succeeded_state : StepOutcome → StepState
succeeded_state o = record o.state {
  run = record o.state.run { status = StepStatus.succeeded; output = o.result.action.output };
}

abbrev pub unsuccessful_state : StepOutcome → StepStatus → String → String → StepState
unsuccessful_state o status class details = record o.state {
  run = record o.state.run {
    status = status;
    error_classification = class;
    error_details = details;
  };
}

-- The output of the step that reports the changes becomes the summary of the run.
unfoldable pub summarise : StepOutcome → State → State
summarise o s =
    if o.definition.capability == "report.changes" && not (is_empty o.result.action.output)
    then record s { run = record s.run { summary = o.result.action.output } }
    else s

abbrev pub first_failure : Option StepOutcome → StepOutcome → Option StepOutcome
first_failure none o = some o
first_failure (some earlier) o = some earlier

module _ {W : Type 0} (e : Engine W) (around : Surroundings W) where
  -- A failure of the step, or one that the end of the wave brought.
  abbrev pub unsuccessful : Bool → StepOutcome → Error → Recorded → Recorded
  unsuccessful true o failure r = record r {
    state =
        add_event
          (set_step o.definition.id
            (unsuccessful_state o StepStatus.failed (execution_classification o.result failure)
              (around.error_text failure))
            r.state)
          "step_failed" o.definition.id (around.error_text failure);
    primary = first_failure r.primary o;
  }
  unsuccessful false o failure r = record r {
    state =
        add_event
          (set_step o.definition.id
            (unsuccessful_state o StepStatus.cancelled "cancelled" (around.error_text failure))
            r.state)
          "step_cancelled" o.definition.id "cancelled because the workflow wave stopped";
  }

  unfoldable pub record_outcome : StepOutcome → Option Error → Recorded → Recorded
  record_outcome o none r = record r {
    state =
        add_event (summarise o (set_step o.definition.id (succeeded_state o) r.state))
          "step_succeeded" o.definition.id o.result.action.summary;
    finished = mark o.definition.id r.finished;
  }
  record_outcome o (some failure) r = unsuccessful o.primary_failure o failure r

  -- After a save: its error ends the run.
  abbrev pub saved : Recorded → Option Error × W → Progress Recorded W
  saved r (none, w) = going r w
  saved r (some failure, w) = ended (returned (some r.state) (some failure)) w

  unfoldable pub record_outcomes : List StepOutcome → Progress Recorded W → Progress Recorded W
  record_outcomes outcomes (ended ending w) = ended ending w
  record_outcomes [] (going r w) = going r w
  record_outcomes (o ∷ outcomes) (going r w) =
      let r' = record_outcome o o.err r in
      record_outcomes outcomes (saved r' (save e around r'.state w))

-- ===== src/Workflow/Run.antt =====
-- internal/workflow/workflow.go: `Run`. A round is one turn of its loop; the loop recurses on fuel.
pub mod Sets
pub mod Effects
pub mod Planning
pub mod Planned
pub mod Readied
pub mod Recording
pub mod Settled
pub mod Stays
pub mod Ready
pub mod Waves
pub mod Ends
pub mod Unfinished
pub mod Unended
pub mod Completed
pub mod Approved
pub mod Determined
pub mod Results
pub mod Sample
mod Tests
use enterprise_security_reco.Prelude.{
  ℕ, zero, suc, String, Bool, true, false, ◌&&◌, ◌||◌, not, Option, none, some, List, [], ◌∷◌, ◌==◌,
  if◌then◌else◌, ltb, length, contains, lookup, ℤ, pos, negsuc,
}
use enterprise_security_reco.Errors.{Error, raised}
use enterprise_security_reco.Domain.{StepStatus, RunStatus, WorkflowRun, Task}
use enterprise_security_reco.Workflow.{Step, State, StepState, Definition}
use enterprise_security_reco.Workflow.Graph.{topological}
use enterprise_security_reco.Workflow.Checks.{validate}
use enterprise_security_reco.Workflow.Attempts.{StepPlan, StepOutcome}
use enterprise_security_reco.Workflow.Condition.{has_succeeded}
use enterprise_security_reco.Workflow.Records.{
  Engine, Surroundings, Ending, returned, add_event, dependencies_succeeded,
  execution_classification, save, terminal, fail, pause,
}
use enterprise_security_reco.Workflow.Plans.{Round, Progress, going, ended, stop, mark, plan_ready}
use enterprise_security_reco.Workflow.Wave.{
  share_among, by_rank, Recorded, execute_wave, record_outcomes, is_nil_error,
}

-- Between two rounds: the state of the run and its two sets.
pub record Standing : Type 0 where
  pub state : State
  pub finished : List String
  pub blocked : List String

-- `maxParallel`.
unfoldable pub parallelism : ℤ → ℕ
parallelism (pos zero) = 1
parallelism (pos (suc n)) = suc n
parallelism (negsuc n) = 1

unfoldable pub ready_steps : List Step → Standing → List Step
ready_steps [] at = []
ready_steps (s ∷ steps) at =
    let rest = ready_steps steps at in
    if contains at.finished s.id || contains at.blocked s.id
    then rest
    else if dependencies_succeeded s at.state
    then s ∷ rest
    else rest

abbrev pub error_of : Option Error → Error
error_of (some e) = e
error_of none = raised ""

module _ {W : Type 0} (e : Engine W) (around : Surroundings W) where
  -- The failure that was recorded first ends the run.
  abbrev pub after_primary : List String → Recorded → W → Option StepOutcome → Progress Standing W
  after_primary blocked r w none =
      going (record { state = r.state; finished = r.finished; blocked = blocked }) w
  after_primary blocked r w (some o) = stop (
      fail e around r.state o.definition.id (execution_classification o.result (error_of o.err))
        (error_of o.err) w)

  -- After the outcomes of a wave are recorded.
  unfoldable pub after_wave : List String → Progress Recorded W → Progress Standing W
  after_wave blocked (ended ending w) = ended ending w
  after_wave blocked (going r w) =
      let (paused, cancelled) = around.controls w in
      if cancelled || not (is_nil_error (around.context_err w))
      then stop (
          terminal e around r.state RunStatus.cancelled "workflow_cancelled" (around.context_err w)
            w)
      else after_primary blocked r w r.primary

module _ {W : Type 0} (e : Engine W) (around : Surroundings W) (task : Task)
    (ordered : List Step) where
  unfoldable pub execute_plans : Round → List StepPlan → W → Progress Standing W
  execute_plans r [] w =
      going (record { state = r.state; finished = r.finished; blocked = r.blocked }) w
  execute_plans r (p ∷ plans) w =
      let (outcomes, w') =
        execute_wave e around task r.state.run.id (share_among (length (p ∷ plans)) (p ∷ plans))
          w in
      after_wave e around r.blocked (
        record_outcomes e around (by_rank ordered outcomes)
          (going (record { state = r.state; finished = r.finished; primary = none }) w'))

  abbrev pub planned_save : Round → Option Error × W → Progress Standing W
  planned_save r (none, w) = execute_plans r r.plans w
  planned_save r (some failure, w) = ended (returned (some r.state) (some failure)) w

  -- Once the ready steps are planned.
  unfoldable pub after_plans : Progress Round W → Progress Standing W
  after_plans (ended ending w) = ended ending w
  after_plans (going r w) =
      if r.changed then planned_save r (save e around r.state w) else execute_plans r r.plans w

  unfoldable pub with_ready : Standing → List Step → W → Progress Standing W
  with_ready at [] w =
      if ltb 0 (length at.blocked)
      then stop (pause e around at.state "approval is required before execution can continue" w)
      else stop (fail e around at.state "" "dependency" (raised "workflow has no runnable steps") w)
  with_ready at (s ∷ ready) w = after_plans (
      plan_ready e around (parallelism e.max_parallel) (s ∷ ready) (
        going
          (record {
            state = at.state;
            finished = at.finished;
            blocked = at.blocked;
            plans = [];
            changed = false;
          })
          w))

  unfoldable pub one_round : Standing → W → Progress Standing W
  one_round at w =
      let (paused, cancelled) = around.controls w in
      if cancelled
      then stop (terminal e around at.state RunStatus.cancelled "workflow_cancelled" none w)
      else if not (is_nil_error (around.context_err w))
      then stop (
          terminal e around at.state RunStatus.cancelled "workflow_cancelled" (around.context_err w)
            w)
      else if paused
      then stop (pause e around at.state "pause requested" w)
      else with_ready at (ready_steps ordered at) w

  abbrev pub all_finished : Standing → Bool
  all_finished at = not (ltb (length at.finished) (length ordered))

  -- A run on too little fuel has no result.
  unfoldable pub rounds : ℕ → Progress Standing W → Option (Ending × W)
  rounds fuel (ended ending w) = some (ending, w)
  rounds zero (going at w) = none
  rounds (suc fuel) (going at w) =
      let next = rounds fuel (one_round at (around.meanwhile w)) in
      if all_finished at
      then some (terminal e around at.state RunStatus.completed "workflow_completed" none w)
      else next

-- A step that an earlier run finished, and that need not run again on another input.
unfoldable pub already_done : Option StepState → Step → Bool
already_done none s = false
already_done (some existing) s = has_succeeded existing.run.status && not s.rerun_on_input_change

-- Only a resumed run has an event for each step that it keeps.
abbrev pub keep_done : Bool → Step → Standing → Standing
keep_done true s at = record at {
  finished = mark s.id at.finished;
  state = add_event at.state "step_resumed" s.id "previous successful result retained";
}
keep_done false s at = record at { finished = mark s.id at.finished }

-- The loop that finds the finished steps.
unfoldable pub first_standing : Bool → List Step → Standing → Standing
first_standing resuming [] at = at
first_standing resuming (s ∷ steps) at =
    first_standing resuming steps
      (if already_done (lookup s.id at.state.steps) s then keep_done resuming s at else at)

unfoldable pub new_state : String → Definition → Task → State
new_state id d task =
    add_event
      (record {
        run = record {
          id = id;
          task_id = task.id;
          workflow_definition_id = d.id;
          workflow_version = d.version;
          status = RunStatus.running;
          is_completed = false;
          trigger_source = task.requested_by;
          summary = "{}";
        };
        steps = [];
        events = [];
      })
      "workflow_started" "" "workflow execution started"

unfoldable pub resumed_state : State → State
resumed_state s =
    add_event (record s { run = record s.run { status = RunStatus.running; is_completed = false } })
      "workflow_resumed" "" "workflow execution resumed"

module _ {W : Type 0} (valid_json : String → Bool) (e : Engine W) (around : Surroundings W) where
  unfoldable pub run_from : Definition → Task → Bool → State → W → Option (Ending × W)
  run_from d task resuming state w =
      let ordered = topological d in
      let at =
        first_standing resuming ordered (record { state = state; finished = []; blocked = [] }) in
      rounds e around task ordered (suc (length ordered)) (going at w)

  abbrev pub first_save : Definition → Task → Bool → State → Option Error × W → Option (Ending × W)
  first_save d task resuming state (some failure, w) =
      some (returned (some state) (some failure), w)
  first_save d task resuming state (none, w) = run_from d task resuming state w

  -- The state that a run starts from: a new one, or that of a run to resume.
  unfoldable pub starting : Definition → Task → Option State → W → (Bool × State) × W
  starting d task none w = let (id, w') = around.new_id w in ((false, new_state id d task), w')
  starting d task (some state) w = ((true, resumed_state state), w)

  -- The errors of `Validate` are told apart in their own type; `invalid` makes one an error.
  unfoldable pub run : Definition → Option State → Task → W → Option (Ending × W)
  run d state task w = elim (validate valid_json e.registry d) [
    | some invalid ↦ some (returned none (some (raised "invalid workflow")), w)
    | none ↦
        let ((resuming, s), w') = starting d task state w in
        first_save d task resuming s (save e around s w')
  ]

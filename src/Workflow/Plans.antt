-- ===== src/Workflow/Plans.antt =====
-- internal/workflow/workflow.go: the planning of a wave in `Run`: which of the ready steps are
-- retained, skipped, held back for an approval, or started.
use enterprise_security_reco.Prelude.{
  ℕ, String, Bool, true, false, ◌&&◌, ◌||◌, not, Option, none, some, List, [], ◌∷◌, ◌++◌, ◌==◌,
  if◌then◌else◌, lookup, contains, length, leb,
}
use enterprise_security_reco.Strings.{is_empty}
use enterprise_security_reco.Errors.{Error, raised}
use enterprise_security_reco.Domain.{StepStatus, skipped, awaiting_approval}
use enterprise_security_reco.Capability.{Manifest, get}
use enterprise_security_reco.Workflow.{Step, State, StepState}
use enterprise_security_reco.Workflow.Attempts.{StepPlan}
use enterprise_security_reco.Workflow.Condition.{Checked, holds, fault, condition, has_succeeded}
use enterprise_security_reco.Workflow.Input.{Outcome, value, failed, panics, resolve_input}
use enterprise_security_reco.Workflow.Records.{
  Engine, Surroundings, Ending, panicked, add_event, set_step, transition_step, fail,
}

-- What a round has made so far: `finished` and `blocked` are the sets `finished` and
-- `blockedApprovals`.
pub record Round : Type 0 where
  pub state : State
  pub finished : List String
  pub blocked : List String
  pub plans : List StepPlan
  pub changed : Bool

-- A part of `Run` goes on, or has returned.
pub data Progress (A W : Type 0) : Type 0 where
  going : A → W → Progress A W
  ended : Ending → W → Progress A W

abbrev pub stop : {A W : Type 0} → Ending × W → Progress A W
stop (ending, w) = ended ending w

unfoldable pub mark : String → List String → List String
mark id set = if contains set id then set else id ∷ set

abbrev pub retained : Option StepState → Step → String → Bool
retained none s hash = false
retained (some existing) s hash =
    has_succeeded existing.run.status
    && (not s.rerun_on_input_change || existing.input_hash == hash)

abbrev pub retain_step : Step → Round → Round
retain_step s r = record r {
  state = add_event r.state "step_resumed" s.id "previous successful result retained";
  finished = mark s.id r.finished;
  changed = true;
}

abbrev pub skip_step : Step → StepState → Round → Round
skip_step s ss r = record r {
  state =
      add_event (set_step s.id (record ss { run = record ss.run { is_completed = true } }) r.state)
        "step_skipped" s.id "condition was false";
  finished = mark s.id r.finished;
  changed = true;
}

abbrev pub hold_step : Step → StepState → Round → Round
hold_step s ss r = record r {
  state =
      add_event
        (set_step s.id (record ss { run = record ss.run { approval_state = "pending" } }) r.state)
        "approval_required" s.id "approval is required before execution";
  blocked = mark s.id r.blocked;
  changed = true;
}

-- The provider that the budget is asked for.
unfoldable pub provider_of : Step → Manifest → String
provider_of s manifest =
    if not (is_empty s.provider) then s.provider else elim manifest.supported_providers [
      | [] ↦ s.capability
      | p ∷ ps ↦ if is_empty p then s.capability else p
    ]

abbrev pub started_state : StepState → Bool → StepState
started_state ss approved = record ss {
  run = record ss.run {
    is_started = true;
    approval_state = if approved then "approved" else "not_required";
  };
}

abbrev pub begin_step : Step → Manifest → String → Bool → StepState → Round → Round
begin_step s manifest input approved ss r = record r {
  state =
      add_event (set_step s.id (started_state ss approved) r.state) "step_started" s.id
        "capability execution started";
  plans =
      r.plans
      ++ record {
        definition = s;
        state = started_state ss approved;
        input = input;
        approved = approved;
        provider = provider_of s manifest;
        parallel_share = 0;
      }
        ∷ [];
  changed = true;
}

module _ {W : Type 0} (e : Engine W) (around : Surroundings W) where
  unfoldable pub start_step :
      Step → Manifest → String → String → Bool → Round → W → Progress Round W
  start_step s manifest input hash approved r w =
      let (ss, w') = transition_step e around r.state s input hash StepStatus.running w in
      going (begin_step s manifest input approved ss r) w'

  -- After the approval function.
  unfoldable pub answer_step :
      Step → Manifest → String → String → Round → (Bool × Option Error) × W → Progress Round W
  answer_step s manifest input hash r ((approved, some err), w) =
      stop (fail e around r.state s.id "approval" err w)
  answer_step s manifest input hash r ((approved, none), w) =
      if approved
      then start_step s manifest input hash true r w
      else stop (fail e around r.state s.id "approval_rejected" (raised "approval rejected") w)

  unfoldable pub approve_step : Step → Manifest → String → String → Round → W → Progress Round W
  approve_step s manifest input hash r w =
      if s.approval_required || manifest.approval_required
      then elim e.approval [
        | none ↦
            let (ss, w') = transition_step e around r.state s input hash awaiting_approval w in
            going (hold_step s ss r) w'
        | some ask ↦ answer_step s manifest input hash r (ask s manifest.risk w)
      ]
      else start_step s manifest input hash false r w

  -- After the condition; a capability that the registry does not have is a nil value in Go.
  unfoldable pub check_step : Step → String → String → Round → Checked → W → Progress Round W
  check_step s input hash r fault w = ended panicked w
  check_step s input hash r (holds false) w =
      let (ss, w') = transition_step e around r.state s input hash skipped w in
      going (skip_step s ss r) w'
  check_step s input hash r (holds true) w = elim (get e.registry s.capability) [
    | none ↦ ended panicked w
    | some c ↦ approve_step s c.manifest input hash r w
  ]

  -- After the input.
  unfoldable pub input_step : Step → Round → Outcome String → W → Progress Round W
  input_step s r (failed err) w = stop (fail e around r.state s.id "input_resolution" err w)
  input_step s r panics w = ended panicked w
  input_step s r (value input) w =
      let hash = around.sha256_hex input in
      if retained (lookup s.id r.state.steps) s hash
      then going (retain_step s r) w
      else check_step s input hash r (condition around.unmarshal s.condition r.state) w

  unfoldable pub plan_step : Step → Round → W → Progress Round W
  plan_step s r w = input_step s r (resolve_input around.unmarshal around.marshal s r.state) w

  -- The loop over the ready steps, with room for `max` plans.
  unfoldable pub plan_ready : ℕ → List Step → Progress Round W → Progress Round W
  plan_ready max steps (ended ending w) = ended ending w
  plan_ready max [] (going r w) = going r w
  plan_ready max (s ∷ steps) (going r w) =
      let rest = plan_ready max steps (plan_step s r w) in
      if leb max (length r.plans) then going r w else rest

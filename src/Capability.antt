-- ===== src/Capability.antt =====
-- internal/capability/capability.go: capabilities, the registry that authorizes and runs them, and
-- `Multi`, one capability with several providers.
--
-- What a capability, an audit store or a clock does to the outside stands in a state `W`, which is
-- a parameter: an operation takes the state and returns it changed. Contexts are left out here.
pub mod Gate
pub mod Multi
pub mod Providers
mod Tests
use enterprise_security_reco.Prelude.{
  ℕ, String, Bool, true, false, ◌&&◌, ◌||◌, not, Option, none, some, List, [], ◌∷◌, ℤ, ◌==◌,
  if◌then◌else◌, lookup, insert,
}
use enterprise_security_reco.Strings.{is_empty}
use enterprise_security_reco.Sorting.{sort_strings}
use enterprise_security_reco.Errors.{Error, raised, policy_refused, wrapped}
use enterprise_security_reco.Domain.{ActionRequest, ActionResult, ToolRun}
use enterprise_security_reco.Policy.{
  Policy, Risk, Decision, allow, Requirements, Common, Evaluation, evaluate_at,
}
use enterprise_security_reco.Policy.Window.{Instant}

pub record Manifest : Type 0 where
  pub name : String
  pub description : String
  pub version : String
  pub risk : Risk
  pub input_schema : String
  pub output_schema : String
  pub required_scope_type : String
  pub approval_required : Bool
  pub retry_safe : Bool
  pub idempotent : Bool
  pub supported_providers : List String
  pub produced_artifact_types : List String
  pub required_secrets : List String
  pub policy_requirements : Requirements
  pub default_timeout : ℤ

pub record PolicyDecisionRecord : Type 0 where
  pub program_id : String
  pub action : ActionRequest
  pub provider : String
  pub policy_id : String
  pub phase : String
  pub requirements : Requirements
  pub evaluation : Evaluation

pub record Result : Type 0 where
  pub action : ActionResult
  pub tool_run : Option ToolRun
  pub raw_stdout : String
  pub raw_stderr : String

-- Go's zero value of `Result`.
abbrev pub empty_result : Result
empty_result = record {
  action = record {
    request_id = "";
    status = "";
    summary = "";
    output = "";
    artifact_ids = [];
    error = none;
  };
  tool_run = none;
  raw_stdout = "";
  raw_stderr = "";
}

pub record Request (W : Type 0) : Type 0 where
  pub action : ActionRequest
  pub program_id : String
  pub provider : String
  pub approved : Bool
  pub policy : Policy
  pub scope : String → Bool
  pub policy_phase : String
  pub decision_recorder : Option (PolicyDecisionRecord → W → Option Error × W)

-- The interfaces `Capability` and, where it is implemented, `DefinitionValidator`. A nil error is
-- `none`.
pub record Capability (W : Type 0) : Type 0 where
  pub manifest : Manifest
  pub validate : Request W → W → Option Error × W
  pub execute : Request W → W → (Result × Option Error) × W
  pub validate_definition : Option (String → Option Error)

-- `now` is the registry's clock.
pub record Registry (W : Type 0) : Type 0 where
  pub items : List (String × Capability W)
  pub now : W → Instant

-- A pair of a value and an error in Go, of which one counts.
pub data Either (A : Type 0) : Type 0 where
  ok : A → Either A
  err : Error → Either A

module _ {W : Type 0} where
  unfoldable pub get : Registry W → String → Option (Capability W)
  get r name = lookup name r.items

  unfoldable pub register : Registry W → Capability W → Registry W × Option Error
  unfolding get is_empty
  register r c =
      if is_empty c.manifest.name || is_empty c.manifest.version
      then (r, some (raised "capability name and version are required"))
      else elim (get r c.manifest.name) [
        | some other ↦ (r, some (raised "capability already registered"))
        | none ↦ (record r { items = insert c.manifest.name c r.items }, none)
      ]

  keys : List (String × Capability W) → List String
  keys [] = []
  keys ((name, c) ∷ items) = name ∷ keys items

  unfoldable pub names : Registry W → List String
  unfolding keys sort_strings
  names r = sort_strings (keys r.items)

  unfoldable pub validate_definition_input : Registry W → String → String → Option Error
  unfolding get
  validate_definition_input r name raw = elim (get r name) [
    | none ↦ some (raised "unknown capability")
    | some c ↦ elim c.validate_definition [ none ↦ none | some validator ↦ validator raw ]
  ]

  -- The audit, if there is a recorder.
  unfoldable pub record_decision : Request W → PolicyDecisionRecord → W → Option Error × W
  record_decision req decision w = elim req.decision_recorder [
    | none ↦ (none, w)
    | some recorder ↦ recorder decision w
  ]

  unfoldable pub phase_of : Request W → String
  unfolding is_empty
  phase_of req = if is_empty req.policy_phase then "execution" else req.policy_phase

  -- What follows the audit: its own error, or the decision.
  unfoldable pub gate : Capability W → Evaluation → Option Error × W → Either (Capability W) × W
  gate c e (some failure, w) = (err (wrapped "persist policy decision" failure), w)
  gate c e (none, w) = elim e.decision [
    | allow ↦ (ok c, w)
    | other ↦ (err (policy_refused other e.reason), w)
  ]

  -- After `c.Validate`.
  unfoldable pub run_validated :
      Capability W → Request W → Option Error × W → (Result × Option Error) × W
  run_validated c req (some e, w) = ((empty_result, some e), w)
  run_validated c req (none, w) = c.execute req w

  -- What `Registry.Validate` and `Registry.Execute` do with the outcome of `authorize`.
  unfoldable pub validate_authorized : Request W → Either (Capability W) × W → Option Error × W
  validate_authorized req (err e, w) = (some e, w)
  validate_authorized req (ok c, w) = c.validate req w

  unfoldable pub execute_authorized :
      Request W → Either (Capability W) × W → (Result × Option Error) × W
  execute_authorized req (err e, w) = ((empty_result, some e), w)
  execute_authorized req (ok c, w) = run_validated c req (c.validate req w)

module _ {W : Type 0} (decode_common : String → Option Common) where
  -- The decision for a request at the clock's time.
  unfoldable pub decision_for : Registry W → Capability W → Request W → W → Evaluation
  decision_for r c req w =
      evaluate_at decode_common req.policy c.manifest.name c.manifest.risk req.approved
        c.manifest.policy_requirements req.action.input (r.now w)

  -- What is audited of it.
  unfoldable pub audit_of : Registry W → Capability W → Request W → W → PolicyDecisionRecord
  audit_of r c req w = record {
    program_id = req.program_id;
    action = req.action;
    provider = req.provider;
    policy_id = req.policy.id;
    phase = phase_of req;
    requirements = c.manifest.policy_requirements;
    evaluation = decision_for r c req w;
  }

  unfoldable pub authorize : Registry W → Request W → W → Either (Capability W) × W
  authorize r req w = elim (get r req.action.capability) [
    | none ↦ (err (raised "unknown capability"), w)
    | some c ↦ gate c (decision_for r c req w) (record_decision req (audit_of r c req w) w)
  ]

  -- `Registry.Validate`.
  unfoldable pub validate : Registry W → Request W → W → Option Error × W
  validate r req w = validate_authorized req (authorize r req w)

  -- `Registry.Execute`.
  unfoldable pub execute : Registry W → Request W → W → (Result × Option Error) × W
  execute r req w = execute_authorized req (authorize r req w)

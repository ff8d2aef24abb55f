-- ===== src/Workflow/FaultTests.antt =====
-- Conditions on the outputs of finished steps, one of which faults.
use enterprise_security_reco.Prelude.{
  String, ◌≡◌, refl, ◌↔◌, true, false, Option, some, [], ◌∷◌, lookup,
}
use enterprise_security_reco.Strings.{split, cut, is_empty}
use enterprise_security_reco.Domain.{RunStatus, succeeded}
use enterprise_security_reco.Json.{Json, Items, Members, text, array, object}
use enterprise_security_reco.Workflow.{State, StepState}
use enterprise_security_reco.Workflow.Checks.{binding_source}
use enterprise_security_reco.Workflow.Condition.{
  holds, fault, condition, check_state, check_kind, nonempty_output, nonempty_at, descend, field,
  member_of, is_nonempty, changed_output, changes_listed,
}
use enterprise_security_reco.Workflow.Faults.{ShortPath, condition-fault_iff}

abbrev crawled : StepState
crawled = record {
  run = record {
    id = "1";
    workflow_run_id = "run";
    step_definition_id = "crawl";
    capability = "crawl.web";
    status = succeeded;
    attempt_count = 1;
    input = "{}";
    output = "{…}";
    error_classification = "";
    error_details = "";
    is_started = true;
    is_completed = true;
    idempotency_key = "";
    approval_state = "not_required";
  };
  input_hash = "";
}

abbrev state : State
state = record {
  run = record {
    id = "run";
    task_id = "";
    workflow_definition_id = "";
    workflow_version = "1";
    status = RunStatus.running;
    is_completed = false;
    trigger_source = "";
    summary = "{}";
  };
  steps = ("crawl", crawled) ∷ [];
  events = [];
}

-- `{"urls": ["https://a.test"]}`, whatever the text.
abbrev decode : String → Option Json
decode raw = some (
    object (
      Members.member "urls" (array (Items.item (text "https://a.test") Items.no_items))
        Members.no_members))

urls_found : condition decode "nonempty:crawl.output.urls" state ≡ holds true
unfolding condition check_state check_kind nonempty_output nonempty_at descend field member_of
    is_nonempty binding_source split cut is_empty lookup
urls_found = refl

changes_missing : condition decode "changed:crawl" state ≡ holds false
unfolding condition check_state check_kind changed_output changes_listed field member_of
    binding_source split cut is_empty lookup
changes_missing = refl

-- `Validate` accepts this condition.
no_path : condition decode "nonempty:crawl" state ≡ fault
unfolding condition check_state check_kind nonempty_output nonempty_at binding_source split cut
    is_empty lookup
no_path = refl

condition-fault_iff_example :
    (condition decode "nonempty:crawl" state ≡ fault) ↔ ShortPath decode "nonempty:crawl" state
condition-fault_iff_example = condition-fault_iff decode "nonempty:crawl" state

-- ===== src/Queue/Dispatch.antt =====
-- internal/queue/dispatcher.go: `Dispatch`, which puts a job into the queue that the registry allows.
use enterprise_security_reco.Prelude.{String, Option, none, some, if◌then◌else◌}
use enterprise_security_reco.Strings.{is_empty}
use enterprise_security_reco.Errors.{Error, raised}
use enterprise_security_reco.Policy.{Common}
use enterprise_security_reco.Scope.{Library, Scope, Compilation, compile}
use enterprise_security_reco.Scope.Match.{allows}
use enterprise_security_reco.Capability.{
  Capability, Registry, Request, PolicyDecisionRecord, get, validate,
}
use enterprise_security_reco.Workflow.Input.{Outcome, failed}
use enterprise_security_reco.Queue.{Streams, Job}
use enterprise_security_reco.Queue.Operations.{enqueue}

module _ {W Regexp : Type 0} (library : Library Regexp) (decode_common : String → Option Common)
    (s : Streams W) (registry : Registry W)
    (audit : Option (PolicyDecisionRecord → W → Option Error × W)) where
  unfoldable pub dispatch_request : Job → Scope Regexp → Request W
  dispatch_request j sc = record {
    action = j.action;
    program_id = j.program_id;
    provider = j.provider;
    approved = j.approved;
    policy = j.policy;
    scope = allows library sc;
    policy_phase = "dispatch";
    decision_recorder = audit;
  }

  abbrev pub with_id : Job → W → Job × W
  with_id j w = if is_empty j.id then (record j { id = (s.new_id w).0 }, (s.new_id w).1) else (j, w)

  abbrev pub enqueue_valid : Job → Option Error × W → Outcome String × W
  enqueue_valid j (some e, w) = (failed e, w)
  enqueue_valid j (none, w) = let (j', w') = with_id j w in enqueue s j' w'

  abbrev pub dispatch_in : Job → Compilation (Scope Regexp) → W → Outcome String × W
  dispatch_in j (Compilation.err e) w = (failed e, w)
  dispatch_in j (Compilation.ok sc) w =
      enqueue_valid j (validate decode_common registry (dispatch_request j sc) w)

  abbrev pub dispatch_known : Job → Option (Capability W) → W → Outcome String × W
  dispatch_known j none w = (failed (raised "unknown capability"), w)
  dispatch_known j (some c) w = dispatch_in j (compile library j.scope_includes j.scope_excludes) w

  unfoldable pub dispatch : Job → W → Outcome String × W
  dispatch j w = dispatch_known j (get registry j.action.capability) w

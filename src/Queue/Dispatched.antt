-- ===== src/Queue/Dispatched.antt =====
-- A job is dispatched only with the authorization of the registry.
use enterprise_security_reco.Prelude.{String, ◌≡◌, refl, Bool-cases, inl, inr, Option, none, some}
use enterprise_security_reco.Strings.{is_empty}
use enterprise_security_reco.Policy.Permission.{is_empty_iff}
use enterprise_security_reco.Scope.Match.{allows}
use enterprise_security_reco.Queue.Operations.{enqueue}
use enterprise_security_reco.Queue.Delivered.{Identified, not_both}
use enterprise_security_reco.Errors.{Error}
use enterprise_security_reco.Policy.{Common}
use enterprise_security_reco.Scope.{Library, Scope, Compilation, compile}
use enterprise_security_reco.Capability.{
  Capability, Registry, Request, PolicyDecisionRecord, Either, ok, err, get, validate_authorized,
  authorize, validate,
}
use enterprise_security_reco.Capability.Gate.{Authorized, authorize-ok}
use enterprise_security_reco.Workflow.Input.{value}
use enterprise_security_reco.Queue.{Streams, Job}
use enterprise_security_reco.Queue.Dispatch.{
  dispatch_request, with_id, enqueue_valid, dispatch_in, dispatch_known, dispatch,
}

module _ {W : Type 0} (decode_common : String → Option Common) (r : Registry W)
    (req : Request W) where
  validated-ok :
      (w : W) (out : Either (Capability W) × W) (w' : W)
      → validate_authorized req out ≡ (none, w')
      → (c : Capability W) × (v : W) × (out ≡ (ok c, v)) × (c.validate req v ≡ (none, w'))
  unfolding validate_authorized
  validated-ok w (err e, v) w' h = cc
  validated-ok w (ok c, v) w' h = (c, v, refl, h)

  -- A request that is valid was authorized first, and its capability finds it valid.
  pub validate-Authorized :
      (w w' : W)
      → validate decode_common r req w ≡ (none, w')
      → (c : Capability W) × (v : W) × Authorized decode_common r req w c v
        × (c.validate req v ≡ (none, w'))
  unfolding validate
  validate-Authorized w w' h =
      let (c, v, authorized, valid) = validated-ok w (authorize decode_common r req w) w' h in
      (c, v, authorize-ok decode_common r req w v c authorized, valid)

module _ {W Regexp : Type 0} (library : Library Regexp) (decode_common : String → Option Common)
    (s : Streams W) (registry : Registry W)
    (audit : Option (PolicyDecisionRecord → W → Option Error × W)) where
  -- The request that asks for the action of a job, in a scope.
  pub record Asks (j : Job) (sc : Scope Regexp) (req : Request W) : Type 0 where
    pub action : req.action ≡ j.action
    pub program_id : req.program_id ≡ j.program_id
    pub provider : req.provider ≡ j.provider
    pub approved : req.approved ≡ j.approved
    pub policy : req.policy ≡ j.policy
    pub scope : (target : String) → req.scope target ≡ allows library sc target
    pub policy_phase : req.policy_phase ≡ "dispatch"
    pub decision_recorder : req.decision_recorder ≡ audit

  -- The job is put into the queue with an id, and otherwise as it is.
  pub record Enqueued (j : Job) (u : W) (id : String) (w' : W) : Type 0 where
    pub job : Job
    pub before : W
    pub same : job ≡ record j { id = job.id }
    pub identified : Identified s j job.id u before
    pub ran : enqueue s job before ≡ (value id, w')

  -- The request of the job was authorized and found valid, in this order, and then the job was put
  -- into the queue.
  pub record Dispatched (j : Job) (sc : Scope Regexp) (id : String) (w w' : W) : Type 0 where
    pub req : Request W
    pub asks : Asks j sc req
    pub capability : Capability W
    pub recorded : W
    pub validated : W
    pub authorized : Authorized decode_common registry req w capability recorded
    pub valid : capability.validate req recorded ≡ (none, validated)
    pub enqueued : Enqueued j validated id w'

  request-Asks :
      (j : Job) (sc : Scope Regexp)
      → Asks j sc (dispatch_request library decode_common s registry audit j sc)
  unfolding dispatch_request
  request-Asks j sc = record {
    action = refl;
    program_id = refl;
    provider = refl;
    approved = refl;
    policy = refl;
    scope = λ target. refl;
    policy_phase = refl;
    decision_recorder = refl;
  }

  with_id-Identified :
      (j : Job) (w : W)
      → Identified s j
          (with_id library decode_common s registry audit j w).0.id
          w
          (with_id library decode_common s registry audit j w).1
  with_id-Identified j w = elim (Bool-cases (is_empty j.id)) [
    | inl empty ↦
        let blank = (is_empty_iff j.id).0 empty in
        rw empty (record { kept = λ named. absurd (named blank); made = λ _. refl })
    | inr named ↦ rw named (record {
      kept = λ _. (refl, refl);
      made = λ blank. absurd (not_both (is_empty j.id) ((is_empty_iff j.id).1 blank) named);
    })
  ]

  with_id-same :
      (j : Job) (w : W)
      → (with_id library decode_common s registry audit j w).0
        ≡ record j { id = (with_id library decode_common s registry audit j w).0.id }
  with_id-same j w = elim (Bool-cases (is_empty j.id)) [
    | inl empty ↦ rw empty refl
    | inr named ↦ rw named refl
  ]

  enqueued-valid :
      (j : Job) (id : String) (w' : W) (checked : Option Error × W)
      → enqueue_valid library decode_common s registry audit j checked ≡ (value id, w')
      → (v : W) × (checked ≡ (none, v)) × Enqueued j v id w'
  enqueued-valid j id w' (some e, v) h = cc
  enqueued-valid j id w' (none, v) h = (
    v,
    refl,
    record {
      job = (with_id library decode_common s registry audit j v).0;
      before = (with_id library decode_common s registry audit j v).1;
      same = with_id-same j v;
      identified = with_id-Identified j v;
      ran = h;
    },
  )

  in-Authorized :
      (j : Job) (id : String) (w w' : W) (compiled : Compilation (Scope Regexp))
      → dispatch_in library decode_common s registry audit j compiled w ≡ (value id, w')
      → (sc : Scope Regexp) × (compiled ≡ Compilation.ok sc) × Dispatched j sc id w w'
  in-Authorized j id w w' (Compilation.err e) h = cc
  in-Authorized j id w w' (Compilation.ok sc) h =
      let req = dispatch_request library decode_common s registry audit j sc in
      let (u, valid, queued) = enqueued-valid j id w' (validate decode_common registry req w) h in
      let (c, v, authorized, accepted) = validate-Authorized decode_common registry req w u valid in
      (
        sc,
        refl,
        record {
          req = req;
          asks = request-Asks j sc;
          capability = c;
          recorded = v;
          validated = u;
          authorized = authorized;
          valid = accepted;
          enqueued = queued;
        },
      )

  known-Authorized :
      (j : Job) (id : String) (w w' : W) (found : Option (Capability W))
      → dispatch_known library decode_common s registry audit j found w ≡ (value id, w')
      → dispatch_in library decode_common s registry audit j
          (compile library j.scope_includes j.scope_excludes)
          w
        ≡ (value id, w')
  known-Authorized j id w w' none h = cc
  known-Authorized j id w w' (some c) h = h

  -- A job that `Dispatch` put into the queue has a scope that compiles, and its request, for its own
  -- action, with its own approval and policy and in that scope, was authorized: the registry has its
  -- capability, the policy permits it at the time of the request, the auditor recorded the decision,
  -- and the capability found the request valid after that. Only then was the job, with an id, put into
  -- the queue.
  pub dispatch-Authorized :
      (j : Job) (id : String) (w w' : W)
      → dispatch library decode_common s registry audit j w ≡ (value id, w')
      → (sc : Scope Regexp) × (compile library j.scope_includes j.scope_excludes
          ≡ Compilation.ok sc)
        × Dispatched j sc id w w'
  unfolding dispatch
  dispatch-Authorized j id w w' h =
      in-Authorized j id w w' _ (known-Authorized j id w w' (get registry j.action.capability) h)

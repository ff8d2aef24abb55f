-- ===== src/Worker/Handled.antt =====
-- What has happened to a delivery that `handle` reports no error for.
use enterprise_security_reco.Prelude.{
  String, ◌≡◌, ◌≢◌, refl, ap, sym, inl, inr, Bool, true, false, Bool-cases, Option, none, some,
  List, [], Memᴰ,
}
use enterprise_security_reco.Strings.{is_empty}
use enterprise_security_reco.Errors.{Error}
use enterprise_security_reco.Domain.{ToolRun, ActionResult, Artifact}
use enterprise_security_reco.Policy.Permission.{is_empty_iff}
use enterprise_security_reco.Scope.{Scope, Compilation, compile}
use enterprise_security_reco.Budget
use enterprise_security_reco.Capability.{Either, ok, err, Result, execute}
use enterprise_security_reco.Workflow.Input.{value}
use enterprise_security_reco.Workflow.Tries.{is_retryable_iff}
use enterprise_security_reco.Queue.{Delivery}
use enterprise_security_reco.Queue.Delivered.{not_both}
use enterprise_security_reco.Queue.Operations.{ack, done}
use enterprise_security_reco.Worker.{
  Service, Recorder, auditor_of, job_request, put_request, finished_step, own_tool, tool_of,
  persisted, persist, with_artifact, store, executed, run_job, leased, with_budget, scoped,
  duplicate_result, unless_done, handle,
}
use enterprise_security_reco.Worker.Settled.{
  Acknowledged, Finished, Stored, Tooled, reported, own, Offered, Asks, Executed, Worked, silent,
  spoken, unkept, broken, Leased, unlimited, limited, Settled, duplicate, unscoped, worked,
}

auditor-some : {W : Type 0} (a r : Option (Recorder W)) → a ≢ none → auditor_of a r ≡ a
auditor-some none r h = absurd (h refl)
auditor-some (some f) r h = refl

auditor-none : {W : Type 0} (a r : Option (Recorder W)) → a ≡ none → auditor_of a r ≡ r
auditor-none none r h = refl
auditor-none (some f) r h = cc

module _ {W Regexp : Type 0} (s : Service W Regexp) where
  done-ok :
      (out : Either (List String) × W) (w' : W)
      → done s.queue out ≡ (value tt, w')
      → (replies : List String) × (out ≡ (ok replies, w'))
  done-ok (ok replies, w) w' h = (replies, let same : w ≡ w' = cc in ap (λ v. (ok replies, v)) same)
  done-ok (err e, w) w' h = cc

  encoded-Acknowledged :
      (d : Delivery) (action : ActionResult) (w w' : W) (encoded : Either String)
      → s.queue.encode_result action ≡ encoded
      → ack s.queue d.message_id action w ≡ (value tt, w')
      → Acknowledged s d action w w'
  unfolding ack
  encoded-Acknowledged d action w w' (err e) same h = let h' = rw (same, ack) at h in cc
  encoded-Acknowledged d action w w' (ok payload) same h =
      let (replies, ran) = done-ok _ w' (rw (same, ack) at h) in
      record {
        payload = payload;
        encoded = same;
        commands = _;
        replies = replies;
        ran = ran;
        published = Memᴰ.head refl;
        acked = Memᴰ.tail (Memᴰ.head refl);
        deleted = Memᴰ.tail (Memᴰ.tail (Memᴰ.head refl));
      }

  request-Asks : (d : Delivery) (sc : Scope Regexp) → Asks s d sc (job_request s d.job sc)
  unfolding job_request
  request-Asks d sc = record {
    action = refl;
    program_id = refl;
    provider = refl;
    approved = refl;
    policy = refl;
    scope = λ target. refl;
    policy_phase = refl;
    auditor = auditor-some s.policy_auditor s.results_recorder;
    results = auditor-none s.policy_auditor s.results_recorder;
  }

  step-Finished :
      (d : Delivery) (action : ActionResult) → Finished s d action (finished_step s d.job action)
  unfolding finished_step
  step-Finished d action = record {
    id = refl;
    workflow_run_id = refl;
    capability = refl;
    status = refl;
    output = refl;
    idempotency_key = refl;
  }

  tool_of-Tooled :
      (d : Delivery) (result : Result) (tool : Option ToolRun) (w : W)
      → result.tool_run ≡ tool
      → Tooled s d result w (tool_of s d.job tool w).0 (tool_of s d.job tool w).1
  unfolding own_tool
  tool_of-Tooled d result none w e =
      own (own_tool s d.job (s.queue.new_id w).0) (s.queue.new_id w).1 e refl refl refl
  tool_of-Tooled d result (some tool) w e = reported tool e

  persisted-Stored :
      (d : Delivery) (action : ActionResult) (tool : ToolRun) (artifacts : List Artifact) (w w' : W)
      (out : Option Error × W)
      → s.persist_result d.job.program_id (finished_step s d.job action) tool artifacts action w
        ≡ out
      → persisted s d action out ≡ (value tt, w')
      → Stored s d action tool artifacts w w'
  persisted-Stored d action tool artifacts w w' (some e, v) same h = cc
  persisted-Stored d action tool artifacts w w' (none, v) same h = record {
    step = finished_step s d.job action;
    finished = step-Finished d action;
    kept_in = v;
    kept = same;
    acknowledged = encoded-Acknowledged d action v w' _ refl h;
  }

  persist-Stored :
      (d : Delivery) (action : ActionResult) (tool : ToolRun) (artifacts : List Artifact) (w w' : W)
      → persist s d action tool artifacts w ≡ (value tt, w')
      → Stored s d action tool artifacts w w'
  unfolding persist
  persist-Stored d action tool artifacts w w' h =
      persisted-Stored d action tool artifacts w w' _ refl h

  put-Offered :
      (d : Delivery) (action : ActionResult) (tool : ToolRun) (w w' : W) (out : Either Artifact)
      → action.output ≢ ""
      → s.put (put_request s d.job tool action) w ≡ (out, w')
      → Offered s d action tool w out w'
  unfolding put_request
  put-Offered d action tool w w' out full h = record {
    has_output = full;
    request = put_request s d.job tool action;
    content = refl;
    program_id = refl;
    step_run_id = refl;
    tool_run_id = refl;
    retention = refl;
    answer = h;
  }

  artifact-Worked :
      (d : Delivery) (sc : Scope Regexp) (w u v w' : W) (result : Result) (tool : ToolRun)
      (out : Either Artifact × W)
      → Executed s d sc w result none u
      → Tooled s d result u tool v
      → result.action.output ≢ ""
      → s.put (put_request s d.job tool result.action) v ≡ out
      → with_artifact s d result.action tool out ≡ (value tt, w')
      → Worked s d sc w w'
  artifact-Worked d sc w u v w' result tool (err e, x) ran tooled full put h =
      unkept result u v x tool e ran tooled (put-Offered d result.action tool v x (err e) full put)
        h
  artifact-Worked d sc w u v w' result tool (ok a, x) ran tooled full put h =
      spoken result u v x tool a ran tooled (put-Offered d result.action tool v x (ok a) full put)
        (persist-Stored d _ _ _ x w' h)

  store-Worked :
      (d : Delivery) (sc : Scope Regexp) (w u v w' : W) (result : Result) (tool : ToolRun)
      → Executed s d sc w result none u
      → Tooled s d result u tool v
      → store s d result.action (tool, v) ≡ (value tt, w')
      → Worked s d sc w w'
  unfolding store
  store-Worked d sc w u v w' result tool ran tooled h =
      elim (Bool-cases (is_empty result.action.output)) [
        | inl empty ↦
            silent result u v tool ran tooled ((is_empty_iff result.action.output).0 empty)
              (persist-Stored d result.action tool [] v w' (rw (empty, store) at h))
        | inr full ↦
            artifact-Worked d sc w u v w' result tool _ ran tooled
              (λ e. not_both _ ((is_empty_iff result.action.output).1 e) full) refl
              (rw (full, store) at h)
      ]

  executed-Worked :
      (d : Delivery) (sc : Scope Regexp) (w w' : W) (out : (Result × Option Error) × W)
      → execute s.decode_common s.registry (job_request s d.job sc) w ≡ out
      → executed s d out ≡ (value tt, w')
      → Worked s d sc w w'
  executed-Worked d sc w w' ((result, some e), u) ran h =
      broken result u e _ (record { req = _; asks = request-Asks d sc; ran = ran })
        (is_retryable_iff result) h
  executed-Worked d sc w w' ((result, none), u) ran h =
      store-Worked d sc w u _ w' result _ (record { req = _; asks = request-Asks d sc; ran = ran })
        (tool_of-Tooled d result result.tool_run u refl) h

  run-Worked :
      (d : Delivery) (sc : Scope Regexp) (w w' : W)
      → run_job s d sc w ≡ (value tt, w')
      → Worked s d sc w w'
  unfolding run_job
  run-Worked d sc w w' h = executed-Worked d sc w w' _ refl h

  leased-Leased :
      (d : Delivery) (sc : Scope Regexp) (w w' : W)
      (acquire : Budget.Request → W → Either (W → W) × W) (req : Budget.Request)
      (lease : Either (W → W) × W)
      → s.budget ≡ some acquire
      → req.program_id ≡ d.job.program_id
      → acquire req w ≡ lease
      → leased s d sc lease ≡ (value tt, w')
      → Leased s d (Worked s d sc) w w'
  leased-Leased d sc w w' acquire req (err e, u) budget program asked h = cc
  leased-Leased d sc w w' acquire req (ok release, u) budget program asked h =
      let v = (run_job s d sc u).1 in
      let first : (run_job s d sc u).0 ≡ value tt = ap (λ out. out.0) h in
      limited acquire req release u v budget program asked
        (run-Worked d sc u v (ap (λ o. (o, v)) first)) (sym (ap (λ out. out.1) h))

  budget-Leased :
      (d : Delivery) (sc : Scope Regexp) (w w' : W)
      (budget : Option (Budget.Request → W → Either (W → W) × W))
      → s.budget ≡ budget
      → with_budget s d sc budget w ≡ (value tt, w')
      → Leased s d (Worked s d sc) w w'
  budget-Leased d sc w w' none same h = unlimited same (run-Worked d sc w w' h)
  budget-Leased d sc w w' (some acquire) same h =
      leased-Leased d sc w w' acquire _ _ same refl refl h

  scoped-Settled :
      (d : Delivery) (w u w' : W) (compiled : Compilation (Scope Regexp))
      → s.already_succeeded d.job.action.idempotency_key w ≡ (ok false, u)
      → compile s.library d.job.scope_includes d.job.scope_excludes ≡ compiled
      → scoped s d compiled u ≡ (value tt, w')
      → Settled s d w w'
  scoped-Settled d w u w' (Compilation.err e) known same h = unscoped u e known same h
  scoped-Settled d w u w' (Compilation.ok sc) known same h =
      worked u sc known same (budget-Leased d sc u w' s.budget refl h)

  done-Settled :
      (d : Delivery) (w w' : W) (known : Either Bool × W)
      → s.already_succeeded d.job.action.idempotency_key w ≡ known
      → unless_done s d known ≡ (value tt, w')
      → Settled s d w w'
  done-Settled d w w' (err e, v) same h = cc
  done-Settled d w w' (ok true, v) same h =
      duplicate v (duplicate_result s d.job) same refl refl (encoded-Acknowledged d _ v w' _ refl h)
  done-Settled d w w' (ok false, v) same h = scoped-Settled d w v w' _ same refl h

  -- A delivery that `handle` reports no error for is settled in one of three ways. Its job had
  -- succeeded before, and a transaction acknowledged it. Or its own request was executed through the
  -- registry in its compiled scope, under a lease for its program if there is a budget, without an
  -- error, and the result was stored, with an output as an artifact, and after that acknowledged by a
  -- transaction that publishes it. Or the queue took it back for another try or as a dead letter,
  -- because its scope does not compile, the execution had an error, or the artifact was not kept.
  pub handle-settles : (d : Delivery) (w w' : W) → handle s d w ≡ (value tt, w') → Settled s d w w'
  unfolding handle
  handle-settles d w w' h = done-Settled d w w' _ refl h

-- ===== src/Workflow/Retries.antt =====
-- internal/workflow/workflow.go: what the attempts of a step come to.
use mathlib.Core.Path.{subst}
use enterprise_security_reco.Prelude.{
  ap, ℕ, zero, suc, ◌+◌, ◌≤◌, String, ◌≡◌, refl, Bool, true, false, Bool-cases, inl, inr, Option,
  none, some, ℤ, pos, negsuc, arith,
}
use enterprise_security_reco.Errors.{Error}
use enterprise_security_reco.Domain.{Task}
use enterprise_security_reco.Policy.{Policy}
use enterprise_security_reco.Capability.{Request, Result}
use enterprise_security_reco.Workflow.{RetryPolicy}
use enterprise_security_reco.Workflow.Attempts.{
  StepPlan, StepOutcome, max_attempts_of, wants_retry, start_outcome, complete_step, attempted,
  after_wait, delay_after, request_of, attempt_loop, run_attempts,
}
use enterprise_security_reco.Workflow.Tries.{
  Retryable, Allows, max_attempts-Allows, max_attempts_reached, is_retryable_iff, Called, Failures,
  none_yet, one_more, Ending, succeeded, hopeless, exhausted, interrupted, Attempted,
}

no_retry_left : (result : Result) (err : Option Error) → wants_retry 0 result err ≡ false
unfolding wants_retry
no_retry_left result none = refl
no_retry_left result (some e) = refl

max_attempts_pos :
    (n : ℤ) (retry : RetryPolicy) → retry.max_attempts ≡ n → 1 ≤ max_attempts_of retry
unfolding max_attempts_of
max_attempts_pos (pos n) retry e = rw e (ground arith)
max_attempts_pos (negsuc n) retry e = rw e (omega arith)

not_both : {b : Bool} → b ≡ true → b ≡ false → ⊥
not_both h k = cc

module _ {W : Type 0} (execute : Request W → W → (Result × Option Error) × W)
    (new_id : W → String × W) (wait : ℤ → W → Option Error × W) (policy : Policy)
    (scope : String → Bool) (task : Task) (run_id : String) (plan : StepPlan) where
  abbrev retry : RetryPolicy
  retry = plan.definition.retry

  abbrev loop : ℕ → ℕ → StepOutcome → W → StepOutcome × W
  loop = attempt_loop execute new_id wait policy scope task run_id plan

  abbrev ran_in : W → (Result × Option Error) × W
  ran_in v = execute (request_of policy scope task run_id plan (new_id v).0) (new_id v).1

  ran_in-Called :
      (v : W)
      → Called execute new_id wait policy scope task run_id plan v
          (ran_in v).0.0
          (ran_in v).0.1
          (ran_in v).1
  unfolding request_of
  ran_in-Called v = record {
    id = (new_id v).0;
    fresh = (new_id v).1;
    made = refl;
    req = request_of policy scope task run_id plan (new_id v).0;
    own = record {
      action_id = refl;
      task_id = refl;
      workflow_run_id = refl;
      step_run_id = refl;
      capability = refl;
      input = refl;
      idempotency_key = refl;
      provider = refl;
      approved = refl;
      own_policy = refl;
      own_scope = λ target. refl;
    };
    ran = refl;
  }

  abbrev Ends : ℕ → W → Type 0
  Ends n v =
      Ending execute new_id wait policy scope task run_id plan (suc n) (ran_in v).0.0 (ran_in v).0.1
        (ran_in v).1 (ran_in v).0.1 (ran_in v).1

  -- The attempt that ends the loop.
  last-Attempted :
      (n : ℕ) (o : StepOutcome) (w v : W)
      → Failures execute new_id wait policy scope task run_id plan w n v
      → Allows retry n
      → Ends n v
      → Attempted execute new_id wait policy scope task run_id plan w
          (complete_step (attempted (suc n) (ran_in v).0.0 (ran_in v).0.1 o))
          (ran_in v).1
  last-Attempted n o w v failed allowed ending = record {
    failures = n;
    before = v;
    failed_first = failed;
    allowed = allowed;
    returned = (ran_in v).0.1;
    after = (ran_in v).1;
    called = ran_in-Called v;
    ending = ending;
    counted = refl;
    completed = refl;
  }

  stop-Ending :
      (left n : ℕ) (v : W) (err : Option Error)
      → (ran_in v).0.1 ≡ err
      → max_attempts_of retry ≡ left + suc n
      → wants_retry left (ran_in v).0.0 err ≡ false
      → Ends n v
  unfolding wants_retry
  stop-Ending left n v none e most stop = succeeded e
  stop-Ending zero n v (some x) e most stop =
      exhausted (max_attempts_reached retry.max_attempts retry n refl (omega (arith, most)))
  stop-Ending (suc left) n v (some x) e most stop =
      hopeless (λ r. let again = (is_retryable_iff (ran_in v).0.0).1 r in not_both again stop)

  retry-Failures :
      (left n : ℕ) (w v v' : W) (err : Option Error) (pause : ℤ)
      → (ran_in v).0.1 ≡ err
      → wants_retry left (ran_in v).0.0 err ≡ true
      → wait pause (ran_in v).1 ≡ (none, v')
      → Failures execute new_id wait policy scope task run_id plan w n v
      → Failures execute new_id wait policy scope task run_id plan w (suc n) v'
  unfolding wants_retry
  retry-Failures left n w v v' none pause e again waited failed = cc
  retry-Failures zero n w v v' (some x) pause e again waited failed = cc
  retry-Failures (suc left) n w v v' (some x) pause e again waited failed =
      one_more n v (ran_in v).1 v' (ran_in v).0.0 x pause failed
        (subst
          (λ y.
            Called execute new_id wait policy scope task run_id plan v (ran_in v).0.0 y
              (ran_in v).1)
          e (ran_in-Called v))
        ((is_retryable_iff (ran_in v).0.0).0 again) waited

  retry-Retryable :
      (left : ℕ) (result : Result) (err : Option Error)
      → wants_retry left result err ≡ true
      → Retryable result
  unfolding wants_retry
  retry-Retryable left result none h = cc
  retry-Retryable zero result (some e) h = cc
  retry-Retryable (suc left) result (some e) h = (is_retryable_iff result).0 h

  retry-error :
      (left : ℕ) (result : Result) (err : Option Error)
      → wants_retry left result err ≡ true
      → (f : Error) × (err ≡ some f)
  unfolding wants_retry
  retry-error left result none h = cc
  retry-error left result (some f) h = (f, refl)

  -- What follows the wait for another attempt.
  waited-Attempted :
      (n : ℕ) (o : StepOutcome) (w v : W) (again : StepOutcome × W) (w' : W) (pause : ℤ)
      (ended : Option Error)
      → wait pause (ran_in v).1 ≡ (ended, w')
      → Failures execute new_id wait policy scope task run_id plan w n v
      → Allows retry n
      → (f : Error) × ((ran_in v).0.1 ≡ some f)
      → Retryable (ran_in v).0.0
      → (ended ≡ none
          → Attempted execute new_id wait policy scope task run_id plan w again.0 again.1)
      → (λ (out : StepOutcome × W).
            Attempted execute new_id wait policy scope task run_id plan w out.0 out.1)
          (after_wait ended (attempted (suc n) (ran_in v).0.0 (ran_in v).0.1 o) w' again)
  waited-Attempted n o w v again w' pause none waited failed allowed erred worth rest = rest refl
  waited-Attempted n o w v again w' pause (some e) waited failed allowed erred worth rest = record {
    failures = n;
    before = v;
    failed_first = failed;
    allowed = allowed;
    returned = (ran_in v).0.1;
    after = (ran_in v).1;
    called = ran_in-Called v;
    ending = interrupted e erred.0 pause w' erred.1 worth waited;
    counted = refl;
    completed = refl;
  }

  loop-Attempted :
      (left n : ℕ) (o : StepOutcome) (w v : W)
      → max_attempts_of retry ≡ left + suc n
      → Failures execute new_id wait policy scope task run_id plan w n v
      → Attempted execute new_id wait policy scope task run_id plan w
          (loop (suc left) (suc n) o v).0
          (loop (suc left) (suc n) o v).1
  unfolding attempt_loop
  loop-Attempted zero n o w v most failed =
      let allowed = max_attempts-Allows retry.max_attempts retry zero n refl most in
      let stop = no_retry_left (ran_in v).0.0 (ran_in v).0.1 in
      rw stop
        (last-Attempted n o w v failed allowed (stop-Ending zero n v (ran_in v).0.1 refl most stop))
  loop-Attempted (suc left) n o w v most failed =
      let allowed = max_attempts-Allows retry.max_attempts retry (suc left) n refl most in
      let pause = delay_after retry.base_delay (suc n) in
      let waited = wait pause (ran_in v).1 in
      elim (Bool-cases (wants_retry (suc left) (ran_in v).0.0 (ran_in v).0.1)) [
        | inr stop ↦ rw stop (
            last-Attempted n o w v failed allowed
              (stop-Ending (suc left) n v (ran_in v).0.1 refl most stop))
        | inl again ↦ rw again (
            waited-Attempted n o w v _ waited.1 pause waited.0 refl failed allowed
              (retry-error (suc left) (ran_in v).0.0 (ran_in v).0.1 again)
              (retry-Retryable (suc left) (ran_in v).0.0 (ran_in v).0.1 again)
              (λ fine.
                loop-Attempted left (suc n) (attempted (suc n) (ran_in v).0.0 (ran_in v).0.1 o) w
                  waited.1 (omega (arith, most))
                  (retry-Failures (suc left) n w v waited.1 (ran_in v).0.1 pause refl again
                    (ap (λ x. (x, waited.1)) fine) failed)))
      ]

  first-Attempted :
      (max : ℕ) (w : W)
      → max_attempts_of retry ≡ max
      → Attempted execute new_id wait policy scope task run_id plan w
          (loop max 1 (start_outcome plan) w).0
          (loop max 1 (start_outcome plan) w).1
  first-Attempted zero w most =
      let low = max_attempts_pos retry.max_attempts retry refl in
      let never : ⊥ = omega (arith, low, most) in elim never [ ]
  first-Attempted (suc left) w most =
      loop-Attempted left 0 (start_outcome plan) w w (omega (arith, most)) none_yet

  -- A step is attempted once, and after that as long as each attempt ends in an error worth another
  -- try, the waits end undisturbed and its policy allows one more: so many calls of the executor are
  -- made in a row, each for the step of the plan with the plan's own input, approval and idempotency
  -- key. The outcome has the number of the calls, the result of the last and the error of it; only a
  -- context that ends while the engine waits to try a retryable error again puts its own error in
  -- place.
  pub run_attempts-Attempted :
      (w : W)
      → Attempted execute new_id wait policy scope task run_id plan w
          (run_attempts execute new_id wait policy scope task run_id plan w).0
          (run_attempts execute new_id wait policy scope task run_id plan w).1
  unfolding run_attempts
  run_attempts-Attempted w = first-Attempted (max_attempts_of retry) w refl

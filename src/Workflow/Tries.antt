-- ===== src/Workflow/Tries.antt =====
-- internal/workflow/workflow.go: what the attempts of `executeStep` can be.
use enterprise_security_reco.Prelude.{
  ◌↔◌, ℕ, zero, suc, ◌+◌, String, ◌≡◌, refl, Bool, true, inl, inr, Option, Option-cases, none, some,
  ℤ, pos, negsuc, ◌≤ℤ◌, ltb, if◌then◌else◌, arith, ◌⊎◌,
}
use enterprise_security_reco.Errors.{Error}
use enterprise_security_reco.Domain.{Task, StructuredError}
use enterprise_security_reco.Policy.{Policy, parallel_share}
use enterprise_security_reco.Capability.{Request, Result}
use enterprise_security_reco.Workflow.{RetryPolicy}
use enterprise_security_reco.Workflow.Attempts.{
  StepPlan, StepOutcome, max_attempts_of, is_retryable,
}

-- The result says that its error is worth another try.
pub record Retryable (result : Result) : Type 0 where
  pub error : StructuredError
  pub reported : result.action.error ≡ some error
  pub worthwhile : error.retryable ≡ true

-- The policy allows an attempt after so many: the first, or one of those that it counts.
abbrev pub Allows : RetryPolicy → ℕ → Type 0
Allows retry n = (n ≡ 0) ⊎ (pos (suc n) ≤ℤ retry.max_attempts)

pos-Allows :
    (m : ℕ) (retry : RetryPolicy) (n left : ℕ)
    → retry.max_attempts ≡ pos m
    → (if ltb m 1 then 1 else m) ≡ left + suc n
    → Allows retry n
pos-Allows m retry zero left e h = inl refl
pos-Allows m retry (suc n) left e h = inr (rw e (ground arith))

pub max_attempts-Allows :
    (m : ℤ) (retry : RetryPolicy) (left n : ℕ)
    → retry.max_attempts ≡ m
    → max_attempts_of retry ≡ left + suc n
    → Allows retry n
unfolding max_attempts_of
max_attempts-Allows (pos m) retry left n e h =
    let h' = rw (e, max_attempts_of) at h in pos-Allows m retry n left e h'
max_attempts-Allows (negsuc m) retry left n e h = inl (omega (arith, rw (e, max_attempts_of) at h))

pub max_attempts_reached :
    (m : ℤ) (retry : RetryPolicy) (n : ℕ)
    → retry.max_attempts ≡ m
    → max_attempts_of retry ≡ suc n
    → retry.max_attempts ≤ℤ pos (suc n)
unfolding max_attempts_of
max_attempts_reached (pos m) retry n e h =
    rw e (let h' = rw (e, max_attempts_of) at h in ground arith)
max_attempts_reached (negsuc m) retry n e h = rw e (omega arith)

pub is_retryable_iff : (result : Result) → (is_retryable result ≡ true) ↔ Retryable result
unfolding is_retryable
is_retryable_iff result = (
  λ h. elim (Option-cases result.action.error) [
    | inl fine ↦ absurd (ground arith)
    | inr (e, found) ↦ record { error = e; reported = found; worthwhile = ground arith }
  ],
  λ r. rw (r.reported, is_retryable) r.worthwhile,
)

module _ {W : Type 0} (execute : Request W → W → (Result × Option Error) × W)
    (new_id : W → String × W) (wait : ℤ → W → Option Error × W) (policy : Policy)
    (scope : String → Bool) (task : Task) (run_id : String) (plan : StepPlan) where
  abbrev retry : RetryPolicy
  retry = plan.definition.retry

  -- A request for the step of the plan, with the input, the approval and the key of that.
  pub record Own (new : String) (req : Request W) : Type 0 where
    pub action_id : req.action.id ≡ new
    pub task_id : req.action.task_id ≡ task.id
    pub workflow_run_id : req.action.workflow_run_id ≡ run_id
    pub step_run_id : req.action.step_run_id ≡ plan.state.run.id
    pub capability : req.action.capability ≡ plan.definition.capability
    pub input : req.action.input ≡ plan.input
    pub idempotency_key : req.action.idempotency_key ≡ plan.state.run.idempotency_key
    pub provider : req.provider ≡ plan.definition.provider
    pub approved : req.approved ≡ plan.approved
    pub own_policy : req.policy ≡ parallel_share policy plan.parallel_share
    pub own_scope : (target : String) → req.scope target ≡ scope target

  -- A call of the executor for the step, with a new id.
  pub record Called (before : W) (result : Result) (err : Option Error) (after : W) : Type 0 where
    pub id : String
    pub fresh : W
    pub made : new_id before ≡ (id, fresh)
    pub req : Request W
    pub own : Own id req
    pub ran : execute req fresh ≡ ((result, err), after)

  -- So many calls in a row, of which each ended in an error worth another try and was followed by a
  -- wait that the context let end.
  pub data Failures (w : W) : ℕ → W → Type 0 where
    none_yet : Failures w 0 w
    one_more :
        (n : ℕ) (v after v' : W) (result : Result) (e : Error) (pause : ℤ)
        → Failures w n v
        → Called v result (some e) after
        → Retryable result
        → wait pause after ≡ (none, v')
        → Failures w (suc n) v'

  -- Why the last call ended the attempts: it has no error, or one that is not worth another try, or
  -- was the last allowed; or the context ended in the wait after it, and gave the error.
  pub data Ending (n : ℕ) (result : Result) (err : Option Error) (after : W)
      : Option Error → W → Type 0 where
    succeeded : err ≡ none → Ending n result err after err after
    hopeless : ¬ Retryable result → Ending n result err after err after
    exhausted : retry.max_attempts ≤ℤ pos n → Ending n result err after err after
    interrupted :
        (e f : Error) (pause : ℤ) (w' : W)
        → err ≡ some f
        → Retryable result
        → wait pause after ≡ (some e, w')
        → Ending n result err after (some e) w'

  -- What the attempts of the step come to, from one state to another.
  pub record Attempted (w : W) (o : StepOutcome) (w' : W) : Type 0 where
    pub failures : ℕ
    pub before : W
    pub failed_first : Failures w failures before
    pub allowed : Allows retry failures
    pub returned : Option Error
    pub after : W
    pub called : Called before o.result returned after
    pub ending : Ending (suc failures) o.result returned after o.err w'
    pub counted : o.state.run.attempt_count ≡ suc failures
    pub completed : o.state.run.is_completed ≡ true

-- ===== src/Workflow/Run/Stays.antt =====
-- The context of a run, once it has ended, stays so; and what a wave brings back.
use mathlib.Core.Path.{subst}
use enterprise_security_reco.Prelude.{
  ℕ, zero, suc, String, ◌≡◌, ◌≢◌, refl, ap, true, false, Bool-cases, inl, inr, ◌⊎◌, Option, none,
  some, List, [], ◌∷◌, Memᴰ, Permᴰ, arith, ℤ,
}
use enterprise_security_reco.Errors.{Error}
use enterprise_security_reco.Domain.{Task}
use enterprise_security_reco.Budget
use enterprise_security_reco.Capability.{Either, ok, err, Request}
use enterprise_security_reco.Workflow.{State}
use enterprise_security_reco.Workflow.Attempts.{
  StepPlan, StepOutcome, max_attempts_of, delay_after, wants_retry, start_outcome, attempted,
  after_wait, request_of, attempt_loop, run_attempts,
}
use enterprise_security_reco.Workflow.Records.{Engine, Surroundings}
use enterprise_security_reco.Workflow.Wave.{
  is_nil_error, attempts_of, under_lease, execute_step, run_plan, run_plans, execute_wave,
}
use enterprise_security_reco.Workflow.Run.Planning.{plan_ids}

abbrev pub outcome_ids : List StepOutcome → List String
outcome_ids [] = []
outcome_ids (o ∷ os) = o.definition.id ∷ outcome_ids os

module _ {W : Type 0} (e : Engine W) (around : Surroundings W) where
  abbrev pub Ended : W → Type 0
  Ended w = around.run_err w ≢ none

  -- An outcome with an error that is no failure of its own is seen in an ended context.
  abbrev pub Excused : W → StepOutcome → Type 0
  Excused w o = (is_nil_error o.err ≡ false) → o.primary_failure ≡ false → Ended w

  -- What the engine relies on: an ended context stays ended whatever is done, and the run's
  -- context ends with the caller's or by `Cancel` alone; each plan of a wave ends once.
  pub record Orderly : Type 0 where
    pub execute : (req : Request W) (w : W) → Ended w → Ended (e.execute req w).1
    pub new_id : (w : W) → Ended w → Ended (around.new_id w).1
    pub wait : (delay : ℤ) (w : W) → Ended w → Ended (around.wait delay w).1
    pub persist :
        (f : State → W → Option Error × W)
        → e.persister ≡ some f
        → (s : State) (w : W) → Ended w
        → Ended (f s w).1
    pub acquire :
        (f : Budget.Request → W → Either (W → W) × W)
        → e.budget ≡ some f
        → (req : Budget.Request) (w : W) → Ended w
        → Ended (f req w).1
    pub release :
        (f : Budget.Request → W → Either (W → W) × W)
        → e.budget ≡ some f
        → (req : Budget.Request) (w : W) (give : W → W) → (f req w).0 ≡ ok give
        → (v : W) → Ended v
        → Ended (give v)
    pub seen :
        (w : W)
        → Ended w
        → ((around.controls w).1 ≡ true) ⊎ (is_nil_error (around.context_err w) ≡ false)
    pub arrival : (plans : List StepPlan) (w : W) → Permᴰ (around.arrival plans w) plans

module _ {W : Type 0} (e : Engine W) (around : Surroundings W) (orderly : Orderly e around)
    (task : Task) (run_id : String) where
  abbrev loop : StepPlan → ℕ → ℕ → StepOutcome → W → StepOutcome × W
  loop = attempt_loop e.execute around.new_id around.wait e.policy e.scope task run_id

  wait-definition :
      (ended : Option Error) (tried : StepOutcome) (w : W) (again : StepOutcome × W)
      → again.0.definition ≡ tried.definition
      → (after_wait ended tried w again).0.definition ≡ tried.definition
  wait-definition none tried w again h = h
  wait-definition (some err') tried w again h = refl

  loop-definition :
      (plan : StepPlan) (left attempt : ℕ) (o : StepOutcome) (w : W)
      → (loop plan left attempt o w).0.definition ≡ o.definition
  unfolding attempt_loop
  loop-definition plan zero attempt o w = refl
  loop-definition plan (suc left) attempt o w =
      let ran =
        e.execute (request_of e.policy e.scope task run_id plan (around.new_id w).0)
          (around.new_id w).1 in
      elim (Bool-cases (wants_retry left ran.0.0 ran.0.1)) [
        | inl retry ↦ rw retry (
            wait-definition _ (attempted attempt ran.0.0 ran.0.1 o) _ _
              (loop-definition plan left (suc attempt) (attempted attempt ran.0.0 ran.0.1 o) _))
        | inr stop' ↦ rw stop' refl
      ]

  wait-Ended :
      (ended : Option Error) (tried : StepOutcome) (w : W) (again : StepOutcome × W)
      → Ended e around w
      → Ended e around again.1
      → Ended e around (after_wait ended tried w again).1
  wait-Ended none tried w again h h' = h'
  wait-Ended (some err') tried w again h h' = h

  loop-Ended :
      (plan : StepPlan) (left attempt : ℕ) (o : StepOutcome) (w : W)
      → Ended e around w
      → Ended e around (loop plan left attempt o w).1
  unfolding attempt_loop
  loop-Ended plan zero attempt o w h = h
  loop-Ended plan (suc left) attempt o w h =
      let req = request_of e.policy e.scope task run_id plan (around.new_id w).0 in
      let ran = e.execute req (around.new_id w).1 in
      let h₂ = orderly.execute req (around.new_id w).1 (orderly.new_id w h) in
      let h₃ = orderly.wait (delay_after plan.definition.retry.base_delay attempt) ran.1 h₂ in
      elim (Bool-cases (wants_retry left ran.0.0 ran.0.1)) [
        | inl retry ↦ rw retry (
            wait-Ended _ (attempted attempt ran.0.0 ran.0.1 o) _ _ h₃
              (loop-Ended plan left (suc attempt) (attempted attempt ran.0.0 ran.0.1 o) _ h₃))
        | inr stop' ↦ rw stop' h₂
      ]

  -- What the attempts and the lease of a plan come to.
  record Executed (plan : StepPlan) (w : W) (out : StepOutcome × W) : Type 0 where
    definition : out.0.definition ≡ plan.definition
    stays : Ended e around w → Ended e around out.1

  attempts-Executed :
      (plan : StepPlan) (w : W) → Executed plan w (attempts_of e around task run_id plan w)
  unfolding attempts_of run_attempts
  attempts-Executed plan w = record {
    definition =
        loop-definition plan (max_attempts_of plan.definition.retry) 1 (start_outcome plan) w;
    stays = loop-Ended plan (max_attempts_of plan.definition.retry) 1 (start_outcome plan) w;
  }

  lease-Executed :
      (plan : StepPlan) (w : W) (lease : Either (W → W) × W)
      → (Ended e around w → Ended e around lease.1)
      → ((give : W → W) → lease.0 ≡ ok give → (v : W) → Ended e around v → Ended e around (give v))
      → Executed plan w (under_lease e around task run_id plan lease)
  unfolding under_lease
  lease-Executed plan w (err failure, w') kept given = record { definition = refl; stays = kept }
  lease-Executed plan w (ok give, w') kept given =
      let ran = attempts-Executed plan w' in
      record { definition = ran.definition; stays = λ h. given give refl _ (ran.stays (kept h)) }

  budget-Executed :
      (plan : StepPlan) (w : W) (budget : Option (Budget.Request → W → Either (W → W) × W))
      → e.budget ≡ budget
      → (req : Budget.Request)
      → Executed plan w (elim budget [
        | none ↦ attempts_of e around task run_id plan w
        | some acquire ↦ under_lease e around task run_id plan (acquire req w)
      ])
  budget-Executed plan w none b req = attempts-Executed plan w
  budget-Executed plan w (some acquire) b req =
      lease-Executed plan w (acquire req w) (orderly.acquire acquire b req w)
        (λ give g. orderly.release acquire b req w give g)

  step-Executed :
      (plan : StepPlan) (w : W) → Executed plan w (execute_step e around task run_id plan w)
  unfolding execute_step
  step-Executed plan w = budget-Executed plan w e.budget refl _

  plan-Excused :
      (plan : StepPlan) (w : W)
      → Excused e around
          (run_plan e around task run_id plan w).1
          (run_plan e around task run_id plan w).0
  unfolding run_plan
  plan-Excused plan w failed' not_primary =
      let (o, w') = execute_step e around task run_id plan w in
      let still : is_nil_error (around.run_err w') ≡ false = ground arith in
      λ none'. let clear = subst (λ r. is_nil_error r ≡ false) none' still in cc

  plan-id :
      (plan : StepPlan) (w : W)
      → (run_plan e around task run_id plan w).0.definition.id ≡ plan.definition.id
  unfolding run_plan
  plan-id plan w = ap (λ d. d.id) (step-Executed plan w).definition

  run_plans-Ended :
      (plans : List StepPlan) (w : W)
      → Ended e around w
      → Ended e around (run_plans e around task run_id plans w).1
  unfolding run_plans run_plan
  run_plans-Ended [] w h = h
  run_plans-Ended (p ∷ plans) w h = run_plans-Ended plans _ ((step-Executed p w).stays h)

  -- The outcomes of plans, in the order in which they end.
  pub record Outcomes (plans : List StepPlan) (out : List StepOutcome × W) : Type 0 where
    pub ids : outcome_ids out.0 ≡ plan_ids plans
    pub excused : (o : StepOutcome) → Memᴰ o out.0 → Excused e around out.1 o

  run_plans-Outcomes :
      (plans : List StepPlan) (w : W) → Outcomes plans (run_plans e around task run_id plans w)
  unfolding run_plans
  run_plans-Outcomes [] w = record { ids = refl; excused = λ o p. elim p [ ] }
  run_plans-Outcomes (p ∷ plans) w =
      let (o, w') = run_plan e around task run_id p w in
      let rest = run_plans-Outcomes plans w' in
      record {
        ids = cc (plan-id p w, rest.ids);
        excused = λ q m. elim m [
          | Memᴰ.head same ↦
              λ f n. run_plans-Ended plans w' (plan-Excused p w (rw same at f) (rw same at n))
          | Memᴰ.tail m' ↦ rest.excused q m'
        ];
      }

  pub wave-Outcomes :
      (plans : List StepPlan) (w : W)
      → Outcomes (around.arrival plans w) (execute_wave e around task run_id plans w)
  unfolding execute_wave
  wave-Outcomes plans w = run_plans-Outcomes (around.arrival plans w) w

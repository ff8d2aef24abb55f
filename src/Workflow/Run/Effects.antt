-- ===== src/Workflow/Run/Effects.antt =====
-- What the planning of one step can make of a round.
use enterprise_security_reco.Prelude.{
  String, ◌≡◌, refl, Bool, true, false, ◌||◌, Bool-cases, inl, inr, Option, none, some, arith,
  lookup,
}
use enterprise_security_reco.Errors.{Error}
use enterprise_security_reco.Domain.{StepStatus, skipped, awaiting_approval}
use enterprise_security_reco.Policy.{Risk}
use enterprise_security_reco.Capability.{Capability, Manifest, get}
use enterprise_security_reco.Workflow.{Step, State, StepState}
use enterprise_security_reco.Workflow.Condition.{Checked, holds, fault, has_succeeded}
use enterprise_security_reco.Workflow.Input.{Outcome, value, failed, panics}
use enterprise_security_reco.Workflow.Records.{
  Engine, Surroundings, Ending, transition_step, keep_id, new_step,
}
use enterprise_security_reco.Workflow.Plans.{
  Round, Progress, going, ended, retained, retain_step, skip_step, hold_step, begin_step,
  start_step, answer_step, approve_step, check_step, input_step, plan_step,
}

-- What holds of a part of the run that goes on.
abbrev pub Goes : {A W : Type 0} → (A → W → Type 0) → Progress A W → Type 0
Goes P (going a w) = P a w
Goes P (ended ending w) = Unit

module _ {W : Type 0} (e : Engine W) where
  -- The approval function of the engine was asked for the step and the risk, and granted it.
  pub record Granted (s : Step) (risk : Risk) : Type 0 where
    pub ask : Step → Risk → W → (Bool × Option Error) × W
    pub configured : e.approval ≡ some ask
    pub before : W
    pub after : W
    pub answer : ask s risk before ≡ ((true, none), after)

  -- A plan of the step is approved if it needs to be, as the approval function granted.
  abbrev pub Permits : Step → Manifest → Bool → Type 0
  Permits s m approved =
      (s.approval_required || m.approval_required) ≡ true → (approved ≡ true) × Granted s m.risk

module _ {W : Type 0} (e : Engine W) (around : Surroundings W) where
  -- The step is retained, skipped, held back, or started; a step that needs an approval is
  -- started with one alone.
  pub data Effect (s : Step) (r r' : Round) : Type 0 where
    retains :
        (existing : StepState)
        → lookup s.id r.state.steps ≡ some existing
        → has_succeeded existing.run.status ≡ true
        → r' ≡ retain_step s r
        → Effect s r r'
    skips : (ss : StepState) → ss.run.status ≡ skipped → r' ≡ skip_step s ss r → Effect s r r'
    holds_back :
        (ss : StepState) → ss.run.status ≡ awaiting_approval → r' ≡ hold_step s ss r → Effect s r r'
    begins :
        (c : Capability W) (input : String) (approved : Bool) (ss : StepState)
        → get e.registry s.capability ≡ some c
        → Permits e s c.manifest approved
        → r' ≡ begin_step s c.manifest input approved ss r
        → Effect s r r'

  keep_id-status :
      (next : StepState) (previous : Option StepState)
      → (keep_id next previous).run.status ≡ next.run.status
  unfolding keep_id
  keep_id-status next none = refl
  keep_id-status next (some previous) = ground arith

  transition-status :
      (state : State) (s : Step) (input hash : String) (status : StepStatus) (w : W)
      → (transition_step e around state s input hash status w).0.run.status ≡ status
  unfolding transition_step new_step
  transition-status state s input hash status w = keep_id-status _ (lookup s.id state.steps)

  abbrev Effects : Step → Round → Progress Round W → Type 0
  Effects s r = Goes (λ r' w'. Effect s r r')

  start-Effect :
      (s : Step) (c : Capability W) (input hash : String) (approved : Bool) (r : Round) (w : W)
      → get e.registry s.capability ≡ some c
      → Permits e s c.manifest approved
      → Effects s r (start_step e around s c.manifest input hash approved r w)
  unfolding start_step
  start-Effect s c input hash approved r w found needs =
      begins c input approved (transition_step e around r.state s input hash StepStatus.running w).0
        found needs refl

  answer-Effect :
      (s : Step) (c : Capability W) (input hash : String) (r : Round)
      (ask : Step → Risk → W → (Bool × Option Error) × W) (w : W)
      (answer : (Bool × Option Error) × W)
      → get e.registry s.capability ≡ some c
      → e.approval ≡ some ask
      → ask s c.manifest.risk w ≡ answer
      → Effects s r (answer_step e around s c.manifest input hash r answer)
  unfolding answer_step
  answer-Effect s c input hash r ask w ((approved, some err), w') found here asked = tt
  answer-Effect s c input hash r ask w ((true, none), w') found here asked =
      start-Effect s c input hash true r w' found (λ h.
        (refl, record { ask = ask; configured = here; before = w; after = w'; answer = asked }))
  answer-Effect s c input hash r ask w ((false, none), w') found here asked = tt

  ask-Effect :
      (s : Step) (c : Capability W) (input hash : String) (r : Round) (w : W)
      (ask : Option (Step → Risk → W → (Bool × Option Error) × W))
      → get e.registry s.capability ≡ some c
      → e.approval ≡ ask
      → Effects s r (elim ask [
        | none ↦
            let (ss, w') = transition_step e around r.state s input hash awaiting_approval w in
            going (hold_step s ss r) w'
        | some f ↦ answer_step e around s c.manifest input hash r (f s c.manifest.risk w)
      ])
  ask-Effect s c input hash r w none found here =
      holds_back (transition_step e around r.state s input hash awaiting_approval w).0
        (transition-status r.state s input hash awaiting_approval w) refl
  ask-Effect s c input hash r w (some f) found here =
      answer-Effect s c input hash r f w (f s c.manifest.risk w) found here refl

  approve-Effect :
      (s : Step) (c : Capability W) (input hash : String) (r : Round) (w : W)
      → get e.registry s.capability ≡ some c
      → Effects s r (approve_step e around s c.manifest input hash r w)
  unfolding approve_step
  approve-Effect s c input hash r w found =
      elim (Bool-cases (s.approval_required || c.manifest.approval_required)) [
        | inl needed ↦ rw needed (ask-Effect s c input hash r w e.approval found refl)
        | inr free ↦ rw free (start-Effect s c input hash false r w found (λ h. cc))
      ]

  found-Effect :
      (s : Step) (input hash : String) (r : Round) (w : W) (c : Option (Capability W))
      → get e.registry s.capability ≡ c
      → Effects s r (elim c [
        | none ↦ ended Ending.panicked w
        | some c' ↦ approve_step e around s c'.manifest input hash r w
      ])
  found-Effect s input hash r w none found = tt
  found-Effect s input hash r w (some c) found = approve-Effect s c input hash r w found

  check-Effect :
      (s : Step) (input hash : String) (r : Round) (checked : Checked) (w : W)
      → Effects s r (check_step e around s input hash r checked w)
  unfolding check_step
  check-Effect s input hash r fault w = tt
  check-Effect s input hash r (holds false) w =
      skips (transition_step e around r.state s input hash skipped w).0
        (transition-status r.state s input hash skipped w) refl
  check-Effect s input hash r (holds true) w =
      found-Effect s input hash r w (get e.registry s.capability) refl

  retained-Effect :
      (s : Step) (r : Round) (hash : String) (existing : Option StepState)
      → lookup s.id r.state.steps ≡ existing
      → retained existing s hash ≡ true
      → Effect s r (retain_step s r)
  retained-Effect s r hash none found h = cc
  retained-Effect s r hash (some existing) found h = retains existing found (ground arith) refl

  input-Effect :
      (s : Step) (r : Round) (input : Outcome String) (w : W)
      → Effects s r (input_step e around s r input w)
  unfolding input_step
  input-Effect s r (failed err) w = tt
  input-Effect s r panics w = tt
  input-Effect s r (value input) w =
      elim (Bool-cases (retained (lookup s.id r.state.steps) s (around.sha256_hex input))) [
        | inl yes' ↦ rw yes' (retained-Effect s r _ (lookup s.id r.state.steps) refl yes')
        | inr no' ↦ rw no' (check-Effect s input (around.sha256_hex input) r _ w)
      ]

  pub plan_step-Effect :
      (s : Step) (r : Round) (w : W) → Goes (λ r' w'. Effect s r r') (plan_step e around s r w)
  unfolding plan_step
  plan_step-Effect s r w = input-Effect s r _ w

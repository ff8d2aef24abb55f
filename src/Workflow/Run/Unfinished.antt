-- ===== src/Workflow/Run/Unfinished.antt =====
-- The planning of a wave never leaves or returns a run that is completed.
use enterprise_security_reco.Prelude.{
  ℕ, String, ◌≡◌, refl, Bool, true, false, ◌||◌, Option, none, some, List, [], ◌∷◌, if◌then◌else◌,
  length, leb, lookup,
}
use enterprise_security_reco.Errors.{Error}
use enterprise_security_reco.Domain.{RunStatus}
use enterprise_security_reco.Policy.{Risk}
use enterprise_security_reco.Capability.{Capability, Manifest, get}
use enterprise_security_reco.Workflow.{Step, State}
use enterprise_security_reco.Workflow.Condition.{Checked, holds, fault}
use enterprise_security_reco.Workflow.Input.{Outcome, value, failed, panics}
use enterprise_security_reco.Workflow.Records.{
  Engine, Surroundings, Ending, returned, panicked, fail,
}
use enterprise_security_reco.Workflow.Plans.{
  Round, Progress, going, ended, retained, start_step, answer_step, approve_step, check_step,
  input_step, plan_step, plan_ready, hold_step,
}
use enterprise_security_reco.Workflow.Records.{transition_step}
use enterprise_security_reco.Domain.{awaiting_approval}

abbrev pub is_completed_status : RunStatus → Bool
is_completed_status RunStatus.completed = true
is_completed_status RunStatus.pending = false
is_completed_status RunStatus.running = false
is_completed_status RunStatus.paused = false
is_completed_status RunStatus.failed = false
is_completed_status RunStatus.cancelled = false

abbrev pub Unfinished : State → Type 0
Unfinished s = is_completed_status s.run.status ≡ false

abbrev pub UnfinishedEnding : Ending → Type 0
UnfinishedEnding (returned (some s) err) = Unfinished s
UnfinishedEnding (returned none err) = Unit
UnfinishedEnding panicked = Unit

abbrev pub Keeps : {A W : Type 0} → (A → State) → Progress A W → Type 0
Keeps state (going a w) = Unfinished (state a)
Keeps state (ended ending w) = UnfinishedEnding ending

pub if-Keeps :
    {A W : Type 0} (state : A → State) (b : Bool) (p q : Progress A W)
    → Keeps state p
    → Keeps state q
    → Keeps state (if b then p else q)
if-Keeps state true p q h k = h
if-Keeps state false p q h k = k

module _ {W : Type 0} (e : Engine W) (around : Surroundings W) where
  abbrev pub KeepsRound : Progress Round W → Type 0
  KeepsRound = Keeps (λ r. r.state)

  start-Keeps :
      (s : Step) (manifest : Manifest) (input hash : String) (approved : Bool) (r : Round) (w : W)
      → Unfinished r.state
      → KeepsRound (start_step e around s manifest input hash approved r w)
  unfolding start_step
  start-Keeps s manifest input hash approved r w h = h

  answer-Keeps :
      (s : Step) (manifest : Manifest) (input hash : String) (r : Round)
      (answer : (Bool × Option Error) × W)
      → Unfinished r.state
      → KeepsRound (answer_step e around s manifest input hash r answer)
  unfolding answer_step fail
  answer-Keeps s manifest input hash r ((approved, some err), w) h = refl
  answer-Keeps s manifest input hash r ((true, none), w) h =
      start-Keeps s manifest input hash true r w h
  answer-Keeps s manifest input hash r ((false, none), w) h = refl

  ask-Keeps :
      (s : Step) (manifest : Manifest) (input hash : String) (r : Round) (w : W)
      (ask : Option (Step → Risk → W → (Bool × Option Error) × W))
      → Unfinished r.state
      → KeepsRound (elim ask [
        | none ↦
            let (ss, w') = transition_step e around r.state s input hash awaiting_approval w in
            going (hold_step s ss r) w'
        | some f ↦ answer_step e around s manifest input hash r (f s manifest.risk w)
      ])
  ask-Keeps s manifest input hash r w none h = h
  ask-Keeps s manifest input hash r w (some f) h = answer-Keeps s manifest input hash r _ h

  approve-Keeps :
      (s : Step) (manifest : Manifest) (input hash : String) (r : Round) (w : W)
      → Unfinished r.state
      → KeepsRound (approve_step e around s manifest input hash r w)
  unfolding approve_step
  approve-Keeps s manifest input hash r w h =
      if-Keeps (λ r. r.state) (s.approval_required || manifest.approval_required) _ _
        (ask-Keeps s manifest input hash r w e.approval h)
        (start-Keeps s manifest input hash false r w h)

  found-Keeps :
      (s : Step) (input hash : String) (r : Round) (w : W) (c : Option (Capability W))
      → Unfinished r.state
      → KeepsRound (elim c [
        | none ↦ ended Ending.panicked w
        | some c' ↦ approve_step e around s c'.manifest input hash r w
      ])
  found-Keeps s input hash r w none h = tt
  found-Keeps s input hash r w (some c) h = approve-Keeps s c.manifest input hash r w h

  check-Keeps :
      (s : Step) (input hash : String) (r : Round) (checked : Checked) (w : W)
      → Unfinished r.state
      → KeepsRound (check_step e around s input hash r checked w)
  unfolding check_step
  check-Keeps s input hash r fault w h = tt
  check-Keeps s input hash r (holds false) w h = h
  check-Keeps s input hash r (holds true) w h =
      found-Keeps s input hash r w (get e.registry s.capability) h

  input-Keeps :
      (s : Step) (r : Round) (input : Outcome String) (w : W)
      → Unfinished r.state
      → KeepsRound (input_step e around s r input w)
  unfolding input_step fail
  input-Keeps s r (failed err) w h = refl
  input-Keeps s r panics w h = tt
  input-Keeps s r (value input) w h =
      if-Keeps (λ r. r.state) (retained (lookup s.id r.state.steps) s (around.sha256_hex input)) _ _
        h (check-Keeps s input (around.sha256_hex input) r _ w h)

  plan_step-Keeps :
      (s : Step) (r : Round) (w : W) → Unfinished r.state → KeepsRound (plan_step e around s r w)
  unfolding plan_step
  plan_step-Keeps s r w h = input-Keeps s r _ w h

  pub plan_ready-Keeps :
      (max : ℕ) (steps : List Step) (p : Progress Round W)
      → KeepsRound p
      → KeepsRound (plan_ready e around max steps p)
  unfolding plan_ready
  plan_ready-Keeps max steps (ended ending w) h = h
  plan_ready-Keeps max [] (going r w) h = h
  plan_ready-Keeps max (s ∷ steps) (going r w) h =
      if-Keeps (λ r. r.state) (leb max (length r.plans)) _ _ h
        (plan_ready-Keeps max steps (plan_step e around s r w) (plan_step-Keeps s r w h))

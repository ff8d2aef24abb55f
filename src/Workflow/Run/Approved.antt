-- ===== src/Workflow/Run/Approved.antt =====
-- What a wave is made of: steps that are ready, with the approvals that they need.
use mathlib.Core.Path.{subst}
use enterprise_security_reco.Prelude.{
  ℕ, String, ◌⊎◌, lookup, arith, Option-cases, ◌≡◌, refl, sym, true, ◌||◌, Bool-cases, inl, inr,
  some, List, [], ◌∷◌, Memᴰ, length, leb,
}
use enterprise_security_reco.Capability.{Capability, get}
use enterprise_security_reco.Domain.{succeeded, skipped}
use enterprise_security_reco.Workflow.{Step, State, StepState}
use enterprise_security_reco.Workflow.Condition.{has_succeeded}
use enterprise_security_reco.Workflow.Input.{is_skipped}
use enterprise_security_reco.Workflow.Attempts.{StepPlan}
use enterprise_security_reco.Workflow.Records.{
  Engine, Surroundings, dependencies_in, dependencies_succeeded,
}
use enterprise_security_reco.Workflow.Plans.{Round, Progress, going, ended, plan_step, plan_ready}
use enterprise_security_reco.Workflow.Run.{Standing, ready_steps}
use enterprise_security_reco.Workflow.Run.Effects.{
  Granted, Permits, Goes, Effect, retains, skips, holds_back, begins, plan_step-Effect,
}
use enterprise_security_reco.Workflow.Run.Planned.{Goes-map, Approved, mem_last_plan}
use enterprise_security_reco.Workflow.Run.Ready.{listed-Ready}
use enterprise_security_reco.Workflow.Run.Ends.{fresh_round, open-lem}

module _ {W : Type 0} (e : Engine W) (around : Surroundings W) (steps : List Step) where
  -- A plan of one of the steps, with its approval.
  record Sourced (p : StepPlan) : Type 0 where
    step : Memᴰ p.definition steps
    approved : Approved e p

  abbrev AllSourced : Round → Type 0
  AllSourced r = (p : StepPlan) → Memᴰ p r.plans → Sourced p

  step-Sourced :
      (s : Step) (r r' : Round)
      → Memᴰ s steps
      → Effect e around s r r'
      → AllSourced r
      → AllSourced r'
  step-Sourced s r r' m (retains existing found ok' q) h = subst AllSourced (sym q) h
  step-Sourced s r r' m (skips ss status q) h = subst AllSourced (sym q) h
  step-Sourced s r r' m (holds_back ss status q) h = subst AllSourced (sym q) h
  step-Sourced s r r' m (begins c input approved ss found needs q) h =
      subst AllSourced (sym q) (λ p l. elim (mem_last_plan r.plans _ p l) [
        | inl old ↦ h p old
        | inr same ↦ subst Sourced (sym same) (record {
          step = m;
          approved = record { capability = c; registered = found; approval = needs };
        })
      ])

  ready-Sourced :
      (max : ℕ) (left : List Step) (p : Progress Round W)
      → ((s : Step) → Memᴰ s left → Memᴰ s steps)
      → Goes (λ r w. AllSourced r) p
      → Goes (λ r w. AllSourced r) (plan_ready e around max left p)
  unfolding plan_ready
  ready-Sourced max left (ended ending w) k h = tt
  ready-Sourced max [] (going r w) k h = h
  ready-Sourced max (s ∷ left) (going r w) k h =
      let rest =
        ready-Sourced max left (plan_step e around s r w) (λ t m. k t (Memᴰ.tail m))
          (Goes-map (plan_step e around s r w)
            (λ r' w' fx. step-Sourced s r r' (k s (Memᴰ.head refl)) fx h)
            (plan_step-Effect e around s r w)) in
      elim (Bool-cases (leb max (length r.plans))) [
        | inl full ↦ rw full h
        | inr room ↦ rw room rest
      ]

-- The step has a state in the run, in which it has succeeded or was skipped.
pub record DependencyMet (state : State) (id : String) : Type 0 where
  pub found : StepState
  pub listed : lookup id state.steps ≡ some found
  pub done : (found.run.status ≡ succeeded) ⊎ (found.run.status ≡ skipped)

status_cases :
    (s : StepState)
    → (has_succeeded s.run.status || is_skipped s.run.status) ≡ true
    → (s.run.status ≡ succeeded) ⊎ (s.run.status ≡ skipped)
unfolding has_succeeded is_skipped
status_cases s h = ground arith

head_met :
    (state : State) (d : String) (deps : List String)
    → dependencies_in state.steps (d ∷ deps) ≡ true
    → DependencyMet state d × (dependencies_in state.steps deps ≡ true)
unfolding dependencies_in
head_met state d deps h = elim (Option-cases (lookup d state.steps)) [
  | inl missing ↦ let h' = rw (missing, dependencies_in) at h in cc
  | inr (s, found) ↦ elim (Bool-cases (has_succeeded s.run.status || is_skipped s.run.status)) [
    | inl yes' ↦ (
      record { found = s; listed = found; done = status_cases s yes' },
      rw (found, yes', dependencies_in) at h,
    )
    | inr no' ↦ let h' = rw (found, no', dependencies_in) at h in cc
  ]
]

dependencies_met :
    (state : State) (deps : List String)
    → dependencies_in state.steps deps ≡ true
    → (d : String) → Memᴰ d deps
    → DependencyMet state d
dependencies_met state [] h d m = elim m [ ]
dependencies_met state (x ∷ deps) h d (Memᴰ.head same) =
    subst (DependencyMet state) (sym same) (head_met state x deps h).0
dependencies_met state (x ∷ deps) h d (Memᴰ.tail m) =
    dependencies_met state deps (head_met state x deps h).1 d m

module _ {W : Type 0} (e : Engine W) (around : Surroundings W) (ordered : List Step) where
  planned-Sourced :
      (max : ℕ) (at : Standing) (r : Round) (p : StepPlan) (w w' : W)
      → plan_ready e around max (ready_steps ordered at) (going (fresh_round at) w) ≡ going r w'
      → Memᴰ p r.plans
      → Sourced e around (ready_steps ordered at) p
  planned-Sourced max at r p w w' ran m =
      subst (λ out. Goes (λ r w. AllSourced e around (ready_steps ordered at) r) out) ran
        (ready-Sourced e around (ready_steps ordered at) max (ready_steps ordered at)
          (going (fresh_round at) w) (λ s l. l) (λ q l. elim l [ ]))
        p m

  -- A step that is planned for a wave is marked as approved, and the approval function of the engine
  -- was asked for it and its risk and granted it, if its definition or the manifest of its capability
  -- asks for an approval.
  pub planned-approved :
      (max : ℕ) (at : Standing) (r : Round) (p : StepPlan) (w w' : W) (c : Capability W)
      → plan_ready e around max (ready_steps ordered at) (going (fresh_round at) w) ≡ going r w'
      → Memᴰ p r.plans
      → get e.registry p.definition.capability ≡ some c
      → (p.definition.approval_required || c.manifest.approval_required) ≡ true
      → (p.approved ≡ true) × Granted e p.definition c.manifest.risk
  planned-approved max at r p w w' c ran m known needed =
      let a = (planned-Sourced max at r p w w' ran m).approved in
      let same : a.capability ≡ c = cc (a.registered, known) in
      subst (λ x. Permits e p.definition x.manifest p.approved) same a.approval needed

  -- A step that is planned for a wave is a step of the workflow whose dependencies have succeeded
  -- or were skipped, and that is neither finished nor held back for an approval.
  pub planned-ready :
      (max : ℕ) (at : Standing) (r : Round) (p : StepPlan) (w w' : W)
      → plan_ready e around max (ready_steps ordered at) (going (fresh_round at) w) ≡ going r w'
      → Memᴰ p r.plans
      → Memᴰ p.definition ordered
        × ((d : String) → Memᴰ d p.definition.depends_on → DependencyMet at.state d)
        × (¬ Memᴰ p.definition.id at.finished)
        × (¬ Memᴰ p.definition.id at.blocked)
  unfolding dependencies_succeeded
  planned-ready max at r p w w' ran m =
      let ready =
        listed-Ready at ordered p.definition (planned-Sourced max at r p w w' ran m).step in
      let (new, free) = open-lem at.finished at.blocked p.definition.id ready.still_open in
      (
        ready.listed,
        dependencies_met at.state p.definition.depends_on ready.dependencies,
        new,
        free,
      )

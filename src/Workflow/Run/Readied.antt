-- ===== src/Workflow/Run/Readied.antt =====
-- The planning of a wave, over all ready steps.
use mathlib.Core.Path.{subst}
use enterprise_security_reco.Prelude.{
  ℕ, ◌≤◌, String, ◌≡◌, ◌≢◌, refl, sym, false, Bool-cases, inl, inr, ◌⊎◌, List, [], ◌∷◌, Memᴰ,
  Distinct, arith, length, leb,
}
use enterprise_security_reco.Workflow.{Step}
use enterprise_security_reco.Workflow.Keys.{step_ids, mem-step_ids}
use enterprise_security_reco.Workflow.Records.{Engine, Surroundings}
use enterprise_security_reco.Workflow.Plans.{
  Round, Progress, going, ended, retain_step, plan_step, plan_ready,
}
use enterprise_security_reco.Workflow.Run.Sets.{mark-mem, marked, marks}
use enterprise_security_reco.Workflow.Run.Effects.{
  Goes, Effect, retains, skips, holds_back, begins, plan_step-Effect,
}
use enterprise_security_reco.Workflow.Run.Planning.{plan_ids, mem_end, end_mem, mem_earlier}
use enterprise_security_reco.Workflow.Run.Planned.{Goes-map, Planned, Unmet, step-Planned}

-- The round has dealt with the step of the id.
abbrev pub Met : String → Round → Type 0
Met id r = Memᴰ id r.finished ⊎ (Memᴰ id r.blocked ⊎ Memᴰ id (plan_ids r.plans))

-- There is room for the first step, so that a wave is never planned in vain.
pub room_for_first : (max : ℕ) → 1 ≤ max → leb max 0 ≡ false
room_for_first max h = ground arith

module _ {W : Type 0} (e : Engine W) (around : Surroundings W) where
  step-Met : (s : Step) (r r' : Round) → Effect e around s r r' → Met s.id r'
  step-Met s r r' (retains existing found ok' q) =
      subst (Met s.id) (sym q) (inl (marked s.id r.finished))
  step-Met s r r' (skips ss status q) = subst (Met s.id) (sym q) (inl (marked s.id r.finished))
  step-Met s r r' (holds_back ss status q) =
      subst (Met s.id) (sym q) (inr (inl (marked s.id r.blocked)))
  step-Met s r r' (begins c input approved ss found needs q) =
      subst (Met s.id) (sym q) (inr (inr (end_mem r.plans _)))

  keeps-Met :
      (s : Step) (id : String) (r r' : Round) → Effect e around s r r' → Met id r → Met id r'
  keeps-Met s id r r' (retains existing found ok' q) m =
      subst (Met id) (sym q) (elim m [ inl f ↦ inl (marks s.id id r.finished f) | inr o ↦ inr o ])
  keeps-Met s id r r' (skips ss status q) m =
      subst (Met id) (sym q) (elim m [ inl f ↦ inl (marks s.id id r.finished f) | inr o ↦ inr o ])
  keeps-Met s id r r' (holds_back ss status q) m = subst (Met id) (sym q) (elim m [
    | inl f ↦ inl f
    | inr o ↦ elim o [ inl b ↦ inr (inl (marks s.id id r.blocked b)) | inr p ↦ inr (inr p) ]
  ])
  keeps-Met s id r r' (begins c input approved ss found needs q) m =
      subst (Met id) (sym q) (elim m [
        | inl f ↦ inl f
        | inr o ↦ elim o [ inl b ↦ inr (inl b) | inr p ↦ inr (inr (mem_earlier id r.plans _ p)) ]
      ])

  finish-Unmet :
      (s : Step) (id : String) (r : Round) → id ≢ s.id → Unmet r id → Unmet (retain_step s r) id
  finish-Unmet s id r n u = record {
    not_finished = λ m. elim ((mark-mem s.id id r.finished).0 m) [
      | inl e' ↦ n e'
      | inr m' ↦ u.not_finished m'
    ];
    not_planned = u.not_planned;
  }

  step-Unmet :
      (s : Step) (id : String) (r r' : Round)
      → Effect e around s r r'
      → id ≢ s.id
      → Unmet r id
      → Unmet r' id
  step-Unmet s id r r' (retains existing found ok' q) n u =
      subst (λ w. Unmet w id) (sym q) (finish-Unmet s id r n u)
  step-Unmet s id r r' (skips ss status q) n u =
      subst (λ w. Unmet w id) (sym q)
        (record {
          not_finished = (finish-Unmet s id r n u).not_finished;
          not_planned = u.not_planned;
        })
  step-Unmet s id r r' (holds_back ss status q) n u =
      subst (λ w. Unmet w id) (sym q)
        (record { not_finished = u.not_finished; not_planned = u.not_planned })
  step-Unmet s id r r' (begins c input approved ss found needs q) n u =
      subst (λ w. Unmet w id) (sym q)
        (record {
          not_finished = u.not_finished;
          not_planned =
              λ m. elim (mem_end id r.plans _ m) [ inl m' ↦ u.not_planned m' | inr e' ↦ n e' ];
        })

module _ {W : Type 0} (e : Engine W) (around : Surroundings W) (ids fin blk : List String)
    (max : ℕ) where
  -- The steps still to plan: distinct steps of the workflow that the round has not met.
  pub record Awaiting (steps : List Step) (r : Round) : Type 0 where
    pub planned : Planned e around ids fin blk r
    pub unmet : (s : Step) → Memᴰ s steps → Unmet r s.id
    pub distinct : Distinct (step_ids steps)
    pub known : (s : Step) → Memᴰ s steps → Memᴰ s.id ids

  next-Awaiting :
      (s : Step) (steps : List Step) (r r' : Round)
      → Effect e around s r r'
      → Awaiting (s ∷ steps) r
      → Awaiting steps r'
  next-Awaiting s steps r r' fx a = record {
    planned =
        step-Planned e around ids fin blk s r r' fx a.planned (a.unmet s (Memᴰ.head refl))
          (a.known s (Memᴰ.head refl));
    unmet = λ t p.
        step-Unmet e around s t.id r r' fx
          (λ q. a.distinct.0 (subst (λ w. Memᴰ w (step_ids steps)) q (mem-step_ids t steps p)))
          (a.unmet t (Memᴰ.tail p));
    distinct = a.distinct.1;
    known = λ t p. a.known t (Memᴰ.tail p);
  }

  pub plan_ready-Planned :
      (steps : List Step) (p : Progress Round W)
      → Goes (λ r w. Awaiting steps r) p
      → Goes (λ r w. Planned e around ids fin blk r) (plan_ready e around max steps p)
  unfolding plan_ready
  plan_ready-Planned steps (ended ending w) h = tt
  plan_ready-Planned [] (going r w) h = h.planned
  plan_ready-Planned (s ∷ steps) (going r w) h = elim (Bool-cases (leb max (length r.plans))) [
    | inl full ↦ rw full h.planned
    | inr room ↦ rw room (
        plan_ready-Planned steps (plan_step e around s r w) (
          Goes-map (plan_step e around s r w) (λ r' w' fx. next-Awaiting s steps r r' fx h)
            (plan_step-Effect e around s r w)))
  ]

  plan_ready-keeps :
      (id : String) (steps : List Step) (p : Progress Round W)
      → Goes (λ r w. Met id r) p
      → Goes (λ r w. Met id r) (plan_ready e around max steps p)
  unfolding plan_ready
  plan_ready-keeps id steps (ended ending w) h = tt
  plan_ready-keeps id [] (going r w) h = h
  plan_ready-keeps id (s ∷ steps) (going r w) h = elim (Bool-cases (leb max (length r.plans))) [
    | inl full ↦ rw full h
    | inr room ↦ rw room (
        plan_ready-keeps id steps (plan_step e around s r w) (
          Goes-map (plan_step e around s r w) (λ r' w' fx. keeps-Met e around s id r r' fx h)
            (plan_step-Effect e around s r w)))
  ]

  -- The first of the ready steps is met, if there is room for one plan.
  pub plan_ready-Met :
      (s : Step) (steps : List Step) (r : Round) (w : W)
      → 1 ≤ max
      → r.plans ≡ []
      → Goes (λ r' w'. Met s.id r') (plan_ready e around max (s ∷ steps) (going r w))
  unfolding plan_ready
  plan_ready-Met s steps r w room none' =
      let first : leb max (length r.plans) ≡ false =
        subst (λ w. leb max (length w) ≡ false) (sym none') (room_for_first max room) in
      rw first (
        plan_ready-keeps s.id steps (plan_step e around s r w) (
          Goes-map (plan_step e around s r w) (λ r' w' fx. step-Met e around s r r' fx)
            (plan_step-Effect e around s r w)))

-- ===== src/Workflow/Run/Planned.antt =====
-- The planning of a wave, over all ready steps.
use mathlib.Core.Path.{subst}
use enterprise_security_reco.Prelude.{
  String, ◌≡◌, refl, sym, Bool, true, inl, inr, ◌⊎◌, some, List, [], ◌∷◌, ◌++◌, Memᴰ, Distinct,
  arith, lookup,
}
use enterprise_security_reco.Domain.{StepStatus}
use enterprise_security_reco.Capability.{Capability, get}
use enterprise_security_reco.Workflow.{Step, StepState}
use enterprise_security_reco.Workflow.Attempts.{StepPlan}
use enterprise_security_reco.Workflow.Condition.{has_succeeded}
use enterprise_security_reco.Workflow.Input.{is_skipped}
use enterprise_security_reco.Workflow.Records.{Engine, Surroundings, set_step}
use enterprise_security_reco.Workflow.Plans.{
  Round, Progress, going, ended, mark, retain_step, skip_step, hold_step, begin_step, started_state,
}
use enterprise_security_reco.Workflow.Run.Sets.{mark-mem, marks, Grown}
use enterprise_security_reco.Workflow.Run.Effects.{
  Permits, Goes, Effect, retains, skips, holds_back, begins,
}
use enterprise_security_reco.Workflow.Run.Planning.{
  Finished, steps-Finished, plan_ids, set_step-Finished, mark-Finished, finish-Finished, mem_end,
  end-Distinct,
}

pub Goes-map :
    {A W : Type 0} {P Q : A → W → Type 0} (p : Progress A W)
    → ((a : A) (w : W) → P a w → Q a w)
    → Goes P p
    → Goes Q p
Goes-map (going a w) f h = f a w h
Goes-map (ended ending w) f h = tt

-- A step that the round has not met.
pub record Unmet (r : Round) (id : String) : Type 0 where
  pub not_finished : ¬ Memᴰ id r.finished
  pub not_planned : ¬ Memᴰ id (plan_ids r.plans)

pub mem_last_plan :
    (plans : List StepPlan) (p q : StepPlan) → Memᴰ q (plans ++ p ∷ []) → Memᴰ q plans ⊎ (q ≡ p)
mem_last_plan [] p q (Memᴰ.head e') = inr e'
mem_last_plan [] p q (Memᴰ.tail m) = elim m [ ]
mem_last_plan (t ∷ plans) p q (Memᴰ.head e') = inl (Memᴰ.head e')
mem_last_plan (t ∷ plans) p q (Memᴰ.tail m) = elim (mem_last_plan plans p q m) [
  | inl m' ↦ inl (Memᴰ.tail m')
  | inr e' ↦ inr e'
]

module _ {W : Type 0} (e : Engine W) where
  -- A plan whose step was granted an approval if it needs one.
  pub record Approved (p : StepPlan) : Type 0 where
    pub capability : Capability W
    pub registered : get e.registry p.definition.capability ≡ some capability
    pub approval : Permits e p.definition capability.manifest p.approved

module _ {W : Type 0} (e : Engine W) (around : Surroundings W) (ids fin blk : List String) where
  -- What holds of a round: it has grown from the sets that it began with.
  pub record Planned (r : Round) : Type 0 where
    pub grown : Grown fin blk r.finished r.blocked
    pub finished : Finished ids r.state r.finished
    pub once : Distinct (plan_ids r.plans)
    pub apart : (x : String) → Memᴰ x (plan_ids r.plans) → ¬ Memᴰ x r.finished
    pub approved : (p : StepPlan) → Memᴰ p r.plans → Approved e p
    pub known : (x : String) → Memᴰ x (plan_ids r.plans) → Memᴰ x ids

  retain-Planned :
      (s : Step) (r : Round) (existing : StepState)
      → lookup s.id r.state.steps ≡ some existing
      → has_succeeded existing.run.status ≡ true
      → Planned r
      → Unmet r s.id
      → Memᴰ s.id ids
      → Planned (retain_step s r)
  retain-Planned s r existing found ok' p u known = record {
    grown = record {
      more_finished = λ x q. marks s.id x r.finished (p.grown.more_finished x q);
      more_blocked = p.grown.more_blocked;
    };
    finished =
        mark-Finished ids (retain_step s r).state r.finished s.id
          (steps-Finished ids r.state (retain_step s r).state r.finished refl p.finished) known
          (record { found = existing; listed = found; done = ground (arith, ok') });
    once = p.once;
    apart = λ x q f. elim ((mark-mem s.id x r.finished).0 f) [
      | inl e' ↦ u.not_planned (subst (λ w. Memᴰ w (plan_ids r.plans)) e' q)
      | inr g ↦ p.apart x q g
    ];
    approved = p.approved;
    known = p.known;
  }

  skip-Planned :
      (s : Step) (r : Round) (ss : StepState)
      → ss.run.status ≡ StepStatus.skipped
      → Planned r
      → Unmet r s.id
      → Memᴰ s.id ids
      → Planned (skip_step s ss r)
  unfolding has_succeeded is_skipped
  skip-Planned s r ss skipped' p u known = record {
    grown = record {
      more_finished = λ x q. marks s.id x r.finished (p.grown.more_finished x q);
      more_blocked = p.grown.more_blocked;
    };
    finished =
        steps-Finished ids
          (set_step s.id (record ss { run = record ss.run { is_completed = true } }) r.state)
          (skip_step s ss r).state (mark s.id r.finished) refl
          (finish-Finished ids r.state r.finished s.id
            (record ss { run = record ss.run { is_completed = true } }) p.finished u.not_finished
            known (rw skipped' refl));
    once = p.once;
    apart = λ x q f. elim ((mark-mem s.id x r.finished).0 f) [
      | inl e' ↦ u.not_planned (subst (λ w. Memᴰ w (plan_ids r.plans)) e' q)
      | inr g ↦ p.apart x q g
    ];
    approved = p.approved;
    known = p.known;
  }

  hold-Planned :
      (s : Step) (r : Round) (ss : StepState)
      → Planned r
      → Unmet r s.id
      → Planned (hold_step s ss r)
  hold-Planned s r ss p u = record {
    grown = record {
      more_finished = p.grown.more_finished;
      more_blocked = λ x q. marks s.id x r.blocked (p.grown.more_blocked x q);
    };
    finished =
        steps-Finished ids
          (set_step s.id (record ss { run = record ss.run { approval_state = "pending" } }) r.state)
          (hold_step s ss r).state r.finished refl
          (set_step-Finished ids r.state r.finished s.id
            (record ss { run = record ss.run { approval_state = "pending" } }) p.finished
            u.not_finished);
    once = p.once;
    apart = p.apart;
    approved = p.approved;
    known = p.known;
  }

  begin-Planned :
      (s : Step) (r : Round) (c : Capability W) (input : String) (approved : Bool) (ss : StepState)
      → get e.registry s.capability ≡ some c
      → Permits e s c.manifest approved
      → Planned r
      → Unmet r s.id
      → Memᴰ s.id ids
      → Planned (begin_step s c.manifest input approved ss r)
  begin-Planned s r c input approved ss found needs p u known = record {
    grown = p.grown;
    finished =
        steps-Finished ids (set_step s.id (started_state ss approved) r.state)
          (begin_step s c.manifest input approved ss r).state r.finished refl
          (set_step-Finished ids r.state r.finished s.id (started_state ss approved) p.finished
            u.not_finished);
    once = end-Distinct r.plans _ p.once u.not_planned;
    apart = λ x q f. elim (mem_end x r.plans _ q) [
      | inl g ↦ p.apart x g f
      | inr e' ↦ u.not_finished (subst (λ w. Memᴰ w r.finished) e' f)
    ];
    approved = λ plan q. elim (mem_last_plan r.plans _ plan q) [
      | inl g ↦ p.approved plan g
      | inr e' ↦
          subst (Approved e) (sym e')
            (record { capability = c; registered = found; approval = needs })
    ];
    known = λ x q. elim (mem_end x r.plans _ q) [
      | inl g ↦ p.known x g
      | inr e' ↦ subst (λ w. Memᴰ w ids) (sym e') known
    ];
  }

  pub step-Planned :
      (s : Step) (r r' : Round)
      → Effect e around s r r'
      → Planned r
      → Unmet r s.id
      → Memᴰ s.id ids
      → Planned r'
  step-Planned s r r' (retains existing found ok' q) p u known =
      subst Planned (sym q) (retain-Planned s r existing found ok' p u known)
  step-Planned s r r' (skips ss status q) p u known =
      subst Planned (sym q) (skip-Planned s r ss status p u known)
  step-Planned s r r' (holds_back ss status q) p u known =
      subst Planned (sym q) (hold-Planned s r ss p u)
  step-Planned s r r' (begins c input approved ss found needs q) p u known =
      subst Planned (sym q) (begin-Planned s r c input approved ss found needs p u known)

-- ===== src/Workflow/Run/Recording.antt =====
-- What the recording of a wave's outcomes keeps true, and how each outcome is settled.
use mathlib.Core.Path.{subst}
use enterprise_security_reco.Prelude.{
  String, ◌≡◌, refl, sym, ap, Bool, true, false, inl, inr, ◌⊎◌, Option, none, some, List, [], ◌∷◌,
  Memᴰ, Permᴰ, Distinct, arith,
}
use enterprise_security_reco.Errors.{Error}
use enterprise_security_reco.Workflow.{State}
use enterprise_security_reco.Workflow.Attempts.{StepPlan, StepOutcome}
use enterprise_security_reco.Workflow.Condition.{has_succeeded}
use enterprise_security_reco.Workflow.Input.{is_skipped}
use enterprise_security_reco.Workflow.Records.{Engine, Surroundings, set_step, save, persist_with}
use enterprise_security_reco.Workflow.Plans.{Progress, going, ended, mark}
use enterprise_security_reco.Workflow.Wave.{
  Recorded, succeeded_state, summarise, unsuccessful, record_outcome, saved, record_outcomes,
}
use enterprise_security_reco.Workflow.Run.Sets.{mark-mem, marks}
use enterprise_security_reco.Workflow.Run.Effects.{Goes}
use enterprise_security_reco.Workflow.Run.Planning.{
  Finished, steps-Finished, set_step-Finished, finish-Finished, plan_ids,
}
use enterprise_security_reco.Workflow.Run.Stays.{Ended, Orderly, outcome_ids, Excused}

pub outcome_ids-perm :
    {xs ys : List StepOutcome} → Permᴰ xs ys → Permᴰ (outcome_ids xs) (outcome_ids ys)
outcome_ids-perm Permᴰ.nil = Permᴰ.nil
outcome_ids-perm (Permᴰ.cons q p) = Permᴰ.cons (ap (λ o. o.definition.id) q) (outcome_ids-perm p)
outcome_ids-perm (Permᴰ.swap q r) =
    Permᴰ.swap (ap (λ o. o.definition.id) q) (ap (λ o. o.definition.id) r)
outcome_ids-perm (Permᴰ.trans p q) = Permᴰ.trans (outcome_ids-perm p) (outcome_ids-perm q)

pub plan_ids-perm : {xs ys : List StepPlan} → Permᴰ xs ys → Permᴰ (plan_ids xs) (plan_ids ys)
plan_ids-perm Permᴰ.nil = Permᴰ.nil
plan_ids-perm (Permᴰ.cons q p) = Permᴰ.cons (ap (λ o. o.definition.id) q) (plan_ids-perm p)
plan_ids-perm (Permᴰ.swap q r) =
    Permᴰ.swap (ap (λ o. o.definition.id) q) (ap (λ o. o.definition.id) r)
plan_ids-perm (Permᴰ.trans p q) = Permᴰ.trans (plan_ids-perm p) (plan_ids-perm q)

mem-outcome_ids :
    (o : StepOutcome) (os : List StepOutcome) → Memᴰ o os → Memᴰ o.definition.id (outcome_ids os)
mem-outcome_ids o [] p = elim p [ ]
mem-outcome_ids o (x ∷ os) (Memᴰ.head q) = Memᴰ.head (ap (λ w. w.definition.id) q)
mem-outcome_ids o (x ∷ os) (Memᴰ.tail p) = Memᴰ.tail (mem-outcome_ids o os p)

pub outcome_of_id :
    (id : String) (os : List StepOutcome)
    → Memᴰ id (outcome_ids os)
    → (o : StepOutcome) × Memᴰ o os × (o.definition.id ≡ id)
outcome_of_id id [] p = elim p [ ]
outcome_of_id id (o ∷ os) (Memᴰ.head q) = (o, Memᴰ.head refl, sym q)
outcome_of_id id (o ∷ os) (Memᴰ.tail p) =
    let (q, m, same) = outcome_of_id id os p in (q, Memᴰ.tail m, same)

summarise-steps : (o : StepOutcome) (s : State) → (summarise o s).steps ≡ s.steps
unfolding summarise
summarise-steps o s = ground arith

module _ {W : Type 0} (e : Engine W) (around : Surroundings W) (orderly : Orderly e around)
    (ids fin : List String) where
  pub record Recording (r : Recorded) : Type 0 where
    pub finished : Finished ids r.state r.finished
    pub grown : (x : String) → Memᴰ x fin → Memᴰ x r.finished

  -- The outcomes still to record.
  pub record Pending (os : List StepOutcome) (r : Recorded) (w : W) : Type 0 where
    pub recording : Recording r
    pub distinct : Distinct (outcome_ids os)
    pub new : (x : String) → Memᴰ x (outcome_ids os) → ¬ Memᴰ x r.finished
    pub known : (x : String) → Memᴰ x (outcome_ids os) → Memᴰ x ids
    pub excused : (o : StepOutcome) → Memᴰ o os → Excused e around w o

  success-Recording :
      (o : StepOutcome) (r : Recorded)
      → Recording r
      → ¬ Memᴰ o.definition.id r.finished
      → Memᴰ o.definition.id ids
      → Recording (record_outcome e around o none r)
  unfolding record_outcome has_succeeded is_skipped
  success-Recording o r rec new known = record {
    finished =
        steps-Finished ids (set_step o.definition.id (succeeded_state o) r.state) _
          (mark o.definition.id r.finished)
          (summarise-steps o (set_step o.definition.id (succeeded_state o) r.state))
          (finish-Finished ids r.state r.finished o.definition.id (succeeded_state o) rec.finished
            new known refl);
    grown = λ x p. marks o.definition.id x r.finished (rec.grown x p);
  }

  failure-Recording :
      (primary : Bool) (o : StepOutcome) (failure : Error) (r : Recorded)
      → Recording r
      → ¬ Memᴰ o.definition.id r.finished
      → Recording (unsuccessful e around primary o failure r)
  failure-Recording true o failure r rec new = record {
    finished =
        steps-Finished ids (set_step o.definition.id _ r.state) _ r.finished refl
          (set_step-Finished ids r.state r.finished o.definition.id _ rec.finished new);
    grown = rec.grown;
  }
  failure-Recording false o failure r rec new = record {
    finished =
        steps-Finished ids (set_step o.definition.id _ r.state) _ r.finished refl
          (set_step-Finished ids r.state r.finished o.definition.id _ rec.finished new);
    grown = rec.grown;
  }

  outcome-Recording :
      (o : StepOutcome) (failure : Option Error) (r : Recorded)
      → Recording r
      → ¬ Memᴰ o.definition.id r.finished
      → Memᴰ o.definition.id ids
      → Recording (record_outcome e around o failure r)
  unfolding record_outcome
  outcome-Recording o none r rec new known = success-Recording o r rec new known
  outcome-Recording o (some failure) r rec new known =
      failure-Recording o.primary_failure o failure r rec new

  save-Ended :
      (persister : Option (State → W → Option Error × W))
      → e.persister ≡ persister
      → (s : State) (w : W) → Ended e around w
      → Ended e around (persist_with persister s w).1
  save-Ended none q s w h = h
  save-Ended (some persist) q s w h = orderly.persist persist q s w h

  pub saves-Ended : (s : State) (w : W) → Ended e around w → Ended e around (save e around s w).1
  unfolding save
  saves-Ended s w h = save-Ended e.persister refl s w h

  pub saved-Goes :
      (P : Recorded → W → Type 0) (r : Recorded) (out : Option Error × W)
      → P r out.1
      → Goes P (saved e around r out)
  saved-Goes P r (none, w) h = h
  saved-Goes P r (some failure, w) h = tt

  unsuccessful-finished :
      (primary : Bool) (o : StepOutcome) (failure : Error) (r : Recorded)
      → (unsuccessful e around primary o failure r).finished ≡ r.finished
  unsuccessful-finished true o failure r = refl
  unsuccessful-finished false o failure r = refl

  record_outcome-finished :
      (o : StepOutcome) (failure : Option Error) (r : Recorded) (x : String)
      → Memᴰ x (record_outcome e around o failure r).finished
      → Memᴰ x r.finished ⊎ (x ≡ o.definition.id)
  unfolding record_outcome
  record_outcome-finished o none r x p = elim ((mark-mem o.definition.id x r.finished).0 p) [
    | inl q ↦ inr q
    | inr q ↦ inl q
  ]
  record_outcome-finished o (some failure) r x p =
      inl (subst (λ w. Memᴰ x w) (unsuccessful-finished o.primary_failure o failure r) p)

  next-Pending :
      (o : StepOutcome) (os : List StepOutcome) (r : Recorded) (w : W)
      → Pending (o ∷ os) r w
      → Pending os
          (record_outcome e around o o.err r)
          (save e around (record_outcome e around o o.err r).state w).1
  next-Pending o os r w p = record {
    recording =
        outcome-Recording o o.err r p.recording (p.new o.definition.id (Memᴰ.head refl))
          (p.known o.definition.id (Memᴰ.head refl));
    distinct = p.distinct.1;
    new = λ x m f. elim (record_outcome-finished o o.err r x f) [
      | inl g ↦ p.new x (Memᴰ.tail m) g
      | inr q ↦ p.distinct.0 (subst (λ w. Memᴰ w (outcome_ids os)) q m)
    ];
    known = λ x m. p.known x (Memᴰ.tail m);
    excused = λ q m f n. saves-Ended _ w (p.excused q (Memᴰ.tail m) f n);
  }

  pub record_outcomes-Recording :
      (os : List StepOutcome) (p : Progress Recorded W)
      → Goes (λ r w. Pending os r w) p
      → Goes (λ r w. Recording r) (record_outcomes e around os p)
  unfolding record_outcomes
  record_outcomes-Recording os (ended ending w) h = tt
  record_outcomes-Recording [] (going r w) h = h.recording
  record_outcomes-Recording (o ∷ os) (going r w) h = record_outcomes-Recording os _ (
      saved-Goes (λ r w. Pending os r w) (record_outcome e around o o.err r) _
        (next-Pending o os r w h))

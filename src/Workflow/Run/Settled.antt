-- ===== src/Workflow/Run/Settled.antt =====
-- How each outcome of a wave is settled: the step is finished, or the run is about to end.
use enterprise_security_reco.Prelude.{
  String, ◌≡◌, refl, Bool, true, false, inl, inr, ◌⊎◌, Option, none, some, List, [], ◌∷◌, Memᴰ,
}
use enterprise_security_reco.Errors.{Error}
use enterprise_security_reco.Workflow.{State}
use enterprise_security_reco.Workflow.Attempts.{StepOutcome}
use enterprise_security_reco.Workflow.Records.{Engine, Surroundings, save}
use enterprise_security_reco.Workflow.Plans.{Progress, going, ended}
use enterprise_security_reco.Workflow.Wave.{
  Recorded, first_failure, unsuccessful, record_outcome, record_outcomes, is_nil_error,
}
use enterprise_security_reco.Workflow.Run.Sets.{marked, marks}
use enterprise_security_reco.Workflow.Run.Effects.{Goes}
use enterprise_security_reco.Workflow.Run.Stays.{Ended, Orderly, Excused}
use enterprise_security_reco.Workflow.Run.Recording.{saves-Ended, saved-Goes}

abbrev pub is_nil_outcome : Option StepOutcome → Bool
is_nil_outcome none = true
is_nil_outcome (some o) = false

first_failure-some :
    (earlier : Option StepOutcome) (o : StepOutcome)
    → is_nil_outcome (first_failure earlier o) ≡ false
first_failure-some none o = refl
first_failure-some (some earlier) o = refl

module _ {W : Type 0} (e : Engine W) (around : Surroundings W) (orderly : Orderly e around)
    (ids fin : List String) where
  -- The step is finished, or there is a failure that ends the run, or the run is cancelled.
  abbrev pub Settled : String → Recorded → W → Type 0
  Settled id r w = Memᴰ id r.finished ⊎ ((is_nil_outcome r.primary ≡ false) ⊎ Ended e around w)

  -- A save and more failures leave a settled step so.
  later-Settled :
      (id : String) (r r' : Recorded) (s : State) (w : W)
      → ((x : String) → Memᴰ x r.finished → Memᴰ x r'.finished)
      → (is_nil_outcome r.primary ≡ false → is_nil_outcome r'.primary ≡ false)
      → Settled id r w
      → Settled id r' (save e around s w).1
  later-Settled id r r' s w more still (inl f) = inl (more id f)
  later-Settled id r r' s w more still (inr (inl p)) = inr (inl (still p))
  later-Settled id r r' s w more still (inr (inr c)) =
      inr (inr (saves-Ended e around orderly ids fin s w c))

  keeps-unsuccessful :
      (primary : Bool) (id : String) (o : StepOutcome) (failure : Error) (r : Recorded) (s : State)
      (w : W)
      → Settled id r w
      → Settled id (unsuccessful e around primary o failure r) (save e around s w).1
  keeps-unsuccessful true id o failure r s w h =
      later-Settled id r (unsuccessful e around true o failure r) s w (λ x p. p)
        (λ p. first_failure-some r.primary o) h
  keeps-unsuccessful false id o failure r s w h =
      later-Settled id r (unsuccessful e around false o failure r) s w (λ x p. p) (λ p. p) h

  keeps-Settled :
      (id : String) (o : StepOutcome) (failure : Option Error) (r : Recorded) (w : W)
      → Settled id r w
      → Settled id
          (record_outcome e around o failure r)
          (save e around (record_outcome e around o failure r).state w).1
  unfolding record_outcome
  keeps-Settled id o none r w h =
      later-Settled id r (record_outcome e around o none r) _ w
        (λ x p. marks o.definition.id x r.finished p) (λ p. p) h
  keeps-Settled id o (some failure) r w h =
      keeps-unsuccessful o.primary_failure id o failure r _ w h

  settle-unsuccessful :
      (primary : Bool) (o : StepOutcome) (failure : Error) (r : Recorded) (s : State) (w : W)
      → (primary ≡ false → Ended e around w)
      → Settled o.definition.id (unsuccessful e around primary o failure r) (save e around s w).1
  settle-unsuccessful true o failure r s w excused = inr (inl (first_failure-some r.primary o))
  settle-unsuccessful false o failure r s w excused =
      inr (inr (saves-Ended e around orderly ids fin s w (excused refl)))

  outcome-Settled :
      (o : StepOutcome) (failure : Option Error) (r : Recorded) (w : W)
      → (is_nil_error failure ≡ false → o.primary_failure ≡ false → Ended e around w)
      → Settled o.definition.id
          (record_outcome e around o failure r)
          (save e around (record_outcome e around o failure r).state w).1
  unfolding record_outcome
  outcome-Settled o none r w excused = inl (marked o.definition.id r.finished)
  outcome-Settled o (some failure) r w excused =
      settle-unsuccessful o.primary_failure o failure r _ w (excused refl)

  record_outcomes-keeps :
      (id : String) (os : List StepOutcome) (p : Progress Recorded W)
      → Goes (λ r w. Settled id r w) p
      → Goes (λ r w. Settled id r w) (record_outcomes e around os p)
  unfolding record_outcomes
  record_outcomes-keeps id os (ended ending w) h = tt
  record_outcomes-keeps id [] (going r w) h = h
  record_outcomes-keeps id (o ∷ os) (going r w) h = record_outcomes-keeps id os _ (
      saved-Goes e around orderly ids fin (Settled id) (record_outcome e around o o.err r) _
        (keeps-Settled id o o.err r w h))

  -- Every outcome that is recorded is settled.
  pub record_outcomes-Settled :
      (o : StepOutcome) (os : List StepOutcome) (p : Progress Recorded W)
      → Memᴰ o os
      → Goes (λ r w. (q : StepOutcome) → Memᴰ q os → Excused e around w q) p
      → Goes (λ r w. Settled o.definition.id r w) (record_outcomes e around os p)
  unfolding record_outcomes
  record_outcomes-Settled o os (ended ending w) m h = tt
  record_outcomes-Settled o [] (going r w) m h = elim m [ ]
  record_outcomes-Settled o (x ∷ os) (going r w) (Memᴰ.head same) h =
      record_outcomes-keeps o.definition.id os _ (
        saved-Goes e around orderly ids fin (Settled o.definition.id)
          (record_outcome e around x x.err r) _
          (rw same (outcome-Settled x x.err r w (h x (Memᴰ.head refl)))))
  record_outcomes-Settled o (x ∷ os) (going r w) (Memᴰ.tail m) h =
      record_outcomes-Settled o os _ m (
        saved-Goes e around orderly ids fin
          (λ r w. (q : StepOutcome) → Memᴰ q os → Excused e around w q)
          (record_outcome e around x x.err r) _
          (λ q m' f n. saves-Ended e around orderly ids fin _ w (h q (Memᴰ.tail m') f n)))

-- ===== src/Workflow/Run/Unended.antt =====
-- Until its loop is over, `Run` never leaves or returns a run that is completed.
use enterprise_security_reco.Prelude.{
  String, refl, Bool, true, false, ◌||◌, not, Bool-cases, inl, inr, Option, none, some, List, [],
  ◌∷◌, length, ltb, ◌==◌, ◌&&◌,
}
use enterprise_security_reco.Strings.{is_empty}
use enterprise_security_reco.Errors.{Error}
use enterprise_security_reco.Domain.{Task}
use enterprise_security_reco.Workflow.{Step, State}
use enterprise_security_reco.Workflow.Attempts.{StepPlan, StepOutcome}
use enterprise_security_reco.Workflow.Records.{Engine, Surroundings, save, terminal, fail, pause}
use enterprise_security_reco.Workflow.Plans.{Round, Progress, going, ended}
use enterprise_security_reco.Workflow.Wave.{
  by_rank, Recorded, summarise, unsuccessful, record_outcome, saved, record_outcomes, is_nil_error,
}
use enterprise_security_reco.Workflow.Run.{
  Standing, parallelism, ready_steps, after_primary, after_wave, execute_plans, planned_save,
  after_plans, with_ready, one_round,
}
use enterprise_security_reco.Workflow.Run.Unfinished.{
  Unfinished, Keeps, KeepsRound, if-Keeps, plan_ready-Keeps,
}

module _ {W : Type 0} (e : Engine W) (around : Surroundings W) where
  abbrev KeepsRecorded : Progress Recorded W → Type 0
  KeepsRecorded = Keeps (λ r. r.state)

  summarise-Unfinished : (o : StepOutcome) (s : State) → Unfinished s → Unfinished (summarise o s)
  unfolding summarise
  summarise-Unfinished o s h =
      elim (Bool-cases
        (o.definition.capability == "report.changes" && not (is_empty o.result.action.output))) [
          | inl reports ↦ rw reports h
          | inr other ↦ rw other h
        ]

  unsuccessful-Unfinished :
      (primary : Bool) (o : StepOutcome) (failure : Error) (r : Recorded)
      → Unfinished r.state
      → Unfinished (unsuccessful e around primary o failure r).state
  unsuccessful-Unfinished true o failure r h = h
  unsuccessful-Unfinished false o failure r h = h

  record-Unfinished :
      (o : StepOutcome) (failure : Option Error) (r : Recorded)
      → Unfinished r.state
      → Unfinished (record_outcome e around o failure r).state
  unfolding record_outcome
  record-Unfinished o none r h = summarise-Unfinished o _ h
  record-Unfinished o (some failure) r h = unsuccessful-Unfinished o.primary_failure o failure r h

  saved-Keeps :
      (r : Recorded) (out : Option Error × W)
      → Unfinished r.state
      → KeepsRecorded (saved e around r out)
  saved-Keeps r (none, w) h = h
  saved-Keeps r (some failure, w) h = h

  record_outcomes-Keeps :
      (os : List StepOutcome) (p : Progress Recorded W)
      → KeepsRecorded p
      → KeepsRecorded (record_outcomes e around os p)
  unfolding record_outcomes
  record_outcomes-Keeps os (ended ending w) h = h
  record_outcomes-Keeps [] (going r w) h = h
  record_outcomes-Keeps (o ∷ os) (going r w) h =
      record_outcomes-Keeps os _
        (saved-Keeps (record_outcome e around o o.err r) _ (record-Unfinished o o.err r h))

  abbrev pub KeepsStanding : Progress Standing W → Type 0
  KeepsStanding = Keeps (λ at. at.state)

  primary-Keeps :
      (blocked : List String) (r : Recorded) (w : W) (primary : Option StepOutcome)
      → Unfinished r.state
      → KeepsStanding (after_primary e around blocked r w primary)
  unfolding fail
  primary-Keeps blocked r w none h = h
  primary-Keeps blocked r w (some o) h = refl

  wave-Keeps :
      (blocked : List String) (p : Progress Recorded W)
      → KeepsRecorded p
      → KeepsStanding (after_wave e around blocked p)
  unfolding after_wave terminal
  wave-Keeps blocked (ended ending w) h = h
  wave-Keeps blocked (going r w) h =
      if-Keeps (λ at. at.state) ((around.controls w).1 || not (is_nil_error (around.context_err w)))
        _ _ refl (primary-Keeps blocked r w r.primary h)

  module _ (task : Task) (ordered : List Step) where
    execute-Keeps :
        (r : Round) (plans : List StepPlan) (w : W)
        → Unfinished r.state
        → KeepsStanding (execute_plans e around task ordered r plans w)
    unfolding execute_plans
    execute-Keeps r [] w h = h
    execute-Keeps r (p ∷ plans) w h =
        wave-Keeps r.blocked _ (record_outcomes-Keeps (by_rank ordered _) _ h)

    planned-Keeps :
        (r : Round) (out : Option Error × W)
        → Unfinished r.state
        → KeepsStanding (planned_save e around task ordered r out)
    planned-Keeps r (none, w) h = execute-Keeps r r.plans w h
    planned-Keeps r (some failure, w) h = h

    plans-Keeps :
        (p : Progress Round W)
        → KeepsRound e around p
        → KeepsStanding (after_plans e around task ordered p)
    unfolding after_plans
    plans-Keeps (ended ending w) h = h
    plans-Keeps (going r w) h =
        if-Keeps (λ at. at.state) r.changed _ _ (planned-Keeps r (save e around r.state w) h)
          (execute-Keeps r r.plans w h)

    ready-Keeps :
        (at : Standing) (ready : List Step) (w : W)
        → Unfinished at.state
        → KeepsStanding (with_ready e around task ordered at ready w)
    unfolding with_ready pause fail
    ready-Keeps at [] w h = if-Keeps (λ at. at.state) (ltb 0 (length at.blocked)) _ _ refl refl
    ready-Keeps at (s ∷ ready) w h =
        plans-Keeps _ (plan_ready-Keeps e around (parallelism e.max_parallel) (s ∷ ready) _ h)

    -- A round of a run that is not completed leaves or returns it so.
    pub round-Keeps :
        (at : Standing) (w : W)
        → Unfinished at.state
        → KeepsStanding (one_round e around task ordered at w)
    unfolding one_round terminal pause
    round-Keeps at w h =
        if-Keeps (λ at. at.state) (around.controls w).1 _ _ refl
          (if-Keeps (λ at. at.state) (not (is_nil_error (around.context_err w))) _ _ refl
            (if-Keeps (λ at. at.state) (around.controls w).0 _ _ refl
              (ready-Keeps at (ready_steps ordered at) w h)))

-- ===== src/Workflow/Run/Completed.antt =====
-- What the ending of `Run` tells of the workflow's steps.
use mathlib.Core.Path.{subst}
use enterprise_security_reco.Prelude.{
  ℕ, zero, suc, String, ◌≡◌, refl, ap, Bool, true, false, Option, none, some, List, [], ◌∷◌, Memᴰ,
  Distinct, arith, if◌then◌else◌, length,
}
use enterprise_security_reco.Errors.{Error, raised}
use enterprise_security_reco.Domain.{Task, RunStatus}
use enterprise_security_reco.Workflow.{Step, State, Definition}
use enterprise_security_reco.Workflow.Graph.{topological}
use enterprise_security_reco.Workflow.Checks.{Invalid, validate}
use enterprise_security_reco.Workflow.Schedule.{validate-schedules}
use enterprise_security_reco.Workflow.Keys.{step_ids, mem-step_ids}
use enterprise_security_reco.Workflow.Records.{
  Engine, Surroundings, Ending, returned, panicked, terminal, save,
}
use enterprise_security_reco.Workflow.Plans.{Progress, going, ended}
use enterprise_security_reco.Workflow.Run.{
  Standing, keep_done, first_standing, all_finished, one_round, rounds, run_from, first_save,
  starting, new_state, resumed_state, run,
}
use enterprise_security_reco.Workflow.Run.Sets.{full_set}
use enterprise_security_reco.Workflow.Run.Effects.{Goes}
use enterprise_security_reco.Workflow.Run.Planning.{IsDone, Finished, steps-IsDone}
use enterprise_security_reco.Workflow.Run.Planned.{Goes-map}
use enterprise_security_reco.Workflow.Run.Stays.{Orderly}
use enterprise_security_reco.Workflow.Run.Unended.{KeepsStanding, round-Keeps}
use enterprise_security_reco.Workflow.Run.Unfinished.{
  is_completed_status, Unfinished, UnfinishedEnding,
}
use enterprise_security_reco.Workflow.Run.Ends.{round-Advanced}
use enterprise_security_reco.Workflow.Run.Results.{DepsFirst-Distinct, first-Finished}

length-step_ids : (steps : List Step) → length (step_ids steps) ≡ length steps
length-step_ids [] = refl
length-step_ids (s ∷ steps) = ap suc (length-step_ids steps)

-- A completed run has every step of the list done.
abbrev CompleteEnding : List String → Ending → Type 0
CompleteEnding ids (returned (some s) err) =
    is_completed_status s.run.status ≡ true → (x : String) → Memᴰ x ids → IsDone s x
CompleteEnding ids (returned none err) = Unit
CompleteEnding ids panicked = Unit

unfinished-Complete :
    (ids : List String) (ending : Ending) → UnfinishedEnding ending → CompleteEnding ids ending
unfinished-Complete ids (returned (some s) err) h = λ c. cc
unfinished-Complete ids (returned none err) h = tt
unfinished-Complete ids panicked h = tt

abbrev Complete : {W : Type 0} → List String → Option (Ending × W) → Type 0
Complete ids none = Unit
Complete ids (some out) = CompleteEnding ids out.0

if-Complete :
    {W : Type 0} (ids : List String) (b : Bool) (x y : Option (Ending × W))
    → (b ≡ true → Complete ids x)
    → Complete ids y
    → Complete ids (if b then x else y)
if-Complete ids true x y h k = h refl
if-Complete ids false x y h k = k

module _ {W : Type 0} (e : Engine W) (around : Surroundings W) (orderly : Orderly e around)
    (task : Task) (ordered : List Step) (distinct : Distinct (step_ids ordered)) where
  all-IsDone :
      (at : Standing)
      → Finished (step_ids ordered) at.state at.finished
      → all_finished e around task ordered at ≡ true
      → (x : String) → Memᴰ x (step_ids ordered)
      → IsDone at.state x
  all-IsDone at f h x m = f.done x (
      full_set (step_ids ordered) at.finished f.distinct f.inside
        (let same = length-step_ids ordered in ground (arith, same, h)) x m)

  terminal-Complete :
      (at : Standing) (w : W)
      → Finished (step_ids ordered) at.state at.finished
      → all_finished e around task ordered at ≡ true
      → CompleteEnding
          (step_ids ordered)
          (terminal e around at.state RunStatus.completed "workflow_completed" none w).0
  unfolding terminal
  terminal-Complete at w f h = λ c x m. steps-IsDone at.state _ x refl (all-IsDone at f h x m)

  rounds-Complete :
      (fuel : ℕ) (p : Progress Standing W)
      → Goes (λ at w. Finished (step_ids ordered) at.state at.finished) p
      → KeepsStanding e around p
      → Complete (step_ids ordered) (rounds e around task ordered fuel p)
  unfolding rounds
  rounds-Complete fuel (ended ending w) f k = unfinished-Complete (step_ids ordered) ending k
  rounds-Complete zero (going at w) f k = tt
  rounds-Complete (suc fuel) (going at w) f k =
      if-Complete (step_ids ordered) (all_finished e around task ordered at) _ _
        (λ h. terminal-Complete at w f h)
        (rounds-Complete fuel (one_round e around task ordered at (around.meanwhile w))
          (Goes-map (one_round e around task ordered at (around.meanwhile w))
            (λ at' w' a. a.finished)
            (round-Advanced e around orderly task ordered distinct at (around.meanwhile w) f))
          (round-Keeps e around task ordered at (around.meanwhile w) k))

keep-Unfinished :
    (resuming kept : Bool) (s : Step) (at : Standing)
    → Unfinished at.state
    → Unfinished (if kept then keep_done resuming s at else at).state
keep-Unfinished true true s at h = h
keep-Unfinished false true s at h = h
keep-Unfinished resuming false s at h = h

first-Unfinished :
    (resuming : Bool) (steps : List Step) (at : Standing)
    → Unfinished at.state
    → Unfinished (first_standing resuming steps at).state
unfolding first_standing
first-Unfinished resuming [] at h = h
first-Unfinished resuming (s ∷ steps) at h =
    first-Unfinished resuming steps _ (keep-Unfinished resuming _ s at h)

module _ {W : Type 0} (valid_json : String → Bool) (e : Engine W) (around : Surroundings W)
    (orderly : Orderly e around) where
  from-Complete :
      (d : Definition) (task : Task) (resuming : Bool) (s : State) (w : W)
      → validate valid_json e.registry d ≡ none
      → Unfinished s
      → Complete (step_ids (topological d)) (run_from valid_json e around d task resuming s w)
  unfolding run_from
  from-Complete d task resuming s w valid h =
      let ordered = topological d in
      let (first, same) = validate-schedules valid_json e.registry d valid in
      rounds-Complete e around orderly task ordered (DepsFirst-Distinct [] ordered first) _ _
        (first-Finished resuming (step_ids ordered) ordered _ (λ t m. mem-step_ids t ordered m)
          (record { done = λ x m. elim m [ ]; distinct = tt; inside = λ x m. elim m [ ] }))
        (first-Unfinished resuming ordered _ h)

  saved-Complete :
      (d : Definition) (task : Task) (resuming : Bool) (s : State) (out : Option Error × W)
      → validate valid_json e.registry d ≡ none
      → Unfinished s
      → Complete (step_ids (topological d)) (first_save valid_json e around d task resuming s out)
  saved-Complete d task resuming s (none, w) valid h = from-Complete d task resuming s w valid h
  saved-Complete d task resuming s (some failure, w) valid h =
      unfinished-Complete (step_ids (topological d)) (returned (some s) (some failure)) h

  starting-Unfinished :
      (d : Definition) (task : Task) (state : Option State) (w : W)
      → Unfinished (starting valid_json e around d task state w).0.1
  unfolding starting new_state resumed_state
  starting-Unfinished d task none w = refl
  starting-Unfinished d task (some state) w = refl

  checked-Complete :
      (d : Definition) (state : Option State) (task : Task) (w : W) (checked : Option Invalid)
      → validate valid_json e.registry d ≡ checked
      → Complete (step_ids (topological d)) (elim checked [
        | some invalid ↦ some (returned none (some (raised "invalid workflow")), w)
        | none ↦
            let ((resuming, s), w') = starting valid_json e around d task state w in
            first_save valid_json e around d task resuming s (save e around s w')
      ])
  checked-Complete d state task w (some invalid) same = tt
  checked-Complete d state task w none same =
      saved-Complete d task _ _ _ same (starting-Unfinished d task state w)

  run-Complete :
      (d : Definition) (state : Option State) (task : Task) (w : W)
      → Complete (step_ids (topological d)) (run valid_json e around d state task w)
  unfolding run
  run-Complete d state task w =
      checked-Complete d state task w (validate valid_json e.registry d) refl

  -- A definition that is refused leaves no state.
  accepted :
      (d : Definition) (task : Task) (w : W) (next : Option (Ending × W)) (s : State)
      (err : Option Error) (w' : W) (checked : Option Invalid)
      → elim checked as (λ x. Option (Ending × W)) [
        | some invalid ↦ some (returned none (some (raised "invalid workflow")), w)
        | none ↦ next
      ]
        ≡ some (returned (some s) err, w')
      → checked ≡ none
  accepted d task w next s err w' none h = refl
  accepted d task w next s err w' (some invalid) h = cc

  -- If `Run` returns a run that is completed, every step of the workflow has succeeded or was
  -- skipped. The engine is given a context that, once it has ended, stays so and shows in the
  -- caller's context or in the controls, and each plan of a wave ends once.
  pub run-completed :
      (d : Definition) (state : Option State) (task : Task) (w w' : W) (s : State)
      (err : Option Error) (t : Step)
      → run valid_json e around d state task w ≡ some (returned (some s) err, w')
      → s.run.status ≡ RunStatus.completed
      → Memᴰ t d.steps
      → IsDone s t.id
  unfolding run
  run-completed d state task w w' s err t ran completed listed =
      let valid = accepted d task w _ s err w' (validate valid_json e.registry d) ran in
      let (first, same) = validate-schedules valid_json e.registry d valid in
      let all =
        subst (λ out. Complete (step_ids (topological d)) out) ran (run-Complete d state task w) in
      all (rw completed refl) t.id (mem-step_ids t (topological d) ((same t).1 listed))

-- ===== src/Workflow/Run/Results.antt =====
-- `Run` has a result: the fuel that its loop is given is enough.
use mathlib.Core.Path.{subst}
use enterprise_security_reco.Prelude.{
  String, ◌≡◌, refl, Bool, true, false, Option, none, some, List, [], ◌∷◌, Memᴰ, Distinct, arith,
  if◌then◌else◌, lookup,
}
use enterprise_security_reco.Errors.{Error, raised}
use enterprise_security_reco.Domain.{Task}
use enterprise_security_reco.Workflow.{Step, State, StepState, Definition}
use enterprise_security_reco.Workflow.Condition.{has_succeeded}
use enterprise_security_reco.Workflow.Input.{is_skipped}
use enterprise_security_reco.Workflow.Graph.{topological}
use enterprise_security_reco.Workflow.Checks.{Invalid, validate}
use enterprise_security_reco.Workflow.Schedule.{validate-schedules}
use enterprise_security_reco.Workflow.Order.{DepsFirst}
use enterprise_security_reco.Workflow.Keys.{step_ids, mem-step_ids}
use enterprise_security_reco.Workflow.Records.{Engine, Surroundings, Ending, returned, save}
use enterprise_security_reco.Workflow.Plans.{mark}
use enterprise_security_reco.Workflow.Run.{
  Standing, already_done, keep_done, first_standing, run_from, first_save, starting, run,
}
use enterprise_security_reco.Workflow.Run.Sets.{remaining-length}
use enterprise_security_reco.Workflow.Run.Planning.{IsDone, Finished, steps-Finished, mark-Finished}
use enterprise_security_reco.Workflow.Run.Stays.{Orderly}
use enterprise_security_reco.Workflow.Run.Ends.{HasResult, rounds-end}

DepsFirst-new :
    (before : List String) (out : List Step) (x : String)
    → DepsFirst before out
    → Memᴰ x before
    → ¬ Memᴰ x (step_ids out)
DepsFirst-new before [] x d p m = elim m [ ]
DepsFirst-new before (s ∷ out) x d p (Memᴰ.head same) = d.1 (subst (λ w. Memᴰ w before) same p)
DepsFirst-new before (s ∷ out) x d p (Memᴰ.tail m) =
    DepsFirst-new (s.id ∷ before) out x d.2 (Memᴰ.tail p) m

pub DepsFirst-Distinct :
    (before : List String) (out : List Step) → DepsFirst before out → Distinct (step_ids out)
DepsFirst-Distinct before [] d = tt
DepsFirst-Distinct before (s ∷ out) d = (
  DepsFirst-new (s.id ∷ before) out s.id d.2 (Memᴰ.head refl),
  DepsFirst-Distinct (s.id ∷ before) out d.2,
)

already-IsDone :
    (s : Step) (state : State) (found : Option StepState)
    → lookup s.id state.steps ≡ found
    → already_done found s ≡ true
    → IsDone state s.id
unfolding already_done has_succeeded is_skipped
already-IsDone s state none same h = cc
already-IsDone s state (some existing) same h = record {
  found = existing;
  listed = same;
  done = ground (arith, h);
}

keep-Finished :
    (resuming : Bool) (ids : List String) (s : Step) (at : Standing)
    → Memᴰ s.id ids
    → IsDone at.state s.id
    → Finished ids at.state at.finished
    → (let at' = keep_done resuming s at in Finished ids at'.state at'.finished)
keep-Finished true ids s at known d f =
    steps-Finished ids at.state _ (mark s.id at.finished) refl
      (mark-Finished ids at.state at.finished s.id f known d)
keep-Finished false ids s at known d f = mark-Finished ids at.state at.finished s.id f known d

step-Finished :
    (kept resuming : Bool) (ids : List String) (s : Step) (at : Standing)
    → Memᴰ s.id ids
    → (kept ≡ true → IsDone at.state s.id)
    → Finished ids at.state at.finished
    → (let at' = if kept then keep_done resuming s at else at in
        Finished ids at'.state at'.finished)
step-Finished true resuming ids s at known d f = keep-Finished resuming ids s at known (d refl) f
step-Finished false resuming ids s at known d f = f

-- The steps that a run begins with as finished are done.
pub first-Finished :
    (resuming : Bool) (ids : List String) (steps : List Step) (at : Standing)
    → ((s : Step) → Memᴰ s steps → Memᴰ s.id ids)
    → Finished ids at.state at.finished
    → (let at' = first_standing resuming steps at in Finished ids at'.state at'.finished)
unfolding first_standing
first-Finished resuming ids [] at known f = f
first-Finished resuming ids (s ∷ steps) at known f =
    let found = lookup s.id at.state.steps in
    first-Finished resuming ids steps (if already_done found s then keep_done resuming s at else at)
      (λ t m. known t (Memᴰ.tail m))
      (step-Finished (already_done found s) resuming ids s at (known s (Memᴰ.head refl))
        (already-IsDone s at.state found refl) f)

module _ {W : Type 0} (valid_json : String → Bool) (e : Engine W) (around : Surroundings W)
    (orderly : Orderly e around) where
  from-ends :
      (d : Definition) (task : Task) (resuming : Bool) (s : State) (w : W)
      → validate valid_json e.registry d ≡ none
      → HasResult (run_from valid_json e around d task resuming s w)
  unfolding run_from
  from-ends d task resuming s w valid =
      let ordered = topological d in
      let (first, same) = validate-schedules valid_json e.registry d valid in
      let at =
        first_standing resuming ordered (record { state = s; finished = []; blocked = [] }) in
      rounds-end e around orderly task ordered (DepsFirst-Distinct [] ordered first) _ _ (
        first-Finished resuming (step_ids ordered) ordered _ (λ t m. mem-step_ids t ordered m)
            (record { done = λ x m. elim m [ ]; distinct = tt; inside = λ x m. elim m [ ] }),
        omega (arith, remaining-length ordered at.finished at.blocked),
      )

  saved-ends :
      (d : Definition) (task : Task) (resuming : Bool) (s : State) (out : Option Error × W)
      → validate valid_json e.registry d ≡ none
      → HasResult (first_save valid_json e around d task resuming s out)
  saved-ends d task resuming s (none, w) valid = from-ends d task resuming s w valid
  saved-ends d task resuming s (some failure, w) valid = (_, refl)

  checked-ends :
      (d : Definition) (state : Option State) (task : Task) (w : W) (checked : Option Invalid)
      → validate valid_json e.registry d ≡ checked
      → HasResult (elim checked [
        | some invalid ↦ some (returned none (some (raised "invalid workflow")), w)
        | none ↦
            let ((resuming, s), w') = starting valid_json e around d task state w in
            first_save valid_json e around d task resuming s (save e around s w')
      ])
  checked-ends d state task w (some invalid) same = (_, refl)
  checked-ends d state task w none same = saved-ends d task _ _ _ same

  -- `Run` ends on every definition, state and task, with a result or a panic: the fuel that its
  -- loop is given, one turn more than there are steps, is enough. The engine is given a context
  -- that, once it has ended, stays so and shows in the caller's context or in the controls, and each
  -- plan of a wave ends once.
  pub run-ends :
      (d : Definition) (state : Option State) (task : Task) (w : W)
      → (out : Ending × W) × (run valid_json e around d state task w ≡ some out)
  unfolding run
  run-ends d state task w = checked-ends d state task w (validate valid_json e.registry d) refl

-- ===== src/Workflow/Run/Ends.antt =====
-- The loop of `Run` ends: every round that goes on leaves fewer steps that are open.
use mathlib.Core.Path.{subst}
use enterprise_security_reco.Prelude.{
  ℕ, zero, suc, ◌<◌, ◌≤◌, String, ◌≡◌, refl, sym, Bool, true, false, not, Bool-cases, inl, inr,
  Option, some, List, [], ◌∷◌, Memᴰ, Distinct, arith, if◌then◌else◌, length, contains_iff, ltb, ℤ,
  pos, negsuc,
}
use enterprise_security_reco.Domain.{Task}
use enterprise_security_reco.Workflow.{Step}
use enterprise_security_reco.Workflow.Keys.{step_ids, mem-step_ids}
use enterprise_security_reco.Workflow.Records.{Engine, Surroundings}
use enterprise_security_reco.Workflow.Plans.{Round, Progress, going, ended, plan_ready}
use enterprise_security_reco.Workflow.Wave.{is_nil_error}
use enterprise_security_reco.Workflow.Run.{
  Standing, parallelism, ready_steps, after_plans, with_ready, one_round, all_finished, rounds,
}
use enterprise_security_reco.Workflow.Run.Sets.{
  same-Grown, then-Grown, is_open, remaining, remaining-lt,
}
use enterprise_security_reco.Workflow.Run.Effects.{Goes}
use enterprise_security_reco.Workflow.Run.Planning.{Finished}
use enterprise_security_reco.Workflow.Run.Planned.{Goes-map, Planned}
use enterprise_security_reco.Workflow.Run.Readied.{Awaiting, plan_ready-Planned, plan_ready-Met}
use enterprise_security_reco.Workflow.Run.Stays.{Orderly}
use enterprise_security_reco.Workflow.Run.Ready.{Ready, listed-Ready, ready-Distinct}
use enterprise_security_reco.Workflow.Run.Waves.{Closed, After, plans-After}

parallelism-positive : (max : ℤ) → 1 ≤ parallelism max
unfolding parallelism
parallelism-positive (pos zero) = omega arith
parallelism-positive (pos (suc n)) = omega arith
parallelism-positive (negsuc n) = omega arith

-- What a round is planned from.
abbrev pub fresh_round : Standing → Round
fresh_round at = record {
  state = at.state;
  finished = at.finished;
  blocked = at.blocked;
  plans = [];
  changed = false;
}

abbrev pub HasResult : {A : Type 0} → Option A → Type 0
HasResult {A} result = (out : A) × (result ≡ some out)

if-HasResult :
    {A : Type 0} (b : Bool) (x y : Option A)
    → HasResult x
    → HasResult y
    → HasResult (if b then x else y)
if-HasResult true x y h k = h
if-HasResult false x y h k = k

pub open-lem :
    (fin blk : List String) (id : String)
    → is_open fin blk id ≡ true
    → (¬ Memᴰ id fin) × ¬ Memᴰ id blk
open-lem fin blk id o = (
  λ f. let h = (contains_iff fin id).1 f in ground (arith, h, o),
  λ b. let h = (contains_iff blk id).1 b in ground (arith, h, o),
)

closed-lem :
    (id : String) (at : Standing) → Closed id at → is_open at.finished at.blocked id ≡ false
closed-lem id at (inl f) = let h = (contains_iff at.finished id).1 f in ground (arith, h)
closed-lem id at (inr b) = let h = (contains_iff at.blocked id).1 b in ground (arith, h)

module _ {W : Type 0} (e : Engine W) (around : Surroundings W) (orderly : Orderly e around)
    (task : Task) (ordered : List Step) (distinct : Distinct (step_ids ordered)) where
  -- The standing that a round leaves.
  pub record Advanced (at at' : Standing) : Type 0 where
    pub finished : Finished (step_ids ordered) at'.state at'.finished
    pub fewer :
        remaining ordered at'.finished at'.blocked < remaining ordered at.finished at.blocked

  ready-Awaiting :
      (at : Standing)
      → Finished (step_ids ordered) at.state at.finished
      → Awaiting e around
          (step_ids ordered)
          at.finished
          at.blocked
          (parallelism e.max_parallel)
          (ready_steps ordered at)
          (fresh_round at)
  ready-Awaiting at fin = record {
    planned = record {
      grown = same-Grown at.finished at.blocked;
      finished = fin;
      once = tt;
      apart = λ x p. elim p [ ];
      approved = λ p m. elim m [ ];
      known = λ x p. elim p [ ];
    };
    unmet = λ s m. record {
      not_finished =
          (open-lem at.finished at.blocked s.id (listed-Ready at ordered s m).still_open).0;
      not_planned = λ p. elim p [ ];
    };
    distinct = ready-Distinct at ordered distinct;
    known = λ s m. mem-step_ids s ordered (listed-Ready at ordered s m).listed;
  }

  abbrev planned_of : Standing → List Step → W → Progress Round W
  planned_of at ready w =
      plan_ready e around (parallelism e.max_parallel) ready (going (fresh_round at) w)

  -- The first of the ready steps was open before the round, and is so no more.
  standing-Advanced :
      (at at' : Standing) (s : Step) (r : Round)
      → Ready at ordered s
      → Planned e around (step_ids ordered) at.finished at.blocked r
      → After e around orderly task ordered (step_ids ordered) r s.id at'
      → Advanced at at'
  standing-Advanced at at' s r first p a = record {
    finished = a.finished;
    fewer =
        remaining-lt ordered at.finished at.blocked at'.finished at'.blocked s
          (then-Grown at.finished at.blocked r.finished r.blocked at'.finished at'.blocked p.grown
            a.grown)
          first.listed first.still_open (closed-lem s.id at' a.closed);
  }

  ready-Advanced :
      (at : Standing) (ready : List Step) (w : W)
      → ready ≡ ready_steps ordered at
      → Finished (step_ids ordered) at.state at.finished
      → Goes (λ at' w'. Advanced at at') (with_ready e around task ordered at ready w)
  unfolding with_ready
  ready-Advanced at [] w same fin = elim (Bool-cases (ltb 0 (length at.blocked))) [
    | inl some' ↦ rw some' tt
    | inr none' ↦ rw none' tt
  ]
  ready-Advanced at (s ∷ ready) w same fin =
      let first : Ready at ordered s =
        listed-Ready at ordered s (subst (λ w. Memᴰ s w) same (Memᴰ.head refl)) in
      let awaiting =
        subst
          (λ steps.
            Awaiting e around (step_ids ordered) at.finished at.blocked (parallelism e.max_parallel)
              steps (fresh_round at))
          (sym same) (ready-Awaiting at fin) in
      Goes-map (after_plans e around task ordered (planned_of at (s ∷ ready) w))
        (λ at' w' left. standing-Advanced at at' s left.0 first left.1 left.2)
        (plans-After e around orderly task ordered (step_ids ordered) at.finished at.blocked s.id
          (planned_of at (s ∷ ready) w)
          (plan_ready-Planned e around (step_ids ordered) at.finished at.blocked
            (parallelism e.max_parallel) (s ∷ ready) (going (fresh_round at) w) awaiting)
          (plan_ready-Met e around (step_ids ordered) at.finished at.blocked
            (parallelism e.max_parallel) s ready (fresh_round at) w
            (parallelism-positive e.max_parallel) refl))

  pub round-Advanced :
      (at : Standing) (w : W)
      → Finished (step_ids ordered) at.state at.finished
      → Goes (λ at' w'. Advanced at at') (one_round e around task ordered at w)
  unfolding one_round
  round-Advanced at w fin =
      let rest = ready-Advanced at (ready_steps ordered at) w refl fin in
      elim (Bool-cases (around.controls w).1) [
        | inl cancelled ↦ rw cancelled tt
        | inr live ↦ rw live (elim (Bool-cases (not (is_nil_error (around.context_err w)))) [
          | inl expired ↦ rw expired tt
          | inr fresh ↦ rw fresh (elim (Bool-cases (around.controls w).0) [
            | inl paused ↦ rw paused tt
            | inr unpaused ↦ rw unpaused rest
          ])
        ])
      ]

  -- The loop has a result, once its fuel is more than the number of open steps.
  pub rounds-end :
      (fuel : ℕ) (p : Progress Standing W)
      → Goes
          (λ at w.
            Finished (step_ids ordered) at.state at.finished
            × (remaining ordered at.finished at.blocked < fuel))
          p
      → HasResult (rounds e around task ordered fuel p)
  unfolding rounds
  rounds-end fuel (ended ending w) h = ((ending, w), refl)
  rounds-end zero (going at w) h = let never : ⊥ = omega (arith, h.1) in elim never [ ]
  rounds-end (suc fuel) (going at w) h =
      let next = rounds-end fuel (one_round e around task ordered at (around.meanwhile w)) (
        Goes-map (one_round e around task ordered at (around.meanwhile w))
          (λ at' w' a. (a.finished, omega (arith, a.fewer, h.1)))
          (round-Advanced at (around.meanwhile w) h.0)) in
      if-HasResult (all_finished e around task ordered at) _ _ (_, refl) next

  -- A round of the loop that goes on leaves only steps that are done among the finished ones,
  -- each of them once, and fewer steps that are neither finished nor held back than before, where
  -- the finished steps were done before it and the ids of the steps are distinct. The engine is
  -- given a context that, once it has ended, stays so and shows in the caller's context or in the
  -- controls, and each plan of a wave ends once.
  pub round-advances :
      (at at' : Standing) (w w' : W)
      → one_round e around task ordered at w ≡ going at' w'
      → Finished (step_ids ordered) at.state at.finished
      → Finished (step_ids ordered) at'.state at'.finished
        × (remaining ordered at'.finished at'.blocked < remaining ordered at.finished at.blocked)
  round-advances at at' w w' went fin =
      let a = subst (λ p. Goes (λ at' w'. Advanced at at') p) went (round-Advanced at w fin) in
      (a.finished, a.fewer)

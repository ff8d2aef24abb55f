-- ===== src/Workflow/Run/Planning.antt =====
-- What the planning of a wave keeps true of a round.
use mathlib.Core.Path.{subst}
use enterprise_security_reco.Prelude.{
  String, ◌≡◌, ◌≢◌, refl, sym, ◌∙◌, ap, true, ◌||◌, Bool-cases, inl, inr, ◌⊎◌, some, List, [], ◌∷◌,
  ◌++◌, Memᴰ, Distinct, ◌==◌, eq_iff, lookup, lookup-insert,
}
use enterprise_security_reco.Workflow.{State, StepState}
use enterprise_security_reco.Workflow.Attempts.{StepPlan}
use enterprise_security_reco.Workflow.Condition.{has_succeeded}
use enterprise_security_reco.Workflow.Input.{is_skipped}
use enterprise_security_reco.Workflow.Records.{set_step}
use enterprise_security_reco.Workflow.Plans.{mark}
use enterprise_security_reco.Workflow.Run.Sets.{mark-mem, mark-Distinct}

-- A step of the id has succeeded or was skipped.
pub record IsDone (state : State) (id : String) : Type 0 where
  pub found : StepState
  pub listed : lookup id state.steps ≡ some found
  pub done : (has_succeeded found.run.status || is_skipped found.run.status) ≡ true

-- Every finished step is done; no step is finished twice; all are steps of the workflow.
pub record Finished (ids : List String) (state : State) (finished : List String) : Type 0 where
  pub done : (id : String) → Memᴰ id finished → IsDone state id
  pub distinct : Distinct finished
  pub inside : (id : String) → Memᴰ id finished → Memᴰ id ids

abbrev pub plan_ids : List StepPlan → List String
plan_ids [] = []
plan_ids (p ∷ plans) = p.definition.id ∷ plan_ids plans

pub steps-IsDone :
    (state state' : State) (id : String)
    → state'.steps ≡ state.steps
    → IsDone state id
    → IsDone state' id
steps-IsDone state state' id e d = record {
  found = d.found;
  listed = ap (lookup id) e ∙ d.listed;
  done = d.done;
}

-- Only the steps of the state count.
pub steps-Finished :
    (ids : List String) (state state' : State) (finished : List String)
    → state'.steps ≡ state.steps
    → Finished ids state finished
    → Finished ids state' finished
steps-Finished ids state state' finished e f = record {
  done = λ x p. steps-IsDone state state' x e (f.done x p);
  distinct = f.distinct;
  inside = f.inside;
}

pub lookup_other :
    (id x : String) (ss : StepState) (state : State)
    → id ≢ x
    → lookup x (set_step id ss state).steps ≡ lookup x state.steps
lookup_other id x ss state n = elim (Bool-cases (id == x)) [
  | inl same ↦ elim (n ((eq_iff id x).0 same)) [ ]
  | inr differ ↦ lookup-insert x id ss state.steps ∙ rw differ
]

pub lookup_same :
    (id : String) (ss : StepState) (state : State)
    → lookup id (set_step id ss state).steps ≡ some ss
lookup_same id ss state =
    let same : (id == id) ≡ true = (eq_iff id id).1 refl in
    lookup-insert id id ss state.steps ∙ rw same

-- Another state for a step that is not finished leaves the finished ones done.
pub set_step-Finished :
    (ids : List String) (state : State) (finished : List String) (id : String) (ss : StepState)
    → Finished ids state finished
    → ¬ Memᴰ id finished
    → Finished ids (set_step id ss state) finished
set_step-Finished ids state finished id ss f new = record {
  done = λ x p.
      let d = f.done x p in
      record {
        found = d.found;
        listed =
            lookup_other id x ss state (λ e. new (subst (λ w. Memᴰ w finished) (sym e) p))
            ∙ d.listed;
        done = d.done;
      };
  distinct = f.distinct;
  inside = f.inside;
}

-- A step that is done joins the finished ones.
pub mark-Finished :
    (ids : List String) (state : State) (finished : List String) (id : String)
    → Finished ids state finished
    → Memᴰ id ids
    → IsDone state id
    → Finished ids state (mark id finished)
mark-Finished ids state finished id f known d = record {
  done = λ x p. elim ((mark-mem id x finished).0 p) [
    | inl e ↦ subst (λ w. IsDone state w) (sym e) d
    | inr q ↦ f.done x q
  ];
  distinct = mark-Distinct id finished f.distinct;
  inside = λ x p. elim ((mark-mem id x finished).0 p) [
    | inl e ↦ subst (λ w. Memᴰ w ids) (sym e) known
    | inr q ↦ f.inside x q
  ];
}

-- A finished step takes its own new state, done as well, where it was not finished before.
pub finish-Finished :
    (ids : List String) (state : State) (finished : List String) (id : String) (ss : StepState)
    → Finished ids state finished
    → ¬ Memᴰ id finished
    → Memᴰ id ids
    → (has_succeeded ss.run.status || is_skipped ss.run.status) ≡ true
    → Finished ids (set_step id ss state) (mark id finished)
finish-Finished ids state finished id ss f new known d =
    mark-Finished ids (set_step id ss state) finished id
      (set_step-Finished ids state finished id ss f new) known
      (record { found = ss; listed = lookup_same id ss state; done = d })

pub mem_end :
    (x : String) (plans : List StepPlan) (p : StepPlan)
    → Memᴰ x (plan_ids (plans ++ p ∷ []))
    → Memᴰ x (plan_ids plans) ⊎ (x ≡ p.definition.id)
mem_end x [] p (Memᴰ.head e) = inr e
mem_end x [] p (Memᴰ.tail q) = elim q [ ]
mem_end x (t ∷ plans) p (Memᴰ.head e) = inl (Memᴰ.head e)
mem_end x (t ∷ plans) p (Memᴰ.tail q) = elim (mem_end x plans p q) [
  | inl r ↦ inl (Memᴰ.tail r)
  | inr e ↦ inr e
]

pub end_mem :
    (plans : List StepPlan) (p : StepPlan) → Memᴰ p.definition.id (plan_ids (plans ++ p ∷ []))
end_mem [] p = Memᴰ.head refl
end_mem (t ∷ plans) p = Memᴰ.tail (end_mem plans p)

pub mem_earlier :
    (x : String) (plans : List StepPlan) (p : StepPlan)
    → Memᴰ x (plan_ids plans)
    → Memᴰ x (plan_ids (plans ++ p ∷ []))
mem_earlier x [] p m = elim m [ ]
mem_earlier x (t ∷ plans) p (Memᴰ.head e) = Memᴰ.head e
mem_earlier x (t ∷ plans) p (Memᴰ.tail q) = Memᴰ.tail (mem_earlier x plans p q)

pub end-Distinct :
    (plans : List StepPlan) (p : StepPlan)
    → Distinct (plan_ids plans)
    → ¬ Memᴰ p.definition.id (plan_ids plans)
    → Distinct (plan_ids (plans ++ p ∷ []))
end-Distinct [] p d new = (λ m. elim m [ ], tt)
end-Distinct (t ∷ plans) p d new = (
  λ m. elim (mem_end t.definition.id plans p m) [ inl q ↦ d.0 q | inr e ↦ new (Memᴰ.head (sym e)) ],
  end-Distinct plans p d.1 (λ m. new (Memᴰ.tail m)),
)

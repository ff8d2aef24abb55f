-- ===== src/Workflow/Run/Ready.antt =====
-- Which steps are ready in a round: the ones that are open and have their dependencies.
use enterprise_security_reco.Prelude.{
  String, ◌≡◌, refl, true, ◌||◌, Bool-cases, inl, inr, List, [], ◌∷◌, Memᴰ, Distinct, contains,
}
use enterprise_security_reco.Workflow.{Step}
use enterprise_security_reco.Workflow.Keys.{step_ids}
use enterprise_security_reco.Workflow.Records.{dependencies_succeeded}
use enterprise_security_reco.Workflow.Run.{Standing, ready_steps}
use enterprise_security_reco.Workflow.Run.Sets.{is_open}

pub record Ready (at : Standing) (ordered : List Step) (s : Step) : Type 0 where
  pub listed : Memᴰ s ordered
  pub still_open : is_open at.finished at.blocked s.id ≡ true
  pub dependencies : dependencies_succeeded s at.state ≡ true

later-Ready :
    (at : Standing) (t : Step) (steps : List Step) (s : Step)
    → Ready at steps s
    → Ready at (t ∷ steps) s
later-Ready at t steps s r = record {
  listed = Memᴰ.tail r.listed;
  still_open = r.still_open;
  dependencies = r.dependencies;
}

pub listed-Ready :
    (at : Standing) (steps : List Step) (s : Step)
    → Memᴰ s (ready_steps steps at)
    → Ready at steps s
unfolding ready_steps
listed-Ready at [] s m = elim m [ ]
listed-Ready at (t ∷ steps) s m =
    elim (Bool-cases (contains at.finished t.id || contains at.blocked t.id)) [
      | inl closed ↦ later-Ready at t steps s (listed-Ready at steps s (rw closed at m))
      | inr opened ↦ elim (Bool-cases (dependencies_succeeded t at.state)) [
        | inl met ↦ elim (rw (opened, met) at m) [
          | Memᴰ.head same ↦ record {
            listed = Memᴰ.head same;
            still_open = rw (same, opened) refl;
            dependencies = rw same met;
          }
          | Memᴰ.tail m' ↦ later-Ready at t steps s (listed-Ready at steps s m')
        ]
        | inr unmet ↦ later-Ready at t steps s (listed-Ready at steps s (rw (opened, unmet) at m))
      ]
    ]

ready_ids-mem :
    (at : Standing) (x : String) (steps : List Step)
    → Memᴰ x (step_ids (ready_steps steps at))
    → Memᴰ x (step_ids steps)
unfolding ready_steps
ready_ids-mem at x [] m = elim m [ ]
ready_ids-mem at x (t ∷ steps) m =
    elim (Bool-cases (contains at.finished t.id || contains at.blocked t.id)) [
      | inl closed ↦ Memᴰ.tail (ready_ids-mem at x steps (rw closed at m))
      | inr opened ↦ elim (Bool-cases (dependencies_succeeded t at.state)) [
        | inl met ↦ elim (rw (opened, met) at m) [
          | Memᴰ.head same ↦ Memᴰ.head same
          | Memᴰ.tail m' ↦ Memᴰ.tail (ready_ids-mem at x steps m')
        ]
        | inr unmet ↦ Memᴰ.tail (ready_ids-mem at x steps (rw (opened, unmet) at m))
      ]
    ]

pub ready-Distinct :
    (at : Standing) (steps : List Step)
    → Distinct (step_ids steps)
    → Distinct (step_ids (ready_steps steps at))
unfolding ready_steps
ready-Distinct at [] d = tt
ready-Distinct at (t ∷ steps) d =
    elim (Bool-cases (contains at.finished t.id || contains at.blocked t.id)) [
      | inl closed ↦ rw closed (ready-Distinct at steps d.1)
      | inr opened ↦ elim (Bool-cases (dependencies_succeeded t at.state)) [
        | inl met ↦
            rw (opened, met) (λ m. d.0 (ready_ids-mem at t.id steps m), ready-Distinct at steps d.1)
        | inr unmet ↦ rw (opened, unmet) (ready-Distinct at steps d.1)
      ]
    ]

-- ===== src/Workflow/Run/Determined.antt =====
-- The order in which the steps of a wave end makes no difference to what is recorded of it.
use enterprise_security_reco.Prelude.{
  ℕ, String, ◌≡◌, refl, sym, ◌∙◌, ap, Bool-cases, inl, inr, List, [], ◌∷◌, Memᴰ, Permᴰ, Distinct,
  arith, ◌==◌, eq_iff,
}
use enterprise_security_reco.Sorting.Keys.{keys, sort-same}
use enterprise_security_reco.Workflow.{Step}
use enterprise_security_reco.Workflow.Keys.{step_ids}
use enterprise_security_reco.Workflow.Attempts.{StepOutcome}
use enterprise_security_reco.Workflow.Records.{Engine, Surroundings}
use enterprise_security_reco.Workflow.Plans.{Progress}
use enterprise_security_reco.Workflow.Wave.{rank_in, by_rank, Recorded, record_outcomes}
use enterprise_security_reco.Workflow.Run.Stays.{outcome_ids}

-- Different steps of the workflow have different ranks.
rank_in-injective :
    (ordered : List Step) (x y : String)
    → Memᴰ x (step_ids ordered)
    → rank_in ordered x ≡ rank_in ordered y
    → x ≡ y
unfolding rank_in
rank_in-injective [] x y m same = elim m [ ]
rank_in-injective (s ∷ ordered) x y m same = elim (Bool-cases (s.id == x)) [
  | inl here ↦ elim (Bool-cases (s.id == y)) [
    | inl also ↦ sym ((eq_iff s.id x).0 here) ∙ (eq_iff s.id y).0 also
    | inr other ↦ let clash = rw (here, other) at same in cc
  ]
  | inr after ↦ elim (Bool-cases (s.id == y)) [
    | inl also ↦ let clash = rw (after, also) at same in cc
    | inr other ↦
        rank_in-injective ordered x y
          (elim m [ Memᴰ.head e ↦ let never = (eq_iff s.id x).1 (sym e) in cc | Memᴰ.tail m' ↦ m' ])
          (let same' = rw (after, other) at same in omega arith)
  ]
]

abbrev rank_of : List Step → StepOutcome → ℕ
rank_of ordered o = rank_in ordered o.definition.id

rank-mem :
    (ordered : List Step) (o : StepOutcome) (os : List StepOutcome)
    → Memᴰ o.definition.id (step_ids ordered)
    → Memᴰ (rank_of ordered o) (keys (rank_of ordered) os)
    → Memᴰ o.definition.id (outcome_ids os)
rank-mem ordered o [] known m = elim m [ ]
rank-mem ordered o (q ∷ os) known (Memᴰ.head same) =
    Memᴰ.head (rank_in-injective ordered o.definition.id q.definition.id known same)
rank-mem ordered o (q ∷ os) known (Memᴰ.tail m) = Memᴰ.tail (rank-mem ordered o os known m)

ranks-Distinct :
    (ordered : List Step) (os : List StepOutcome)
    → ((x : String) → Memᴰ x (outcome_ids os) → Memᴰ x (step_ids ordered))
    → Distinct (outcome_ids os)
    → Distinct (keys (rank_of ordered) os)
ranks-Distinct ordered [] known d = tt
ranks-Distinct ordered (o ∷ os) known d = (
  λ m. d.0 (rank-mem ordered o os (known o.definition.id (Memᴰ.head refl)) m),
  ranks-Distinct ordered os (λ x m. known x (Memᴰ.tail m)) d.1,
)

module _ {W : Type 0} (e : Engine W) (around : Surroundings W) (ordered : List Step) where
  -- Whatever the order in which the outcomes of a wave come in, the same is recorded, with the same
  -- events in the same order, the same saves and the same first failure. The outcomes are those of
  -- different steps of the workflow.
  pub record_outcomes-order :
      (os os' : List StepOutcome) (p : Progress Recorded W)
      → Permᴰ os os'
      → Distinct (outcome_ids os)
      → ((x : String) → Memᴰ x (outcome_ids os) → Memᴰ x (step_ids ordered))
      → record_outcomes e around (by_rank ordered os) p
        ≡ record_outcomes e around (by_rank ordered os') p
  unfolding by_rank
  record_outcomes-order os os' p same distinct known =
      ap (λ sorted. record_outcomes e around sorted p)
        (sort-same (rank_of ordered) same (ranks-Distinct ordered os known distinct))

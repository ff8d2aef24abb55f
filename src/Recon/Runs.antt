-- ===== src/Recon/Runs.antt =====
-- The capabilities that an accepted pipeline runs, and their order.
use mathlib.Core.Path.{subst}
use enterprise_security_reco.Prelude.{
  ℕ, String, ◌≡◌, refl, sym, Bool-cases, inl, inr, ◌↔◌, Option, none, some, List, [], ◌∷◌, Memᴰ,
}
use enterprise_security_reco.Recon.Closure.{enabled-mem, mem-enabled, validate_iff}
use enterprise_security_reco.Recon.{
  Stage, stages, PipelineError, runes, enabled, validate, chosen, capability_names, capabilities,
}

-- Every stage of the list that the pipeline has comes after the stages that it requires.
abbrev pub RequiresFirst : List ℕ → List Stage → Type 0
RequiresFirst before [] = Unit
RequiresFirst before (s ∷ ss) =
    ((dep : ℕ) → Memᴰ dep s.requires → Memᴰ dep before) × RequiresFirst (s.key ∷ before) ss

chosen-RequiresFirst :
    (pipeline before all_before : List ℕ) (ss : List Stage)
    → RequiresFirst all_before ss
    → ((dep : ℕ) → Memᴰ dep all_before → Memᴰ dep pipeline → Memᴰ dep before)
    → ((s : Stage)
        → Memᴰ s ss
        → Memᴰ s.key pipeline
        → (dep : ℕ) → Memᴰ dep s.requires
        → Memᴰ dep pipeline)
    → RequiresFirst before (chosen pipeline ss)
unfolding chosen
chosen-RequiresFirst pipeline before all_before [] first inside closed = tt
chosen-RequiresFirst pipeline before all_before (s ∷ ss) first inside closed =
    elim (Bool-cases (enabled pipeline s.key)) [
      | inl on ↦ rw on (
        λ dep p.
            inside dep (first.0 dep p)
              (closed s (Memᴰ.head refl) (enabled-mem pipeline s.key on) dep p),
        chosen-RequiresFirst pipeline (s.key ∷ before) (s.key ∷ all_before) ss first.1
            (λ dep p q. elim p [
              | Memᴰ.head e ↦ Memᴰ.head e
              | Memᴰ.tail p' ↦ Memᴰ.tail (inside dep p' q)
            ])
            (λ t p. closed t (Memᴰ.tail p)),
      )
      | inr off ↦ rw off (
          chosen-RequiresFirst pipeline before (s.key ∷ all_before) ss first.1
            (λ dep p q. elim p [
              | Memᴰ.head e ↦
                  let yes' = mem-enabled pipeline s.key (subst (λ w. Memᴰ w pipeline) e q) in cc
              | Memᴰ.tail p' ↦ inside dep p' q
            ])
            (λ t p. closed t (Memᴰ.tail p)))
    ]

chosen-mem :
    (pipeline : List ℕ) (ss : List Stage) (s : Stage)
    → Memᴰ s (chosen pipeline ss) ↔ (Memᴰ s ss × Memᴰ s.key pipeline)
unfolding chosen
chosen-mem pipeline [] s = (λ p. elim p [ ], λ p. elim p.0 [ ])
chosen-mem pipeline (t ∷ ss) s =
    let rest = chosen-mem pipeline ss s in
    elim (Bool-cases (enabled pipeline t.key)) [
      | inl on ↦ rw on (
        λ p. elim p [
          | Memᴰ.head e ↦ (Memᴰ.head e, rw e (enabled-mem pipeline t.key on))
          | Memᴰ.tail q ↦ (Memᴰ.tail (rest.0 q).0, (rest.0 q).1)
        ],
        λ p. elim p.0 [ Memᴰ.head e ↦ Memᴰ.head e | Memᴰ.tail q ↦ Memᴰ.tail (rest.1 (q, p.1)) ],
      )
      | inr off ↦ rw off (
        λ p. (Memᴰ.tail (rest.0 p).0, (rest.0 p).1),
        λ p. elim p.0 [
          | Memᴰ.head e ↦
              let yes' = mem-enabled pipeline t.key (subst (λ w. Memᴰ w.key pipeline) e p.1) in cc
          | Memᴰ.tail q ↦ rest.1 (q, p.1)
        ],
      )
    ]

all_of_one : (d : ℕ) (xs : List ℕ) → Memᴰ d xs → (dep : ℕ) → Memᴰ dep (d ∷ []) → Memᴰ dep xs
all_of_one d xs m dep (Memᴰ.head e) = subst (λ w. Memᴰ w xs) (sym e) m
all_of_one d xs m dep (Memᴰ.tail p) = elim p [ ]

all_of_two :
    (c d : ℕ) (xs : List ℕ)
    → Memᴰ c xs
    → Memᴰ d xs
    → (dep : ℕ) → Memᴰ dep (c ∷ d ∷ [])
    → Memᴰ dep xs
all_of_two c d xs m n dep (Memᴰ.head e) = subst (λ w. Memᴰ w xs) (sym e) m
all_of_two c d xs m n dep (Memᴰ.tail p) = all_of_one d xs n dep p

stages-RequiresFirst : RequiresFirst [] stages
stages-RequiresFirst = (
  λ dep p. p,
  (
    all_of_one _ _ (Memᴰ.head refl),
    (
      all_of_one _ _ (Memᴰ.head refl),
      (
        all_of_one _ _ (Memᴰ.tail (Memᴰ.head refl)),
        (
          all_of_one _ _ (Memᴰ.head refl),
          (
            λ dep p. elim p [ ],
            (all_of_two _ _ _ (Memᴰ.tail (Memᴰ.head refl)) (Memᴰ.head refl), tt),
          ),
        ),
      ),
    ),
  ),
)

-- The stages that an accepted pipeline runs: exactly those it enables, each after those that it
-- requires, whatever the order in which the pipeline was written.
pub record Runs (pipeline : String) (names : List String) : Type 0 where
  pub ran : List Stage
  pub named : names ≡ capability_names ran
  pub order : RequiresFirst [] ran
  pub exactly : (s : Stage) → Memᴰ s ran ↔ (Memᴰ s stages × Memᴰ s.key (runes pipeline))

accepted-Runs :
    (pipeline : String) (names : List String) (e : Option PipelineError)
    → validate pipeline ≡ e
    → (elim e [ some e' ↦ none | none ↦ some (capability_names (chosen (runes pipeline) stages)) ])
      ≡ some names
    → Runs pipeline names
accepted-Runs pipeline names (some e) v h = cc
accepted-Runs pipeline names none v h =
    let w = (validate_iff pipeline).0 v in
    record {
      ran = chosen (runes pipeline) stages;
      named = cc;
      order =
          chosen-RequiresFirst (runes pipeline) [] [] stages stages-RequiresFirst (λ dep p q. p)
            w.closed;
      exactly = chosen-mem (runes pipeline) stages;
    }

-- The capabilities of an accepted pipeline are those of exactly the stages it enables, in an order
-- in which every stage comes after the stages that it requires.
pub capabilities-Runs :
    (pipeline : String) (names : List String)
    → capabilities pipeline ≡ some names
    → Runs pipeline names
unfolding capabilities
capabilities-Runs pipeline names h = accepted-Runs pipeline names (validate pipeline) refl h

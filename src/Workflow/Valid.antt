-- ===== src/Workflow/Valid.antt =====
-- What a workflow that `Validate` accepts is like, and the order that `topological` gives it.
use mathlib.Core.Path.{subst}
use enterprise_security_reco.Prelude.{
  suc, String, ◌≡◌, refl, sym, Bool, true, false, List, [], ◌∷◌, Memᴰ, arith, length, contains,
  none, some, contains_iff, Distinct, Option, not,
}
use enterprise_security_reco.Capability.{Registry}
use enterprise_security_reco.Workflow.{Step, Definition}
use enterprise_security_reco.Workflow.Graph.{
  by_id, step_of, ids_of, Visit, visited, cyclic, out_of_fuel,
}
use enterprise_security_reco.Workflow.Checks.{
  Invalid, ◌<|>◌, first_error, when, check_steps, step_error, check_references, check_dependency,
  check_cycles, check_sources, visit_error, validate,
}
use enterprise_security_reco.Workflow.Keys.{step_ids, step_of-mem}
use enterprise_security_reco.Workflow.Layers.{Layered}
use enterprise_security_reco.Workflow.Acyclic.{deps_in, Closed, visit_all-Layered, absent}

pub or-none : (a b : Option Invalid) → (a <|> b) ≡ none → (a ≡ none) × (b ≡ none)
or-none none b h = (refl, h)
or-none (some e) b h = cc

pub when-none : (fails : Bool) (e : Invalid) → when fails e ≡ none → fails ≡ false
unfolding when
when-none true e h = cc
when-none false e h = refl

pub first_error-none {ℓ} :
    {A : Type ℓ} (check : A → Option Invalid) (xs : List A)
    → first_error check xs ≡ none
    → (x : A) → Memᴰ x xs
    → check x ≡ none
unfolding first_error
first_error-none check [] h x p = elim p [ ]
first_error-none check (y ∷ ys) h x p =
    let (one, rest) = or-none (check y) (first_error check ys) h in
    elim p [
      | Memᴰ.head e ↦ subst (λ w. check w ≡ none) (sym e) one
      | Memᴰ.tail q ↦ first_error-none check ys rest x q
    ]

module _ {W : Type 0} (valid_json : String → Bool) (r : Registry W) where
  check_steps-Distinct :
      (seen : List String) (steps : List Step)
      → check_steps valid_json r seen steps ≡ none
      → Distinct (step_ids steps) × ((x : String) → Memᴰ x seen → ¬ Memᴰ x (step_ids steps))
  unfolding check_steps
  check_steps-Distinct seen [] h = (tt, λ x p q. elim q [ ])
  check_steps-Distinct seen (s ∷ steps) h =
      let (_, h₁) = or-none _ _ h in
      let (twice, h₂) = or-none _ _ h₁ in
      let (_, h₃) = or-none (step_error valid_json r s) _ h₂ in
      let (d, apart) = check_steps-Distinct (s.id ∷ seen) steps h₃ in
      let new = absent seen s.id (when-none (contains seen s.id) _ twice) in
      (
        (apart s.id (Memᴰ.head refl), d),
        λ x p q. elim q [
          | Memᴰ.head e ↦ new (subst (λ w. Memᴰ w seen) e p)
          | Memᴰ.tail q' ↦ apart x (Memᴰ.tail p) q'
        ],
      )

dependency_known :
    (ids : List String) (s : Step)
    → check_references ids s ≡ none
    → (dep : String) → Memᴰ dep s.depends_on
    → Memᴰ dep ids
unfolding check_references check_dependency
dependency_known ids s h dep p =
    let one = first_error-none (check_dependency ids s) s.depends_on (or-none _ _ h).0 dep p in
    (contains_iff ids dep).0 (ground (arith, when-none (not (contains ids dep)) _ one))

pub references-Closed :
    (steps : List Step)
    → first_error (check_references (ids_of (by_id steps))) steps ≡ none
    → Closed (by_id steps)
references-Closed steps h id dep p on =
    let (q, e) = step_of-mem steps id p in
    let m = by_id steps in
    dependency_known (ids_of m) (step_of m id)
      (first_error-none (check_references (ids_of m)) steps h (step_of m id) q) dep on

pub visits_of_check : (v : Visit) → visit_error v ≡ none → (done : List String) × (v ≡ visited done)
unfolding visit_error
visits_of_check (visited done) h = (done, refl)
visits_of_check (cyclic id) h = cc
visits_of_check out_of_fuel h = cc

-- What the checks establish of a workflow's steps.
pub record Sound (steps : List Step) : Type 0 where
  pub distinct : Distinct (step_ids steps)
  pub closed : Closed (by_id steps)
  pub layers : List String
  pub layered : Layered (deps_in (by_id steps)) layers
  pub covers : (id : String) → Memᴰ id (ids_of (by_id steps)) → Memᴰ id layers
  pub within : (id : String) → Memᴰ id layers → Memᴰ id (ids_of (by_id steps))
  pub sources : first_error (check_sources (by_id steps)) steps ≡ none

module _ {W : Type 0} (valid_json : String → Bool) (r : Registry W) where
  pub validate-Sound : (d : Definition) → validate valid_json r d ≡ none → Sound d.steps
  unfolding validate check_cycles
  validate-Sound d h =
      let m = by_id d.steps in
      let (_, h₁) = or-none _ _ h in
      let (steps, h₂) = or-none _ _ h₁ in
      let (references, h₃) = or-none _ _ h₂ in
      let (cycles, h₄) = or-none _ _ h₃ in
      let closed = references-Closed d.steps references in
      let (done, e) = visits_of_check _ cycles in
      let (l, covers, within) =
        visit_all-Layered m closed (suc (length (ids_of m))) (ids_of m) done (λ x p. p) e in
      record {
        distinct = (check_steps-Distinct valid_json r [] d.steps steps).0;
        closed = closed;
        layers = done;
        layered = l;
        covers = covers;
        within = within;
        sources = h₄;
      }

pub or_else-none : (a b : Option Invalid) → a ≡ none → b ≡ none → (a <|> b) ≡ none
or_else-none a b p q = cc

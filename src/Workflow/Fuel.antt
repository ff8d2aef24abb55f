-- ===== src/Workflow/Fuel.antt =====
-- The visits of `Validate` have fuel enough, and find exactly the cycles.
use enterprise_security_reco.Prelude.{
  ap, ◌↔◌, suc, String, ◌≡◌, ◌≢◌, refl, Bool, true, false, ◌↔◌, List, [], ◌∷◌, Memᴰ, arith, length,
  none, some, Option,
}
use enterprise_security_reco.Capability.{Registry}
use enterprise_security_reco.Workflow.{Step, Definition}
use enterprise_security_reco.Workflow.Graph.{
  by_id, ids_of, Visit, visited, cyclic, out_of_fuel, visit,
}
use enterprise_security_reco.Workflow.Checks.{
  Invalid, no_fuel, ◌<|>◌, first_error, when, visit_error, check_cycles, check_steps, step_error,
  capability_error, schema_error, check_references, check_dependency, check_binding, check_source,
  check_sources, validate,
}
use enterprise_security_reco.Workflow.Layers.{Layered, Layered-Distinct, Distinct-length, rank-lt}
use enterprise_security_reco.Workflow.Acyclic.{deps_in, Closed, visit_all-Layered}
use enterprise_security_reco.Workflow.Cycles.{
  visit-fuelled, visit_all-fuelled, visit-ends, visit_all-ends,
}
use enterprise_security_reco.Workflow.Valid.{references-Closed, visits_of_check}

-- Not the report of a search that ran out of fuel.
abbrev Fuelled : Option Invalid → Type 0
Fuelled e = e ≢ some no_fuel

or-Fuelled : (a b : Option Invalid) → Fuelled a → (a ≡ none → Fuelled b) → Fuelled (a <|> b)
or-Fuelled none b p q = q refl
or-Fuelled (some e) b p q = p

when-Fuelled : (fails : Bool) (e : Invalid) → e ≢ no_fuel → Fuelled (when fails e)
unfolding when
when-Fuelled true e p = λ h. p (cc)
when-Fuelled false e p = λ h. cc

first_error-Fuelled {ℓ} :
    {A : Type ℓ} (check : A → Option Invalid) (xs : List A)
    → ((x : A) → Fuelled (check x))
    → Fuelled (first_error check xs)
unfolding first_error
first_error-Fuelled check [] each = λ h. cc
first_error-Fuelled check (x ∷ xs) each =
    or-Fuelled (check x) (first_error check xs) (each x) (λ e. first_error-Fuelled check xs each)

references-Fuelled : (ids : List String) (s : Step) → Fuelled (check_references ids s)
unfolding check_references check_dependency check_binding
references-Fuelled ids s =
    or-Fuelled _ _
      (first_error-Fuelled (check_dependency ids s) s.depends_on
        (λ dep. when-Fuelled _ _ (λ h. cc)))
      (λ e.
        or-Fuelled _ _
          (first_error-Fuelled (check_binding ids s) s.bindings
            (λ b. or-Fuelled _ _ (when-Fuelled _ _ (λ h. cc)) (λ e'. when-Fuelled _ _ (λ h. cc))))
          (λ e'. when-Fuelled _ _ (λ h. cc)))

sources-Fuelled : (m : List (String × Step)) (s : Step) → Fuelled (check_sources m s)
unfolding check_sources check_source
sources-Fuelled m s =
    or-Fuelled _ _
      (first_error-Fuelled (check_source m s) s.bindings (λ b. when-Fuelled _ _ (λ h. cc)))
      (λ e. when-Fuelled _ _ (λ h. cc))

visit_error-Fuelled : (v : Visit) → v ≢ out_of_fuel → Fuelled (visit_error v)
unfolding visit_error
visit_error-Fuelled (visited done) p = λ h. cc
visit_error-Fuelled (cyclic id) p = λ h. cc
visit_error-Fuelled out_of_fuel p = λ h. p refl

cycles-Fuelled : (m : List (String × Step)) → Closed m → Fuelled (check_cycles m)
unfolding check_cycles
cycles-Fuelled m closed =
    let n = suc (length (ids_of m)) in
    visit_error-Fuelled _ (
      visit_all-fuelled (visit n m []) (ids_of m) [] (λ dep done on.
        visit-fuelled m closed n [] dep done tt (λ x p. elim p [ ]) on (omega arith)))

capability-Fuelled :
    {W : Type 0} (valid_json : String → Bool) (r : Registry W) (s : Step)
    → Fuelled (capability_error valid_json r s)
unfolding capability_error
capability-Fuelled valid_json r s = ground arith

schema-Fuelled :
    {W : Type 0} (valid_json : String → Bool) (r : Registry W) (s : Step)
    → Fuelled (schema_error valid_json r s)
unfolding schema_error
schema-Fuelled valid_json r s = ground arith

step-Fuelled :
    {W : Type 0} (valid_json : String → Bool) (r : Registry W) (s : Step)
    → Fuelled (step_error valid_json r s)
unfolding step_error
step-Fuelled valid_json r s = or-Fuelled _ _ (capability-Fuelled valid_json r s) (λ e.
    or-Fuelled _ _ (when-Fuelled _ _ (λ h. cc))
      (λ e'. or-Fuelled _ _ (schema-Fuelled valid_json r s) (λ e''. when-Fuelled _ _ (λ h. cc))))

steps-Fuelled :
    {W : Type 0} (valid_json : String → Bool) (r : Registry W) (seen : List String)
    (steps : List Step)
    → Fuelled (check_steps valid_json r seen steps)
unfolding check_steps
steps-Fuelled valid_json r seen [] = λ h. cc
steps-Fuelled valid_json r seen (s ∷ steps) = or-Fuelled _ _ (when-Fuelled _ _ (λ h. cc)) (λ e.
    or-Fuelled _ _ (when-Fuelled _ _ (λ h. cc)) (λ e'.
      or-Fuelled _ _ (step-Fuelled valid_json r s)
        (λ e''. steps-Fuelled valid_json r (s.id ∷ seen) steps)))

-- The visits of `Validate` never run out of fuel: whatever the workflow, they find a cycle or end.
pub validate_fuelled :
    {W : Type 0} (valid_json : String → Bool) (r : Registry W) (d : Definition)
    → validate valid_json r d ≢ some no_fuel
unfolding validate
validate_fuelled valid_json r d =
    let m = by_id d.steps in
    or-Fuelled _ _ (when-Fuelled _ _ (λ h. cc)) (λ e.
      or-Fuelled _ _ (steps-Fuelled valid_json r [] d.steps) (λ e'.
        or-Fuelled _ _
          (first_error-Fuelled (check_references (ids_of m)) d.steps
            (references-Fuelled (ids_of m)))
          (λ known.
            or-Fuelled _ _ (cycles-Fuelled m (references-Closed d.steps known))
              (λ e''. first_error-Fuelled (check_sources m) d.steps (sources-Fuelled m)))))

-- The steps of the map in layers: a list of exactly its ids, each once and before its dependencies.
pub record Layering (m : List (String × Step)) : Type 0 where
  pub layers : List String
  pub layered : Layered (deps_in m) layers
  pub covers : (id : String) → Memᴰ id (ids_of m) → Memᴰ id layers
  pub within : (id : String) → Memᴰ id layers → Memᴰ id (ids_of m)

cycles-none : (m : List (String × Step)) → Layering m → check_cycles m ≡ none
unfolding check_cycles visit_error
cycles-none m l =
    let n = suc (length (ids_of m)) in
    let fit =
      Distinct-length l.layers (ids_of m) (Layered-Distinct (deps_in m) l.layers l.layered)
        l.within in
    let (done, e) = visit_all-ends (visit n m []) (ids_of m) [] (λ dep d p.
      visit-ends m l.layers l.layered n [] dep d (l.covers dep p)
        (omega (arith, rank-lt l.layers dep (l.covers dep p), fit)) (λ x q. elim q [ ])) in
    ap visit_error e

cycles-Layering : (m : List (String × Step)) → Closed m → check_cycles m ≡ none → Layering m
unfolding check_cycles
cycles-Layering m closed h =
    let (done, e) = visits_of_check _ h in
    let (l, covers, within) =
      visit_all-Layered m closed (suc (length (ids_of m))) (ids_of m) done (λ x p. p) e in
    record { layers = done; layered = l; covers = covers; within = within }

-- For steps whose dependencies are all steps of the workflow, the search for cycles reports
-- nothing exactly when the steps can be put in layers, each after its dependencies.
pub check_cycles_iff : (m : List (String × Step)) → Closed m → (check_cycles m ≡ none) ↔ Layering m
check_cycles_iff m closed = (cycles-Layering m closed, cycles-none m)

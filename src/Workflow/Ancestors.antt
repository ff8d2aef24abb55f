-- ===== src/Workflow/Ancestors.antt =====
-- The sources that the bindings and conditions of an accepted workflow read from.
use mathlib.Core.Path.{subst}
use enterprise_security_reco.Prelude.{
  ℕ, zero, suc, String, ◌≡◌, refl, Bool, true, false, Bool-cases, inl, inr, List, [], ◌∷◌, Memᴰ,
  arith, length, contains, none, ◌==◌, eq_iff, not, ◌&&◌,
}
use enterprise_security_reco.Strings.{is_empty}
use enterprise_security_reco.Capability.{Registry}
use enterprise_security_reco.Workflow.{Step, Definition}
use enterprise_security_reco.Workflow.Graph.{
  by_id, search_all, search_from, transitively_depends_on,
}
use enterprise_security_reco.Workflow.Checks.{
  binding_source, condition_source, check_source, check_sources, validate,
}
use enterprise_security_reco.Workflow.Acyclic.{deps_in}
use enterprise_security_reco.Workflow.Valid.{validate-Sound, or-none, when-none, first_error-none}

module _ (m : List (String × Step)) where
  -- A path of one dependency or more from a step to a source.
  pub data Ancestor : String → String → Type 0 where
    direct : {id source : String} → Memᴰ source (deps_in m id) → Ancestor id source
    above :
        {id dep source : String}
        → Memᴰ dep (deps_in m id)
        → Ancestor dep source
        → Ancestor id source

  search_all-Ancestor :
      (below : String → List String → Bool × List String) (source id : String)
      (deps seen : List String)
      → ((dep : String) (s : List String) → (below dep s).0 ≡ true → Ancestor dep source)
      → ((dep : String) → Memᴰ dep deps → Memᴰ dep (deps_in m id))
      → (search_all below source deps seen).0 ≡ true
      → Ancestor id source
  unfolding search_all
  search_all-Ancestor below source id [] seen sound inside h = cc
  search_all-Ancestor below source id (dep ∷ deps) seen sound inside h =
      elim (Bool-cases (dep == source)) [
        | inl same ↦ direct (
            subst (λ w. Memᴰ w (deps_in m id)) ((eq_iff dep source).0 same)
              (inside dep (Memᴰ.head refl)))
        | inr differ ↦ elim (Bool-cases (below dep seen).0) [
          | inl found ↦ above (inside dep (Memᴰ.head refl)) (sound dep seen found)
          | inr missed ↦
              search_all-Ancestor below source id deps (below dep seen).1 sound
                (λ d p. inside d (Memᴰ.tail p)) (rw (differ, missed) at h)
        ]
      ]

  search_from-Ancestor :
      (n : ℕ) (source id : String) (seen : List String)
      → (search_from n m source id seen).0 ≡ true
      → Ancestor id source
  unfolding search_from
  search_from-Ancestor zero source id seen h = cc
  search_from-Ancestor (suc n) source id seen h = elim (Bool-cases (contains seen id)) [
    | inl again ↦ cc (rw again at h)
    | inr new ↦
        search_all-Ancestor (search_from n m source) source id (deps_in m id) (id ∷ seen)
          (λ dep s e. search_from-Ancestor n source dep s e) (λ d p. p) (rw new at h)
  ]

  depends-Ancestor :
      (id source : String) → transitively_depends_on m id source ≡ true → Ancestor id source
  unfolding transitively_depends_on
  depends-Ancestor id source h = search_from-Ancestor (suc (length m)) source id [] h

  check_source-Ancestor :
      (s : Step) (field binding : String)
      → check_source m s (field, binding) ≡ none
      → Ancestor s.id (binding_source binding)
  unfolding check_source
  check_source-Ancestor s field binding h = depends-Ancestor s.id (binding_source binding) (
      ground (arith, when-none (not (transitively_depends_on m s.id (binding_source binding))) _ h))

  -- The reads of a step, which are of the outputs of steps that it depends on.
  pub record ReadsAbove (s : Step) : Type 0 where
    pub bindings :
        (field binding : String)
        → Memᴰ (field, binding) s.bindings
        → Ancestor s.id (binding_source binding)
    pub condition : is_empty s.condition ≡ false → Ancestor s.id (condition_source s.condition)

  check_sources-ReadsAbove : (s : Step) → check_sources m s ≡ none → ReadsAbove s
  unfolding check_sources
  check_sources-ReadsAbove s h =
      let (bound, conditional) = or-none _ _ h in
      record {
        bindings = λ field binding p.
            check_source-Ancestor s field binding
              (first_error-none (check_source m s) s.bindings bound (field, binding) p);
        condition = λ some'.
            let depends = transitively_depends_on m s.id (condition_source s.condition) in
            depends-Ancestor s.id (condition_source s.condition) (
              ground (
                arith,
                some',
                when-none (not (is_empty s.condition) && not depends) _ conditional,
              ));
      }

-- Every step whose output a binding or the condition of a step of an accepted workflow reads is
-- reached from that step along its dependencies.
pub validate-ReadsAbove :
    {W : Type 0} (valid_json : String → Bool) (r : Registry W) (d : Definition)
    → validate valid_json r d ≡ none
    → (s : Step) → Memᴰ s d.steps
    → ReadsAbove (by_id d.steps) s
validate-ReadsAbove valid_json r d h s p =
    let sound = validate-Sound valid_json r d h in
    check_sources-ReadsAbove (by_id d.steps) s
      (first_error-none (check_sources (by_id d.steps)) d.steps sound.sources s p)

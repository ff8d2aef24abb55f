-- ===== src/Workflow/Cycles.antt =====
-- The visit of `Validate` never runs out of fuel, and finds no cycle where there is none.
use mathlib.Core.Path.{subst}
use enterprise_security_reco.Prelude.{
  ℕ, zero, suc, ◌+◌, ◌<◌, String, ◌≡◌, ◌≢◌, refl, sym, Bool-cases, inl, inr, List, [], ◌∷◌, Memᴰ,
  arith, length, Distinct, contains, contains_iff,
}
use enterprise_security_reco.Workflow.{Step}
use enterprise_security_reco.Workflow.Graph.{
  ids_of, Visit, visited, cyclic, out_of_fuel, visit_all, close_visit, visit,
}
use enterprise_security_reco.Workflow.Layers.{Layered, Distinct-length, rank, rank-dep}
use enterprise_security_reco.Workflow.Acyclic.{absent, deps_in, Closed}

-- Visits in a row end well if each of them does.
pub visit_all-ends :
    (f : String → List String → Visit) (targets done : List String)
    → ((dep : String) (d : List String)
        → Memᴰ dep targets
        → (d' : List String) × (f dep d ≡ visited d'))
    → (done' : List String) × (visit_all f targets done ≡ visited done')
unfolding visit_all
visit_all-ends f [] done ends = (done, refl)
visit_all-ends f (dep ∷ targets) done ends =
    let (mid, one) = ends dep done (Memᴰ.head refl) in
    let (done', rest) = visit_all-ends f targets mid (λ d e p. ends d e (Memᴰ.tail p)) in
    (done', rw (one, visit_all) rest)

-- Visits in a row run out of fuel only if one of them does.
after_first :
    (f : String → List String → Visit) (targets : List String) (v : Visit)
    → v ≢ out_of_fuel
    → ((mid : List String) → visit_all f targets mid ≢ out_of_fuel)
    → (elim v [ visited mid ↦ visit_all f targets mid | failure ↦ failure ]) ≢ out_of_fuel
after_first f targets (visited mid) first rest = rest mid
after_first f targets (cyclic c) first rest = λ h. cc
after_first f targets out_of_fuel first rest = first

pub visit_all-fuelled :
    (f : String → List String → Visit) (targets done : List String)
    → ((dep : String) (d : List String) → Memᴰ dep targets → f dep d ≢ out_of_fuel)
    → visit_all f targets done ≢ out_of_fuel
unfolding visit_all
visit_all-fuelled f [] done fuelled = λ h. cc
visit_all-fuelled f (dep ∷ targets) done fuelled =
    after_first f targets (f dep done) (fuelled dep done (Memᴰ.head refl))
      (λ mid. visit_all-fuelled f targets mid (λ d e p. fuelled d e (Memᴰ.tail p)))

close_visit-ends :
    (id : String) (v : Visit)
    → ((done : List String) × (v ≡ visited done))
    → (done' : List String) × (close_visit id v ≡ visited done')
unfolding close_visit
close_visit-ends id v (done, e) = (id ∷ done, rw e)

close_visit-fuelled : (id : String) (v : Visit) → v ≢ out_of_fuel → close_visit id v ≢ out_of_fuel
unfolding close_visit
close_visit-fuelled id (visited done) n h = cc
close_visit-fuelled id (cyclic c) n h = cc
close_visit-fuelled id out_of_fuel n h = n refl

module _ (m : List (String × Step)) where
  -- In a layered list every visit with fuel above its rank succeeds.
  pub visit-ends :
      (layers : List String)
      → Layered (deps_in m) layers
      → (n : ℕ) (visiting : List String) (id : String) (done : List String) → Memᴰ id layers
      → rank layers id < n
      → ((x : String) → Memᴰ x visiting → rank layers id < rank layers x)
      → (done' : List String) × (visit n m visiting id done ≡ visited done')
  unfolding visit
  visit-ends layers l zero visiting id done p lt above =
      let never : ⊥ = omega arith in elim never [ ]
  visit-ends layers l (suc n) visiting id done p lt above =
      elim (Bool-cases (contains visiting id)) [
        | inl open' ↦
            let never : ⊥ = omega (arith, above id ((contains_iff visiting id).0 open')) in
            elim never [ ]
        | inr closed ↦ elim (Bool-cases (contains done id)) [
          | inl old ↦ (done, rw (closed, old))
          | inr new ↦
              let (done', e) = close_visit-ends id _ (
                visit_all-ends (visit n m (id ∷ visiting)) (deps_in m id) done (λ dep d on.
                  let (below, lower) = rank-dep (deps_in m) layers id dep l p on in
                  visit-ends layers l n (id ∷ visiting) dep d below (omega arith) (λ x q. elim q [
                    | Memᴰ.head e ↦ rw e lower
                    | Memᴰ.tail r ↦ omega (arith, above x r)
                  ]))) in
              (done', rw (closed, new, e))
        ]
      ]

  -- The steps whose visit is open are distinct, so that there are no more than there are steps.
  pub visit-fuelled :
      Closed m
      → (n : ℕ) (visiting : List String) (id : String) (done : List String) → Distinct visiting
      → ((x : String) → Memᴰ x visiting → Memᴰ x (ids_of m))
      → Memᴰ id (ids_of m)
      → length (ids_of m) < n + length visiting
      → visit n m visiting id done ≢ out_of_fuel
  unfolding visit
  visit-fuelled closed' zero visiting id done d inside known enough =
      λ h. omega (arith, Distinct-length visiting (ids_of m) d inside)
  visit-fuelled closed' (suc n) visiting id done d inside known enough =
      elim (Bool-cases (contains visiting id)) [
        | inl open' ↦ λ h. cc (rw open' at h)
        | inr shut ↦ elim (Bool-cases (contains done id)) [
          | inl old ↦ λ h. cc (rw (shut, old) at h)
          | inr new ↦ λ h.
              close_visit-fuelled id _
                (visit_all-fuelled (visit n m (id ∷ visiting)) (deps_in m id) done (λ dep e on.
                  visit-fuelled closed' n (id ∷ visiting) dep e (absent visiting id shut, d)
                    (λ x q. elim q [
                      | Memᴰ.head e' ↦ subst (λ w. Memᴰ w (ids_of m)) (sym e') known
                      | Memᴰ.tail r ↦ inside x r
                    ])
                    (closed' id dep known on) (omega arith)))
                (rw (shut, new) at h)
        ]
      ]

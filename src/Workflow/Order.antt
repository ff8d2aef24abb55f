-- ===== src/Workflow/Order.antt =====
-- `topological` on a workflow without a cycle: every step once, its dependencies before it.
use mathlib.Core.Path.{subst}
use enterprise_security_reco.Prelude.{
  ℕ, zero, suc, ◌<◌, String, ◌≡◌, refl, sym, ◌∙◌, Bool-cases, inl, inr, ◌⊎◌, ◌↔◌, List, [], ◌∷◌,
  ◌++◌, Memᴰ, arith, ap, contains, contains_iff,
}
use enterprise_security_reco.Sorting.{sort_strings, string_le}
use enterprise_security_reco.Sorting.Laws.{mem-sort}
use enterprise_security_reco.Workflow.{Step}
use enterprise_security_reco.Workflow.Graph.{step_of, add_all, put_out, add}
use enterprise_security_reco.Workflow.Layers.{Layered, rank, rank-dep}
use enterprise_security_reco.Workflow.Acyclic.{absent, deps_in}

pub mem-sort_strings : {x : String} {xs : List String} → Memᴰ x (sort_strings xs) ↔ Memᴰ x xs
unfolding sort_strings
mem-sort_strings = mem-sort string_le

-- The ids before a list of steps and those of its steps, the latest first.
abbrev pub placed : List String → List Step → List String
placed before [] = before
placed before (s ∷ out) = placed (s.id ∷ before) out

-- Every step has its dependencies before it, and an id that no earlier step has.
abbrev pub DepsFirst : List String → List Step → Type 0
DepsFirst before [] = Unit
DepsFirst before (s ∷ out) =
    ((dep : String) → Memᴰ dep s.depends_on → Memᴰ dep before)
    × (¬ Memᴰ s.id before)
    × DepsFirst (s.id ∷ before) out

placed-append :
    (before : List String) (out : List Step) (s : Step)
    → placed before (out ++ s ∷ []) ≡ s.id ∷ placed before out
placed-append before [] s = refl
placed-append before (t ∷ out) s = placed-append (t.id ∷ before) out s

DepsFirst-append :
    (before : List String) (out : List Step) (s : Step)
    → DepsFirst before out
    → ((dep : String) → Memᴰ dep s.depends_on → Memᴰ dep (placed before out))
    → ¬ Memᴰ s.id (placed before out)
    → DepsFirst before (out ++ s ∷ [])
DepsFirst-append before [] s d below new = (below, new, tt)
DepsFirst-append before (t ∷ out) s d below new =
    (d.0, d.1, DepsFirst-append (t.id ∷ before) out s d.2 below new)

module _ (m : List (String × Step)) where
  -- The steps put out while the ids were seen.
  abbrev pub emitted : List String → List Step
  emitted [] = []
  emitted (id ∷ seen) = emitted seen ++ step_of m id ∷ []

  -- Every id of the list is the id of the step that the map has for it.
  abbrev pub Keyed : List String → Type 0
  Keyed ids = (id : String) → Memᴰ id ids → (step_of m id).id ≡ id

  pub placed-emitted : (seen : List String) → Keyed seen → placed [] (emitted seen) ≡ seen
  placed-emitted [] k = refl
  placed-emitted (id ∷ seen) k =
      placed-append [] (emitted seen) (step_of m id)
      ∙ cc (k id (Memᴰ.head refl), placed-emitted seen (λ x p. k x (Memᴰ.tail p)))

  pub emitted-DepsFirst :
      (seen : List String) → Keyed seen → Layered (deps_in m) seen → DepsFirst [] (emitted seen)
  emitted-DepsFirst [] k l = tt
  emitted-DepsFirst (id ∷ seen) k l =
      let k' : Keyed seen = λ x p. k x (Memᴰ.tail p) in
      let e = sym (placed-emitted seen k') in
      DepsFirst-append [] (emitted seen) (step_of m id) (emitted-DepsFirst seen k' l.2)
        (λ dep on. subst (λ w. Memᴰ dep w) e (l.1 dep on))
        (λ p. l.0 (
          subst (λ w. Memᴰ w seen) (k id (Memᴰ.head refl))
            (subst (λ w. Memᴰ (step_of m id).id w) (sym e) p)))

module _ (m : List (String × Step)) (layers : List String) (l : Layered (deps_in m) layers) where
  -- What adding the targets makes of the ids seen and the steps put out.
  pub record Added (bound : ℕ) (targets : List String) (st st' : List String × List Step)
      : Type 0 where
    pub layered : Layered (deps_in m) st'.0
    pub out : st'.1 ≡ emitted m st'.0
    pub keeps : (x : String) → Memᴰ x st.0 → Memᴰ x st'.0
    pub reaches : (x : String) → Memᴰ x targets → Memᴰ x st'.0
    pub fresh :
        (x : String) → Memᴰ x st'.0 → Memᴰ x st.0 ⊎ (Memᴰ x layers × (rank layers x < bound))

  nothing-Added :
      (bound : ℕ) (st : List String × List Step)
      → Layered (deps_in m) st.0
      → st.1 ≡ emitted m st.0
      → Added bound [] st st
  nothing-Added bound st ls e = record {
    layered = ls;
    out = e;
    keeps = λ x p. p;
    reaches = λ x p. elim p [ ];
    fresh = λ x p. inl p;
  }

  -- A way to add an id that is right for ids of a rank below the bound.
  abbrev pub Adds : ℕ → (String → List String × List Step → List String × List Step) → Type 0
  Adds bound f =
      (id : String) (st : List String × List Step)
      → Memᴰ id layers
      → rank layers id < bound
      → Layered (deps_in m) st.0
      → st.1 ≡ emitted m st.0
      → Added (suc (rank layers id)) (id ∷ []) st (f id st)

  pub add_all-Added :
      (f : String → List String × List Step → List String × List Step) (bound : ℕ)
      (targets : List String) (st : List String × List Step)
      → Adds bound f
      → ((x : String) → Memᴰ x targets → Memᴰ x layers × (rank layers x < bound))
      → Layered (deps_in m) st.0
      → st.1 ≡ emitted m st.0
      → Added bound targets st (add_all f targets st)
  add_all-Added f bound [] st adds low ls e = nothing-Added bound st ls e
  add_all-Added f bound (dep ∷ targets) st adds low ls e =
      let (known, lower) = low dep (Memᴰ.head refl) in
      let one = adds dep st known lower ls e in
      let rest =
        add_all-Added f bound targets (f dep st) adds (λ x p. low x (Memᴰ.tail p)) one.layered
          one.out in
      record {
        layered = rest.layered;
        out = rest.out;
        keeps = λ x p. rest.keeps x (one.keeps x p);
        reaches = λ x p. elim p [
          | Memᴰ.head q ↦ rest.keeps x (one.reaches x (Memᴰ.head q))
          | Memᴰ.tail q ↦ rest.reaches x q
        ];
        fresh = λ x p. elim (rest.fresh x p) [
          | inr q ↦ inr q
          | inl q ↦ elim (one.fresh x q) [
            | inl r ↦ inl r
            | inr r ↦ inr (r.0, omega (arith, r.1, lower))
          ]
        ];
      }

  put_out-Added :
      (id : String) (st mid : List String × List Step)
      → Memᴰ id layers
      → ¬ Memᴰ id st.0
      → Added (rank layers id) (sort_strings (deps_in m id)) st mid
      → Added (suc (rank layers id)) (id ∷ []) st (put_out (step_of m id) id mid)
  unfolding put_out
  put_out-Added id st mid known new a = record {
    layered = (
      λ p. elim (a.fresh id p) [ inl q ↦ new q | inr q ↦ omega (arith, q.1) ],
      λ dep on. a.reaches dep (mem-sort_strings.1 on),
      a.layered,
    );
    out = ap (λ w. w ++ step_of m id ∷ []) a.out;
    keeps = λ x p. Memᴰ.tail (a.keeps x p);
    reaches = λ x p. elim p [ Memᴰ.head q ↦ Memᴰ.head q | Memᴰ.tail q ↦ elim q [ ] ];
    fresh = λ x p. elim p [
      | Memᴰ.head q ↦ inr (rw q known, rw q (omega arith))
      | Memᴰ.tail q ↦ elim (a.fresh x q) [ inl r ↦ inl r | inr r ↦ inr (r.0, omega (arith, r.1)) ]
    ];
  }

  pub add-Adds : (n : ℕ) → Adds n (add n m)
  unfolding add
  add-Adds zero id st known lower ls e = let never : ⊥ = omega (arith, lower) in elim never [ ]
  add-Adds (suc n) id st known lower ls e = elim (Bool-cases (contains st.0 id)) [
    | inl old ↦ rw old (record {
      layered = ls;
      out = e;
      keeps = λ x p. p;
      reaches = λ x p. elim p [
        | Memᴰ.head q ↦ subst (λ w. Memᴰ w st.0) (sym q) ((contains_iff st.0 id).0 old)
        | Memᴰ.tail q ↦ elim q [ ]
      ];
      fresh = λ x p. inl p;
    })
    | inr new ↦ rw new (
        put_out-Added id st _ known (absent st.0 id new) (
          add_all-Added (add n m) (rank layers id) (sort_strings (deps_in m id)) st
            (λ d st' k r. add-Adds n d st' k (omega arith))
            (λ x p. rank-dep (deps_in m) layers id x l known (mem-sort_strings.0 p)) ls e))
  ]

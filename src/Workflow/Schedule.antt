-- ===== src/Workflow/Schedule.antt =====
-- The order of execution of a workflow that `Validate` accepts.
use mathlib.Core.Path.{subst}
use enterprise_security_reco.Prelude.{
  suc, ◌≤◌, String, ◌≡◌, refl, sym, Bool, inl, inr, ◌⊎◌, ◌↔◌, List, [], ◌∷◌, ◌++◌, Memᴰ, arith,
  length, none,
}
use enterprise_security_reco.Sorting.{sort_strings}
use enterprise_security_reco.Capability.{Registry}
use enterprise_security_reco.Workflow.{Step, Definition}
use enterprise_security_reco.Workflow.Graph.{by_id, step_of, ids_of, topological, add, add_all}
use enterprise_security_reco.Workflow.Checks.{validate}
use enterprise_security_reco.Workflow.Keys.{
  mem-step_ids, length-ids_of, step_of-mem, ids-mem, step_of-own,
}
use enterprise_security_reco.Workflow.Layers.{Layered-Distinct, Distinct-length, rank-lt}
use enterprise_security_reco.Workflow.Acyclic.{deps_in}
use enterprise_security_reco.Workflow.Valid.{Sound, validate-Sound}
use enterprise_security_reco.Workflow.Order.{
  DepsFirst, emitted, emitted-DepsFirst, Added, add_all-Added, add-Adds, mem-sort_strings,
}

mem_last : {A : Type 0} (xs : List A) (y : A) → Memᴰ y (xs ++ y ∷ [])
mem_last [] y = Memᴰ.head refl
mem_last (x ∷ xs) y = Memᴰ.tail (mem_last xs y)

mem_before : {A : Type 0} (xs : List A) (x y : A) → Memᴰ x xs → Memᴰ x (xs ++ y ∷ [])
mem_before [] x y p = elim p [ ]
mem_before (z ∷ xs) x y (Memᴰ.head e) = Memᴰ.head e
mem_before (z ∷ xs) x y (Memᴰ.tail p) = Memᴰ.tail (mem_before xs x y p)

mem_split : {A : Type 0} (xs : List A) (x y : A) → Memᴰ x (xs ++ y ∷ []) → Memᴰ x xs ⊎ (x ≡ y)
mem_split [] x y (Memᴰ.head e) = inr e
mem_split [] x y (Memᴰ.tail p) = elim p [ ]
mem_split (z ∷ xs) x y (Memᴰ.head e) = inl (Memᴰ.head e)
mem_split (z ∷ xs) x y (Memᴰ.tail p) = elim (mem_split xs x y p) [
  | inl q ↦ inl (Memᴰ.tail q)
  | inr e ↦ inr e
]

module _ (m : List (String × Step)) where
  mem-emitted :
      (seen : List String) (id : String) → Memᴰ id seen → Memᴰ (step_of m id) (emitted m seen)
  mem-emitted [] id p = elim p [ ]
  mem-emitted (x ∷ seen) id (Memᴰ.head e) =
      subst (λ w. Memᴰ (step_of m w) (emitted m (x ∷ seen))) (sym e)
        (mem_last (emitted m seen) (step_of m x))
  mem-emitted (x ∷ seen) id (Memᴰ.tail p) =
      mem_before (emitted m seen) (step_of m id) (step_of m x) (mem-emitted seen id p)

  emitted-mem :
      (seen : List String) (s : Step)
      → Memᴰ s (emitted m seen)
      → (id : String) × Memᴰ id seen × (s ≡ step_of m id)
  emitted-mem [] s p = elim p [ ]
  emitted-mem (x ∷ seen) s p = elim (mem_split (emitted m seen) s (step_of m x) p) [
    | inl q ↦ let (id, r, e) = emitted-mem seen s q in (id, Memᴰ.tail r, e)
    | inr e ↦ (x, Memᴰ.head refl, e)
  ]

module _ (d : Definition) (sound : Sound d.steps) where
  abbrev map_of : List (String × Step)
  map_of = by_id d.steps

  layers-fit : length sound.layers ≤ length map_of
  layers-fit = omega (
    arith,
    length-ids_of map_of,
    Distinct-length sound.layers (ids_of map_of)
        (Layered-Distinct (deps_in map_of) sound.layers sound.layered) sound.within,
  )

  abbrev finally : List String × List Step
  finally = add_all (add (suc (length map_of)) map_of) (sort_strings (ids_of map_of)) ([], [])

  finally-Added :
      Added map_of sound.layers sound.layered
        (suc (length map_of))
        (sort_strings (ids_of map_of))
        ([], [])
        finally
  finally-Added =
      add_all-Added map_of sound.layers sound.layered (add (suc (length map_of)) map_of)
        (suc (length map_of)) (sort_strings (ids_of map_of)) ([], [])
        (add-Adds map_of sound.layers sound.layered (suc (length map_of)))
        (λ x p.
          let q = sound.covers x (mem-sort_strings.0 p) in
          (q, omega (arith, rank-lt sound.layers x q, layers-fit)))
        tt refl

  seen-known : (x : String) → Memᴰ x finally.0 → Memᴰ x (ids_of map_of)
  seen-known x p = elim (finally-Added.fresh x p) [
    | inl q ↦ elim q [ ]
    | inr q ↦ sound.within x q.0
  ]

  schedule : DepsFirst [] (topological d) × ((s : Step) → Memᴰ s (topological d) ↔ Memᴰ s d.steps)
  unfolding topological
  schedule = (
    subst (DepsFirst []) (sym finally-Added.out) (
        emitted-DepsFirst map_of finally.0 (λ id p. (step_of-mem d.steps id (seen-known id p)).1)
          finally-Added.layered),
    λ s. (
      λ p.
          let (id, q, e) =
            emitted-mem map_of finally.0 s (subst (λ w. Memᴰ s w) finally-Added.out p) in
          subst (λ w. Memᴰ w d.steps) (sym e) (step_of-mem d.steps id (seen-known id q)).0,
      λ p.
          let known = ids-mem d.steps s.id (mem-step_ids s d.steps p) in
          let q =
            mem-emitted map_of finally.0 s.id
              (finally-Added.reaches s.id (mem-sort_strings.1 known)) in
          subst (λ w. Memᴰ s w) (sym finally-Added.out)
            (subst (λ w. Memᴰ w (emitted map_of finally.0)) (step_of-own d.steps s sound.distinct p)
              q),
    ),
  )

-- The order in which an accepted workflow is executed has every one of its steps, has no others,
-- has no id twice, and has the dependencies of each step before it.
pub validate-schedules :
    {W : Type 0} (valid_json : String → Bool) (r : Registry W) (d : Definition)
    → validate valid_json r d ≡ none
    → DepsFirst [] (topological d) × ((s : Step) → Memᴰ s (topological d) ↔ Memᴰ s d.steps)
validate-schedules valid_json r d h = schedule d (validate-Sound valid_json r d h)

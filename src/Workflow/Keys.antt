-- ===== src/Workflow/Keys.antt =====
-- What `byID` has for the ids of a workflow's steps.
use mathlib.Core.Path.{subst}
use enterprise_security_reco.Prelude.{
  suc, String, ◌≡◌, refl, sym, ◌∙◌, false, Bool-cases, inl, inr, List, [], ◌∷◌, Memᴰ, length, ap,
  contains, lookup, contains_iff, Distinct, ◌==◌, eq_iff, eq_refl,
}
use enterprise_security_reco.Workflow.{Step}
use enterprise_security_reco.Workflow.Graph.{by_id, step_of, ids_of}

abbrev pub step_ids : List Step → List String
step_ids [] = []
step_ids (s ∷ steps) = s.id ∷ step_ids steps

pub mem-step_ids : (s : Step) (steps : List Step) → Memᴰ s steps → Memᴰ s.id (step_ids steps)
mem-step_ids s [] p = elim p [ ]
mem-step_ids s (t ∷ steps) (Memᴰ.head e) = Memᴰ.head (ap (λ w. w.id) e)
mem-step_ids s (t ∷ steps) (Memᴰ.tail p) = Memᴰ.tail (mem-step_ids s steps p)

pub length-ids_of : (m : List (String × Step)) → length (ids_of m) ≡ length m
unfolding ids_of
length-ids_of [] = refl
length-ids_of ((id, s) ∷ m) = ap suc (length-ids_of m)

step_of-here : (id : String) (s : Step) (m : List (String × Step)) → step_of ((id, s) ∷ m) id ≡ s
unfolding step_of lookup
step_of-here id s m = rw (eq_refl id, step_of)

step_of-later :
    (id x : String) (s : Step) (m : List (String × Step))
    → (id == x) ≡ false
    → step_of ((id, s) ∷ m) x ≡ step_of m x
unfolding step_of lookup
step_of-later id x s m h = rw (h, step_of)

-- What the map has for an id of it is a step of the workflow, with that id.
pub step_of-mem :
    (steps : List Step) (id : String)
    → Memᴰ id (ids_of (by_id steps))
    → Memᴰ (step_of (by_id steps) id) steps × ((step_of (by_id steps) id).id ≡ id)
unfolding by_id ids_of
step_of-mem [] id p = elim p [ ]
step_of-mem (s ∷ steps) id p = elim (Bool-cases (contains (ids_of (by_id steps)) s.id)) [
  | inl again ↦ let (q, e) = step_of-mem steps id (rw again at p) in rw again (Memᴰ.tail q, e)
  | inr new ↦ rw new (elim (Bool-cases (s.id == id)) [
    | inl same ↦
        let e = (eq_iff s.id id).0 same in
        let here : step_of ((s.id, s) ∷ by_id steps) id ≡ s =
          subst (λ w. step_of ((s.id, s) ∷ by_id steps) w ≡ s) e
            (step_of-here s.id s (by_id steps)) in
        (Memᴰ.head here, ap (λ w. w.id) here ∙ e)
    | inr differ ↦
        let p' : Memᴰ id (s.id ∷ ids_of (by_id steps)) = rw new at p in
        let (q, e) = step_of-mem steps id (elim p' [
          | Memᴰ.head h ↦ let same = (eq_iff s.id id).1 (sym h) in cc
          | Memᴰ.tail q ↦ q
        ]) in
        rw (step_of-later s.id id s (by_id steps) differ) (Memᴰ.tail q, e)
  ])
]

pub mem_ids :
    (steps : List Step) (id : String) → Memᴰ id (ids_of (by_id steps)) → Memᴰ id (step_ids steps)
mem_ids steps id p =
    let (q, e) = step_of-mem steps id p in
    subst (λ w. Memᴰ w (step_ids steps)) e (mem-step_ids (step_of (by_id steps) id) steps q)

pub ids-mem :
    (steps : List Step) (id : String) → Memᴰ id (step_ids steps) → Memᴰ id (ids_of (by_id steps))
unfolding by_id ids_of
ids-mem [] id p = elim p [ ]
ids-mem (s ∷ steps) id p = elim (Bool-cases (contains (ids_of (by_id steps)) s.id)) [
  | inl again ↦ rw again (elim p [
    | Memᴰ.head e ↦
        subst (λ w. Memᴰ w (ids_of (by_id steps))) (sym e)
          ((contains_iff (ids_of (by_id steps)) s.id).0 again)
    | Memᴰ.tail q ↦ ids-mem steps id q
  ])
  | inr new ↦
      rw new (elim p [ Memᴰ.head e ↦ Memᴰ.head e | Memᴰ.tail q ↦ Memᴰ.tail (ids-mem steps id q) ])
]

-- Where the ids are distinct, the map has every step under its id.
pub step_of-own :
    (steps : List Step) (s : Step)
    → Distinct (step_ids steps)
    → Memᴰ s steps
    → step_of (by_id steps) s.id ≡ s
unfolding by_id
step_of-own [] s d p = elim p [ ]
step_of-own (t ∷ steps) s d p = elim (Bool-cases (contains (ids_of (by_id steps)) t.id)) [
  | inl again ↦
      elim (d.0 (mem_ids steps t.id ((contains_iff (ids_of (by_id steps)) t.id).0 again))) [ ]
  | inr new ↦ rw new (elim p [
    | Memᴰ.head e ↦
        subst (λ w. step_of ((t.id, t) ∷ by_id steps) w.id ≡ w) (sym e)
          (step_of-here t.id t (by_id steps))
    | Memᴰ.tail q ↦ elim (Bool-cases (t.id == s.id)) [
      | inl same ↦
          elim (d.0 (
            subst (λ w. Memᴰ w (step_ids steps)) (sym ((eq_iff t.id s.id).0 same))
              (mem-step_ids s steps q))) [ ]
      | inr differ ↦ step_of-later t.id s.id t (by_id steps) differ ∙ step_of-own steps s d.1 q
    ]
  ])
]

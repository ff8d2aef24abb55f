-- ===== src/Workflow/Run/Sets.antt =====
-- The sets of finished and blocked steps, and how many steps are left.
use mathlib.Core.Path.{subst}
use enterprise_security_reco.Prelude.{
  ℕ, suc, ◌≤◌, ◌<◌, String, ◌≡◌, refl, sym, Bool, true, false, ◌||◌, not, Bool-cases, inl, inr, ◌⊎◌,
  ◌↔◌, List, [], ◌∷◌, Memᴰ, arith, length, Distinct, if◌then◌else◌, contains, contains_iff,
}
use enterprise_security_reco.Workflow.{Step}
use enterprise_security_reco.Workflow.Layers.{Distinct-length}
use enterprise_security_reco.Workflow.Acyclic.{absent}
use enterprise_security_reco.Workflow.Plans.{mark}

pub mark-mem : (id x : String) (set : List String) → Memᴰ x (mark id set) ↔ ((x ≡ id) ⊎ Memᴰ x set)
unfolding mark
mark-mem id x set = elim (Bool-cases (contains set id)) [
  | inl old ↦ rw old (
    λ p. inr p,
    λ p. elim p [
      | inl e ↦ subst (λ w. Memᴰ w set) (sym e) ((contains_iff set id).0 old)
      | inr q ↦ q
    ],
  )
  | inr new ↦ rw new (
    λ p. elim p [ Memᴰ.head e ↦ inl e | Memᴰ.tail q ↦ inr q ],
    λ p. elim p [ inl e ↦ Memᴰ.head e | inr q ↦ Memᴰ.tail q ],
  )
]

pub mark-Distinct : (id : String) (set : List String) → Distinct set → Distinct (mark id set)
unfolding mark
mark-Distinct id set d = elim (Bool-cases (contains set id)) [
  | inl old ↦ rw old d
  | inr new ↦ rw new (absent set id new, d)
]

pub marked : (id : String) (set : List String) → Memᴰ id (mark id set)
marked id set = (mark-mem id id set).1 (inl refl)

pub marks : (id x : String) (set : List String) → Memᴰ x set → Memᴰ x (mark id set)
marks id x set p = (mark-mem id x set).1 (inr p)

-- A step that is neither finished nor blocked.
abbrev pub is_open : List String → List String → String → Bool
is_open finished blocked id = not (contains finished id || contains blocked id)

-- How many of the steps are neither finished nor blocked.
unfoldable pub remaining : List Step → List String → List String → ℕ
remaining [] finished blocked = 0
remaining (s ∷ steps) finished blocked =
    let rest = remaining steps finished blocked in
    if is_open finished blocked s.id then suc rest else rest

-- Both sets have only grown.
pub record Grown (fin blk fin' blk' : List String) : Type 0 where
  pub more_finished : (x : String) → Memᴰ x fin → Memᴰ x fin'
  pub more_blocked : (x : String) → Memᴰ x blk → Memᴰ x blk'

pub same-Grown : (fin blk : List String) → Grown fin blk fin blk
same-Grown fin blk = record { more_finished = λ x p. p; more_blocked = λ x p. p }

pub then-Grown :
    (fin blk fin' blk' fin'' blk'' : List String)
    → Grown fin blk fin' blk'
    → Grown fin' blk' fin'' blk''
    → Grown fin blk fin'' blk''
then-Grown fin blk fin' blk' fin'' blk'' a b = record {
  more_finished = λ x p. b.more_finished x (a.more_finished x p);
  more_blocked = λ x p. b.more_blocked x (a.more_blocked x p);
}

contains-grows :
    (set set' : List String) (x : String)
    → ((y : String) → Memᴰ y set → Memᴰ y set')
    → contains set x ≡ true
    → contains set' x ≡ true
contains-grows set set' x grows h = (contains_iff set' x).1 (grows x ((contains_iff set x).0 h))

open-shrinks :
    (fin blk fin' blk' : List String) (x : String)
    → Grown fin blk fin' blk'
    → is_open fin blk x ≡ false
    → is_open fin' blk' x ≡ false
open-shrinks fin blk fin' blk' x g h = elim (Bool-cases (contains fin x)) [
  | inl f ↦ ground (arith, contains-grows fin fin' x g.more_finished f)
  | inr f ↦
      let b : contains blk x ≡ true = ground arith in
      ground (arith, contains-grows blk blk' x g.more_blocked b)
]

pub remaining-le :
    (steps : List Step) (fin blk fin' blk' : List String)
    → Grown fin blk fin' blk'
    → remaining steps fin' blk' ≤ remaining steps fin blk
unfolding remaining
remaining-le [] fin blk fin' blk' g = omega arith
remaining-le (s ∷ steps) fin blk fin' blk' g =
    let rest = remaining-le steps fin blk fin' blk' g in
    elim (Bool-cases (is_open fin blk s.id)) [
      | inl yes' ↦ rw yes' (elim (Bool-cases (is_open fin' blk' s.id)) [
        | inl y ↦ rw y (omega (arith, rest))
        | inr n ↦ rw n (omega (arith, rest))
      ])
      | inr no' ↦ rw (no', open-shrinks fin blk fin' blk' s.id g no') rest
    ]

-- The sets' growth by a step that was open leaves fewer steps.
pub remaining-lt :
    (steps : List Step) (fin blk fin' blk' : List String) (s : Step)
    → Grown fin blk fin' blk'
    → Memᴰ s steps
    → is_open fin blk s.id ≡ true
    → is_open fin' blk' s.id ≡ false
    → remaining steps fin' blk' < remaining steps fin blk
unfolding remaining
remaining-lt [] fin blk fin' blk' s g p o c = elim p [ ]
remaining-lt (t ∷ steps) fin blk fin' blk' s g (Memᴰ.head e) o c =
    let o' = subst (λ w. is_open fin blk w.id ≡ true) e o in
    let c' = subst (λ w. is_open fin' blk' w.id ≡ false) e c in
    rw (o', c') (omega (arith, remaining-le steps fin blk fin' blk' g))
remaining-lt (t ∷ steps) fin blk fin' blk' s g (Memᴰ.tail p) o c =
    let rest = remaining-lt steps fin blk fin' blk' s g p o c in
    elim (Bool-cases (is_open fin blk t.id)) [
      | inl yes' ↦ rw yes' (elim (Bool-cases (is_open fin' blk' t.id)) [
        | inl y ↦ rw y (omega (arith, rest))
        | inr n ↦ rw n (omega (arith, rest))
      ])
      | inr no' ↦ rw (no', open-shrinks fin blk fin' blk' t.id g no') rest
    ]

pub remaining-length :
    (steps : List Step) (fin blk : List String) → remaining steps fin blk ≤ length steps
unfolding remaining
remaining-length [] fin blk = omega arith
remaining-length (s ∷ steps) fin blk = elim (Bool-cases (is_open fin blk s.id)) [
  | inl y ↦ rw y (omega (arith, remaining-length steps fin blk))
  | inr n ↦ rw n (omega (arith, remaining-length steps fin blk))
]

-- Distinct ids of a list that are as many as it has are all of them.
pub full_set :
    (ids set : List String)
    → Distinct set
    → ((x : String) → Memᴰ x set → Memᴰ x ids)
    → length ids ≤ length set
    → (x : String) → Memᴰ x ids
    → Memᴰ x set
full_set ids set d inside enough x p = elim (Bool-cases (contains set x)) [
  | inl yes' ↦ (contains_iff set x).0 yes'
  | inr no' ↦
      let never : ⊥ = omega (
        arith,
        Distinct-length (x ∷ set) ids (absent set x no', d)
            (λ y q. elim q [
              | Memᴰ.head e ↦ subst (λ w. Memᴰ w ids) (sym e) p
              | Memᴰ.tail r ↦ inside y r
            ]),
      ) in
      elim never [ ]
]

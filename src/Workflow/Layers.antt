-- ===== src/Workflow/Layers.antt =====
-- Lists of ids in which every id has its dependencies after it: what a visit has left behind.
use mathlib.Core.Path.{subst}
use enterprise_security_reco.Prelude.{
  ℕ, suc, ◌≤◌, ◌<◌, String, ◌≡◌, ◌≢◌, refl, sym, ◌∙◌, true, false, Bool-cases, inl, inr, List, [],
  ◌∷◌, Memᴰ, arith, ◌==◌, eq_iff, length, Distinct, if◌then◌else◌,
}

-- The list without the first occurrence of `x`.
remove : String → List String → List String
remove x [] = []
remove x (y ∷ ys) = let rest = remove x ys in if y == x then ys else y ∷ rest

length-remove : (x : String) (ys : List String) → Memᴰ x ys → suc (length (remove x ys)) ≡ length ys
unfolding remove
length-remove x [] m = elim m [ ]
length-remove x (y ∷ ys) (Memᴰ.head e) = ground (arith, eq_iff y x, sym e)
length-remove x (y ∷ ys) (Memᴰ.tail m) = ground (arith, length-remove x ys m)

mem-remove : (x z : String) (ys : List String) → z ≢ x → Memᴰ z ys → Memᴰ z (remove x ys)
unfolding remove
mem-remove x z [] other m = elim m [ ]
mem-remove x z (y ∷ ys) other (Memᴰ.head e) = elim (Bool-cases (y == x)) [
  | inl same ↦ elim (other (e ∙ (eq_iff y x).0 same)) [ ]
  | inr differ ↦ rw differ (Memᴰ.head e)
]
mem-remove x z (y ∷ ys) other (Memᴰ.tail m) = elim (Bool-cases (y == x)) [
  | inl same ↦ rw same m
  | inr differ ↦ rw differ (Memᴰ.tail (mem-remove x z ys other m))
]

-- Distinct ids that all stand in a list are no more than it has places.
pub Distinct-length :
    (xs ys : List String)
    → Distinct xs
    → ((x : String) → Memᴰ x xs → Memᴰ x ys)
    → length xs ≤ length ys
Distinct-length [] ys d inside = omega arith
Distinct-length (x ∷ xs) ys d inside =
    let rest =
      Distinct-length xs (remove x ys) d.1 (λ z m.
        mem-remove x z ys (λ e. d.0 (subst (λ w. Memᴰ w xs) e m)) (inside z (Memᴰ.tail m))) in
    omega (arith, rest, length-remove x ys (inside x (Memᴰ.head refl)))

module _ (deps : String → List String) where
  -- No id twice, and the dependencies of each stand after it.
  abbrev pub Layered : List String → Type 0
  Layered [] = Unit
  Layered (id ∷ done) =
      (¬ Memᴰ id done) × ((dep : String) → Memᴰ dep (deps id) → Memᴰ dep done) × Layered done

  pub Layered-Distinct : (done : List String) → Layered done → Distinct done
  Layered-Distinct [] l = l
  Layered-Distinct (id ∷ done) l = (l.0, Layered-Distinct done l.2)

-- How many ids stand after the id's place.
unfoldable pub rank : List String → String → ℕ
rank [] x = 0
rank (v ∷ done) x = let rest = rank done x in if v == x then length done else rest

pub rank-lt : (done : List String) (x : String) → Memᴰ x done → rank done x < length done
unfolding rank
rank-lt [] x m = elim m [ ]
rank-lt (v ∷ done) x (Memᴰ.head e) = ground (arith, eq_iff v x, sym e)
rank-lt (v ∷ done) x (Memᴰ.tail m) = ground (arith, rank-lt done x m)

absent-eq : (v x : String) (done : List String) → ¬ Memᴰ v done → Memᴰ x done → (v == x) ≡ false
absent-eq v x done absent m = elim (Bool-cases (v == x)) [
  | inl same ↦ elim (absent (subst (λ w. Memᴰ w done) (sym ((eq_iff v x).0 same)) m)) [ ]
  | inr differ ↦ differ
]

-- A dependency has a lower rank.
pub rank-dep :
    (deps : String → List String) (done : List String) (x dep : String)
    → Layered deps done
    → Memᴰ x done
    → Memᴰ dep (deps x)
    → Memᴰ dep done × (rank done dep < rank done x)
unfolding rank
rank-dep deps [] x dep l m on = elim m [ ]
rank-dep deps (v ∷ done) x dep l (Memᴰ.head e) on =
    let below = l.1 dep (subst (λ w. Memᴰ dep (deps w)) e on) in
    let self : (v == x) ≡ true = (eq_iff v x).1 (sym e) in
    (Memᴰ.tail below, rw (self, absent-eq v dep done l.0 below) (rank-lt done dep below))
rank-dep deps (v ∷ done) x dep l (Memᴰ.tail m) on =
    let (below, lower) = rank-dep deps done x dep l.2 m on in
    (Memᴰ.tail below, rw (absent-eq v x done l.0 m, absent-eq v dep done l.0 below) lower)

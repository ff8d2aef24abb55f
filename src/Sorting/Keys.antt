-- ===== src/Sorting/Keys.antt =====
-- Sorting by keys that are all different: the order of what is sorted does not matter.
use enterprise_security_reco.Prelude.{
  ℕ, ◌≡◌, ◌≢◌, refl, ◌∙◌, ap, Bool, List, [], ◌∷◌, Memᴰ, Permᴰ, Distinct, arith, leb,
}
use enterprise_security_reco.Sorting.{sorted_insert, sort}
use enterprise_security_reco.Sorting.Laws.{Distinct-perm}

module _ {A : Type 0} (key : A → ℕ) where
  abbrev pub below : A → A → Bool
  below a b = leb (key a) (key b)

  insert-commutes :
      (x y : A) (zs : List A)
      → key x ≢ key y
      → sorted_insert below x (sorted_insert below y zs)
        ≡ sorted_insert below y (sorted_insert below x zs)
  unfolding sorted_insert
  insert-commutes x y [] n = ground arith
  insert-commutes x y (z ∷ zs) n = let rest = insert-commutes x y zs n in ground arith

  abbrev pub keys : List A → List ℕ
  keys [] = []
  keys (x ∷ xs) = key x ∷ keys xs

  keys-perm : {xs ys : List A} → Permᴰ xs ys → Permᴰ (keys xs) (keys ys)
  keys-perm Permᴰ.nil = Permᴰ.nil
  keys-perm (Permᴰ.cons e p) = Permᴰ.cons (ap key e) (keys-perm p)
  keys-perm (Permᴰ.swap e f) = Permᴰ.swap (ap key e) (ap key f)
  keys-perm (Permᴰ.trans p q) = Permᴰ.trans (keys-perm p) (keys-perm q)

  -- Lists of the same elements with different keys are the same once they are sorted.
  pub sort-same :
      {xs ys : List A} → Permᴰ xs ys → Distinct (keys xs) → sort below xs ≡ sort below ys
  unfolding sort
  sort-same Permᴰ.nil d = refl
  sort-same (Permᴰ.cons e p) d = let rest = sort-same p d.1 in cc
  sort-same (Permᴰ.swap {a = x} {b = y} {l = zs} e f) d =
      let same = insert-commutes x y (sort below zs) (λ q. d.0 (Memᴰ.head q)) in cc
  sort-same (Permᴰ.trans p q) d = sort-same p d ∙ sort-same q (Distinct-perm (keys-perm p) d)

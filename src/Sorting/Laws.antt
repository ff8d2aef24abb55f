-- ===== src/Sorting/Laws.antt =====
-- A sorted list has the elements of the list, each as often.
use enterprise_security_reco.Prelude.{
  refl, sym, ◌∙◌, Bool, List, [], ◌∷◌, Memᴰ, Permᴰ, Distinct, Bool-cases, inl, inr, ◌↔◌,
}
use enterprise_security_reco.Sorting.{sorted_insert, sort}

module _ {ℓ} {A : Type ℓ} where
  pub mem_perm : {x : A} {xs ys : List A} → Permᴰ xs ys → Memᴰ x xs → Memᴰ x ys
  mem_perm Permᴰ.nil m = m
  mem_perm (Permᴰ.cons e p) (Memᴰ.head q) = Memᴰ.head (q ∙ e)
  mem_perm (Permᴰ.cons e p) (Memᴰ.tail m) = Memᴰ.tail (mem_perm p m)
  mem_perm (Permᴰ.swap e f) (Memᴰ.head q) = Memᴰ.tail (Memᴰ.head (q ∙ e))
  mem_perm (Permᴰ.swap e f) (Memᴰ.tail (Memᴰ.head q)) = Memᴰ.head (q ∙ f)
  mem_perm (Permᴰ.swap e f) (Memᴰ.tail (Memᴰ.tail m)) = Memᴰ.tail (Memᴰ.tail m)
  mem_perm (Permᴰ.trans p q) m = mem_perm q (mem_perm p m)

  pub perm_symm : {xs ys : List A} → Permᴰ xs ys → Permᴰ ys xs
  perm_symm Permᴰ.nil = Permᴰ.nil
  perm_symm (Permᴰ.cons e p) = Permᴰ.cons (sym e) (perm_symm p)
  perm_symm (Permᴰ.swap e f) = Permᴰ.swap (sym f) (sym e)
  perm_symm (Permᴰ.trans p q) = Permᴰ.trans (perm_symm q) (perm_symm p)

  pub perm_refl : (xs : List A) → Permᴰ xs xs
  perm_refl [] = Permᴰ.nil
  perm_refl (x ∷ xs) = Permᴰ.cons refl (perm_refl xs)

  pub Distinct-perm : {xs ys : List A} → Permᴰ xs ys → Distinct xs → Distinct ys
  Distinct-perm Permᴰ.nil d = d
  Distinct-perm (Permᴰ.cons e p) d =
      (λ m. d.0 (rw e (mem_perm (perm_symm p) m)), Distinct-perm p d.1)
  Distinct-perm (Permᴰ.swap {a = x} {b = y} e f) d = (
    λ m. elim m [
      | Memᴰ.head q ↦ d.0 (Memᴰ.head (e ∙ sym q ∙ sym f))
      | Memᴰ.tail m' ↦ d.1.0 (rw f m')
    ],
    (λ m. d.0 (Memᴰ.tail (rw e m)), d.1.1),
  )
  Distinct-perm (Permᴰ.trans p q) d = Distinct-perm q (Distinct-perm p d)

module _ {ℓ} {A : Type ℓ} (before : A → A → Bool) where
  sorted_insert-perm : (x : A) (ys : List A) → Permᴰ (sorted_insert before x ys) (x ∷ ys)
  unfolding sorted_insert
  sorted_insert-perm x [] = perm_refl (x ∷ [])
  sorted_insert-perm x (y ∷ ys) = elim (Bool-cases (before x y)) [
    | inl first ↦ rw first (perm_refl (x ∷ y ∷ ys))
    | inr later ↦
        rw later (Permᴰ.trans (Permᴰ.cons refl (sorted_insert-perm x ys)) (Permᴰ.swap refl refl))
  ]

  pub sort-perm : (xs : List A) → Permᴰ (sort before xs) xs
  unfolding sort
  sort-perm [] = Permᴰ.nil
  sort-perm (x ∷ xs) =
      Permᴰ.trans (sorted_insert-perm x (sort before xs)) (Permᴰ.cons refl (sort-perm xs))

  pub mem-sort : {x : A} {xs : List A} → Memᴰ x (sort before xs) ↔ Memᴰ x xs
  mem-sort {x} {xs} = (mem_perm (sort-perm xs), mem_perm (perm_symm (sort-perm xs)))

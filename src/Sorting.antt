-- ===== src/Sorting.antt =====
-- `sort.Strings`, `sort.Ints` and `sort.Slice`: insertion sort. The sorts of the source are not
-- stable; where the order decides between any two elements, the sorted list is the only one.
pub mod Laws
pub mod Keys
use Prim.Native.String
use Prim.Native.Nat.{Ordering}
use enterprise_security_reco.Prelude.{String, Bool, true, false, List, [], ◌∷◌, if◌then◌else◌}

module _ {ℓ} {A : Type ℓ} (before : A → A → Bool) where
  unfoldable pub sorted_insert : A → List A → List A
  sorted_insert x [] = x ∷ []
  sorted_insert x (y ∷ ys) =
      let later = y ∷ sorted_insert x ys in if before x y then x ∷ y ∷ ys else later

  unfoldable pub sort : List A → List A
  unfolding sorted_insert
  sort [] = []
  sort (x ∷ xs) = sorted_insert x (sort xs)

-- Byte order, which is the order of code points.
abbrev pub string_le : String → String → Bool
string_le s t = elim (String.compare s t) [ Ordering.gt ↦ false | _ ↦ true ]

unfoldable pub sort_strings : List String → List String
unfolding sort
sort_strings = sort string_le

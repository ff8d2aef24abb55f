-- ===== src/Prelude/Maps.antt =====
-- Go maps with string keys: association lists, with one entry for a key.
use Prim.Native.String.{String}
use mathlib.Core.Path.{◌≡◌, refl, sym}
use mathlib.Core.Bool.{Bool, true, false}
use mathlib.Core.Option.{Option, none, some}
use mathlib.Core.Logic.{◌↔◌, inl, inr}
use mathlib.Core.List.{List, [], ◌∷◌, Memᴰ}
use native.Mathlib.Omega.{arith}
use text.Mathlib.Text.{◌==◌}
use text.Mathlib.TextEquality.{eq_iff}
use enterprise_security_reco.Prelude.Tests.{if◌then◌else◌, Bool-cases}

module _ {ℓ} {Value : Type ℓ} where
  unfoldable pub lookup : String → List (String × Value) → Option Value
  lookup want [] = none
  lookup want ((key, value) ∷ entries) =
      let rest = lookup want entries in if key == want then some value else rest

  unfoldable pub insert : String → Value → List (String × Value) → List (String × Value)
  insert at new [] = (at, new) ∷ []
  insert at new ((key, value) ∷ entries) =
      let rest = insert at new entries in
      if key == at then (at, new) ∷ entries else (key, value) ∷ rest

  pub lookup-insert :
      (want at : String) (new : Value) (entries : List (String × Value))
      → lookup want (insert at new entries) ≡ (if at == want then some new else lookup want entries)
  unfolding lookup insert
  lookup-insert want at new [] = refl
  lookup-insert want at new ((key, value) ∷ entries) =
      let rest = lookup-insert want at new entries in
      ground (arith, rest, eq_iff key want, eq_iff key at, eq_iff at want)

-- A set of strings, as the source's `map[string]bool` or its linear search.
unfoldable pub contains : List String → String → Bool
contains [] want = false
contains (v ∷ items) want = if v == want then true else contains items want

mem_of_contains :
    (items : List String) (want : String) → contains items want ≡ true → Memᴰ want items
unfolding contains
mem_of_contains [] want h = cc
mem_of_contains (v ∷ items) want h = elim (Bool-cases (v == want)) [
  | inl same ↦ Memᴰ.head (sym ((eq_iff v want).0 same))
  | inr other ↦ Memᴰ.tail (mem_of_contains items want (ground arith))
]

contains_of_mem :
    (items : List String) (want : String) → Memᴰ want items → contains items want ≡ true
unfolding contains
contains_of_mem [] want m = elim m [ ]
contains_of_mem (v ∷ items) want (Memᴰ.head e) = ground (arith, eq_iff v want, sym e)
contains_of_mem (v ∷ items) want (Memᴰ.tail m) = ground (arith, contains_of_mem items want m)

pub contains_iff :
    (items : List String) (want : String) → (contains items want ≡ true) ↔ Memᴰ want items
contains_iff items want = (mem_of_contains items want, contains_of_mem items want)

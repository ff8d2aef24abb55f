-- ===== src/Budget/Counts.antt =====
-- What the limiter's operations on counters do at each key.
use enterprise_security_reco.Prelude.{
  ap, ℕ, suc, ◌+◌, ◌-◌, ◌≤◌, String, ◌≡◌, refl, sym, false, Bool-cases, inl, inr, List, [], ◌∷◌,
  Memᴰ, arith, lookup, insert, lookup-insert, if◌then◌else◌, ◌==◌, eq_iff, contains, contains_iff,
  Distinct, ◌||◌,
}
use enterprise_security_reco.Strings.{is_empty, trim_space, to_lower}
use enterprise_security_reco.Sorting.{sort_strings, string_le}
use enterprise_security_reco.Sorting.Laws.{Distinct-perm, sort-perm, perm_symm}
use enterprise_security_reco.Budget.{
  count, delete, increment, decrement, increment_all, decrement_all, dedupe, normalized,
}

-- How often a key stands in a list.
unfoldable pub occurs : List String → String → ℕ
occurs [] key = 0
occurs (k ∷ keys) key = let rest = occurs keys key in if k == key then suc rest else rest

pub count-increment :
    (values : List (String × ℕ)) (k key : String)
    → count (increment values k) key ≡ count values key + occurs (k ∷ []) key
unfolding count increment occurs
count-increment values k key =
    ground (arith, lookup-insert key k (suc (count values k)) values, eq_iff k key)

count-delete :
    (values : List (String × ℕ)) (k key : String)
    → count (delete values k) key ≡ (if k == key then 0 else count values key)
unfolding count delete lookup
count-delete [] k key = ground arith
count-delete ((j, n) ∷ values) k key =
    ground (arith, count-delete values k key, eq_iff k key, eq_iff j k, eq_iff j key)

count-insert :
    (values : List (String × ℕ)) (k key : String) (n : ℕ)
    → count (insert k n values) key ≡ (if k == key then n else count values key)
unfolding count
count-insert values k key n = ground (arith, lookup-insert key k n values)

pub count-decrement :
    (values : List (String × ℕ)) (k key : String)
    → count (decrement values k) key ≡ count values key - occurs (k ∷ []) key
unfolding decrement occurs
count-decrement values k key = elim (Bool-cases (k == key)) [
  | inl same ↦
      let e = ap (count values) ((eq_iff k key).0 same) in
      ground
        (arith, same, e, count-insert values k key (count values k - 1), count-delete values k key)
  | inr differ ↦
      ground
        (arith, differ, count-insert values k key (count values k - 1), count-delete values k key)
]

pub count-increment_all :
    (values : List (String × ℕ)) (hosts : List String) (key : String)
    → count (increment_all values hosts) key ≡ count values key + occurs hosts key
unfolding increment_all occurs
count-increment_all values [] key = omega arith
count-increment_all values (host ∷ hosts) key =
    ground (
      arith,
      count-increment_all (increment values host) hosts key,
      count-increment values host key,
    )

pub count-decrement_all :
    (values : List (String × ℕ)) (hosts : List String) (key : String)
    → count (decrement_all values hosts) key ≡ count values key - occurs hosts key
unfolding decrement_all occurs
count-decrement_all values [] key = omega arith
count-decrement_all values (host ∷ hosts) key =
    ground (
      arith,
      count-decrement_all (decrement values host) hosts key,
      count-decrement values host key,
    )

pub occurs-absent : (hosts : List String) (key : String) → ¬ Memᴰ key hosts → occurs hosts key ≡ 0
unfolding occurs
occurs-absent [] key out = refl
occurs-absent (host ∷ hosts) key out = elim (Bool-cases (host == key)) [
  | inl same ↦ elim (out (Memᴰ.head (sym ((eq_iff host key).0 same)))) [ ]
  | inr differ ↦ rw differ (occurs-absent hosts key (λ p. out (Memᴰ.tail p)))
]

-- A list without repetitions has a key once at most.
pub occurs-Distinct : (hosts : List String) (key : String) → Distinct hosts → occurs hosts key ≤ 1
unfolding occurs
occurs-Distinct [] key d = omega arith
occurs-Distinct (host ∷ hosts) key d = elim (Bool-cases (host == key)) [
  | inl same ↦
      let e = (eq_iff host key).0 same in
      let none' : occurs hosts key ≡ 0 = occurs-absent hosts key (rw (sym e) d.0) in
      ground (arith, none')
  | inr differ ↦ ground (arith, occurs-Distinct hosts key d.1)
]

dedupe-Distinct :
    (seen values : List String)
    → Distinct (dedupe seen values) × ((x : String) → Memᴰ x seen → ¬ Memᴰ x (dedupe seen values))
unfolding dedupe
dedupe-Distinct seen [] = (tt, λ x p q. elim q [ ])
dedupe-Distinct seen (value ∷ values) =
    let v = to_lower (trim_space value) in
    elim (Bool-cases (is_empty v || contains seen v)) [
      | inl left_out ↦ rw left_out (dedupe-Distinct seen values)
      | inr kept ↦
          let (d, apart) = dedupe-Distinct (v ∷ seen) values in
          let new : contains seen v ≡ false = ground arith in
          rw kept (
            (apart v (Memᴰ.head refl), d),
            λ x p q. elim q [
              | Memᴰ.head e ↦ let yes' = (contains_iff seen v).1 (rw e at p) in cc
              | Memᴰ.tail q' ↦ apart x (Memᴰ.tail p) q'
            ],
          )
    ]

pub normalized-Distinct : (values : List String) → Distinct (normalized values)
unfolding normalized sort_strings
normalized-Distinct values =
    Distinct-perm (perm_symm (sort-perm string_le (dedupe [] values))) (dedupe-Distinct [] values).0

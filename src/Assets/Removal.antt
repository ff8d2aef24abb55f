-- ===== src/Assets/Removal.antt =====
-- When an asset is reported as removed.
use mathlib.Core.Path.{subst}
use enterprise_security_reco.Prelude.{
  String, ◌≡◌, ◌≢◌, refl, sym, ◌∙◌, ap, Bool, true, false, Bool-cases, inl, inr, ◌⊎◌, Option, none,
  some, List, [], ◌∷◌, ◌++◌, Memᴰ, ◌==◌, eq_iff, lookup, insert, lookup-insert, if◌then◌else◌,
}
use enterprise_security_reco.Sorting.Laws.{mem-sort}
use enterprise_security_reco.Assets.{
  State, Coverage, Change, key_of, index_from, index, is_covered, before, removal, present,
  appeared, vanished, compare,
}
use enterprise_security_reco.Assets.FullRuns.{FullRun, is_covered-FullRun}

mem_append : {A : Type 0} (xs ys : List A) (x : A) → Memᴰ x (xs ++ ys) → Memᴰ x xs ⊎ Memᴰ x ys
mem_append [] ys x p = inr p
mem_append (z ∷ xs) ys x (Memᴰ.head e) = inl (Memᴰ.head e)
mem_append (z ∷ xs) ys x (Memᴰ.tail p) = elim (mem_append xs ys x p) [
  | inl q ↦ inl (Memᴰ.tail q)
  | inr q ↦ inr q
]

mem-insert :
    (k j : String) (s t : State) (m : List (String × State))
    → Memᴰ (j, t) (insert k s m)
    → ((j ≡ k) × (t ≡ s)) ⊎ Memᴰ (j, t) m
unfolding insert
mem-insert k j s t [] (Memᴰ.head e) = inl (ap (λ w. w.0) e, ap (λ w. w.1) e)
mem-insert k j s t [] (Memᴰ.tail p) = elim p [ ]
mem-insert k j s t ((i, u) ∷ m) p = elim (Bool-cases (i == k)) [
  | inl same ↦ elim (rw (same, insert) at p) [
    | Memᴰ.head e ↦ inl (ap (λ w. w.0) e, ap (λ w. w.1) e)
    | Memᴰ.tail q ↦ inr (Memᴰ.tail q)
  ]
  | inr differ ↦ elim (rw (differ, insert) at p) [
    | Memᴰ.head e ↦ inr (Memᴰ.head e)
    | Memᴰ.tail q ↦ elim (mem-insert k j s t m q) [ inl e ↦ inl e | inr r ↦ inr (Memᴰ.tail r) ]
  ]
]

-- Every entry of the index is a state of the snapshot under its key.
index_from-mem :
    (states : List State) (m : List (String × State)) (j : String) (t : State)
    → Memᴰ (j, t) (index_from m states)
    → ((j ≡ key_of t) × Memᴰ t states) ⊎ Memᴰ (j, t) m
unfolding index_from
index_from-mem [] m j t p = inr p
index_from-mem (s ∷ states) m j t p = elim (index_from-mem states (insert (key_of s) s m) j t p) [
  | inl q ↦ inl (q.0, Memᴰ.tail q.1)
  | inr q ↦ elim (mem-insert (key_of s) j s t m q) [
    | inl e ↦ inl (e.0 ∙ ap key_of (sym e.1), Memᴰ.head e.1)
    | inr r ↦ inr r
  ]
]

insert_found :
    (k j : String) (s : State) (m : List (String × State))
    → ((j == k) ≡ false → lookup k m ≢ none)
    → lookup k (insert j s m) ≢ none
insert_found k j s m otherwise e =
    let computed : (if j == k then some s else lookup k m) ≡ none =
      sym (lookup-insert k j s m) ∙ e in
    elim (Bool-cases (j == k)) [
      | inl same ↦ let taken = simp (same) at computed in cc
      | inr differ ↦ otherwise differ (rw differ at computed)
    ]

-- A key that an index has is not lost by later states.
index_from-keeps :
    (states : List State) (m : List (String × State)) (k : String)
    → lookup k m ≢ none
    → lookup k (index_from m states) ≢ none
unfolding index_from
index_from-keeps [] m k h = h
index_from-keeps (s ∷ states) m k h =
    index_from-keeps states (insert (key_of s) s m) k
      (insert_found k (key_of s) s m (λ differ e. h e))

index_from-has :
    (states : List State) (m : List (String × State)) (now : State)
    → Memᴰ now states
    → lookup (key_of now) (index_from m states) ≢ none
unfolding index_from
index_from-has [] m now p = elim p [ ]
index_from-has (s ∷ states) m now (Memᴰ.head e) =
    index_from-keeps states (insert (key_of s) s m) (key_of now) (
      insert_found (key_of now) (key_of s) s m
        (λ differ f. let same = (eq_iff (key_of s) (key_of now)).1 (ap key_of (sym e)) in cc))
index_from-has (s ∷ states) m now (Memᴰ.tail p) =
    index_from-has states (insert (key_of s) s m) now p

present-kind :
    (same_metadata : String → String → Bool) (old : Option State) (now : State) (c : Change)
    → Memᴰ c (present same_metadata old now)
    → c.kind ≢ "removed"
unfolding present
present-kind same_metadata none now c (Memᴰ.head e) =
    λ h. let same = (eq_iff "new" "removed").1 (sym (ap (λ w. w.kind) e) ∙ h) in cc
present-kind same_metadata none now c (Memᴰ.tail p) = elim p [ ]
present-kind same_metadata (some old) now c p =
    elim (Bool-cases (same_metadata old.metadata now.metadata)) [
      | inl same ↦ elim (rw (same, present) at p) [ ]
      | inr differ ↦ elim (rw (differ, present) at p) [
        | Memᴰ.head e ↦
            λ h. let same' = (eq_iff "changed" "removed").1 (sym (ap (λ w. w.kind) e) ∙ h) in cc
        | Memᴰ.tail q ↦ elim q [ ]
      ]
    ]

appeared-kind :
    (same_metadata : String → String → Bool) (prev cur : List (String × State)) (c : Change)
    → Memᴰ c (appeared same_metadata prev cur)
    → c.kind ≢ "removed"
unfolding appeared
appeared-kind same_metadata prev [] c p = elim p [ ]
appeared-kind same_metadata prev ((k, now) ∷ cur) c p =
    elim (mem_append (present same_metadata (lookup k prev) now) _ c p) [
      | inl q ↦ present-kind same_metadata (lookup k prev) now c q
      | inr q ↦ appeared-kind same_metadata prev cur c q
    ]

-- A removal of a state that the entries hold, that has no current state, and that is covered.
pub record Removed (prev cur : List (String × State)) (coverage : List Coverage) (c : Change)
    : Type 0 where
  pub key : String
  pub old : State
  pub listed : Memᴰ (key, old) prev
  pub gone : lookup key cur ≡ none
  pub covered : is_covered coverage old.source_capability ≡ true
  pub change : c ≡ removal old

later-Removed :
    (k : String) (s : State) (prev cur : List (String × State)) (coverage : List Coverage)
    (c : Change)
    → Removed prev cur coverage c
    → Removed ((k, s) ∷ prev) cur coverage c
later-Removed k s prev cur coverage c r = record {
  key = r.key;
  old = r.old;
  listed = Memᴰ.tail r.listed;
  gone = r.gone;
  covered = r.covered;
  change = r.change;
}

here-Removed :
    (k : String) (old : State) (prev cur : List (String × State)) (coverage : List Coverage)
    (c : Change) (rest : List Change) (now : Option State)
    → lookup k cur ≡ now
    → Memᴰ c (elim now [
      | some s ↦ rest
      | none ↦ if is_covered coverage old.source_capability then removal old ∷ rest else rest
    ])
    → Removed ((k, old) ∷ prev) cur coverage c ⊎ Memᴰ c rest
here-Removed k old prev cur coverage c rest (some s) e p = inr p
here-Removed k old prev cur coverage c rest none e p =
    elim (Bool-cases (is_covered coverage old.source_capability)) [
      | inl yes' ↦ elim (rw yes' at p) [
        | Memᴰ.head q ↦ inl (record {
          key = k;
          old = old;
          listed = Memᴰ.head refl;
          gone = e;
          covered = yes';
          change = q;
        })
        | Memᴰ.tail q ↦ inr q
      ]
      | inr no' ↦ inr (rw no' at p)
    ]

vanished-Removed :
    (cur prev : List (String × State)) (coverage : List Coverage) (c : Change)
    (same : String → String → Bool)
    → Memᴰ c (vanished same cur coverage prev)
    → Removed prev cur coverage c
unfolding vanished
vanished-Removed cur [] coverage c same p = elim p [ ]
vanished-Removed cur ((k, old) ∷ prev) coverage c same p =
    elim (here-Removed k old prev cur coverage c (vanished same cur coverage prev) (lookup k cur)
      refl p) [
        | inl r ↦ r
        | inr q ↦
            later-Removed k old prev cur coverage c (vanished-Removed cur prev coverage c same q)
      ]

-- An asset is reported as removed only if the earlier snapshot has it, the current one has nothing
-- of its type and value, and the last run of the capability that it came from was successful and
-- complete.
pub removed_covered :
    (same_metadata : String → String → Bool) (previous current : List State)
    (coverage : List Coverage) (c : Change)
    → Memᴰ c (compare same_metadata previous current coverage)
    → c.kind ≡ "removed"
    → (old : State) × (c ≡ removal old)
      × Memᴰ old previous
      × ((now : State) → Memᴰ now current → key_of now ≢ key_of old)
      × FullRun coverage old.source_capability
unfolding compare index
removed_covered same_metadata previous current coverage c p h =
    elim (mem_append (appeared same_metadata (index previous) (index current)) _ c
      ((mem-sort before).0 p)) [
        | inl q ↦ elim (appeared-kind same_metadata (index previous) (index current) c q h) [ ]
        | inr q ↦
            let r = vanished-Removed (index current) (index previous) coverage c same_metadata q in
            elim (index_from-mem previous [] r.key r.old r.listed) [
              | inr none' ↦ elim none' [ ]
              | inl found ↦ (
                r.old,
                r.change,
                found.1,
                λ now m e.
                    index_from-has current [] now m
                      (subst (λ w. lookup w (index current) ≡ none) (found.0 ∙ sym e) r.gone),
                is_covered-FullRun coverage r.old.source_capability r.covered,
              )
            ]
      ]

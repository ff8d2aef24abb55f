-- ===== src/Scope/Mismatch.antt =====
-- The reason that internal/scope/scope.go gives for a target that no rule matches.
use mathlib.Core.Path.{subst}
use enterprise_security_reco.Prelude.{
  ℕ, zero, suc, ◌+◌, ◌≤◌, ◌<◌, String, ◌≡◌, refl, ◌↔◌, ◌⊎◌, true, false, some, List, [], ◌∷◌, arith,
  Memᴰ, Bool-cases, inl, inr, sym, any, any_iff,
}
use enterprise_security_reco.Scope.{
  Reason, allowed, invalid_target, invalid_hostname, excluded, protocol_mismatch, host_mismatch,
  port_mismatch, path_mismatch, no_include, Library, CompiledRule, Scope,
}
use enterprise_security_reco.Scope.Match.{
  full, regex_at, value_at, matches, any_match, prefix_loop, any_prefix, mismatch_reason,
  matched_ids, target_values, evaluate_includes, evaluate_excludes, evaluate_values, evaluate,
}
use enterprise_security_reco.Scope.Decision.{Hit, matched_ids-none}

le_cases : (i j : ℕ) → i ≤ j → (i ≡ j) ⊎ (suc i ≤ j)
le_cases i j h = grind arith

module _ {Regexp : Type 0} (library : Library Regexp) where
  -- The first `count` values match the rule's expressions.
  abbrev pub Agrees : CompiledRule Regexp → List String → ℕ → Type 0
  Agrees r values count =
      (i : ℕ) → i < count → full library (regex_at r i) (value_at values i) ≡ true

  -- Some rule of the list agrees with the first `count` values.
  pub record Reaches (rules : List (CompiledRule Regexp)) (values : List String) (count : ℕ)
      : Type 0 where
    pub rule : CompiledRule Regexp
    pub listed : Memᴰ rule rules
    pub agrees : Agrees rule values count

  -- How far the rules reach, as each reason says it.
  abbrev pub Explains : List (CompiledRule Regexp) → List String → Reason → Type 0
  Explains rules values protocol_mismatch = ¬ Reaches rules values 1
  Explains rules values host_mismatch = Reaches rules values 1 × (¬ Reaches rules values 2)
  Explains rules values port_mismatch = Reaches rules values 2 × (¬ Reaches rules values 3)
  Explains rules values path_mismatch = Reaches rules values 3 × (¬ Reaches rules values 4)
  Explains rules values allowed = ⊥
  Explains rules values invalid_target = ⊥
  Explains rules values invalid_hostname = ⊥
  Explains rules values excluded = ⊥
  Explains rules values no_include = ⊥

  prefix_loop-agrees :
      (rounds i : ℕ) (r : CompiledRule Regexp) (values : List String)
      → prefix_loop library rounds i r values ≡ true
      → (j : ℕ) → i ≤ j
      → j < rounds + i
      → full library (regex_at r j) (value_at values j) ≡ true
  unfolding prefix_loop
  prefix_loop-agrees zero i r values h j a b = absurd (omega arith)
  prefix_loop-agrees (suc rounds) i r values h j a b =
      elim (Bool-cases (full library (regex_at r i) (value_at values i))) [
        | inr not_first ↦ cc (rw not_first at h)
        | inl first ↦ elim (le_cases i j a) [
          | inl here ↦ rw (← here) first
          | inr later ↦
              prefix_loop-agrees rounds (suc i) r values (rw first at h) j later (omega arith)
        ]
      ]

  prefix_loop_of_agrees :
      (rounds i : ℕ) (r : CompiledRule Regexp) (values : List String)
      → ((j : ℕ) → i ≤ j → j < rounds + i → full library (regex_at r j) (value_at values j) ≡ true)
      → prefix_loop library rounds i r values ≡ true
  unfolding prefix_loop
  prefix_loop_of_agrees zero i r values h = refl
  prefix_loop_of_agrees (suc rounds) i r values h =
      rw (h i (omega arith) (omega arith))
        (prefix_loop_of_agrees rounds (suc i) r values (λ j a b. h j (omega arith) (omega arith)))

  -- One value agrees with the first expression.
  Agrees-one :
      (r : CompiledRule Regexp) (values : List String)
      → full library (regex_at r 0) (value_at values 0) ≡ true
      → Agrees r values 1
  Agrees-one r values h zero lt = h
  Agrees-one r values h (suc i) lt = absurd (omega arith)

  any_match-eq-any :
      (rules : List (CompiledRule Regexp)) (value : String)
      → any_match library rules 0 value ≡ any (λ r. full library (regex_at r 0) value) rules
  unfolding any_match
  any_match-eq-any [] value = refl
  any_match-eq-any (r ∷ rules) value = ground (arith, any_match-eq-any rules value)

  any_prefix-eq-any :
      (rules : List (CompiledRule Regexp)) (values : List String) (count : ℕ)
      → any_prefix library rules values count
        ≡ any (λ r. prefix_loop library count 0 r values) rules
  unfolding any_prefix
  any_prefix-eq-any [] values count = refl
  any_prefix-eq-any (r ∷ rules) values count = ground (arith, any_prefix-eq-any rules values count)

  any_match_iff :
      (rules : List (CompiledRule Regexp)) (values : List String)
      → (any_match library rules 0 (value_at values 0) ≡ true) ↔ Reaches rules values 1
  any_match_iff rules values = rw any_match-eq-any (
    λ h.
        let (r, m, e) = (any_iff _ rules).0 h in
        record { rule = r; listed = m; agrees = Agrees-one r values e },
    λ h. (any_iff _ rules).1 (h.rule, h.listed, h.agrees 0 (omega arith)),
  )

  any_prefix_iff :
      (rules : List (CompiledRule Regexp)) (values : List String) (count : ℕ)
      → (any_prefix library rules values count ≡ true) ↔ Reaches rules values count
  any_prefix_iff rules values count = rw any_prefix-eq-any (
    λ h.
        let (r, m, e) = (any_iff _ rules).0 h in
        record {
          rule = r;
          listed = m;
          agrees = λ i lt. prefix_loop-agrees count 0 r values e i (omega arith) (omega arith);
        },
    λ h. (any_iff _ rules).1 (
      h.rule,
      h.listed,
      prefix_loop_of_agrees count 0 h.rule values (λ j a b. h.agrees j (omega arith)),
    ),
  )

  all_four :
      (r : CompiledRule Regexp) (values : List String)
      → Agrees r values 4
      → matches library r values ≡ true
  unfolding matches
  all_four r values h =
      ground (arith, h 0 (omega arith), h 1 (omega arith), h 2 (omega arith), h 3 (omega arith))

  -- A rule that reaches all four values matches.
  Hit-of_Reaches :
      (rules : List (CompiledRule Regexp)) (values : List String)
      → Reaches rules values 4
      → Hit library rules values
  Hit-of_Reaches rules values h = record {
    rule = h.rule;
    listed = h.listed;
    hit = all_four h.rule values h.agrees;
  }

  unreached :
      (rules : List (CompiledRule Regexp)) (values : List String) (count : ℕ)
      → any_prefix library rules values count ≡ false
      → ¬ Reaches rules values count
  unreached rules values count e h = cc ((any_prefix_iff rules values count).1 h)

  reason-Explains :
      (rules : List (CompiledRule Regexp)) (values : List String)
      → ¬ Hit library rules values
      → Explains rules values (mismatch_reason library rules values)
  unfolding mismatch_reason
  reason-Explains rules values missed =
      elim (Bool-cases (any_match library rules 0 (value_at values 0))) [
        | inr no_protocol ↦ rw no_protocol (λ h. cc ((any_match_iff rules values).1 h))
        | inl protocol ↦ rw protocol (elim (Bool-cases (any_prefix library rules values 2)) [
          | inr no_host ↦
              rw no_host ((any_match_iff rules values).0 protocol, unreached rules values 2 no_host)
          | inl host ↦ rw host (elim (Bool-cases (any_prefix library rules values 3)) [
            | inr no_port ↦
                rw no_port
                  ((any_prefix_iff rules values 2).0 host, unreached rules values 3 no_port)
            | inl port ↦ rw port (elim (Bool-cases (any_prefix library rules values 4)) [
              | inr no_path ↦
                  rw no_path
                    ((any_prefix_iff rules values 3).0 port, unreached rules values 4 no_path)
              | inl path ↦
                  absurd
                    (missed (Hit-of_Reaches rules values ((any_prefix_iff rules values 4).0 path)))
            ])
          ])
        ])
      ]

  evaluated :
      (s : Scope Regexp) (raw : String) (values in_ids ex_ids : List String)
      → in_ids ≡ []
      → ex_ids ≡ []
      → matched_ids library s.include values ≡ in_ids
      → (evaluate_excludes library s raw values ex_ids).reason
        ≡ mismatch_reason library s.include values
  unfolding evaluate_excludes evaluate_includes
  evaluated s raw values in_ids ex_ids p q e =
      rw (q, evaluate_excludes, e, p, evaluate_includes) refl

  -- The reason for a target that is neither included nor excluded says how far any inclusion
  -- agrees with it, in the order protocol, host, port, path: none has its protocol; or some has,
  -- but none its host too; or none its port too; or none its path too. It is never another reason.
  pub evaluate-Explains :
      (s : Scope Regexp) (raw : String) (values : List String)
      → target_values library raw ≡ some values
      → ¬ Hit library s.exclude values
      → ¬ Hit library s.include values
      → Explains s.include values (evaluate library s raw).reason
  unfolding evaluate evaluate_values
  evaluate-Explains s raw values target not_excluded not_included =
      subst (λ o. Explains s.include values (evaluate_values library s raw o).reason) (sym target)
        (subst (Explains s.include values)
          (sym (
            evaluated s raw values _ _
              (matched_ids-none library s.include values _ refl not_included)
              (matched_ids-none library s.exclude values _ refl not_excluded) refl))
          (reason-Explains s.include values not_included))

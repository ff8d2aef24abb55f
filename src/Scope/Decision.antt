-- ===== src/Scope/Decision.antt =====
-- Which targets a compiled scope allows, and why it refuses the others.
use mathlib.Core.Path.{subst}
use enterprise_security_reco.Prelude.{
  sym, String, ◌≡◌, refl, ◌≢◌, ◌↔◌, true, Option, none, some, List, [], ◌∷◌, Memᴰ, Bool-cases, inl,
  inr,
}
use enterprise_security_reco.Scope.{Library, CompiledRule, Scope}
use enterprise_security_reco.Scope.Match.{
  matches, matched_ids, target_values, evaluate_includes, evaluate_excludes, evaluate_values,
  allows,
}

module _ {Regexp : Type 0} (library : Library Regexp) where
  -- A rule of the list whose four expressions match the four values.
  pub record Hit (rules : List (CompiledRule Regexp)) (values : List String) : Type 0 where
    pub rule : CompiledRule Regexp
    pub listed : Memᴰ rule rules
    pub hit : matches library rule values ≡ true

  matched_ids-Hit :
      (rules : List (CompiledRule Regexp)) (values : List String) (id : String) (ids : List String)
      → matched_ids library rules values ≡ id ∷ ids
      → Hit rules values
  unfolding matched_ids
  matched_ids-Hit [] values id ids h = cc
  matched_ids-Hit (r ∷ rules) values id ids h = elim (Bool-cases (matches library r values)) [
    | inl yes' ↦ record { rule = r; listed = Memᴰ.head refl; hit = yes' }
    | inr no' ↦
        let rest = matched_ids-Hit rules values id ids (rw no' at h) in
        record { rule = rest.rule; listed = Memᴰ.tail rest.listed; hit = rest.hit }
  ]

  matched_ids_of_hit :
      (rules : List (CompiledRule Regexp)) (values : List String) (rule : CompiledRule Regexp)
      → Memᴰ rule rules
      → matches library rule values ≡ true
      → matched_ids library rules values ≢ []
  unfolding matched_ids
  matched_ids_of_hit [] values rule m hit = elim m [ ]
  matched_ids_of_hit (r ∷ rules) values rule (Memᴰ.head e) hit =
      let hit' : matches library r values ≡ true = rw e at hit in λ h. cc (rw hit' at h)
  matched_ids_of_hit (r ∷ rules) values rule (Memᴰ.tail m) hit =
      elim (Bool-cases (matches library r values)) [
        | inl first ↦ λ h. cc (rw first at h)
        | inr later ↦ λ h. matched_ids_of_hit rules values rule m hit (rw later at h)
      ]

  -- A target that no exclusion matches and some inclusion does.
  pub record Covered (s : Scope Regexp) (raw : String) : Type 0 where
    pub values : List String
    pub target : target_values library raw ≡ some values
    pub not_excluded : ¬ Hit s.exclude values
    pub included : Hit s.include values

  covered_includes :
      (s : Scope Regexp) (raw : String) (values ids : List String)
      → matched_ids library s.include values ≡ ids
      → (evaluate_includes library s raw values ids).allowed ≡ true
      → Hit s.include values
  unfolding evaluate_includes
  covered_includes s raw values [] e h = cc
  covered_includes s raw values (id ∷ ids) e h = matched_ids-Hit s.include values id ids e

  covered_excludes :
      (s : Scope Regexp) (raw : String) (values ids : List String)
      → matched_ids library s.exclude values ≡ ids
      → (evaluate_excludes library s raw values ids).allowed ≡ true
      → (¬ Hit s.exclude values) × Hit s.include values
  unfolding evaluate_excludes
  covered_excludes s raw values [] e h = (
    λ hit. matched_ids_of_hit s.exclude values hit.rule hit.listed hit.hit e,
    covered_includes s raw values _ refl h,
  )
  covered_excludes s raw values (id ∷ ids) e h = cc

  Covered-values :
      (s : Scope Regexp) (raw : String) (o : Option (List String))
      → target_values library raw ≡ o
      → (evaluate_values library s raw o).allowed ≡ true
      → Covered s raw
  unfolding evaluate_values
  Covered-values s raw none e h = cc
  Covered-values s raw (some values) e h =
      let (out, inside) = covered_excludes s raw values _ refl h in
      record { values = values; target = e; not_excluded = out; included = inside }

  pub matched_ids-none :
      (rules : List (CompiledRule Regexp)) (values ids : List String)
      → matched_ids library rules values ≡ ids
      → ¬ Hit rules values
      → ids ≡ []
  matched_ids-none rules values [] e none_hit = refl
  matched_ids-none rules values (id ∷ ids) e none_hit =
      absurd (none_hit (matched_ids-Hit rules values id ids e))

  allowed_includes :
      (s : Scope Regexp) (raw : String) (values ids : List String)
      → ids ≢ []
      → (evaluate_includes library s raw values ids).allowed ≡ true
  unfolding evaluate_includes
  allowed_includes s raw values [] n = absurd (n refl)
  allowed_includes s raw values (id ∷ ids) n = refl

  allowed_excludes :
      (s : Scope Regexp) (raw : String) (values ids : List String)
      → ids ≡ []
      → Hit s.include values
      → (evaluate_excludes library s raw values ids).allowed ≡ true
  unfolding evaluate_excludes
  allowed_excludes s raw values [] e c =
      allowed_includes s raw values _ (matched_ids_of_hit s.include values c.rule c.listed c.hit)
  allowed_excludes s raw values (id ∷ ids) e c = cc

  allowed_of_Covered :
      (s : Scope Regexp) (raw : String) → Covered s raw → allows library s raw ≡ true
  unfolding allows evaluate_values
  allowed_of_Covered s raw c =
      subst (λ o. (evaluate_values library s raw o).allowed ≡ true) (sym c.target)
        (allowed_excludes s raw c.values _
          (matched_ids-none s.exclude c.values _ refl c.not_excluded) c.included)

  -- A scope allows a target exactly when the target is an HTTP URL with a host, no exclusion
  -- matches it, and some inclusion does.
  pub allows_iff : (s : Scope Regexp) (raw : String) → (allows library s raw ≡ true) ↔ Covered s raw
  unfolding allows
  allows_iff s raw = (Covered-values s raw _ refl, allowed_of_Covered s raw)

  Hit-mono :
      (rules rules' : List (CompiledRule Regexp)) (values : List String)
      → ((r : CompiledRule Regexp) → Memᴰ r rules → Memᴰ r rules')
      → Hit rules values
      → Hit rules' values
  Hit-mono rules rules' values sub h = record {
    rule = h.rule;
    listed = sub h.rule h.listed;
    hit = h.hit;
  }

  -- More exclusions or fewer inclusions never let a scope allow a target that it refused; the
  -- order of the rules and repetitions among them do not matter.
  pub allows_mono :
      (s t : Scope Regexp) (raw : String)
      → ((r : CompiledRule Regexp) → Memᴰ r s.include → Memᴰ r t.include)
      → ((r : CompiledRule Regexp) → Memᴰ r t.exclude → Memᴰ r s.exclude)
      → allows library s raw ≡ true
      → allows library t raw ≡ true
  allows_mono s t raw grow shrink h =
      let c = (allows_iff s raw).0 h in
      (allows_iff t raw).1 (record {
        values = c.values;
        target = c.target;
        not_excluded = λ hit. c.not_excluded (Hit-mono t.exclude s.exclude c.values shrink hit);
        included = Hit-mono s.include t.include c.values grow c.included;
      })

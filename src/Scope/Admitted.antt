-- ===== src/Scope/Admitted.antt =====
-- Which targets the compilations of the rules of a scope file admit.
use enterprise_security_reco.Prelude.{
  String, ◌≡◌, refl, sym, ◌∙◌, ap, ◌↔◌, ◌⊎◌, true, some, List, [], arith, Memᴰ, inl, inr,
}
use enterprise_security_reco.Sorting.{sort}
use enterprise_security_reco.Sorting.Laws.{mem-sort}
use enterprise_security_reco.Scope.{
  Rule, RuleKind, include_rule, exclude_rule, NormalizedRule, Library, CompiledRule, Scope, ok, err,
  Compilation, normalize_rule, compile_rule, compile_rules, compile_kind, compile, by_id,
}
use enterprise_security_reco.Scope.Match.{matches, target_values, allows}
use enterprise_security_reco.Scope.Decision.{Hit, allows_iff}
use enterprise_security_reco.Scope.Compiled.{
  Source, Image, compile_rules-Source, compile_rules-Image,
}

ok_injective : {A : Type 0} {a b : A} → ok a ≡ ok b → a ≡ b
ok_injective e = cc

module _ {Regexp : Type 0} (library : Library Regexp) where
  -- An enabled rule of the list whose compilation matches the values.
  pub record CompiledHit (kind : RuleKind) (rules : List Rule) (values : List String) : Type 0 where
    pub source : Rule
    pub listed : Memᴰ source rules
    pub enabled : source.enabled ≡ true
    pub compiled : CompiledRule Regexp
    pub compiles : compile_rule library (normalize_rule library source kind) ≡ ok compiled
    pub hit : matches library compiled values ≡ true

  -- Two rules of the list that have the same id, which ends in 64 bits of a hash, are the same rule
  -- after normalization.
  abbrev pub NoCollision : RuleKind → List Rule → Type 0
  NoCollision kind rules =
      (a b : Rule)
      → Memᴰ a rules
      → Memᴰ b rules
      → (normalize_rule library a kind).id ≡ (normalize_rule library b kind).id
      → normalize_rule library a kind ≡ normalize_rule library b kind

  -- What `compile_kind` yields: the compiled rules of a list, sorted by id.
  record Kept (kind : RuleKind) (rules : List Rule) (out : List (CompiledRule Regexp))
      : Type 0 where
    sources : (c : CompiledRule Regexp) → Memᴰ c out → Source library kind rules c
    images : (r : Rule) → Memᴰ r rules → r.enabled ≡ true → Image library kind r out

  Image-or_seen :
      (kind : RuleKind) (r : Rule) (out : List (CompiledRule Regexp))
      → Memᴰ (normalize_rule library r kind).id [] ⊎ Image library kind r out
      → Image library kind r out
  Image-or_seen kind r out (inl m) = elim m [ ]
  Image-or_seen kind r out (inr i) = i

  sorted-Kept :
      (kind : RuleKind) (rules : List Rule) (c : Compilation (List (CompiledRule Regexp)))
      (out : List (CompiledRule Regexp))
      → compile_rules library [] kind rules ≡ c
      → compile_kind library rules kind ≡ ok out
      → Kept kind rules out
  unfolding compile_kind
  sorted-Kept kind rules (err e) out loop h = cc (rw (loop, compile_kind) at h)
  sorted-Kept kind rules (ok cs) out loop h =
      let same : sort (by_id library) cs ≡ out = ground arith in
      rw (← same) (record {
        sources = λ c m. compile_rules-Source library [] kind rules cs loop c ((mem-sort _).0 m);
        images = λ r m on'.
            let i =
              Image-or_seen kind r cs (compile_rules-Image library [] kind rules cs r loop m on') in
            record { image = i.image; listed = (mem-sort _).1 i.listed; same_id = i.same_id };
      })

  compile_parts :
      (includes excludes : List Rule) (s : Scope Regexp)
      → compile library includes excludes ≡ ok s
      → (compile_kind library includes include_rule ≡ ok s.include)
        × (compile_kind library excludes exclude_rule ≡ ok s.exclude)
  unfolding compile
  compile_parts includes excludes s h = ground arith

  CompiledHit-of_Hit :
      (kind : RuleKind) (rules : List Rule) (out : List (CompiledRule Regexp))
      (values : List String)
      → Kept kind rules out
      → Hit library out values
      → CompiledHit kind rules values
  CompiledHit-of_Hit kind rules out values k h =
      let s = k.sources h.rule h.listed in
      record {
        source = s.source;
        listed = s.listed;
        enabled = s.enabled;
        compiled = h.rule;
        compiles = s.compiled;
        hit = h.hit;
      }

  Hit-of_CompiledHit :
      (kind : RuleKind) (rules : List Rule) (out : List (CompiledRule Regexp))
      (values : List String)
      → NoCollision kind rules
      → Kept kind rules out
      → CompiledHit kind rules values
      → Hit library out values
  Hit-of_CompiledHit kind rules out values free k h =
      let i = k.images h.source h.listed h.enabled in
      let s = k.sources i.image i.listed in
      let same_id : (normalize_rule library s.source kind).id
          ≡ (normalize_rule library h.source kind).id =
        sym (ap (λ (n : NormalizedRule). n.id) s.normal) ∙ i.same_id in
      let same_rule = free s.source h.source s.listed h.listed same_id in
      let same : i.image ≡ h.compiled =
        ok_injective (sym s.compiled ∙ ap (compile_rule library) same_rule ∙ h.compiles) in
      record { rule = i.image; listed = i.listed; hit = rw same h.hit }

  compile-Kept :
      (includes excludes : List Rule) (s : Scope Regexp)
      → compile library includes excludes ≡ ok s
      → Kept include_rule includes s.include × Kept exclude_rule excludes s.exclude
  compile-Kept includes excludes s h =
      let (inc, exc) = compile_parts includes excludes s h in
      (
        sorted-Kept include_rule includes (compile_rules library [] include_rule includes) s.include
            refl inc,
        sorted-Kept exclude_rule excludes (compile_rules library [] exclude_rule excludes) s.exclude
            refl exc,
      )

  -- A target whose values no compiled exclusion of the lists matches, and some inclusion does.
  pub record Admitted (includes excludes : List Rule) (raw : String) : Type 0 where
    pub values : List String
    pub target : target_values library raw ≡ some values
    pub not_excluded : ¬ CompiledHit exclude_rule excludes values
    pub included : CompiledHit include_rule includes values

  pub compile-Admitted :
      (includes excludes : List Rule) (s : Scope Regexp) (raw : String)
      → compile library includes excludes ≡ ok s
      → NoCollision include_rule includes
      → NoCollision exclude_rule excludes
      → (allows library s raw ≡ true) ↔ Admitted includes excludes raw
  compile-Admitted includes excludes s raw made free_in free_ex =
      let (inc, exc) = compile-Kept includes excludes s made in
      (
        λ h.
            let c = (allows_iff library s raw).0 h in
            record {
              values = c.values;
              target = c.target;
              not_excluded = λ e.
                  c.not_excluded
                    (Hit-of_CompiledHit exclude_rule excludes s.exclude c.values free_ex exc e);
              included = CompiledHit-of_Hit include_rule includes s.include c.values inc c.included;
            },
        λ a. (allows_iff library s raw).1 (record {
          values = a.values;
          target = a.target;
          not_excluded = λ e.
              a.not_excluded (CompiledHit-of_Hit exclude_rule excludes s.exclude a.values exc e);
          included =
              Hit-of_CompiledHit include_rule includes s.include a.values free_in inc a.included;
        }),
      )

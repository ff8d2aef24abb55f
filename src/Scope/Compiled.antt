-- ===== src/Scope/Compiled.antt =====
-- What internal/scope/scope.go keeps of the rules that it compiles.
use enterprise_security_reco.Prelude.{
  String, ◌≡◌, refl, sym, ◌∙◌, ap, ◌⊎◌, true, false, List, [], ◌∷◌, arith, Memᴰ, Bool-cases, inl,
  inr, contains, contains_iff,
}
use enterprise_security_reco.Scope.{
  Rule, RuleKind, NormalizedRule, Library, CompiledRule, ok, err, Compilation, normalize_rule,
  compile_rule, compile_rules, cons_rule,
}

module _ {Regexp : Type 0} (library : Library Regexp) where
  -- A compiled rule comes from an enabled rule of the file, with the expressions of its parts.
  pub record Source (kind : RuleKind) (rules : List Rule) (c : CompiledRule Regexp) : Type 0 where
    pub source : Rule
    pub listed : Memᴰ source rules
    pub enabled : source.enabled ≡ true
    pub normal : c.rule ≡ normalize_rule library source kind
    pub compiled : compile_rule library (normalize_rule library source kind) ≡ ok c

  -- A compiled rule has the id of the enabled rule.
  pub record Image (kind : RuleKind) (source : Rule) (out : List (CompiledRule Regexp))
      : Type 0 where
    pub image : CompiledRule Regexp
    pub listed : Memᴰ image out
    pub same_id : image.rule.id ≡ (normalize_rule library source kind).id

  compile_rule-rule :
      (r : NormalizedRule) (c : CompiledRule Regexp) → compile_rule library r ≡ ok c → c.rule ≡ r
  unfolding compile_rule
  compile_rule-rule r c h = ground arith

  cons_rule-ok :
      (c : Compilation (CompiledRule Regexp)) (rest : Compilation (List (CompiledRule Regexp)))
      (out : List (CompiledRule Regexp))
      → cons_rule library c rest ≡ ok out
      → (d : CompiledRule Regexp) × (ds : List (CompiledRule Regexp)) × (c ≡ ok d)
        × (rest ≡ ok ds)
        × (out ≡ d ∷ ds)
  cons_rule-ok (err e) rest out h = cc
  cons_rule-ok (ok d) (err e) out h = cc
  cons_rule-ok (ok d) (ok ds) out h = (d, ds, refl, refl, ground arith)

  -- One round of the loop: the rule is passed over, or it is compiled and kept.
  data Round (seen : List String) (kind : RuleKind) (source : Rule) (rules : List Rule)
      (out : List (CompiledRule Regexp)) : Type 0 where
    disabled :
        source.enabled ≡ false
        → compile_rules library seen kind rules ≡ ok out
        → Round seen kind source rules out
    repeated :
        Memᴰ (normalize_rule library source kind).id seen
        → compile_rules library seen kind rules ≡ ok out
        → Round seen kind source rules out
    kept :
        (d : CompiledRule Regexp) (ds : List (CompiledRule Regexp))
        → source.enabled ≡ true
        → (¬ Memᴰ (normalize_rule library source kind).id seen)
        → compile_rule library (normalize_rule library source kind) ≡ ok d
        → compile_rules library ((normalize_rule library source kind).id ∷ seen) kind rules ≡ ok ds
        → out ≡ d ∷ ds
        → Round seen kind source rules out

  compile_rules-Round :
      (seen : List String) (kind : RuleKind) (source : Rule) (rules : List Rule)
      (out : List (CompiledRule Regexp))
      → compile_rules library seen kind (source ∷ rules) ≡ ok out
      → Round seen kind source rules out
  unfolding compile_rules
  compile_rules-Round seen kind source rules out h = elim (Bool-cases source.enabled) [
    | inr off ↦ disabled off (simp off at h)
    | inl on' ↦ elim (Bool-cases (contains seen (normalize_rule library source kind).id)) [
      | inl old ↦ repeated ((contains_iff seen _).0 old) (simp (on', old) at h)
      | inr new ↦
          let (d, ds, e, f, g) = cons_rule-ok _ _ out (simp (on', new) at h) in
          kept d ds on' (λ m. cc ((contains_iff seen _).1 m)) e f g
    ]
  ]

  nothing :
      (seen : List String) (kind : RuleKind) (out : List (CompiledRule Regexp))
      → compile_rules library seen kind [] ≡ ok out
      → out ≡ []
  unfolding compile_rules
  nothing seen kind out h = ground arith

  no_member : (out : List (CompiledRule Regexp)) (c : CompiledRule Regexp) → out ≡ [] → ¬ Memᴰ c out
  no_member [] c e m = elim m [ ]
  no_member (d ∷ ds) c e m = cc

  pub compile_rules-Source :
      (seen : List String) (kind : RuleKind) (rules : List Rule) (out : List (CompiledRule Regexp))
      → compile_rules library seen kind rules ≡ ok out
      → (c : CompiledRule Regexp) → Memᴰ c out
      → Source kind rules c
  compile_rules-Source seen kind [] out h c m = absurd (no_member out c (nothing seen kind out h) m)
  compile_rules-Source seen kind (source ∷ rules) out h c m =
      go (compile_rules-Round seen kind source rules out h)
        (λ seen' ds e m'. compile_rules-Source seen' kind rules ds e c m')
    where
      later : Source kind rules c → Source kind (source ∷ rules) c
      later s = record {
        source = s.source;
        listed = Memᴰ.tail s.listed;
        enabled = s.enabled;
        normal = s.normal;
        compiled = s.compiled;
      }

      go :
          Round seen kind source rules out
          → ((seen' : List String) (ds : List (CompiledRule Regexp))
              → compile_rules library seen' kind rules ≡ ok ds
              → Memᴰ c ds
              → Source kind rules c)
          → Source kind (source ∷ rules) c
      go (disabled off e) ih = later (ih seen out e m)
      go (repeated old e) ih = later (ih seen out e m)
      go (kept d ds on' new e f g) ih = first (rw g at m)
        where
          first : Memᴰ c (d ∷ ds) → Source kind (source ∷ rules) c
          first (Memᴰ.head q) = record {
            source = source;
            listed = Memᴰ.head refl;
            enabled = on';
            normal = rw q (compile_rule-rule _ d e);
            compiled = rw q e;
          }
          first (Memᴰ.tail m') = later (ih _ ds f m')

  Image-cons :
      (kind : RuleKind) (source : Rule) (d : CompiledRule Regexp) (ds : List (CompiledRule Regexp))
      → Image kind source ds
      → Image kind source (d ∷ ds)
  Image-cons kind source d ds i = record {
    image = i.image;
    listed = Memᴰ.tail i.listed;
    same_id = i.same_id;
  }

  abbrev pub id_of : RuleKind → Rule → String
  id_of kind source = (normalize_rule library source kind).id

  -- The rule that a round is about has an image, if it is enabled.
  Round-Image :
      (seen : List String) (kind : RuleKind) (source : Rule) (rules : List Rule)
      (out : List (CompiledRule Regexp))
      → source.enabled ≡ true
      → Round seen kind source rules out
      → Memᴰ (id_of kind source) seen ⊎ Image kind source out
  Round-Image seen kind source rules out on' (disabled off e) = cc
  Round-Image seen kind source rules out on' (repeated old e) = inl old
  Round-Image seen kind source rules out on' (kept d ds _ new e f g) = inr (
      rw g (record {
        image = d;
        listed = Memᴰ.head refl;
        same_id = ap (λ (n : NormalizedRule). n.id) (compile_rule-rule _ d e);
      }))

  -- A rule further on has an image, by the loop's rest.
  rest-Image :
      (seen : List String) (kind : RuleKind) (source other : Rule) (rules : List Rule)
      (out : List (CompiledRule Regexp))
      → Round seen kind source rules out
      → ((seen' : List String) (ds : List (CompiledRule Regexp))
          → compile_rules library seen' kind rules ≡ ok ds
          → Memᴰ (id_of kind other) seen' ⊎ Image kind other ds)
      → Memᴰ (id_of kind other) seen ⊎ Image kind other out
  rest-Image seen kind source other rules out (disabled off e) ih = ih seen out e
  rest-Image seen kind source other rules out (repeated old e) ih = ih seen out e
  rest-Image seen kind source other rules out (kept d ds on' new e f g) ih =
      rw g (elim (ih (id_of kind source ∷ seen) ds f) [
        | inr i ↦ inr (Image-cons kind other d ds i)
        | inl (Memᴰ.tail m) ↦ inl m
        | inl (Memᴰ.head q) ↦ inr (record {
          image = d;
          listed = Memᴰ.head refl;
          same_id = ap (λ (n : NormalizedRule). n.id) (compile_rule-rule _ d e) ∙ sym q;
        })
      ])

  pub compile_rules-Image :
      (seen : List String) (kind : RuleKind) (rules : List Rule) (out : List (CompiledRule Regexp))
      (other : Rule)
      → compile_rules library seen kind rules ≡ ok out
      → Memᴰ other rules
      → other.enabled ≡ true
      → Memᴰ (id_of kind other) seen ⊎ Image kind other out
  compile_rules-Image seen kind [] out other h m on' = elim m [ ]
  compile_rules-Image seen kind (source ∷ rules) out other h (Memᴰ.head q) on' = rw q (
      Round-Image seen kind source rules out (rw q at on')
        (compile_rules-Round seen kind source rules out h))
  compile_rules-Image seen kind (source ∷ rules) out other h (Memᴰ.tail m) on' =
      rest-Image seen kind source other rules out (compile_rules-Round seen kind source rules out h)
        (λ seen' ds e. compile_rules-Image seen' kind rules ds other e m on')

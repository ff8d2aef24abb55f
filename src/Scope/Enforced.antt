-- ===== src/Scope/Enforced.antt =====
-- The rules of a scope file, enforced: internal/scope/scope.go from the lists of rules to the
-- decision on a target.
use Prim.Native.String.{len}
use enterprise_security_reco.Prelude.{
  String, ◌≡◌, refl, ◌↔◌, ◌⊎◌, true, false, ◌||◌, eq_iff, Bool-cases, Option-cases, some, List, [],
  ◌∷◌, arith, Memᴰ, inl, inr, if◌then◌else◌, ◌==◌,
}
use enterprise_security_reco.Strings.{is_empty, to_lower, trim_space}
use enterprise_security_reco.Scope.{
  Rule, RuleKind, include_rule, exclude_rule, NormalizedRule, Library, Url, CompiledRule, Scope, ok,
  normalize_rule, compile_rule, compile,
}
use enterprise_security_reco.Scope.Match.{full, value_at, matches, target_values, allows}
use enterprise_security_reco.Scope.Admitted.{CompiledHit, NoCollision, Admitted, compile-Admitted}

-- The four texts that a target is matched by: its scheme and its host in lower case, its port or that
-- of the scheme, its path or the root.
abbrev pub target_parts : Url → List String
target_parts u =
    to_lower u.scheme
    ∷ to_lower u.hostname
    ∷ (if is_empty u.port then (if u.scheme == "https" then "443" else "80") else u.port)
    ∷ (if is_empty u.escaped_path then "/" else u.escaped_path)
    ∷ []

module _ {Regexp : Type 0} (library : Library Regexp) where
  -- The leftmost match of the expression is the whole text.
  abbrev pub FullMatch : Regexp → String → Type 0
  FullMatch expression text = library.find_string_index expression text ≡ some (0, len text)

  -- An expression of a rule's field, of which an empty one is `.*`, that matches the text.
  pub record FieldHit (pattern text : String) : Type 0 where
    pub expression : Regexp
    pub compiles :
        library.compile_regexp (if is_empty pattern then ".*" else pattern) ≡ some expression
    pub hit : FullMatch expression text

  -- An enabled rule of the list whose four fields match the four texts of a target.
  pub record RuleHit (rules : List Rule) (texts : List String) : Type 0 where
    pub source : Rule
    pub listed : Memᴰ source rules
    pub enabled : source.enabled ≡ true
    pub protocol : FieldHit (trim_space source.protocol) (value_at texts 0)
    pub host : FieldHit (to_lower (trim_space source.host)) (value_at texts 1)
    pub port : FieldHit (trim_space source.port) (value_at texts 2)
    pub file : FieldHit (trim_space source.file) (value_at texts 3)

  -- A URL of HTTP with a host that no enabled exclusion of the file matches, and that some enabled
  -- inclusion of it does.
  pub record Authorized (includes excludes : List Rule) (raw : String) : Type 0 where
    pub url : Url
    pub parsed : library.parse_url raw ≡ some url
    pub hostname : is_empty url.hostname ≡ false
    pub scheme : (url.scheme ≡ "http") ⊎ (url.scheme ≡ "https")
    pub not_excluded : ¬ RuleHit excludes (target_parts url)
    pub included : RuleHit includes (target_parts url)

  full_iff : (r : Regexp) (v : String) → (full library r v ≡ true) ↔ FullMatch r v
  unfolding full
  full_iff r v = elim (Option-cases (library.find_string_index r v)) [
    | inl missing ↦ (λ h. ground arith, λ h. cc)
    | inr ((from, to), found) ↦ (λ h. ground arith, λ h. ground arith)
  ]

  matches_iff :
      (c : CompiledRule Regexp) (v : List String)
      → (matches library c v ≡ true) ↔ (
          FullMatch c.protocol (value_at v 0)
          × FullMatch c.host (value_at v 1)
          × FullMatch c.port (value_at v 2)
          × FullMatch c.file (value_at v 3))
  unfolding matches
  matches_iff c v = (
    λ h. (
      (full_iff c.protocol (value_at v 0)).0 (ground arith),
      (full_iff c.host (value_at v 1)).0 (ground arith),
      (full_iff c.port (value_at v 2)).0 (ground arith),
      (full_iff c.file (value_at v 3)).0 (ground arith),
    ),
    λ (p, h, o, f).
        rw
          (
            (full_iff c.protocol (value_at v 0)).1 p,
            (full_iff c.host (value_at v 1)).1 h,
            (full_iff c.port (value_at v 2)).1 o,
            (full_iff c.file (value_at v 3)).1 f,
          )
          refl,
  )

  -- The expressions of a rule that compiles.
  compile_rule-parts :
      (r : NormalizedRule) (c : CompiledRule Regexp)
      → compile_rule library r ≡ ok c
      → (library.compile_regexp r.protocol ≡ some c.protocol)
        × (library.compile_regexp r.host ≡ some c.host)
        × (library.compile_regexp r.port ≡ some c.port)
        × (library.compile_regexp r.file ≡ some c.file)
  unfolding compile_rule
  compile_rule-parts r c h = ground arith

  compile_rule-ok :
      (r : NormalizedRule) (p h o f : Regexp)
      → library.compile_regexp r.protocol ≡ some p
      → library.compile_regexp r.host ≡ some h
      → library.compile_regexp r.port ≡ some o
      → library.compile_regexp r.file ≡ some f
      → compile_rule library r
        ≡ ok (record { rule = r; protocol = p; host = h; port = o; file = f })
  unfolding compile_rule
  compile_rule-ok r p h o f a b c d = ground arith

  RuleHit-of_CompiledHit :
      (kind : RuleKind) (rules : List Rule) (v : List String)
      → CompiledHit library kind rules v
      → RuleHit rules v
  unfolding normalize_rule
  RuleHit-of_CompiledHit kind rules v h =
      let (p, o, q, f) =
        compile_rule-parts (normalize_rule library h.source kind) h.compiled h.compiles in
      let (p', o', q', f') = (matches_iff h.compiled v).0 h.hit in
      record {
        source = h.source;
        listed = h.listed;
        enabled = h.enabled;
        protocol = record { expression = h.compiled.protocol; compiles = p; hit = p' };
        host = record { expression = h.compiled.host; compiles = o; hit = o' };
        port = record { expression = h.compiled.port; compiles = q; hit = q' };
        file = record { expression = h.compiled.file; compiles = f; hit = f' };
      }

  CompiledHit-of_RuleHit :
      (kind : RuleKind) (rules : List Rule) (v : List String)
      → RuleHit rules v
      → CompiledHit library kind rules v
  unfolding normalize_rule
  CompiledHit-of_RuleHit kind rules v h = record {
    source = h.source;
    listed = h.listed;
    enabled = h.enabled;
    compiled = record {
      rule = normalize_rule library h.source kind;
      protocol = h.protocol.expression;
      host = h.host.expression;
      port = h.port.expression;
      file = h.file.expression;
    };
    compiles =
        compile_rule-ok (normalize_rule library h.source kind) h.protocol.expression
          h.host.expression h.port.expression h.file.expression h.protocol.compiles h.host.compiles
          h.port.compiles h.file.compiles;
    hit = (matches_iff _ v).1 (h.protocol.hit, h.host.hit, h.port.hit, h.file.hit);
  }

  -- The values of a target are the texts of a URL of HTTP with a host.
  record Target (raw : String) (values : List String) : Type 0 where
    url : Url
    parsed : library.parse_url raw ≡ some url
    hostname : is_empty url.hostname ≡ false
    scheme : (url.scheme ≡ "http") ⊎ (url.scheme ≡ "https")
    same : values ≡ target_parts url

  scheme_cases :
      (scheme : String)
      → (scheme == "http" || scheme == "https") ≡ true
      → (scheme ≡ "http") ⊎ (scheme ≡ "https")
  scheme_cases scheme h = elim (Bool-cases (scheme == "http")) [
    | inl yes' ↦ inl ((eq_iff scheme "http").0 yes')
    | inr no' ↦ inr ((eq_iff scheme "https").0 (ground arith))
  ]

  parts-Target :
      (raw : String) (values : List String) (u : Url)
      → library.parse_url raw ≡ some u
      → target_values library raw ≡ some values
      → (is_empty u.hostname ≡ false)
        × ((u.scheme == "http" || u.scheme == "https") ≡ true)
        × (values ≡ target_parts u)
  unfolding target_values
  parts-Target raw values u p h = ground arith

  Target-of_values :
      (raw : String) (values : List String)
      → target_values library raw ≡ some values
      → Target raw values
  unfolding target_values
  Target-of_values raw values h = elim (Option-cases (library.parse_url raw)) [
    | inl missing ↦ absurd (ground arith)
    | inr (u, found) ↦
        let (named, http, same) = parts-Target raw values u found h in
        record {
          url = u;
          parsed = found;
          hostname = named;
          scheme = scheme_cases u.scheme http;
          same = same;
        }
  ]

  is_http-scheme :
      (scheme : String)
      → (scheme ≡ "http") ⊎ (scheme ≡ "https")
      → (scheme == "http" || scheme == "https") ≡ true
  is_http-scheme scheme (inl http) = rw http refl
  is_http-scheme scheme (inr https) = rw https refl

  Target-values :
      (raw : String) (u : Url)
      → library.parse_url raw ≡ some u
      → is_empty u.hostname ≡ false
      → (u.scheme ≡ "http") ⊎ (u.scheme ≡ "https")
      → target_values library raw ≡ some (target_parts u)
  unfolding target_values
  Target-values raw u p named http =
      let web = is_http-scheme u.scheme http in rw (p, named, web, target_values) refl

  Authorized-of_Admitted :
      (includes excludes : List Rule) (raw : String)
      → Admitted library includes excludes raw
      → Authorized includes excludes raw
  Authorized-of_Admitted includes excludes raw a =
      let t = Target-of_values raw a.values a.target in
      record {
        url = t.url;
        parsed = t.parsed;
        hostname = t.hostname;
        scheme = t.scheme;
        not_excluded = λ e.
            a.not_excluded (CompiledHit-of_RuleHit exclude_rule excludes a.values (rw t.same e));
        included = rw (← t.same) (RuleHit-of_CompiledHit include_rule includes a.values a.included);
      }

  Admitted-of_Authorized :
      (includes excludes : List Rule) (raw : String)
      → Authorized includes excludes raw
      → Admitted library includes excludes raw
  Admitted-of_Authorized includes excludes raw a = record {
    values = target_parts a.url;
    target = Target-values raw a.url a.parsed a.hostname a.scheme;
    not_excluded = λ e. a.not_excluded (RuleHit-of_CompiledHit exclude_rule excludes _ e);
    included = CompiledHit-of_RuleHit include_rule includes _ a.included;
  }

  -- A scope that compiles from two lists of rules allows exactly the targets that the lists
  -- authorize, disabled and repeated rules aside: exclusions always win. The ids of different rules
  -- of one list must not collide.
  pub compile-allows_iff :
      (includes excludes : List Rule) (s : Scope Regexp) (raw : String)
      → compile library includes excludes ≡ ok s
      → NoCollision library include_rule includes
      → NoCollision library exclude_rule excludes
      → (allows library s raw ≡ true) ↔ Authorized includes excludes raw
  compile-allows_iff includes excludes s raw made free_in free_ex =
      let (to, from) = compile-Admitted library includes excludes s raw made free_in free_ex in
      (
        λ h. Authorized-of_Admitted includes excludes raw (to h),
        λ a. from (Admitted-of_Authorized includes excludes raw a),
      )

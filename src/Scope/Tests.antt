-- ===== src/Scope/Tests.antt =====
-- A scope of two rules, over expressions that are `.*` or match one text.
use Prim.Native.String.{len, ◌++◌ as append}
use enterprise_security_reco.Prelude.{
  String, ◌≡◌, refl, sym, ◌∙◌, ◌↔◌, true, none, some, List, [], ◌∷◌, Memᴰ, if◌then◌else◌, ◌==◌, ap,
  contains,
}
use enterprise_security_reco.Sorting.{sort, sorted_insert}
use enterprise_security_reco.Scope.{
  Rule, RuleKind, include_rule, exclude_rule, NormalizedRule, Library, CompiledRule, Scope, ok,
  normalize_rule, compile_rule, compile_rules, compile_kind, compile, copied_rules, digest_rules,
}
use enterprise_security_reco.Scope.Match.{
  full, matches, matched_ids, target_values, evaluate, evaluate_values, evaluate_excludes,
  evaluate_includes, allows,
}
use enterprise_security_reco.Scope.Decision.{Hit, allows_mono}
use enterprise_security_reco.Scope.Mismatch.{Explains, evaluate-Explains}
use enterprise_security_reco.Scope.Admitted.{NoCollision}
use enterprise_security_reco.Scope.Enforced.{Authorized, compile-allows_iff}

abbrev toy : Library String
toy = record {
  compile_regexp = λ s. some s;
  find_string_index =
      λ r v. if r == ".*" then some (0, len v) else if r == v then some (0, len v) else none;
  parse_url = λ raw.
      if raw == "https://a.test/x"
      then some (record { scheme = "https"; hostname = "A.test"; port = ""; escaped_path = "/x" })
      else none;
  canonical_json = λ kind p h o f. append p (append h (append o f));
  rules_json = λ rules. "";
  sha256_hex = λ s. s;
}

abbrev inside : Rule
inside = record { protocol = "https"; host = " A.TEST"; port = "443"; file = ""; enabled = true }

abbrev admin : Rule
admin = record { protocol = ""; host = ""; port = ""; file = "/admin"; enabled = true }

abbrev compiled_of : NormalizedRule → CompiledRule String
compiled_of r = record {
  rule = r;
  protocol = r.protocol;
  host = r.host;
  port = r.port;
  file = r.file;
}

abbrev include_id : NormalizedRule
include_id = record {
  id = "include-httpsa.test443.*";
  digest = "httpsa.test443.*";
  kind = include_rule;
  protocol = "https";
  host = "a.test";
  port = "443";
  file = ".*";
  enabled = true;
}

abbrev exclude_id : NormalizedRule
exclude_id = record {
  id = "exclude-.*.*.*/admin";
  digest = ".*.*.*/admin";
  kind = exclude_rule;
  protocol = ".*";
  host = ".*";
  port = ".*";
  file = "/admin";
  enabled = true;
}

abbrev two_rules : Scope String
two_rules = record {
  include = compiled_of include_id ∷ [];
  exclude = compiled_of exclude_id ∷ [];
  digest = "";
}

two_rules_made : compile toy (inside ∷ []) (admin ∷ []) ≡ ok two_rules
unfolding compile compile_kind compile_rules compile_rule normalize_rule sort sorted_insert contains
    digest_rules copied_rules
two_rules_made = refl

one-NoCollision : (kind : RuleKind) (r : Rule) → NoCollision toy kind (r ∷ [])
one-NoCollision kind r a b (Memᴰ.head p) (Memᴰ.head q) e =
    ap (λ x. normalize_rule toy x kind) (p ∙ sym q)
one-NoCollision kind r a b (Memᴰ.head p) (Memᴰ.tail m) e = elim m [ ]
one-NoCollision kind r a b (Memᴰ.tail m) n e = elim m [ ]

compile-allows_iff_example :
    (allows toy two_rules "https://a.test/x" ≡ true)
    ↔ Authorized toy (inside ∷ []) (admin ∷ []) "https://a.test/x"
compile-allows_iff_example =
    compile-allows_iff toy (inside ∷ []) (admin ∷ []) two_rules "https://a.test/x" two_rules_made
      (one-NoCollision include_rule inside) (one-NoCollision exclude_rule admin)

allowed_run : allows toy two_rules "https://a.test/x" ≡ true
unfolding allows evaluate_values evaluate_excludes evaluate_includes matched_ids matches full
    target_values
allowed_run = refl

abbrev no_exclusions : Scope String
no_exclusions = record two_rules { exclude = [] }

allows_mono_example : allows toy no_exclusions "https://a.test/x" ≡ true
allows_mono_example =
    allows_mono toy two_rules no_exclusions "https://a.test/x" (λ r m. m) (λ r m. elim m [ ])
      allowed_run

abbrev other_host : Scope String
other_host = record two_rules { include = compiled_of (record include_id { host = "b.test" }) ∷ [] }

abbrev x_values : List String
x_values = "https" ∷ "a.test" ∷ "443" ∷ "/x" ∷ []

x_target : target_values toy "https://a.test/x" ≡ some x_values
unfolding target_values
x_target = refl

misses_admin :
    (r : CompiledRule String) → Memᴰ r other_host.exclude → matches toy r x_values ≡ true → ⊥
unfolding matches full
misses_admin r (Memᴰ.head e) hit = let h = simp (e) at hit in cc
misses_admin r (Memᴰ.tail m) hit = elim m [ ]

not_admin : ¬ Hit toy other_host.exclude x_values
not_admin h = misses_admin h.rule h.listed h.hit

misses_inside :
    (r : CompiledRule String) → Memᴰ r other_host.include → matches toy r x_values ≡ true → ⊥
unfolding matches full
misses_inside r (Memᴰ.head e) hit = let h = simp (e) at hit in cc
misses_inside r (Memᴰ.tail m) hit = elim m [ ]

not_inside : ¬ Hit toy other_host.include x_values
not_inside h = misses_inside h.rule h.listed h.hit

evaluate-Explains_example :
    Explains toy other_host.include x_values (evaluate toy other_host "https://a.test/x").reason
evaluate-Explains_example =
    evaluate-Explains toy other_host "https://a.test/x" x_values x_target not_admin not_inside

-- ===== src/Scope.antt =====
-- internal/scope/scope.go: scope rules, compiled once, and the evaluation of a target against them.
--
-- Regular expressions, URLs, JSON and SHA-256 are the standard library's, and enter as the record
-- `Library`. `LoadBurp`, which reads the file, is left out: `compile` starts from its two lists.
pub mod Match
pub mod Decision
pub mod Mismatch
pub mod Compiled
pub mod Admitted
pub mod Enforced
mod Tests
use Prim.Native.String.{slice, len, ◌++◌ as append}
use enterprise_security_reco.Prelude.{
  ℕ, zero, suc, ◌+◌, String, Bool, true, false, ◌&&◌, ◌||◌, not, Option, none, some, List, [], ◌∷◌,
  ◌++◌, ◌==◌, nat_eq, if◌then◌else◌, contains, get_or, any, map,
}
use enterprise_security_reco.Strings.{is_empty, trim_space, to_lower}
use enterprise_security_reco.Sorting.{sort, string_le}
use enterprise_security_reco.Errors.{Error, raised, wrapped}

pub record Rule : Type 0 where
  pub protocol : String
  pub host : String
  pub port : String
  pub file : String
  pub enabled : Bool

pub data RuleKind : Type 0 where
  include_rule exclude_rule : RuleKind

pub record NormalizedRule : Type 0 where
  pub id : String
  pub digest : String
  pub kind : RuleKind
  pub protocol : String
  pub host : String
  pub port : String
  pub file : String
  pub enabled : Bool

pub data Reason : Type 0 where
  allowed invalid_target invalid_hostname excluded : Reason
  protocol_mismatch host_mismatch port_mismatch path_mismatch no_include : Reason

pub record Evaluation : Type 0 where
  pub target : String
  pub allowed : Bool
  pub reason : Reason
  pub matched_include_ids : List String
  pub matched_exclude_ids : List String

-- What the code reads of a `*url.URL`: its scheme, `Hostname()`, `Port()` and `EscapedPath()`.
pub record Url : Type 0 where
  pub scheme : String
  pub hostname : String
  pub port : String
  pub escaped_path : String

-- The standard library: `regexp.Compile` and `FindStringIndex`, `url.Parse`, the JSON of a rule's
-- canonical struct and of a list of rules, and the hexadecimal SHA-256 of a text.
pub record Library (Regexp : Type 0) : Type 0 where
  pub compile_regexp : String → Option Regexp
  pub find_string_index : Regexp → String → Option (ℕ × ℕ)
  pub parse_url : String → Option Url
  pub canonical_json : RuleKind → String → String → String → String → String
  pub rules_json : List NormalizedRule → String
  pub sha256_hex : String → String

pub record CompiledRule (Regexp : Type 0) : Type 0 where
  pub rule : NormalizedRule
  pub protocol : Regexp
  pub host : Regexp
  pub port : Regexp
  pub file : Regexp

pub record Scope (Regexp : Type 0) : Type 0 where
  pub include : List (CompiledRule Regexp)
  pub exclude : List (CompiledRule Regexp)
  pub digest : String

pub data Compilation (A : Type 0) : Type 0 where
  ok : A → Compilation A
  err : Error → Compilation A

abbrev pub kind_text : RuleKind → String
kind_text include_rule = "include"
kind_text exclude_rule = "exclude"

-- An expression that is not given matches everything.
abbrev pub or_any : String → String
or_any s = if is_empty s then ".*" else s

module _ {Regexp : Type 0} (library : Library Regexp) where
  open library use {
    compile_regexp, find_string_index, parse_url, canonical_json, rules_json, sha256_hex,
  }

  unfoldable pub normalize_rule : Rule → RuleKind → NormalizedRule
  unfolding trim_space to_lower is_empty
  normalize_rule r kind =
      let protocol = or_any (trim_space r.protocol) in
      let host = or_any (to_lower (trim_space r.host)) in
      let port = or_any (trim_space r.port) in
      let file = or_any (trim_space r.file) in
      let digest = sha256_hex (canonical_json kind protocol host port file) in
      record {
        id = append (kind_text kind) (append "-" (slice digest 0 16));
        digest = digest;
        kind = kind;
        protocol = protocol;
        host = host;
        port = port;
        file = file;
        enabled = true;
      }

  -- The four expressions in their order; the first that does not compile is the error.
  unfoldable pub compile_rule : NormalizedRule → Compilation (CompiledRule Regexp)
  compile_rule r = elim (compile_regexp r.protocol) [
    | none ↦ err (wrapped "invalid rule expression" (raised r.protocol))
    | some protocol ↦ elim (compile_regexp r.host) [
      | none ↦ err (wrapped "invalid rule expression" (raised r.host))
      | some host ↦ elim (compile_regexp r.port) [
        | none ↦ err (wrapped "invalid rule expression" (raised r.port))
        | some port ↦ elim (compile_regexp r.file) [
          | none ↦ err (wrapped "invalid rule expression" (raised r.file))
          | some file ↦
              ok (record { rule = r; protocol = protocol; host = host; port = port; file = file })
        ]
      ]
    ]
  ]

  abbrev pub cons_rule :
      Compilation (CompiledRule Regexp)
      → Compilation (List (CompiledRule Regexp))
      → Compilation (List (CompiledRule Regexp))
  cons_rule (err e) rest = err e
  cons_rule (ok c) (err e) = err e
  cons_rule (ok c) (ok cs) = ok (c ∷ cs)

  -- The loop of `compile`: a disabled rule and one whose id has been seen are passed over.
  unfoldable pub compile_rules :
      List String → RuleKind → List Rule → Compilation (List (CompiledRule Regexp))
  compile_rules seen kind [] = ok []
  compile_rules seen kind (source ∷ rules) =
      let r = normalize_rule source kind in
      let skipped = not source.enabled || contains seen r.id in
      let rest = compile_rules (if skipped then seen else r.id ∷ seen) kind rules in
      if skipped then rest else cons_rule (compile_rule r) rest

  abbrev pub by_id : CompiledRule Regexp → CompiledRule Regexp → Bool
  by_id a b = string_le a.rule.id b.rule.id

  unfoldable pub compile_kind : List Rule → RuleKind → Compilation (List (CompiledRule Regexp))
  compile_kind rules kind = elim (compile_rules [] kind rules) [
    | err e ↦ err e
    | ok out ↦ ok (sort by_id out)
  ]

  unfoldable pub copied_rules : List (CompiledRule Regexp) → List NormalizedRule
  copied_rules rules = map (λ (c : CompiledRule Regexp). c.rule) rules

  unfoldable pub rule_digests : List (CompiledRule Regexp) → List String
  rule_digests rules = map (λ (c : CompiledRule Regexp). c.rule.digest) rules

  unfoldable pub digest_rules : List NormalizedRule → String
  digest_rules rules =
      sha256_hex (rules_json (sort (λ (a b : NormalizedRule). string_le a.id b.id) rules))

  unfoldable pub compile : List Rule → List Rule → Compilation (Scope Regexp)
  compile includes excludes = elim (compile_kind includes include_rule) [
    | err e ↦ err (wrapped "include scope" e)
    | ok [] ↦ elim (compile_kind excludes exclude_rule) [
      | err e ↦ err (wrapped "exclude scope" e)
      | ok ex ↦ err (raised "scope requires at least one enabled include rule")
    ]
    | ok (c ∷ in') ↦ elim (compile_kind excludes exclude_rule) [
      | err e ↦ err (wrapped "exclude scope" e)
      | ok ex ↦ ok (record {
        include = c ∷ in';
        exclude = ex;
        digest = digest_rules (copied_rules (c ∷ in') ++ copied_rules ex);
      })
    ]
  ]

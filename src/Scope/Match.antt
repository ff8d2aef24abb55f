-- ===== src/Scope/Match.antt =====
-- internal/scope/scope.go: `Evaluate`, the reason for a mismatch, and the tests on expressions.
use Prim.Native.String.{len}
use enterprise_security_reco.Prelude.{
  ℕ, zero, suc, String, Bool, true, false, ◌&&◌, ◌||◌, not, Option, none, some, List, [], ◌∷◌, ◌==◌,
  nat_eq, if◌then◌else◌, get_or,
}
use enterprise_security_reco.Strings.{is_empty, to_lower}
use enterprise_security_reco.Scope.{
  Reason, allowed, invalid_target, excluded, protocol_mismatch, host_mismatch, port_mismatch,
  path_mismatch, no_include, Evaluation, Library, CompiledRule, Scope,
}

abbrev pub value_at : List String → ℕ → String
value_at v i = get_or v i ""

abbrev pub is_http : String → Bool
is_http scheme = scheme == "http" || scheme == "https"

abbrev pub default_port : String → String → String
default_port scheme port =
    if is_empty port then (if scheme == "https" then "443" else "80") else port

module _ {Regexp : Type 0} where
  -- `regexAt`; an index above 3 would be a fault in Go, and does not occur.
  abbrev pub regex_at : CompiledRule Regexp → ℕ → Regexp
  regex_at r zero = r.protocol
  regex_at r (suc zero) = r.host
  regex_at r (suc (suc zero)) = r.port
  regex_at r (suc (suc (suc i))) = r.file

module _ {Regexp : Type 0} (library : Library Regexp) where
  open library use {find_string_index, parse_url}

  -- `full`: the leftmost match is the whole text.
  unfoldable pub full : Regexp → String → Bool
  full r v = elim (find_string_index r v) [
    | none ↦ false
    | some (from, to) ↦ nat_eq from 0 && nat_eq to (len v)
  ]

  unfoldable pub matches : CompiledRule Regexp → List String → Bool
  matches r v =
      full r.protocol (value_at v 0)
      && (full r.host (value_at v 1) && (full r.port (value_at v 2) && full r.file (value_at v 3)))

  unfoldable pub any_match : List (CompiledRule Regexp) → ℕ → String → Bool
  any_match [] index value = false
  any_match (r ∷ rules) index value =
      if full (regex_at r index) value then true else any_match rules index value

  -- The inner loop of `anyPrefix`, with `rounds` rounds to go from index `i` on.
  unfoldable pub prefix_loop : ℕ → ℕ → CompiledRule Regexp → List String → Bool
  prefix_loop zero i r values = true
  prefix_loop (suc rounds) i r values =
      if full (regex_at r i) (value_at values i) then prefix_loop rounds (suc i) r values else false

  unfoldable pub any_prefix : List (CompiledRule Regexp) → List String → ℕ → Bool
  any_prefix [] values count = false
  any_prefix (r ∷ rules) values count =
      if prefix_loop count 0 r values then true else any_prefix rules values count

  unfoldable pub mismatch_reason : List (CompiledRule Regexp) → List String → Reason
  mismatch_reason rules v =
      if not (any_match rules 0 (value_at v 0))
      then protocol_mismatch
      else if not (any_prefix rules v 2)
      then host_mismatch
      else if not (any_prefix rules v 3)
      then port_mismatch
      else if not (any_prefix rules v 4)
      then path_mismatch
      else no_include

  -- The loop that collects the ids of the rules that match.
  unfoldable pub matched_ids : List (CompiledRule Regexp) → List String → List String
  matched_ids [] values = []
  matched_ids (r ∷ rules) values =
      let rest = matched_ids rules values in if matches r values then r.rule.id ∷ rest else rest

  -- The four values of a target that the expressions are matched against, if it is one.
  unfoldable pub target_values : String → Option (List String)
  unfolding is_empty to_lower
  target_values raw = elim (parse_url raw) [
    | none ↦ none
    | some u ↦
        if is_empty u.hostname || not (is_http u.scheme)
        then none
        else some (
            to_lower u.scheme
            ∷ to_lower u.hostname
            ∷ default_port u.scheme u.port
            ∷ (if is_empty u.escaped_path then "/" else u.escaped_path)
            ∷ [])
  ]

  unfoldable pub evaluate_includes : Scope Regexp → String → List String → List String → Evaluation
  evaluate_includes s raw values [] = record {
    target = raw;
    allowed = false;
    reason = mismatch_reason s.include values;
    matched_include_ids = [];
    matched_exclude_ids = [];
  }
  evaluate_includes s raw values (id ∷ ids) = record {
    target = raw;
    allowed = true;
    reason = allowed;
    matched_include_ids = id ∷ ids;
    matched_exclude_ids = [];
  }

  unfoldable pub evaluate_excludes : Scope Regexp → String → List String → List String → Evaluation
  evaluate_excludes s raw values [] = evaluate_includes s raw values (matched_ids s.include values)
  evaluate_excludes s raw values (id ∷ ids) = record {
    target = raw;
    allowed = false;
    reason = excluded;
    matched_include_ids = [];
    matched_exclude_ids = id ∷ ids;
  }

  unfoldable pub evaluate_values : Scope Regexp → String → Option (List String) → Evaluation
  evaluate_values s raw none = record {
    target = raw;
    allowed = false;
    reason = invalid_target;
    matched_include_ids = [];
    matched_exclude_ids = [];
  }
  evaluate_values s raw (some values) =
      evaluate_excludes s raw values (matched_ids s.exclude values)

  unfoldable pub evaluate : Scope Regexp → String → Evaluation
  evaluate s raw = evaluate_values s raw (target_values raw)

  unfoldable pub allows : Scope Regexp → String → Bool
  unfolding evaluate
  allows s raw = (evaluate s raw).allowed

  unfoldable pub allows_redirect : Scope Regexp → String → String → Bool
  unfolding allows
  allows_redirect s from to = allows s from && allows s to

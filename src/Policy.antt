-- ===== src/Policy.antt =====
-- internal/policy/policy.go: the policy record, the authoritative decision `EvaluateAt`, and the
-- slices of the program's budgets. `Policy/Window.antt` has the scan windows.
--
-- The reasons, texts in the source, are the constructors of `Reason`, with the values that the
-- text is formatted from. A `json.RawMessage` is its text, and decoding it is a parameter.
pub mod Window
pub mod Permission
pub mod Decide
pub mod Shares
mod Tests
use Prim.Native.String.{len}
use enterprise_security_reco.Prelude.{
  ℕ, zero, suc, ◌/◌, String, Bool, true, false, ◌&&◌, ◌||◌, not, Option, none, some, List, [], ◌∷◌,
  ltb, if◌then◌else◌, contains, ℤ, pos, negsuc, ltb_ℤ, ◌==◌,
}
use enterprise_security_reco.Strings.{is_empty, to_upper}
use Window.{Instant, WindowError, Verdict, within, outside, invalid, within_scan_windows}

-- A Go string type: any text that is not one of the five is a risk too.
pub data Risk : Type 0 where
  passive low moderate high forbidden : Risk
  other : String → Risk

pub data Decision : Type 0 where
  allow require_approval deny : Decision

pub data Reason : Type 0 where
  forbidden_risk capability_denied not_allowlisted outside_windows : Reason
  invalid_window : ℕ → WindowError → Reason
  authentication_denied fuzzing_denied cross_origin_denied intrusive_denied : Reason
  payload_too_large headless_denied : Reason
  method_denied : String → Reason
  within_limits moderate_approval moderate_unapproved high_approval high_unapproved : Reason
  unknown_risk : String → Reason

pub record Policy : Type 0 where
  pub id : String
  pub allowed_capabilities : List String
  pub denied_capabilities : List String
  pub rate_limit : ℤ
  pub concurrency : ℤ
  pub provider_concurrency : ℤ
  pub host_concurrency : ℤ
  pub scan_windows : List String
  pub allowed_http_methods : List String
  pub authentication_usage : Bool
  pub headless_browser : Bool
  pub directory_fuzzing : Bool
  pub template_tags : List String
  pub excluded_template_tags : List String
  pub maximum_payload_size : ℤ
  pub follow_redirects : Bool
  pub cross_origin : Bool
  pub intrusive_checks : Bool
  pub artifact_retention : ℤ
  pub moderate_approved : Bool

pub record Evaluation : Type 0 where
  pub decision : Decision
  pub reason : Reason

pub record Requirements : Type 0 where
  pub authentication : Bool
  pub directory_fuzzing : Bool
  pub cross_origin : Bool
  pub intrusive_checks : Bool

-- The two fields of an input that a policy restricts.
pub record Common : Type 0 where
  pub headless : Bool
  pub method : String

unfoldable pub method_allowed : List String → String → Bool
method_allowed [] method = false
method_allowed (m ∷ methods) method =
    if to_upper m == method then true else method_allowed methods method

-- `none` is the nil error.
unfoldable pub validate_http_method : Policy → String → Option Reason
unfolding method_allowed
validate_http_method p method =
    if method_allowed p.allowed_http_methods (to_upper method)
    then none
    else some (method_denied (to_upper method))

abbrev is_forbidden : Risk → Bool
is_forbidden forbidden = true
is_forbidden _ = false

abbrev pub is_nil {ℓ} : {A : Type ℓ} → List A → Bool
is_nil [] = true
is_nil (x ∷ xs) = false

-- The checks of the capability's name, in their order.
unfoldable pub name_denial : Policy → String → Risk → Option Reason
name_denial p capability risk =
    if is_forbidden risk
    then some forbidden_risk
    else if contains p.denied_capabilities capability
    then some capability_denied
    else if not (is_nil p.allowed_capabilities) && not (contains p.allowed_capabilities capability)
    then some not_allowlisted
    else none

unfoldable pub window_denial : Verdict → Option Reason
window_denial within = none
window_denial outside = some outside_windows
window_denial (invalid index e) = some (invalid_window index e)

unfoldable pub requirement_denial : Policy → Requirements → Option Reason
requirement_denial p r =
    if r.authentication && not p.authentication_usage
    then some authentication_denied
    else if r.directory_fuzzing && not p.directory_fuzzing
    then some fuzzing_denied
    else if r.cross_origin && not p.cross_origin
    then some cross_origin_denied
    else if r.intrusive_checks && not p.intrusive_checks
    then some intrusive_denied
    else none

unfoldable pub payload_denial : Policy → String → Option Reason
payload_denial p input =
    if ltb_ℤ (pos 0) p.maximum_payload_size && ltb_ℤ p.maximum_payload_size (pos (len input))
    then some payload_too_large
    else none

-- An input that does not decode is let through to the checks of the capability.
unfoldable pub common_denial : Policy → Option Common → Option Reason
unfolding is_empty
common_denial p none = none
common_denial p (some c) =
    if c.headless && not p.headless_browser
    then some headless_denied
    else if is_empty c.method
    then none
    else validate_http_method p c.method

unfoldable pub by_risk : Policy → Risk → Bool → Evaluation
by_risk p passive approved = record { decision = allow; reason = within_limits }
by_risk p low approved = record { decision = allow; reason = within_limits }
by_risk p moderate approved =
    if approved || p.moderate_approved
    then record { decision = allow; reason = moderate_approval }
    else record { decision = require_approval; reason = moderate_unapproved }
by_risk p high approved =
    if approved
    then record { decision = allow; reason = high_approval }
    else record { decision = require_approval; reason = high_unapproved }
by_risk p forbidden approved = record { decision = deny; reason = unknown_risk "forbidden" }
by_risk p (other risk) approved = record { decision = deny; reason = unknown_risk risk }

-- The first denial of a row, if there is one.
infixr 20 ◌<|>◌
abbrev pub ◌<|>◌ : Option Reason → Option Reason → Option Reason
some r <|> later = some r
none <|> later = later

abbrev pub deny_or : Option Reason → Evaluation → Evaluation
deny_or (some r) e = record { decision = deny; reason = r }
deny_or none e = e

-- `json.Unmarshal(input, &common)`: `none` where it returns an error.
module _ (decode_common : String → Option Common) where
  unfoldable pub input_denial : Policy → String → Option Reason
  unfolding common_denial is_empty
  input_denial p input = if is_empty input then none else common_denial p (decode_common input)

  unfoldable pub evaluate_at :
      Policy → String → Risk → Bool → Requirements → String → Instant → Evaluation
  evaluate_at p capability risk approved requirements input at =
      deny_or
        (name_denial p capability risk
          <|> window_denial (within_scan_windows p.scan_windows at)
          <|> requirement_denial p requirements
          <|> payload_denial p input
          <|> input_denial p input)
        (by_risk p risk approved)

  -- `Evaluate`: no requirements and no input, now.
  unfoldable pub evaluate : Policy → String → Risk → Bool → Instant → Evaluation
  unfolding evaluate_at
  evaluate p capability risk approved now =
      evaluate_at p capability risk approved
        (record {
          authentication = false;
          directory_fuzzing = false;
          cross_origin = false;
          intrusive_checks = false;
        })
        "" now

-- `share`: at least one for each part of a positive value; any other value is kept.
unfoldable pub share : ℤ → ℕ → ℤ
share (negsuc n) parts = negsuc n
share (pos zero) parts = pos zero
share (pos (suc n)) parts = let each = suc n / parts in if ltb each 1 then pos 1 else pos each

unfoldable pub parallel_share : Policy → ℕ → Policy
unfolding share
parallel_share p active_steps = if ltb active_steps 2 then p else record p {
  rate_limit = share p.rate_limit active_steps;
  concurrency = share p.concurrency active_steps;
}

-- A value below one counts as one.
unfoldable pub at_least_one : ℤ → ℕ
at_least_one (pos zero) = 1
at_least_one (pos (suc n)) = suc n
at_least_one (negsuc n) = 1

-- `ProgramParallelism`: the result is at least one.
unfoldable pub program_parallelism : Policy → ℕ
unfolding at_least_one
program_parallelism p =
    let parallelism = at_least_one p.concurrency in
    if ltb_ℤ (pos 0) p.rate_limit && ltb_ℤ p.rate_limit (pos parallelism)
    then at_least_one p.rate_limit
    else parallelism

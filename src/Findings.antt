-- ===== src/Findings.antt =====
-- internal/findings/lifecycle.go: the statuses of a candidate finding, and the playbooks that
-- verify one.
pub mod Lifecycle
pub mod Confirmation
mod Tests
use enterprise_security_reco.Prelude.{
  String, Bool, true, false, ◌&&◌, ◌||◌, not, Option, none, some, List, [], ◌∷◌, ℤ, pos, negsuc,
  nat_eq, ltb_ℤ, any, lookup, ◌==◌, if◌then◌else◌,
}
use enterprise_security_reco.Strings.{is_empty, has_prefix, to_lower}

pub data CandidateStatus : Type 0 where
  new queued verifying confirmed rejected informational manual_review : CandidateStatus

-- `Transition`: whether the error is nil.
unfoldable pub transition : CandidateStatus → CandidateStatus → Bool
transition new queued = true
transition new informational = true
transition new manual_review = true
transition queued verifying = true
transition verifying confirmed = true
transition verifying rejected = true
transition verifying manual_review = true
transition from to = false

pub data Verdict : Type 0 where
  verdict_confirmed verdict_rejected verdict_inconclusive verdict_manual : Verdict

pub record VerificationInput : Type 0 where
  pub url : String
  pub status_code : ℤ
  pub headers : List (String × List String)
  pub body : String
  pub unauthenticated_status_code : ℤ

pub record Verification : Type 0 where
  pub playbook : String
  pub verdict : Verdict
  pub summary : String

-- `strings.Contains`.
unfoldable pub contains_text : String → String → Bool
contains_text String.[] part = is_empty part
contains_text (String.◌∷◌ c s) part = has_prefix (String.◌∷◌ c s) part || contains_text s part

unfoldable pub first : List String → String
first [] = ""
first (v ∷ vs) = v

unfoldable pub header : VerificationInput → String → List String
header input name = elim (lookup name input.headers) [ none ↦ [] | some values ↦ values ]

abbrev pub is_200 : ℤ → Bool
is_200 (pos n) = nat_eq n 200
is_200 (negsuc n) = false

-- What `Verify` uses of a parsed location.
pub record Location : Type 0 where
  pub absolute : Bool
  pub hostname : String

-- `url.Parse`, `none` where it fails, and `strings.EqualFold`.
module _ (parse_url : String → Option Location) (equal_fold : String → String → Bool) where
  -- The loop over the locations.
  unfoldable pub redirects_away : String → List String → Bool
  redirects_away host [] = false
  redirects_away host (v ∷ vs) =
      let rest = redirects_away host vs in
      elim (parse_url v) [
        | none ↦ rest
        | some loc ↦ if loc.absolute && not (equal_fold loc.hostname host) then true else rest
      ]

  unfoldable pub redirect_criteria : VerificationInput → Bool
  redirect_criteria input = elim (parse_url input.url) [
    | none ↦ false
    | some u ↦ redirects_away u.hostname (header input "Location")
  ]

unfoldable pub cors_criteria : VerificationInput → Bool
cors_criteria input =
    let origin = first (header input "X-Verification-Origin") in
    not (is_empty origin) && origin == first (header input "Access-Control-Allow-Origin")

unfoldable pub exposed_criteria : VerificationInput → Bool
exposed_criteria input =
    let body = to_lower input.body in
    is_200 input.status_code
    && (contains_text body "private key"
        || contains_text body "database_password"
        || contains_text body "aws_access_key_id")

unfoldable pub openapi_criteria : VerificationInput → Bool
openapi_criteria input =
    let body = to_lower input.body in
    is_200 input.status_code
    && (contains_text body "\"openapi\"" || contains_text body "\"swagger\"")
    && contains_text body "\"paths\""

unfoldable pub graphql_criteria : VerificationInput → Bool
graphql_criteria input =
    is_200 input.status_code && contains_text (to_lower input.body) "\"__schema\""

unfoldable pub unauthenticated_success : VerificationInput → Bool
unauthenticated_success input =
    ltb_ℤ (pos 199) input.unauthenticated_status_code
    && ltb_ℤ input.unauthenticated_status_code (pos 300)

-- A playbook whose criteria are met ends with its own verdict, any other with a rejection.
unfoldable pub conclude : String → Bool → Verdict → String → Verification
conclude playbook met verdict summary =
    if met then record { playbook = playbook; verdict = verdict; summary = summary } else record {
      playbook = playbook;
      verdict = verdict_rejected;
      summary = "independent confirmation criteria were not met";
    }

module _ (parse_url : String → Option Location) (equal_fold : String → String → Bool) where
  unfoldable pub verify : String → VerificationInput → Verification
  verify playbook input =
      if playbook == "exposed-file"
      then conclude playbook (exposed_criteria input) verdict_confirmed
          "independent response evidence contains an exposed-file marker"
      else if playbook == "openapi"
      then conclude playbook (openapi_criteria input) verdict_confirmed
          "response parses as a public API description candidate"
      else if playbook == "graphql-introspection"
      then conclude playbook (graphql_criteria input) verdict_confirmed
          "GraphQL schema evidence was returned"
      else if playbook == "open-redirect"
      then conclude playbook (redirect_criteria parse_url equal_fold input) verdict_confirmed
          "redirect location points to the configured external verification origin"
      else if playbook == "cors-reflection"
      then conclude playbook (cors_criteria input) verdict_confirmed
          "arbitrary verification origin was reflected"
      else if playbook == "missing-authentication"
      then conclude playbook (unauthenticated_success input) verdict_manual
          "endpoint responded without credentials; authorization and impact require human review"
      else record {
        playbook = playbook;
        verdict = verdict_inconclusive;
        summary = "unknown verification playbook";
      }

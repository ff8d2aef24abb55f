-- ===== src/Policy/Tests.antt =====
-- Runs of the policy's code, and the theorems of this part at concrete inputs.
use enterprise_security_reco.Prelude.{
  String, ◌≡◌, refl, ◌≤◌, ◌↔◌, true, false, Option, some, [], ◌∷◌, arith, pos, lookup, contains,
  ◌*◌, pos_part, ◌≤ℤ◌,
}
use enterprise_security_reco.Strings.{fields, trim_space, to_lower, to_upper, cut, is_empty}
use enterprise_security_reco.Policy.{
  Policy, moderate, high, allow, deny, Requirements, Common, evaluate_at, parallel_share,
  program_parallelism, name_denial, window_denial, requirement_denial, payload_denial, input_denial,
  validate_http_method, by_risk,
}
use enterprise_security_reco.Policy.Window.{
  Instant, ScanWindow, window, parse_scan_window, window_contains, within_scan_windows,
}
use enterprise_security_reco.Policy.Window.Hours.{
  Open, IsInstant, IsWindow, window_contains_iff, parse_scan_window-IsWindow,
}
use enterprise_security_reco.Policy.Decide.{
  Permitted, evaluate_at-allow_iff, deny_ignores_approval, Weaker, evaluate_at-allow_weaken,
}
use enterprise_security_reco.Policy.Shares.{parallel_share-fits}

abbrev night : ScanWindow
night = record { weekday = some 1; start = 1320; end = 360 }

night_parses : parse_scan_window " Mon  22:00-6:00 utc" ≡ window night
unfolding parse_scan_window fields trim_space to_lower cut lookup
night_parses = refl

parse_scan_window-IsWindow_example : IsWindow night
parse_scan_window-IsWindow_example =
    parse_scan_window-IsWindow " Mon  22:00-6:00 utc" night night_parses

abbrev tuesday_5 : Instant
tuesday_5 = record { weekday = 2; hour = 5; minute = 30 }

tuesday_5-IsInstant : IsInstant tuesday_5
tuesday_5-IsInstant = omega arith

tuesday_5_in : window_contains night tuesday_5 ≡ true
unfolding window_contains
tuesday_5_in = refl

window_contains_iff_example :
    (window_contains night tuesday_5 ≡ true) ↔ Open (some 1) night tuesday_5
window_contains_iff_example =
    window_contains_iff " Mon  22:00-6:00 utc" night tuesday_5 night_parses tuesday_5-IsInstant

abbrev baseline : Policy
baseline = record {
  id = "baseline";
  allowed_capabilities = "probe.http" ∷ "scan.nuclei" ∷ [];
  denied_capabilities = "exploit" ∷ [];
  rate_limit = pos 50;
  concurrency = pos 10;
  provider_concurrency = pos 5;
  host_concurrency = pos 2;
  scan_windows = "Mon 22:00-06:00 UTC" ∷ [];
  allowed_http_methods = "GET" ∷ "HEAD" ∷ [];
  authentication_usage = false;
  headless_browser = false;
  directory_fuzzing = false;
  template_tags = [];
  excluded_template_tags = "dos" ∷ [];
  maximum_payload_size = pos 4096;
  follow_redirects = false;
  cross_origin = true;
  intrusive_checks = false;
  artifact_retention = pos 0;
  moderate_approved = false;
}

abbrev crossing : Requirements
crossing = record {
  authentication = false;
  directory_fuzzing = false;
  cross_origin = true;
  intrusive_checks = false;
}

abbrev plain : Requirements
plain = record crossing { cross_origin = false }

-- A decoder for the tests: it knows one input.
abbrev decode_get : String → Option Common
decode_get s = some (record { headless = false; method = "get" })

allowed_run :
    (evaluate_at decode_get baseline "scan.nuclei" moderate true crossing "{}" tuesday_5).decision
    ≡ allow
unfolding evaluate_at parse_scan_window fields trim_space to_lower to_upper cut lookup contains
    window_contains within_scan_windows is_empty name_denial window_denial requirement_denial
    payload_denial input_denial validate_http_method by_risk
allowed_run = refl

evaluate_at-allow_iff_example :
    ((evaluate_at decode_get baseline "scan.nuclei" moderate true crossing "{}" tuesday_5).decision
      ≡ allow)
    ↔ Permitted decode_get baseline "scan.nuclei" moderate true crossing "{}" tuesday_5
evaluate_at-allow_iff_example =
    evaluate_at-allow_iff decode_get baseline "scan.nuclei" moderate true crossing "{}" tuesday_5

deny_ignores_approval_example :
    ((evaluate_at decode_get baseline "exploit" high true crossing "{}" tuesday_5).decision ≡ deny)
    ↔ ((evaluate_at decode_get baseline "exploit" high false crossing "{}" tuesday_5).decision
        ≡ deny)
deny_ignores_approval_example =
    deny_ignores_approval decode_get baseline "exploit" high crossing "{}" tuesday_5

plain-Weaker : Weaker plain crossing
plain-Weaker = ground arith

evaluate_at-allow_weaken_example :
    (evaluate_at decode_get baseline "scan.nuclei" moderate true plain "{}" tuesday_5).decision
    ≡ allow
evaluate_at-allow_weaken_example =
    evaluate_at-allow_weaken decode_get baseline "scan.nuclei" moderate true crossing plain "{}"
      tuesday_5 plain-Weaker allowed_run

seven_fit : 7 ≤ program_parallelism baseline
unfolding program_parallelism
seven_fit = omega arith

parallel_share-fits_example :
    (7 * pos_part (parallel_share baseline 7).concurrency ≤ 10)
    × (7 * pos_part (parallel_share baseline 7).rate_limit ≤ 50)
    × (pos 1 ≤ℤ pos 10 → pos 1 ≤ℤ (parallel_share baseline 7).concurrency)
    × (pos 1 ≤ℤ pos 50 → pos 1 ≤ℤ (parallel_share baseline 7).rate_limit)
parallel_share-fits_example = parallel_share-fits baseline 7 seven_fit

-- ===== src/Recon/Tests.antt =====
-- Pipelines that are accepted and refused.
use enterprise_security_reco.Prelude.{String, ◌≡◌, refl, ◌↔◌, none, some, List, [], ◌∷◌}
use enterprise_security_reco.Recon.{
  validate, validate_runes, enabled, check_duplicates, check_requires, check_stages, known,
  check_known, chosen, capabilities, runes, missing_requirement,
}
use enterprise_security_reco.Recon.Closure.{WellFormed, validate_iff}
use enterprise_security_reco.Recon.Runs.{Runs, capabilities-Runs}

abbrev three : List String
three = "discover.subdomains" ∷ "resolve.dns" ∷ "probe.http" ∷ []

three_run : capabilities "hds" ≡ some three
unfolding capabilities validate validate_runes enabled check_duplicates check_requires check_stages
    known check_known chosen
three_run = refl

capabilities-Runs_example : Runs "hds" three
capabilities-Runs_example = capabilities-Runs "hds" three three_run

validate_iff_example : (validate "hds" ≡ none) ↔ WellFormed (runes "hds")
validate_iff_example = validate_iff "hds"

crawl_alone :
    validate "k"
    ≡ some (
        missing_requirement
          (record { key = 107; capability = "crawl.web"; requires = 104 ∷ [] })
          104)
unfolding validate validate_runes enabled check_duplicates check_requires check_stages known
    check_known
crawl_alone = refl

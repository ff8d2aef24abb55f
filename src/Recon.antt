-- ===== src/Recon.antt =====
-- internal/recon/pipeline.go: pipelines of reconnaissance stages, written as one letter each. A
-- rune is its code point.
mod Tests
pub mod Closure
pub mod Runs
use Prim.Native.Char.{code}
use enterprise_security_reco.Prelude.{
  ℕ, String, Bool, true, false, ◌||◌, not, Option, none, some, List, [], ◌∷◌, nat_eq, if◌then◌else◌,
}

pub record Stage : Type 0 where
  pub key : ℕ
  pub capability : String
  pub requires : List ℕ

abbrev pub stages : List Stage
stages =
    record { key = b's'; capability = "discover.subdomains"; requires = [] }
    ∷ record { key = b'd'; capability = "resolve.dns"; requires = b's' ∷ [] }
    ∷ record { key = b'n'; capability = "scan.ports"; requires = b'd' ∷ [] }
    ∷ record { key = b'h'; capability = "probe.http"; requires = b'd' ∷ [] }
    ∷ record { key = b'k'; capability = "crawl.web"; requires = b'h' ∷ [] }
    ∷ record { key = b'g'; capability = "discover.archive_urls"; requires = [] }
    ∷ record { key = b'a'; capability = "classify.endpoint"; requires = b'k' ∷ b'g' ∷ [] }
    ∷ []

pub data PipelineError : Type 0 where
  empty_pipeline : PipelineError
  duplicated unknown_stage : ℕ → PipelineError
  missing_requirement : Stage → ℕ → PipelineError

abbrev pub runes : String → List ℕ
runes String.[] = []
runes (String.◌∷◌ c s) = code c ∷ runes s

unfoldable pub enabled : List ℕ → ℕ → Bool
enabled [] r = false
enabled (x ∷ xs) r = let rest = enabled xs r in if nat_eq x r then true else rest

infixr 20 ◌<|>◌
abbrev pub ◌<|>◌ : Option PipelineError → Option PipelineError → Option PipelineError
some e <|> later = some e
none <|> later = later

-- The loop over the pipeline; `seen` has the runes that the map has so far.
unfoldable pub check_duplicates : List ℕ → List ℕ → Option PipelineError
check_duplicates seen [] = none
check_duplicates seen (r ∷ rs) =
    let rest = check_duplicates (r ∷ seen) rs in
    if enabled seen r then some (duplicated r) else rest

unfoldable pub check_requires : List ℕ → Stage → List ℕ → Option PipelineError
check_requires pipeline s [] = none
check_requires pipeline s (dep ∷ deps) =
    let rest = check_requires pipeline s deps in
    if enabled pipeline dep then rest else some (missing_requirement s dep)

unfoldable pub check_stages : List ℕ → List Stage → Option PipelineError
check_stages pipeline [] = none
check_stages pipeline (s ∷ ss) =
    let rest = check_stages pipeline ss in
    if enabled pipeline s.key then check_requires pipeline s s.requires <|> rest else rest

unfoldable pub known : List Stage → ℕ → Bool
known [] r = false
known (s ∷ ss) r = let rest = known ss r in if nat_eq s.key r then true else rest

-- The loop over the runes of the map, in the order of the pipeline.
unfoldable pub check_known : List ℕ → Option PipelineError
check_known [] = none
check_known (r ∷ rs) =
    let rest = check_known rs in if known stages r then rest else some (unknown_stage r)

unfoldable pub validate_runes : List ℕ → Option PipelineError
validate_runes [] = some empty_pipeline
validate_runes (r ∷ rs) =
    check_duplicates [] (r ∷ rs) <|> check_stages (r ∷ rs) stages <|> check_known (r ∷ rs)

-- `none` is the nil error.
unfoldable pub validate : String → Option PipelineError
validate pipeline = validate_runes (runes pipeline)

unfoldable pub chosen : List ℕ → List Stage → List Stage
chosen pipeline [] = []
chosen pipeline (s ∷ ss) =
    let rest = chosen pipeline ss in if enabled pipeline s.key then s ∷ rest else rest

abbrev pub capability_names : List Stage → List String
capability_names [] = []
capability_names (s ∷ ss) = s.capability ∷ capability_names ss

unfoldable pub capabilities : String → Option (List String)
capabilities pipeline = elim (validate pipeline) [
  | some e ↦ none
  | none ↦ some (capability_names (chosen (runes pipeline) stages))
]

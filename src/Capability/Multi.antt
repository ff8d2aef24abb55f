-- ===== src/Capability/Multi.antt =====
-- `Multi` of internal/capability/capability.go: one capability with several providers. A Go map is
-- ranged over in any order: the list of the providers has them in the order of the run.
use enterprise_security_reco.Prelude.{
  String, ◌||◌, Option, none, some, List, [], ◌∷◌, ◌++◌, ◌==◌, if◌then◌else◌, lookup,
}
use enterprise_security_reco.Strings.{is_empty}
use enterprise_security_reco.Sorting.{sort_strings}
use enterprise_security_reco.Errors.{Error, raised}
use enterprise_security_reco.Policy.{Requirements}
use enterprise_security_reco.Capability.{
  Manifest, Request, Result, Capability, Either, ok, err, empty_result,
}

pub record Multi (W : Type 0) : Type 0 where
  pub manifest : Manifest
  pub default_provider : String
  pub providers : List (String × Capability W)

unfoldable pub merge_requirements : Requirements → Requirements → Requirements
merge_requirements a b = record {
  authentication = a.authentication || b.authentication;
  directory_fuzzing = a.directory_fuzzing || b.directory_fuzzing;
  cross_origin = a.cross_origin || b.cross_origin;
  intrusive_checks = a.intrusive_checks || b.intrusive_checks;
}

module _ {W : Type 0} where
  -- The manifest after one more provider.
  abbrev pub add_provider : Manifest → String → Capability W → Manifest
  add_provider m name p = record m {
    policy_requirements = merge_requirements m.policy_requirements p.manifest.policy_requirements;
    supported_providers = m.supported_providers ++ name ∷ [];
  }

  -- The loop over the providers, which adds to the manifest of the default one.
  unfoldable pub merge_providers : List (String × Capability W) → Manifest → Either Manifest
  merge_providers [] m = ok m
  merge_providers ((name, p) ∷ providers) m =
      let merged = merge_providers providers (add_provider m name p) in
      if p.manifest.name == m.name
      then merged
      else err (raised "provider implements another capability")

  unfoldable pub sort_providers :
      String → List (String × Capability W) → Either Manifest → Either (Multi W)
  sort_providers default_provider providers (err e) = err e
  sort_providers default_provider providers (ok m) = ok (record {
    manifest = record m { supported_providers = sort_strings m.supported_providers };
    default_provider = default_provider;
    providers = providers;
  })

  unfoldable pub new_multi : String → List (String × Capability W) → Either (Multi W)
  unfolding sort_providers
  new_multi default_provider [] = err (raised "at least one provider is required")
  new_multi default_provider (p ∷ providers) = elim (lookup default_provider (p ∷ providers)) [
    | none ↦ err (raised "default provider is not registered")
    | some base ↦
        sort_providers default_provider (p ∷ providers)
          (merge_providers (p ∷ providers) (record base.manifest { supported_providers = [] }))
  ]

  unfoldable pub provider : Multi W → String → Option (Capability W)
  unfolding is_empty
  provider m name = lookup (if is_empty name then m.default_provider else name) m.providers

  unfoldable pub validate : Multi W → Request W → W → Option Error × W
  unfolding provider
  validate m req w = elim (provider m req.provider) [
    | none ↦ (some (raised "provider is not supported"), w)
    | some p ↦ p.validate req w
  ]

  unfoldable pub execute : Multi W → Request W → W → (Result × Option Error) × W
  unfolding provider
  execute m req w = elim (provider m req.provider) [
    | none ↦ ((empty_result, some (raised "provider is not supported")), w)
    | some p ↦ p.execute req w
  ]

  unfoldable pub validate_definition : Multi W → String → Option Error
  unfolding provider
  validate_definition m raw = elim (provider m m.default_provider) [
    | none ↦ some (raised "provider is not supported")
    | some p ↦ elim p.validate_definition [ none ↦ none | some validator ↦ validator raw ]
  ]

  -- A `Multi` where the registry wants a capability.
  unfoldable pub as_capability : Multi W → Capability W
  as_capability m = record {
    manifest = m.manifest;
    validate = validate m;
    execute = execute m;
    validate_definition = some (validate_definition m);
  }

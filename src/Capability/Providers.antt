-- ===== src/Capability/Providers.antt =====
-- The requirements of a capability with several providers cover those of each of them.
use enterprise_security_reco.Prelude.{
  String, ◌≡◌, refl, Bool, Option, some, List, [], ◌∷◌, arith, Bool-cases, inl, inr, Option-cases,
  ◌==◌, eq_iff, lookup, if◌then◌else◌, ◌∙◌, sym,
}
use enterprise_security_reco.Strings.{is_empty}
use enterprise_security_reco.Policy.{Requirements, Common, allow, evaluate_at, Policy, Risk}
use enterprise_security_reco.Policy.Window.{Instant}
use enterprise_security_reco.Policy.Decide.{Weaker, evaluate_at-allow_weaken}
use enterprise_security_reco.Capability.{Manifest, Capability, Either, ok, err}
use enterprise_security_reco.Capability.Multi.{
  Multi, add_provider, merge_requirements, merge_providers, new_multi, sort_providers, provider,
}

Weaker-refl : (r : Requirements) → Weaker r r
Weaker-refl r = ground arith

merge_requirements-left : (r a b : Requirements) → Weaker r a → Weaker r (merge_requirements a b)
unfolding merge_requirements
merge_requirements-left r a b h = ground arith

merge_requirements-right : (a b : Requirements) → Weaker b (merge_requirements a b)
unfolding merge_requirements
merge_requirements-right a b = ground arith

module _ {W : Type 0} where
  merge_step :
      (name : String) (p : Capability W) (providers : List (String × Capability W))
      (m m' : Manifest)
      → merge_providers ((name, p) ∷ providers) m ≡ ok m'
      → (p.manifest.name ≡ m.name) × (merge_providers providers (add_provider m name p) ≡ ok m')
  unfolding merge_providers
  merge_step name p providers m m' h = elim (Bool-cases (p.manifest.name == m.name)) [
    | inl same ↦ ((eq_iff _ _).0 same, rw same at h)
    | inr other ↦ cc (rw other at h)
  ]

  merge_providers-keeps :
      (providers : List (String × Capability W)) (m m' : Manifest) (r : Requirements)
      → merge_providers providers m ≡ ok m'
      → Weaker r m.policy_requirements
      → Weaker r m'.policy_requirements
  unfolding merge_providers
  merge_providers-keeps [] m m' r h weaker = ground arith
  merge_providers-keeps ((name, p) ∷ providers) m m' r h weaker =
      let (_, rest) = merge_step name p providers m m' h in
      merge_providers-keeps providers (add_provider m name p) m' r rest
        (merge_requirements-left r m.policy_requirements p.manifest.policy_requirements weaker)

  -- The manifest that the loop builds keeps the name, which is every provider's, and requires
  -- what any of the providers requires.
  merge_providers-covers :
      (k : String) (p : Capability W) (providers : List (String × Capability W)) (m m' : Manifest)
      → merge_providers providers m ≡ ok m'
      → lookup k providers ≡ some p
      → (p.manifest.name ≡ m.name) × Weaker p.manifest.policy_requirements m'.policy_requirements
  unfolding lookup
  merge_providers-covers k p [] m m' h found = cc
  merge_providers-covers k p ((name, q) ∷ providers) m m' h found =
      let (same_name, rest) = merge_step name q providers m m' h in
      elim (Bool-cases (name == k)) [
        | inl here ↦
            let same : q ≡ p = ground arith in
            rw (← same) (
              same_name,
              merge_providers-keeps providers (add_provider m name q) m'
                  q.manifest.policy_requirements rest
                  (merge_requirements-right m.policy_requirements q.manifest.policy_requirements),
            )
        | inr there ↦
            merge_providers-covers k p providers (add_provider m name q) m' rest (rw there at found)
      ]

  merge_providers-name :
      (providers : List (String × Capability W)) (m m' : Manifest)
      → merge_providers providers m ≡ ok m'
      → m'.name ≡ m.name
  unfolding merge_providers
  merge_providers-name [] m m' h = ground arith
  merge_providers-name ((name, p) ∷ providers) m m' h =
      merge_providers-name providers (add_provider m name p) m'
        (merge_step name p providers m m' h).1

  -- What `NewMulti` has built.
  record Built (d : String) (providers : List (String × Capability W)) (mu : Multi W) : Type 0 where
    start : Manifest
    merged : Manifest
    loop : merge_providers providers start ≡ ok merged
    same_providers : mu.providers ≡ providers
    same_name : mu.manifest.name ≡ merged.name
    same_requirements : mu.manifest.policy_requirements ≡ merged.policy_requirements

  sorted-Built :
      (d : String) (providers : List (String × Capability W)) (start : Manifest) (mu : Multi W)
      (e : Either Manifest)
      → merge_providers providers start ≡ e
      → sort_providers d providers e ≡ ok mu
      → Built d providers mu
  unfolding sort_providers
  sorted-Built d providers start mu (err e) loop h = cc
  sorted-Built d providers start mu (ok m) loop h = record {
    start = start;
    merged = m;
    loop = loop;
    same_providers = ground arith;
    same_name = ground arith;
    same_requirements = ground arith;
  }

  new_multi-Built :
      (d : String) (providers : List (String × Capability W)) (mu : Multi W)
      → new_multi d providers ≡ ok mu
      → Built d providers mu
  unfolding new_multi
  new_multi-Built d [] mu h = cc
  new_multi-Built d (p ∷ providers) mu h = elim (Option-cases (lookup d (p ∷ providers))) [
    | inl missing ↦ cc (rw (missing, new_multi) at h)
    | inr (base, found) ↦
        sorted-Built d (p ∷ providers) (record base.manifest { supported_providers = [] }) mu _ refl
          (rw (found, new_multi) at h)
  ]

  -- Where `NewMulti` succeeds, an action that the policy allows under the merged manifest is also
  -- allowed, at the same risk, under the name and the requirements of the provider that will run.
  pub new_multi-allow :
      (decode_common : String → Option Common) (d : String)
      (providers : List (String × Capability W)) (mu : Multi W) (name : String) (p : Capability W)
      (pol : Policy) (risk : Risk) (approved : Bool) (input : String) (at : Instant)
      → new_multi d providers ≡ ok mu
      → provider mu name ≡ some p
      → (evaluate_at decode_common pol mu.manifest.name risk approved
          mu.manifest.policy_requirements input at).decision
        ≡ allow
      → (evaluate_at decode_common pol p.manifest.name risk approved p.manifest.policy_requirements
          input at).decision
        ≡ allow
  unfolding provider
  new_multi-allow decode_common d providers mu name p pol risk approved input at made found h =
      let b = new_multi-Built d providers mu made in
      let (named, weaker) =
        merge_providers-covers (if is_empty name then mu.default_provider else name) p providers
          b.start b.merged b.loop (rw b.same_providers at found) in
      let same_name : mu.manifest.name ≡ p.manifest.name =
        b.same_name ∙ merge_providers-name providers b.start b.merged b.loop ∙ sym named in
      evaluate_at-allow_weaken decode_common pol p.manifest.name risk approved
        b.merged.policy_requirements p.manifest.policy_requirements input at weaker
        (rw (← same_name, ← b.same_requirements) h)

-- ===== src/Policy/Permission.antt =====
-- What `EvaluateAt` allows: the checks of internal/policy/policy.go against a description of a
-- permitted action that does not mention them.
use Prim.Native.String.{len}
use enterprise_security_reco.Prelude.{
  String, ◌≡◌, refl, ◌≢◌, ◌↔◌, ◌⊎◌, inl, inr, Bool, true, Option, none, some, List, [], ◌∷◌, arith,
  Memᴰ, contains_iff, pos, ◌≤ℤ◌, ◌==◌, eq_iff, Bool-cases,
}
use enterprise_security_reco.Strings.{is_empty, to_upper}
use enterprise_security_reco.Policy.{
  Policy, Risk, passive, low, moderate, high, forbidden, other, Requirements, Common, is_nil,
  method_allowed, validate_http_method, name_denial, requirement_denial, payload_denial,
  common_denial,
}

-- The risk needs no approval, or has the one that it needs.
abbrev pub RiskCleared : Policy → Risk → Bool → Type 0
RiskCleared p passive approved = Unit
RiskCleared p low approved = Unit
RiskCleared p moderate approved = (approved ≡ true) ⊎ (p.moderate_approved ≡ true)
RiskCleared p high approved = approved ≡ true
RiskCleared p forbidden approved = ⊥
RiskCleared p (other risk) approved = ⊥

-- One of the methods is the wanted one, upper case and lower case being the same.
pub data Offers (method : String) : List String → Type 0 where
  here : {m : String} {ms : List String} → to_upper m ≡ to_upper method → Offers method (m ∷ ms)
  there : {m : String} {ms : List String} → Offers method ms → Offers method (m ∷ ms)

-- What a decoded input asks for is granted by the policy.
abbrev pub Grants : Policy → Option Common → Type 0
Grants p none = Unit
Grants p (some c) =
    (c.headless ≡ true → p.headless_browser ≡ true)
    × (c.method ≢ "" → Offers c.method p.allowed_http_methods)

pub record NameCleared (p : Policy) (capability : String) : Type 0 where
  pub not_denied : ¬ Memᴰ capability p.denied_capabilities
  pub listed : (p.allowed_capabilities ≡ []) ⊎ Memᴰ capability p.allowed_capabilities

pub record RequirementsMet (p : Policy) (r : Requirements) : Type 0 where
  pub authentication : r.authentication ≡ true → p.authentication_usage ≡ true
  pub directory_fuzzing : r.directory_fuzzing ≡ true → p.directory_fuzzing ≡ true
  pub cross_origin : r.cross_origin ≡ true → p.cross_origin ≡ true
  pub intrusive_checks : r.intrusive_checks ≡ true → p.intrusive_checks ≡ true

Offers-of_allowed :
    (ms : List String) (method : String)
    → method_allowed ms (to_upper method) ≡ true
    → Offers method ms
unfolding method_allowed
Offers-of_allowed [] method h = cc
Offers-of_allowed (m ∷ ms) method h = elim (Bool-cases (to_upper m == to_upper method)) [
  | inl same ↦ here ((eq_iff _ _).0 same)
  | inr not_same ↦ there (Offers-of_allowed ms method (ground arith))
]

allowed_of_Offers :
    (ms : List String) (method : String)
    → Offers method ms
    → method_allowed ms (to_upper method) ≡ true
unfolding method_allowed
allowed_of_Offers [] method o = elim o [ ]
allowed_of_Offers (m ∷ ms) method (here e) = ground (arith, eq_iff (to_upper m) (to_upper method))
allowed_of_Offers (m ∷ ms) method (there o) = ground (arith, allowed_of_Offers ms method o)

is_nil_iff : (l : List String) → (is_nil l ≡ true) ↔ (l ≡ [])
is_nil_iff [] = (λ h. refl, λ h. refl)
is_nil_iff (x ∷ xs) = (λ h. cc, λ h. cc)

pub is_empty_iff : (s : String) → (is_empty s ≡ true) ↔ (s ≡ "")
unfolding is_empty
is_empty_iff String.[] = (λ h. refl, λ h. refl)
is_empty_iff (String.◌∷◌ c s) = (λ h. cc, λ h. cc)

pub name_denial-none_iff :
    (p : Policy) (capability : String) (risk : Risk)
    → (name_denial p capability risk ≡ none) ↔ ((risk ≢ forbidden) × NameCleared p capability)
unfolding name_denial
name_denial-none_iff p capability risk = (
  λ h. (
    ground arith,
    record {
      not_denied = λ m. ground (arith, (contains_iff p.denied_capabilities capability).1 m);
      listed = elim (Bool-cases (is_nil p.allowed_capabilities)) [
        | inl none_listed ↦ inl ((is_nil_iff p.allowed_capabilities).0 none_listed)
        | inr some_listed ↦ inr ((contains_iff p.allowed_capabilities capability).0 (ground arith))
      ];
    },
  ),
  λ h. ground (
    arith,
    h.1.not_denied,
    (contains_iff p.denied_capabilities capability).0,
    (contains_iff p.allowed_capabilities capability).1,
    (is_nil_iff p.allowed_capabilities).1,
  ),
)

pub requirement_denial-none_iff :
    (p : Policy) (r : Requirements) → (requirement_denial p r ≡ none) ↔ RequirementsMet p r
unfolding requirement_denial
requirement_denial-none_iff p r = (λ h. ground arith, λ h. ground arith)

pub common_denial-none_iff :
    (p : Policy) (c : Option Common) → (common_denial p c ≡ none) ↔ Grants p c
unfolding common_denial validate_http_method
common_denial-none_iff p none = (λ h. tt, λ h. refl)
common_denial-none_iff p (some c) = (
  λ h. (
    ground arith,
    λ named.
        Offers-of_allowed p.allowed_http_methods c.method
          (ground (arith, (is_empty_iff c.method).0)),
  ),
  λ h. ground (
    arith,
    (is_empty_iff c.method).0,
    (is_empty_iff c.method).1,
    λ (named : c.method ≢ ""). allowed_of_Offers p.allowed_http_methods c.method (h.1 named),
  ),
)

pub payload_denial-none_iff :
    (p : Policy) (input : String)
    → (payload_denial p input ≡ none)
      ↔ (pos 1 ≤ℤ p.maximum_payload_size → pos (len input) ≤ℤ p.maximum_payload_size)
unfolding payload_denial
payload_denial-none_iff p input = (λ h. ground arith, λ h. ground arith)

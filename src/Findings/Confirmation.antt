-- ===== src/Findings/Confirmation.antt =====
-- internal/findings/lifecycle.go: what stands behind a verdict of `Verify`.
use mathlib.Core.Path.{subst}
use enterprise_security_reco.Prelude.{
  sym, String, ◌≡◌, refl, ◌≢◌, Bool, true, false, ◌&&◌, not, Bool-cases, inl, inr, Option, none,
  some, List, [], ◌∷◌, Memᴰ, arith, ◌==◌, eq_iff, if◌then◌else◌, ◌⊎◌,
}
use enterprise_security_reco.Strings.{is_empty, to_lower}
use enterprise_security_reco.Findings.{
  verdict_confirmed, verdict_manual, VerificationInput, Location, contains_text, first, header,
  is_200, redirects_away, redirect_criteria, exposed_criteria, openapi_criteria, graphql_criteria,
  cors_criteria, conclude, verify,
}

abbrev pub markers : List String
markers = "private key" ∷ "database_password" ∷ "aws_access_key_id" ∷ []

module _ (parse_url : String → Option Location) (equal_fold : String → String → Bool) where
  -- The evidence that each playbook asks for; there is none for a missing authentication, or for a
  -- playbook of another name.
  pub data Evidence : String → VerificationInput → Type 0 where
    exposed_file :
        {input : VerificationInput} (marker : String)
        → Memᴰ marker markers
        → is_200 input.status_code ≡ true
        → contains_text (to_lower input.body) marker ≡ true
        → Evidence "exposed-file" input
    api_description :
        {input : VerificationInput} (word : String)
        → Memᴰ word ("\"openapi\"" ∷ "\"swagger\"" ∷ [])
        → is_200 input.status_code ≡ true
        → contains_text (to_lower input.body) word ≡ true
        → contains_text (to_lower input.body) "\"paths\"" ≡ true
        → Evidence "openapi" input
    schema :
        {input : VerificationInput}
        → is_200 input.status_code ≡ true
        → contains_text (to_lower input.body) "\"__schema\"" ≡ true
        → Evidence "graphql-introspection" input
    foreign_location :
        {input : VerificationInput} (from to : Location) (value : String)
        → parse_url input.url ≡ some from
        → Memᴰ value (header input "Location")
        → parse_url value ≡ some to
        → to.absolute ≡ true
        → equal_fold to.hostname from.hostname ≡ false
        → Evidence "open-redirect" input
    reflected :
        {input : VerificationInput}
        → is_empty (first (header input "X-Verification-Origin")) ≡ false
        → first (header input "X-Verification-Origin")
          ≡ first (header input "Access-Control-Allow-Origin")
        → Evidence "cors-reflection" input

  exposed-Evidence :
      (input : VerificationInput) → exposed_criteria input ≡ true → Evidence "exposed-file" input
  unfolding exposed_criteria
  exposed-Evidence input h =
      let ok' : is_200 input.status_code ≡ true = ground arith in
      elim (Bool-cases (contains_text (to_lower input.body) "private key")) [
        | inl key ↦ exposed_file "private key" (Memᴰ.head refl) ok' key
        | inr no_key ↦ elim (Bool-cases (contains_text (to_lower input.body) "database_password")) [
          | inl password ↦
              exposed_file "database_password" (Memᴰ.tail (Memᴰ.head refl)) ok' password
          | inr no_password ↦
              exposed_file "aws_access_key_id" (Memᴰ.tail (Memᴰ.tail (Memᴰ.head refl))) ok'
                (ground arith)
        ]
      ]

  openapi-Evidence :
      (input : VerificationInput) → openapi_criteria input ≡ true → Evidence "openapi" input
  unfolding openapi_criteria
  openapi-Evidence input h =
      let ok' : is_200 input.status_code ≡ true = ground arith in
      let paths : contains_text (to_lower input.body) "\"paths\"" ≡ true = ground arith in
      elim (Bool-cases (contains_text (to_lower input.body) "\"openapi\"")) [
        | inl first' ↦ api_description "\"openapi\"" (Memᴰ.head refl) ok' first' paths
        | inr second' ↦
            api_description "\"swagger\"" (Memᴰ.tail (Memᴰ.head refl)) ok' (ground arith) paths
      ]

  graphql-Evidence :
      (input : VerificationInput)
      → graphql_criteria input ≡ true
      → Evidence "graphql-introspection" input
  unfolding graphql_criteria
  graphql-Evidence input h = schema (ground arith) (ground arith)

  cors-Evidence :
      (input : VerificationInput) → cors_criteria input ≡ true → Evidence "cors-reflection" input
  unfolding cors_criteria
  cors-Evidence input h = reflected (ground arith) (
      (eq_iff (first (header input "X-Verification-Origin"))
          (first (header input "Access-Control-Allow-Origin"))).0
        (ground arith))

  -- A location that leads away from the host.
  record Away (host : String) (values : List String) : Type 0 where
    value : String
    to : Location
    listed : Memᴰ value values
    parsed : parse_url value ≡ some to
    absolute : to.absolute ≡ true
    foreign : equal_fold to.hostname host ≡ false

  later-Away : (host v : String) (vs : List String) → Away host vs → Away host (v ∷ vs)
  later-Away host v vs a = record {
    value = a.value;
    to = a.to;
    listed = Memᴰ.tail a.listed;
    parsed = a.parsed;
    absolute = a.absolute;
    foreign = a.foreign;
  }

  here-Away :
      (host v : String) (vs : List String) (loc : Option Location)
      → parse_url v ≡ loc
      → (elim loc [
        | none ↦ redirects_away parse_url equal_fold host vs
        | some to ↦
            if to.absolute && not (equal_fold to.hostname host)
            then true
            else redirects_away parse_url equal_fold host vs
      ])
        ≡ true
      → Away host (v ∷ vs) ⊎ (redirects_away parse_url equal_fold host vs ≡ true)
  here-Away host v vs none e h = inr h
  here-Away host v vs (some to) e h =
      elim (Bool-cases (to.absolute && not (equal_fold to.hostname host))) [
        | inl away ↦ inl (record {
          value = v;
          to = to;
          listed = Memᴰ.head refl;
          parsed = e;
          absolute = ground arith;
          foreign = ground arith;
        })
        | inr stays ↦ inr (rw stays at h)
      ]

  redirects-Away :
      (host : String) (values : List String)
      → redirects_away parse_url equal_fold host values ≡ true
      → Away host values
  unfolding redirects_away
  redirects-Away host [] h = cc
  redirects-Away host (v ∷ vs) h = elim (here-Away host v vs (parse_url v) refl h) [
    | inl a ↦ a
    | inr rest ↦ later-Away host v vs (redirects-Away host vs rest)
  ]

  redirect_from-Evidence :
      (input : VerificationInput) (from : Option Location)
      → parse_url input.url ≡ from
      → (elim from [
        | none ↦ false
        | some u ↦ redirects_away parse_url equal_fold u.hostname (header input "Location")
      ])
        ≡ true
      → Evidence "open-redirect" input
  redirect_from-Evidence input none e h = cc
  redirect_from-Evidence input (some from) e h =
      let a = redirects-Away from.hostname (header input "Location") h in
      foreign_location from a.to a.value e a.listed a.parsed a.absolute a.foreign

  conclude-confirmed :
      (playbook summary : String) (met : Bool)
      → (conclude playbook met verdict_confirmed summary).verdict ≡ verdict_confirmed
      → met ≡ true
  unfolding conclude
  conclude-confirmed playbook summary true h = refl
  conclude-confirmed playbook summary false h = cc

  named :
      (playbook name : String) (input : VerificationInput)
      → (playbook == name) ≡ true
      → Evidence name input
      → Evidence playbook input
  named playbook name input e evidence =
      subst (λ w. Evidence w input) (sym ((eq_iff playbook name).0 e)) evidence

  conclude_manual :
      (playbook summary : String) (met : Bool)
      → (conclude playbook met verdict_manual summary).verdict ≢ verdict_confirmed
  unfolding conclude
  conclude_manual playbook summary true h = cc
  conclude_manual playbook summary false h = cc

  -- A candidate is confirmed only with the evidence that its playbook asks for: so never for a
  -- missing authentication, which is left to a human, nor for a playbook that is not known.
  pub verify-Evidence :
      (playbook : String) (input : VerificationInput)
      → (verify parse_url equal_fold playbook input).verdict ≡ verdict_confirmed
      → Evidence playbook input
  unfolding verify
  verify-Evidence playbook input h = elim (Bool-cases (playbook == "exposed-file")) [
    | inl e ↦
        named playbook "exposed-file" input e
          (exposed-Evidence input (conclude-confirmed playbook _ _ (rw e at h)))
    | inr e₁ ↦ elim (Bool-cases (playbook == "openapi")) [
      | inl e ↦
          named playbook "openapi" input e
            (openapi-Evidence input (conclude-confirmed playbook _ _ (rw (e₁, e) at h)))
      | inr e₂ ↦ elim (Bool-cases (playbook == "graphql-introspection")) [
        | inl e ↦
            named playbook "graphql-introspection" input e
              (graphql-Evidence input (conclude-confirmed playbook _ _ (rw (e₁, e₂, e) at h)))
        | inr e₃ ↦ elim (Bool-cases (playbook == "open-redirect")) [
          | inl e ↦
              let met = conclude-confirmed playbook _ _ (rw (e₁, e₂, e₃, e) at h) in
              named playbook "open-redirect" input e (
                redirect_from-Evidence input (parse_url input.url) refl
                  (unfold redirect_criteria in met))
          | inr e₄ ↦ elim (Bool-cases (playbook == "cors-reflection")) [
            | inl e ↦ named playbook "cors-reflection" input e (
                cors-Evidence input (conclude-confirmed playbook _ _ (rw (e₁, e₂, e₃, e₄, e) at h)))
            | inr e₅ ↦ elim (Bool-cases (playbook == "missing-authentication")) [
              | inl e ↦
                  let manual = conclude_manual playbook _ _ (rw (e₁, e₂, e₃, e₄, e₅, e) at h) in
                  elim manual [ ]
              | inr e₆ ↦ let unknown = rw (e₁, e₂, e₃, e₄, e₅, e₆) at h in cc
            ]
          ]
        ]
      ]
    ]
  ]

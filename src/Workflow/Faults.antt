-- ===== src/Workflow/Faults.antt =====
-- internal/workflow/workflow.go: where `condition` faults.
use enterprise_security_reco.Prelude.{
  ◌<◌, String, ◌≡◌, refl, false, Bool-cases, inl, inr, Option, none, some, List, [], ◌∷◌, ◌==◌,
  eq_iff, lookup, length, arith, ◌↔◌,
}
use enterprise_security_reco.Strings.{is_empty, cut, split}
use enterprise_security_reco.Json.{Json}
use enterprise_security_reco.Workflow.{State, StepState}
use enterprise_security_reco.Workflow.Checks.{binding_source}
use enterprise_security_reco.Workflow.Condition.{
  holds, fault, nonempty_at, nonempty_output, check_kind, check_state, condition,
}

short_path :
    (parts : List String) (value : Json) → (nonempty_at parts value ≡ fault) ↔ (length parts < 2)
unfolding nonempty_at
short_path [] value = (λ h. omega arith, λ h. refl)
short_path (p ∷ []) value = (λ h. omega arith, λ h. refl)
short_path (p ∷ q ∷ parts) value =
    (λ h. cc, λ h. let never : ⊥ = omega (arith, h) in elim never [ ])

module _ (unmarshal : String → Option Json) where
  -- A condition of the kind `nonempty` on a step with an output that decodes, where the path to
  -- the value has no point in it.
  pub record ShortPath (expr : String) (state : State) : Type 0 where
    pub written : is_empty expr ≡ false
    pub kind : (cut b':' expr).0 ≡ "nonempty"
    pub source : StepState
    pub found : lookup (binding_source (cut b':' expr).1) state.steps ≡ some source
    pub value : Json
    pub decoded : unmarshal source.run.output ≡ some value
    pub short : length (split b'.' (cut b':' expr).1) < 2

  Decoded : String → String → Type 0
  Decoded reference output =
      (value : Json) × (unmarshal output ≡ some value) × (length (split b'.' reference) < 2)

  output-fault :
      (reference output : String) (v : Option Json)
      → unmarshal output ≡ v
      → (elim v [ none ↦ holds false | some value ↦ nonempty_at (split b'.' reference) value ])
        ≡ fault
      → Decoded reference output
  unfolding Decoded
  output-fault reference output none e h = cc
  output-fault reference output (some value) e h =
      (value, e, (short_path (split b'.' reference) value).0 h)

  kind-fault :
      (kind reference : String) (s : StepState)
      → check_kind unmarshal kind reference s ≡ fault
      → (kind ≡ "nonempty") × Decoded reference s.run.output
  unfolding check_kind nonempty_output
  kind-fault kind reference s h = elim (Bool-cases (kind == "success")) [
    | inl e ↦ cc (rw e at h)
    | inr e₁ ↦ elim (Bool-cases (kind == "changed")) [
      | inl e ↦ cc (rw (e₁, e) at h)
      | inr e₂ ↦ elim (Bool-cases (kind == "nonempty")) [
        | inl e ↦ (
          (eq_iff kind "nonempty").0 e,
          output-fault reference s.run.output (unmarshal s.run.output) refl (rw (e₁, e₂, e) at h),
        )
        | inr e₃ ↦ cc (rw (e₁, e₂, e₃) at h)
      ]
    ]
  ]

  state-fault :
      (expr : String) (state : State) (s : Option StepState)
      → is_empty expr ≡ false
      → lookup (binding_source (cut b':' expr).1) state.steps ≡ s
      → check_state unmarshal (cut b':' expr).0 (cut b':' expr).1 s ≡ fault
      → ShortPath expr state
  unfolding check_state Decoded
  state-fault expr state none written e h = cc
  state-fault expr state (some s) written e h =
      let (kind, (value, decoded, short)) = kind-fault (cut b':' expr).0 (cut b':' expr).1 s h in
      record {
        written = written;
        kind = kind;
        source = s;
        found = e;
        value = value;
        decoded = decoded;
        short = short;
      }

  output_faults :
      (reference output : String) (value : Json)
      → unmarshal output ≡ some value
      → length (split b'.' reference) < 2
      → nonempty_output unmarshal reference output ≡ fault
  unfolding nonempty_output
  output_faults reference output value e short =
      rw (e, nonempty_output) ((short_path (split b'.' reference) value).1 short)

  kind_faults :
      (reference : String) (s : StepState) (value : Json)
      → unmarshal s.run.output ≡ some value
      → length (split b'.' reference) < 2
      → check_kind unmarshal "nonempty" reference s ≡ fault
  unfolding check_kind
  kind_faults reference s value e short = output_faults reference s.run.output value e short

  -- The evaluation of a condition panics exactly when it is of the kind `nonempty`, its source has
  -- a state whose output decodes, and its path has fewer than two parts.
  pub condition-fault_iff :
      (expr : String) (state : State)
      → (condition unmarshal expr state ≡ fault) ↔ ShortPath expr state
  unfolding condition check_state
  condition-fault_iff expr state = (
    λ h. elim (Bool-cases (is_empty expr)) [
      | inl empty ↦ cc (rw empty at h)
      | inr written ↦ state-fault expr state _ written refl (rw written at h)
    ],
    λ p.
        rw (p.written, p.found, p.kind)
          (kind_faults (cut b':' expr).1 p.source p.value p.decoded p.short),
  )

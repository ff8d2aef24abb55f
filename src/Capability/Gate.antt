-- ===== src/Capability/Gate.antt =====
-- The registry as a gate: nothing of a capability runs before the policy has allowed the request
-- and the decision has been recorded.
use enterprise_security_reco.Prelude.{
  String, ◌≡◌, refl, ◌≢◌, ◌↔◌, ◌⊎◌, Option, none, some, arith, Option-cases, inl, inr, ap, ◌∙◌,
}
use enterprise_security_reco.Errors.{Error, wrapped, policy_refused}
use enterprise_security_reco.Policy.{Common, Evaluation, allow}
use enterprise_security_reco.Policy.Decide.{Permitted, evaluate_at-allow_iff}
use enterprise_security_reco.Capability.{
  Registry, Request, Capability, Result, Either, ok, err, empty_result, get, gate, decision_for,
  audit_of, record_decision, authorize, run_validated, execute_authorized, execute,
}

module _ {W : Type 0} (req : Request W) where
  validated_success :
      (c : Capability W) (m : Option Error × W) (w : W) (result : Result)
      → run_validated c req m ≡ ((result, none), w)
      → (w' : W) × (m ≡ (none, w')) × (c.execute req w' ≡ ((result, none), w))
  unfolding run_validated
  validated_success c (some e, v) w result h = cc
  validated_success c (none, v) w result h = (v, refl, h)

  authorized_success :
      (a : Either (Capability W) × W) (w : W) (result : Result)
      → execute_authorized req a ≡ ((result, none), w)
      → (c : Capability W) × (w₁ w₂ : W) × (a ≡ (ok c, w₁))
        × (c.validate req w₁ ≡ (none, w₂))
        × (c.execute req w₂ ≡ ((result, none), w))
  unfolding execute_authorized
  authorized_success (err e, v) w result h = cc
  authorized_success (ok c, v) w result h =
      let (w₂, valid, ran) = validated_success c (c.validate req v) w result h in
      (c, v, w₂, refl, valid, ran)

  gate_refuses :
      (c : Capability W) (e : Evaluation) (m : Option Error × W)
      → (e.decision ≢ allow) ⊎ ((f : Error) × (m.0 ≡ some f))
      → (x : Error) × (gate c e m ≡ (err x, m.1))
  unfolding gate
  gate_refuses c e (some f, w) h = (wrapped "persist policy decision" f, refl)
  gate_refuses c e (none, w) (inr (f, g)) = cc
  gate_refuses c e (none, w) (inl refused) = (policy_refused e.decision e.reason, ground arith)

module _ {W : Type 0} (decode_common : String → Option Common) (r : Registry W)
    (req : Request W) where
  -- A request that the registry has authorized: the capability that it names, permitted by the
  -- policy at the time of the request, and the state after the audit of that decision.
  pub record Authorized (w : W) (c : Capability W) (w' : W) : Type 0 where
    pub found : get r req.action.capability ≡ some c
    pub permitted :
        Permitted decode_common req.policy c.manifest.name c.manifest.risk req.approved
          c.manifest.policy_requirements req.action.input
          (r.now w)
    pub recorded : record_decision req (audit_of decode_common r c req w) w ≡ (none, w')

  decided :
      (c c' : Capability W) (e : Evaluation) (w w' : W)
      → gate c e (none, w) ≡ (ok c', w')
      → (e.decision ≡ allow) × (w ≡ w') × (c ≡ c')
  unfolding gate
  decided c c' e w w' h = ground arith

  gate-ok :
      (c c' : Capability W) (e : Evaluation) (m : Option Error × W) (w' : W)
      → gate c e m ≡ (ok c', w')
      → (e.decision ≡ allow) × (m ≡ (none, w')) × (c ≡ c')
  unfolding gate
  gate-ok c c' e (some f, w) w' h = cc
  gate-ok c c' e (none, w) w' h =
      let (allowed, same_state, same) = decided c c' e w w' h in
      (allowed, ap (λ (v : W). (none, v)) same_state, same)

  decision_for-allow_iff :
      (w : W) (c : Capability W)
      → ((decision_for decode_common r c req w).decision ≡ allow)
        ↔ Permitted decode_common req.policy c.manifest.name c.manifest.risk req.approved
            c.manifest.policy_requirements req.action.input
            (r.now w)
  unfolding decision_for
  decision_for-allow_iff w c =
      evaluate_at-allow_iff decode_common req.policy c.manifest.name c.manifest.risk req.approved
        c.manifest.policy_requirements req.action.input (r.now w)

  pub authorize-ok :
      (w w' : W) (c : Capability W)
      → authorize decode_common r req w ≡ (ok c, w')
      → Authorized w c w'
  unfolding authorize
  authorize-ok w w' c h = elim (Option-cases (get r req.action.capability)) [
    | inl missing ↦ cc (rw (missing, authorize) at h)
    | inr (d, found) ↦
        let (allowed, recorded, same) = gate-ok d c _ _ w' (rw (found, authorize) at h) in
        record {
          found = found ∙ ap some same;
          permitted = rw (← same) ((decision_for-allow_iff w d).0 allowed);
          recorded = rw (← same) recorded;
        }
  ]

  authorize_stops :
      (w : W) (c : Capability W)
      → get r req.action.capability ≡ some c
      → (¬ Permitted decode_common req.policy c.manifest.name c.manifest.risk req.approved
          c.manifest.policy_requirements req.action.input
          (r.now w))
        ⊎ ((f : Error) × ((record_decision req (audit_of decode_common r c req w) w).0 ≡ some f))
      → (e : Error) × (authorize decode_common r req w
          ≡ (err e, (record_decision req (audit_of decode_common r c req w) w).1))
  unfolding authorize
  authorize_stops w c found (inl refused) =
      rw (found, authorize)
        (gate_refuses req c (decision_for decode_common r c req w) _
          (inl (λ allowed. refused ((decision_for-allow_iff w c).0 allowed))))
  authorize_stops w c found (inr failed) =
      rw (found, authorize)
        (gate_refuses req c (decision_for decode_common r c req w) _ (inr failed))

  -- A run without an error: the request was authorized, which includes the audit, the capability
  -- found the request valid after that, and the result is the capability's own.
  pub execute_success :
      (w w' : W) (result : Result)
      → execute decode_common r req w ≡ ((result, none), w')
      → (c : Capability W) × (w₁ w₂ : W) × Authorized w c w₁
        × (c.validate req w₁ ≡ (none, w₂))
        × (c.execute req w₂ ≡ ((result, none), w'))
  unfolding execute
  execute_success w w' result h =
      let (c, w₁, w₂, authorized, valid, ran) =
        authorized_success req (authorize decode_common r req w) w' result h in
      (c, w₁, w₂, authorize-ok w w₁ c authorized, valid, ran)

  -- A request that the policy does not permit, or whose decision the audit fails to record, ends
  -- with an error and an empty result, and the audit alone has touched the state: nothing of the
  -- capability has run.
  pub execute_stops :
      (w : W) (c : Capability W)
      → get r req.action.capability ≡ some c
      → (¬ Permitted decode_common req.policy c.manifest.name c.manifest.risk req.approved
          c.manifest.policy_requirements req.action.input
          (r.now w))
        ⊎ ((f : Error) × ((record_decision req (audit_of decode_common r c req w) w).0 ≡ some f))
      → (e : Error) × (execute decode_common r req w
          ≡ ((empty_result, some e), (record_decision req (audit_of decode_common r c req w) w).1))
  unfolding execute execute_authorized
  execute_stops w c found h =
      let stop = authorize_stops w c found h in (stop.0, ap (execute_authorized req) stop.1)

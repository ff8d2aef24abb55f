-- ===== src/Policy/Decide.antt =====
-- The decision of internal/policy/policy.go as a whole: what is allowed, what an approval can
-- change, and what stricter requirements can change.
use Prim.Native.String.{len}
use enterprise_security_reco.Prelude.{
  String, ◌≡◌, refl, ◌≢◌, ◌↔◌, Bool, true, false, Option, none, some, arith, pos, ◌≤ℤ◌, ℕ, suc,
  List, [], ◌∷◌, ◌⊎◌, inl, inr, Bool-cases,
}
use enterprise_security_reco.Policy.{
  Policy, Risk, passive, low, moderate, high, forbidden, other, allow, deny, Requirements, Common,
  window_denial, by_risk, input_denial, evaluate_at, deny_or, ◌<|>◌, Reason, Evaluation,
}
use enterprise_security_reco.Policy.Window.{
  Instant, ScanWindow, WindowError, Verdict, within, Parsed, refused, window, parse_scan_window,
  window_contains, windows_from, within_scan_windows,
}
use enterprise_security_reco.Policy.Permission.{
  RiskCleared, Grants, NameCleared, RequirementsMet, name_denial-none_iff,
  requirement_denial-none_iff, common_denial-none_iff, payload_denial-none_iff, is_empty_iff,
}

<|>-none_iff : (a b : Option Reason) → ((a <|> b) ≡ none) ↔ ((a ≡ none) × (b ≡ none))
<|>-none_iff none b = (λ h. (refl, h), λ h. h.1)
<|>-none_iff (some r) b = (λ h. cc, λ h. h.0)

deny_or-allow_iff :
    (d : Option Reason) (e : Evaluation)
    → ((deny_or d e).decision ≡ allow) ↔ ((d ≡ none) × (e.decision ≡ allow))
deny_or-allow_iff none e = (λ h. (refl, h), λ h. h.1)
deny_or-allow_iff (some r) e = (λ h. cc, λ h. cc)

window_denial-none_iff : (v : Verdict) → (window_denial v ≡ none) ↔ (v ≡ within)
unfolding window_denial
window_denial-none_iff v = (λ h. ground arith, λ h. ground arith)

-- A window of the list contains the time, and each text before it is a window too; those after it
-- are not read.
pub data Within : List String → Instant → Type 0 where
  here :
      (raw : String) (ws : List String) (at : Instant) (w : ScanWindow)
      → parse_scan_window raw ≡ window w
      → window_contains w at ≡ true
      → Within (raw ∷ ws) at
  later :
      (raw : String) (ws : List String) (at : Instant) (w : ScanWindow)
      → parse_scan_window raw ≡ window w
      → Within ws at
      → Within (raw ∷ ws) at

Parsed-cases :
    (p : Parsed) → ((e : WindowError) × (p ≡ refused e)) ⊎ ((w : ScanWindow) × (p ≡ window w))
Parsed-cases (window w) = inr (w, refl)
Parsed-cases (refused e) = inl (e, refl)

windows_from-Within :
    (ws : List String) (index : ℕ) (at : Instant) → windows_from index ws at ≡ within → Within ws at
unfolding windows_from
windows_from-Within [] index at h = cc
windows_from-Within (raw ∷ ws) index at h = elim (Parsed-cases (parse_scan_window raw)) [
  | inl (e, bad) ↦ let h' = rw (bad, windows_from) at h in cc
  | inr (w, good) ↦ elim (Bool-cases (window_contains w at)) [
    | inl yes' ↦ here raw ws at w good yes'
    | inr no' ↦
        later raw ws at w good
          (windows_from-Within ws (suc index) at (rw (good, no', windows_from) at h))
  ]
]

Within-windows_from :
    (ws : List String) (index : ℕ) (at : Instant) → Within ws at → windows_from index ws at ≡ within
unfolding windows_from
Within-windows_from [] index at x = elim x [ ]
Within-windows_from (raw ∷ ws) index at (here _ _ _ w good now) = rw (good, now, windows_from) refl
Within-windows_from (raw ∷ ws) index at (later _ _ _ w good rest) =
    let found = Within-windows_from ws (suc index) at rest in
    elim (Bool-cases (window_contains w at)) [
      | inl yes' ↦ rw (good, yes', windows_from) refl
      | inr no' ↦ rw (good, no', windows_from) found
    ]

within_scan_windows_iff :
    (ws : List String) (at : Instant)
    → (within_scan_windows ws at ≡ within) ↔ ((ws ≡ []) ⊎ Within ws at)
unfolding within_scan_windows
within_scan_windows_iff [] at = (λ h. inl refl, λ h. refl)
within_scan_windows_iff (raw ∷ ws) at = (
  λ h. inr (windows_from-Within (raw ∷ ws) 0 at h),
  λ h. elim h [ inl none' ↦ cc | inr found ↦ Within-windows_from (raw ∷ ws) 0 at found ],
)

by_risk-allow_iff :
    (p : Policy) (risk : Risk) (approved : Bool)
    → ((by_risk p risk approved).decision ≡ allow) ↔ RiskCleared p risk approved
unfolding by_risk
by_risk-allow_iff p passive approved = (λ h. tt, λ h. refl)
by_risk-allow_iff p low approved = (λ h. tt, λ h. refl)
by_risk-allow_iff p moderate approved = (λ h. ground arith, λ h. ground arith)
by_risk-allow_iff p high approved = (λ h. ground arith, λ h. ground arith)
by_risk-allow_iff p forbidden approved = (λ h. cc, λ h. absurd h)
by_risk-allow_iff p (other r) approved = (λ h. cc, λ h. absurd h)

cleared_not_forbidden :
    (p : Policy) (approved : Bool) {risk : Risk}
    → risk ≡ forbidden
    → RiskCleared p risk approved
    → ⊥
cleared_not_forbidden p approved e c = rw e at c

deny_or-deny_iff :
    (d : Option Reason) (e f : Evaluation)
    → (e.decision ≡ deny) ↔ (f.decision ≡ deny)
    → ((deny_or d e).decision ≡ deny) ↔ ((deny_or d f).decision ≡ deny)
deny_or-deny_iff none e f h = h
deny_or-deny_iff (some r) e f h = (λ _. refl, λ _. refl)

by_risk-deny_iff :
    (p : Policy) (risk : Risk)
    → ((by_risk p risk true).decision ≡ deny) ↔ ((by_risk p risk false).decision ≡ deny)
unfolding by_risk
by_risk-deny_iff p risk = (λ h. ground arith, λ h. ground arith)

-- Each behaviour of the first is one of the second.
pub record Weaker (r' r : Requirements) : Type 0 where
  pub authentication : r'.authentication ≡ true → r.authentication ≡ true
  pub directory_fuzzing : r'.directory_fuzzing ≡ true → r.directory_fuzzing ≡ true
  pub cross_origin : r'.cross_origin ≡ true → r.cross_origin ≡ true
  pub intrusive_checks : r'.intrusive_checks ≡ true → r.intrusive_checks ≡ true

module _ (decode_common : String → Option Common) where
  -- An action that the policy permits, said without the order of the checks.
  pub record Permitted (p : Policy) (capability : String) (risk : Risk) (approved : Bool)
      (r : Requirements) (input : String) (at : Instant) : Type 0 where
    pub name : NameCleared p capability
    pub scan_window : (p.scan_windows ≡ []) ⊎ Within p.scan_windows at
    pub requirements : RequirementsMet p r
    pub payload : pos 1 ≤ℤ p.maximum_payload_size → pos (len input) ≤ℤ p.maximum_payload_size
    pub granted : input ≢ "" → Grants p (decode_common input)
    pub cleared : RiskCleared p risk approved

  input_denial-none_iff :
      (p : Policy) (input : String)
      → (input_denial decode_common p input ≡ none) ↔ (input ≢ "" → Grants p (decode_common input))
  unfolding input_denial
  input_denial-none_iff p input = (
    λ h named.
        (common_denial-none_iff p (decode_common input)).0 (ground (arith, (is_empty_iff input).0)),
    λ h. ground (
      arith,
      (is_empty_iff input).1,
      (is_empty_iff input).0,
      λ (named : input ≢ ""). (common_denial-none_iff p (decode_common input)).1 (h named),
    ),
  )

  -- `EvaluateAt` allows an action exactly when the policy permits it. Of its scan windows, if it has
  -- any, one must contain the time, and those that stand before this one be well-formed.
  pub evaluate_at-allow_iff :
      (p : Policy) (capability : String) (risk : Risk) (approved : Bool) (r : Requirements)
      (input : String) (at : Instant)
      → ((evaluate_at decode_common p capability risk approved r input at).decision ≡ allow)
        ↔ Permitted p capability risk approved r input at
  unfolding evaluate_at
  evaluate_at-allow_iff p capability risk approved r input at = (
    λ h.
        let (nd, cleared) = (deny_or-allow_iff _ _).0 h in
        let (n, rest) = (<|>-none_iff _ _).0 nd in
        let (w, rest') = (<|>-none_iff _ _).0 rest in
        let (q, rest'') = (<|>-none_iff _ _).0 rest' in
        let (s, i) = (<|>-none_iff _ _).0 rest'' in
        record {
          name = ((name_denial-none_iff p capability risk).0 n).1;
          scan_window = (within_scan_windows_iff _ _).0 ((window_denial-none_iff _).0 w);
          requirements = (requirement_denial-none_iff p r).0 q;
          payload = (payload_denial-none_iff p input).0 s;
          granted = (input_denial-none_iff p input).0 i;
          cleared = (by_risk-allow_iff p risk approved).0 cleared;
        },
    λ h. (deny_or-allow_iff _ _).1 (
      (<|>-none_iff _ _).1 (
        (name_denial-none_iff p capability risk).1
            ((λ e. cleared_not_forbidden p approved e h.cleared), h.name),
        (<|>-none_iff _ _).1 (
          (window_denial-none_iff _).1 ((within_scan_windows_iff _ _).1 h.scan_window),
          (<|>-none_iff _ _).1 (
            (requirement_denial-none_iff p r).1 h.requirements,
            (<|>-none_iff _ _).1 (
              (payload_denial-none_iff p input).1 h.payload,
              (input_denial-none_iff p input).1 h.granted,
            ),
          ),
        ),
      ),
      (by_risk-allow_iff p risk approved).1 h.cleared,
    ),
  )

  -- An approval turns no denial into anything else, and creates none: whether the action is
  -- denied does not depend on it.
  pub deny_ignores_approval :
      (p : Policy) (capability : String) (risk : Risk) (r : Requirements) (input : String)
      (at : Instant)
      → ((evaluate_at decode_common p capability risk true r input at).decision ≡ deny)
        ↔ ((evaluate_at decode_common p capability risk false r input at).decision ≡ deny)
  unfolding evaluate_at
  deny_ignores_approval p capability risk r input at =
      deny_or-deny_iff _ _ _ (by_risk-deny_iff p risk)

  -- An action that is allowed under some requirements is allowed under weaker ones too, of which
  -- each restricted behaviour is one of the first.
  pub evaluate_at-allow_weaken :
      (p : Policy) (capability : String) (risk : Risk) (approved : Bool) (r r' : Requirements)
      (input : String) (at : Instant)
      → Weaker r' r
      → (evaluate_at decode_common p capability risk approved r input at).decision ≡ allow
      → (evaluate_at decode_common p capability risk approved r' input at).decision ≡ allow
  evaluate_at-allow_weaken p capability risk approved r r' input at weaker h =
      let permitted = (evaluate_at-allow_iff p capability risk approved r input at).0 h in
      (evaluate_at-allow_iff p capability risk approved r' input at).1 (record {
        name = permitted.name;
        scan_window = permitted.scan_window;
        requirements = record {
          authentication = λ e. permitted.requirements.authentication (weaker.authentication e);
          directory_fuzzing =
              λ e. permitted.requirements.directory_fuzzing (weaker.directory_fuzzing e);
          cross_origin = λ e. permitted.requirements.cross_origin (weaker.cross_origin e);
          intrusive_checks =
              λ e. permitted.requirements.intrusive_checks (weaker.intrusive_checks e);
        };
        payload = permitted.payload;
        granted = permitted.granted;
        cleared = permitted.cleared;
      })

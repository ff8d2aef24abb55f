-- ===== src/Findings/Lifecycle.antt =====
-- internal/findings/lifecycle.go: the histories that `Transition` allows.
use enterprise_security_reco.Prelude.{
  ℕ, suc, ◌≤◌, ◌≡◌, refl, true, List, [], ◌∷◌, length, arith, ap,
}
use enterprise_security_reco.Findings.{
  CandidateStatus, new, queued, verifying, confirmed, rejected, informational, manual_review,
  transition,
}

-- Each status of the history follows the one before it by an allowed transition.
abbrev pub Legal : CandidateStatus → List CandidateStatus → Type 0
Legal from [] = Unit
Legal from (to ∷ history) = (transition from to ≡ true) × Legal to history

abbrev pub last_of : CandidateStatus → List CandidateStatus → CandidateStatus
last_of from [] = from
last_of from (to ∷ history) = last_of to history

-- How many transitions a status can be from an end.
abbrev pub remaining : CandidateStatus → ℕ
remaining new = 3
remaining queued = 2
remaining verifying = 1
remaining other = 0

transition-remaining :
    (from to : CandidateStatus) → transition from to ≡ true → suc (remaining to) ≤ remaining from
unfolding transition
transition-remaining from to h = ground arith

-- From any status a candidate makes at most as many transitions as its status has left: three
-- from new, two from queued, one from verifying and none from the others.
pub Legal-length :
    (from : CandidateStatus) (history : List CandidateStatus)
    → Legal from history
    → length history ≤ remaining from
Legal-length from [] legal = omega arith
Legal-length from (to ∷ history) legal =
    omega (arith, transition-remaining from to legal.0, Legal-length to history legal.1)

ended :
    (from : CandidateStatus) (history : List CandidateStatus)
    → Legal from history
    → remaining from ≡ 0
    → history ≡ []
ended from [] legal e = refl
ended from (to ∷ history) legal e =
    let never : ⊥ = omega (arith, transition-remaining from to legal.0, e) in elim never [ ]

confirmed_from_verifying :
    (history : List CandidateStatus)
    → Legal verifying history
    → last_of verifying history ≡ confirmed
    → history ≡ confirmed ∷ []
unfolding transition
confirmed_from_verifying [] legal h = cc
confirmed_from_verifying (new ∷ history) legal h = cc (legal.0)
confirmed_from_verifying (queued ∷ history) legal h = cc (legal.0)
confirmed_from_verifying (verifying ∷ history) legal h = cc (legal.0)
confirmed_from_verifying (confirmed ∷ history) legal h =
    ap (λ w. confirmed ∷ w) (ended confirmed history legal.1 refl)
confirmed_from_verifying (rejected ∷ history) legal h =
    let e = ended rejected history legal.1 refl in cc (rw e at h)
confirmed_from_verifying (informational ∷ history) legal h = cc (legal.0)
confirmed_from_verifying (manual_review ∷ history) legal h =
    let e = ended manual_review history legal.1 refl in cc (rw e at h)

confirmed_from_queued :
    (history : List CandidateStatus)
    → Legal queued history
    → last_of queued history ≡ confirmed
    → history ≡ verifying ∷ confirmed ∷ []
unfolding transition
confirmed_from_queued [] legal h = cc
confirmed_from_queued (new ∷ history) legal h = cc (legal.0)
confirmed_from_queued (queued ∷ history) legal h = cc (legal.0)
confirmed_from_queued (verifying ∷ history) legal h =
    ap (λ w. verifying ∷ w) (confirmed_from_verifying history legal.1 h)
confirmed_from_queued (confirmed ∷ history) legal h = cc (legal.0)
confirmed_from_queued (rejected ∷ history) legal h = cc (legal.0)
confirmed_from_queued (informational ∷ history) legal h = cc (legal.0)
confirmed_from_queued (manual_review ∷ history) legal h = cc (legal.0)

-- A new candidate ends as confirmed in one way alone: it was queued, then verified, then confirmed.
pub Legal-confirmed :
    (history : List CandidateStatus)
    → Legal new history
    → last_of new history ≡ confirmed
    → history ≡ queued ∷ verifying ∷ confirmed ∷ []
unfolding transition
Legal-confirmed [] legal h = cc
Legal-confirmed (new ∷ history) legal h = cc (legal.0)
Legal-confirmed (queued ∷ history) legal h =
    ap (λ w. queued ∷ w) (confirmed_from_queued history legal.1 h)
Legal-confirmed (verifying ∷ history) legal h = cc (legal.0)
Legal-confirmed (confirmed ∷ history) legal h = cc (legal.0)
Legal-confirmed (rejected ∷ history) legal h = cc (legal.0)
Legal-confirmed (informational ∷ history) legal h =
    let e = ended informational history legal.1 refl in cc (rw e at h)
Legal-confirmed (manual_review ∷ history) legal h =
    let e = ended manual_review history legal.1 refl in cc (rw e at h)

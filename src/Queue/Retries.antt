-- ===== src/Queue/Retries.antt =====
-- How often a job is tried again, and after how long.
use mathlib.Core.Path.{subst}
use native.Mathlib.Nat.{mul-le-mul_left}
use enterprise_security_reco.Prelude.{
  ℕ, zero, suc, ◌+◌, ◌*◌, ◌-◌, ◌^◌, ◌≤◌, ◌<◌, ◌≡◌, refl, sym, ◌∙◌, ap, true, not, some, arith, ltb,
  ℤ, pos, ltb_ℤ,
}
use enterprise_security_reco.Workflow.Attempts.{int64}
use enterprise_security_reco.Queue.{Streams, Job}
use enterprise_security_reco.Queue.Operations.{
  next_attempt, shift_of, times_int64, tried, tries_again,
}

int64-small : (n : ℕ) → n < 2 ^ 63 → int64 n ≡ pos n
unfolding int64
int64-small n h = ground arith

-- A job after a number of failures.
abbrev pub failures : ℕ → Job → Job
failures zero j = j
failures (suc k) j = tried (failures k j)

failures-attempt :
    (k : ℕ) (j : Job) → j.attempt ≡ pos 0 → k < 2 ^ 63 → (failures k j).attempt ≡ pos k
unfolding next_attempt
failures-attempt zero j h small = h
failures-attempt (suc k) j h small =
    let before = failures-attempt k j h (omega (arith, small)) in
    ap next_attempt before ∙ int64-small (suc k) small

within-limit :
    (limit attempt : ℤ) (k max : ℕ)
    → limit ≡ pos max
    → attempt ≡ pos (suc k)
    → not (ltb_ℤ limit attempt) ≡ ltb k max
within-limit limit attempt k max l a = rw (l, a) (ground arith)

module _ {W : Type 0} (s : Streams W) where
  -- A job that starts with no attempts is tried again after as many failures as the queue has
  -- retries, and after no more, if each failure may be retried; there are fewer than 2^63 of them.
  pub failures-tries_again :
      (k max : ℕ) (j : Job)
      → j.attempt ≡ pos 0
      → s.max_retries ≡ pos max
      → suc k < 2 ^ 63
      → tries_again s (failures (suc k) j) true ≡ ltb k max
  unfolding tries_again
  failures-tries_again k max j new retries small =
      within-limit s.max_retries (failures (suc k) j).attempt k max retries
        (failures-attempt (suc k) j new small)

pow-grows : (d k m : ℕ) → m ≡ d + k → 2 ^ k ≤ 2 ^ m
pow-grows zero k m e =
    let same : m ≡ k = omega (arith, e) in subst (λ w. 2 ^ k ≤ 2 ^ w) (sym same) (omega arith)
pow-grows (suc d) k m e =
    let below = pow-grows d k (d + k) refl in
    let same : m ≡ suc (d + k) = omega (arith, e) in
    subst (λ w. 2 ^ k ≤ 2 ^ w) (sym same) (omega (arith, below))

-- The delay before a job is tried again is the base times two to the shift that `Fail` takes for its
-- attempt, at most 1024 times the base, and never wraps, if the base is below 2^53 nanoseconds.
pub times_int64-delay :
    (n base shift : ℕ)
    → shift_of (pos (suc n)) ≡ some shift
    → base < 2 ^ 53
    → (times_int64 (pos base) (2 ^ shift) ≡ pos (base * 2 ^ shift))
      × (base * 2 ^ shift ≤ base * 1024)
unfolding shift_of times_int64
times_int64-delay n base shift h small =
    let few : shift ≤ 10 = ground (arith, h) in
    let few' : 2 ^ shift ≤ 1024 = pow-grows (10 - shift) shift 10 (omega (arith, few)) in
    let most : base * 2 ^ shift ≤ base * 1024 = mul-le-mul_left base few' in
    (int64-small (base * 2 ^ shift) (omega (arith, most, small)), most)

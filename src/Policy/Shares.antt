-- ===== src/Policy/Shares.antt =====
-- The slices of a program's budgets that the steps of one wave receive.
use enterprise_security_reco.Prelude.{
  ℕ, zero, suc, ◌*◌, ◌/◌, ◌≤◌, ◌<◌, arith, ℤ, pos, negsuc, pos_part, ◌≤ℤ◌, ltb, false, ◌≡◌,
}
use enterprise_security_reco.Policy.{
  Policy, share, parallel_share, at_least_one, program_parallelism,
}

-- The parts of a positive budget of at least one for each fit in it together.
share-fits :
    (value : ℤ) (parts : ℕ)
    → 0 < parts
    → (0 < pos_part value → parts ≤ pos_part value)
    → parts * pos_part (share value parts) ≤ pos_part value
unfolding share
share-fits (negsuc n) parts h k = omega arith
share-fits (pos zero) parts h k = omega arith
share-fits (pos (suc n)) parts h k = ground (arith, whole)
  where
    whole : parts * (suc n / parts) ≤ suc n
    whole = omega arith

share_keeps_one : (value : ℤ) (parts : ℕ) → pos 1 ≤ℤ value → pos 1 ≤ℤ share value parts
unfolding share
share_keeps_one (negsuc n) parts h = h
share_keeps_one (pos zero) parts h = h
share_keeps_one (pos (suc n)) parts h = ground arith

parallelism_le :
    (p : Policy)
    → (0 < pos_part p.concurrency → program_parallelism p ≤ pos_part p.concurrency)
      × (0 < pos_part p.rate_limit → program_parallelism p ≤ pos_part p.rate_limit)
unfolding program_parallelism at_least_one
parallelism_le p = (λ h. ground arith, λ h. ground arith)

-- The steps of a wave that is no wider than `ProgramParallelism` never ask together for more than
-- the program's concurrency and rate, whatever these are, and no step's share of a budget of at
-- least one falls below one.
pub parallel_share-fits :
    (p : Policy) (n : ℕ)
    → n ≤ program_parallelism p
    → (n * pos_part (parallel_share p n).concurrency ≤ pos_part p.concurrency)
      × (n * pos_part (parallel_share p n).rate_limit ≤ pos_part p.rate_limit)
      × (pos 1 ≤ℤ p.concurrency → pos 1 ≤ℤ (parallel_share p n).concurrency)
      × (pos 1 ≤ℤ p.rate_limit → pos 1 ≤ℤ (parallel_share p n).rate_limit)
unfolding parallel_share
parallel_share-fits p zero h = (omega arith, omega arith, λ k. k, λ k. k)
parallel_share-fits p (suc zero) h = (omega arith, omega arith, λ k. k, λ k. k)
parallel_share-fits p (suc (suc n)) h = rw wide (
  share-fits p.concurrency (suc (suc n)) (omega arith) (λ k. omega (arith, (parallelism_le p).0 k)),
  share-fits p.rate_limit (suc (suc n)) (omega arith) (λ k. omega (arith, (parallelism_le p).1 k)),
  share_keeps_one p.concurrency (suc (suc n)),
  share_keeps_one p.rate_limit (suc (suc n)),
)
  where
    wide : ltb (suc (suc n)) 2 ≡ false
    wide = ground arith

-- ===== src/Errors.antt =====
-- Go's `error` values, as far as the code tells them apart. The texts that `fmt.Errorf` formats
-- are kept as their parts.
use enterprise_security_reco.Prelude.{String, Bool, true, false, ◌||◌}
use enterprise_security_reco.Policy.{Decision, Reason}

pub data Error : Type 0 where
  -- An error that is told apart by its text alone.
  raised : String → Error
  -- `context.Canceled` and `context.DeadlineExceeded`.
  canceled deadline_exceeded : Error
  -- The refusal of a policy decision.
  policy_refused : Decision → Reason → Error
  -- `fmt.Errorf("…: %w", err)` and `errors.Join`.
  wrapped : String → Error → Error
  joined : Error → Error → Error

-- `errors.Is` at the two errors of a context.
unfoldable pub is_deadline_exceeded : Error → Bool
is_deadline_exceeded deadline_exceeded = true
is_deadline_exceeded (wrapped text e) = is_deadline_exceeded e
is_deadline_exceeded (joined e f) = is_deadline_exceeded e || is_deadline_exceeded f
is_deadline_exceeded (raised text) = false
is_deadline_exceeded canceled = false
is_deadline_exceeded (policy_refused d r) = false

unfoldable pub is_canceled : Error → Bool
is_canceled canceled = true
is_canceled (wrapped text e) = is_canceled e
is_canceled (joined e f) = is_canceled e || is_canceled f
is_canceled (raised text) = false
is_canceled deadline_exceeded = false
is_canceled (policy_refused d r) = false

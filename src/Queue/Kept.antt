-- ===== src/Queue/Kept.antt =====
-- A job whose delivery failed is kept.
use enterprise_security_reco.Prelude.{
  ℕ, String, ◌≡◌, refl, ap, Bool, true, false, inl, inr, ◌⊎◌, Option, none, some, List, ◌∷◌, Memᴰ,
  ℤ, if◌then◌else◌,
}
use enterprise_security_reco.Capability.{Either, ok, err}
use enterprise_security_reco.Workflow.Input.{value, failed}
use enterprise_security_reco.Queue.{Streams, Job, Command}
use enterprise_security_reco.Queue.Operations.{
  done, next_attempt, tried, tries_again, shift_of, delayed, retry_commands, dead_commands,
  send_retry, send_shifted, send_dead, fail_delivery,
}

-- The encoding of a job decodes to the job.
abbrev pub RoundTrip : {W : Type 0} → Streams W → Job → Type 0
RoundTrip s j = (payload : String) → s.encode j ≡ ok payload → s.decode payload ≡ ok j

module _ {W : Type 0} (s : Streams W) where
  pub done-ok :
      (out : Either (List String) × W) (w' : W)
      → done s out ≡ (value tt, w')
      → (replies : List String) × (out ≡ (ok replies, w'))
  done-ok (ok replies, w) w' h = (replies, let same : w ≡ w' = cc in ap (λ v. (ok replies, v)) same)
  done-ok (err e, w) w' h = cc

  -- One transaction took the message from the stream of jobs, and put its job among the retries or
  -- the dead letters.
  pub record Kept (id : String) (j : Job) (w w' : W) : Type 0 where
    pub commands : List Command
    pub replies : List String
    pub ran : s.exec commands w ≡ (ok replies, w')
    pub acknowledged : Memᴰ (Command.x_ack s.names.jobs s.group id) commands
    pub deleted : Memᴰ (Command.x_del s.names.jobs id) commands
    pub kept : Job
    pub same_action : kept.action ≡ j.action
    pub attempt : kept.attempt ≡ next_attempt j.attempt
    pub payload : String
    pub decoded : s.decode payload ≡ ok kept
    pub put :
        ((score : ℤ) × Memᴰ (Command.z_add s.names.retry score payload) commands)
        ⊎ ((fields : List (String × String)) × Memᴰ
              (Command.x_add s.names.dead_letter (("payload", payload) ∷ fields))
              commands)

  -- The jobs that `Fail` may encode are decoded from their encoding.
  pub record FailTrips (j : Job) (w : W) : Type 0 where
    pub dead : RoundTrip s (tried j)
    pub again :
        (n : ℕ) → shift_of (tried j).attempt ≡ some n → RoundTrip s (delayed s (tried j) n w).0

module _ {W : Type 0} (s : Streams W) where
  retried-Kept :
      (id : String) (j k : Job) (at : ℤ) (w w' : W) (encoded : Either String)
      → RoundTrip s k
      → s.encode k ≡ encoded
      → k.action ≡ j.action
      → k.attempt ≡ next_attempt j.attempt
      → elim encoded [
        | err e ↦ (failed e, w)
        | ok payload ↦ done s (s.exec (retry_commands s id k at payload) w)
      ]
        ≡ (value tt, w')
      → Kept s id j w w'
  retried-Kept id j k at w w' (err e) trip same action attempt h = cc
  retried-Kept id j k at w w' (ok payload) trip same action attempt h =
      let (replies, ran) = done-ok s (s.exec (retry_commands s id k at payload) w) w' h in
      record {
        commands = retry_commands s id k at payload;
        replies = replies;
        ran = ran;
        acknowledged = Memᴰ.tail (Memᴰ.head refl);
        deleted = Memᴰ.tail (Memᴰ.tail (Memᴰ.head refl));
        kept = k;
        same_action = action;
        attempt = attempt;
        payload = payload;
        decoded = trip payload same;
        put = inl (s.unix_milli at, Memᴰ.head refl);
      }

  dead-Kept :
      (id : String) (j k : Job) (classified : String) (w w' : W) (encoded : Either String)
      → RoundTrip s k
      → s.encode k ≡ encoded
      → k.action ≡ j.action
      → k.attempt ≡ next_attempt j.attempt
      → elim encoded [
        | err e ↦ (failed e, w)
        | ok payload ↦ done s (s.exec (dead_commands s id k classified (s.now w) payload) w)
      ]
        ≡ (value tt, w')
      → Kept s id j w w'
  dead-Kept id j k classified w w' (err e) trip same action attempt h = cc
  dead-Kept id j k classified w w' (ok payload) trip same action attempt h =
      let (replies, ran) =
        done-ok s (s.exec (dead_commands s id k classified (s.now w) payload) w) w' h in
      record {
        commands = dead_commands s id k classified (s.now w) payload;
        replies = replies;
        ran = ran;
        acknowledged = Memᴰ.tail (Memᴰ.head refl);
        deleted = Memᴰ.tail (Memᴰ.tail (Memᴰ.head refl));
        kept = k;
        same_action = action;
        attempt = attempt;
        payload = payload;
        decoded = trip payload same;
        put = inr (_, Memᴰ.head refl);
      }

  again-Kept :
      (id : String) (j : Job) (w w' : W) (shift : Option ℕ)
      → shift_of (tried j).attempt ≡ shift
      → FailTrips s j w
      → send_shifted s id (tried j) shift w ≡ (value tt, w')
      → Kept s id j w w'
  unfolding send_retry delayed
  again-Kept id j w w' none found trips h = cc
  again-Kept id j w w' (some n) found trips h =
      retried-Kept id j (delayed s (tried j) n w).0 (delayed s (tried j) n w).1 w w' _
        (trips.again n found) refl refl refl h

  branch-Kept :
      (again : Bool) (id : String) (j : Job) (classified : String) (w w' : W)
      → FailTrips s j w
      → (if again
          then send_shifted s id (tried j) (shift_of (tried j).attempt) w
          else send_dead s id (tried j) classified w)
        ≡ (value tt, w')
      → Kept s id j w w'
  unfolding send_dead
  branch-Kept true id j classified w w' trips h =
      again-Kept id j w w' (shift_of (tried j).attempt) refl trips h
  branch-Kept false id j classified w w' trips h =
      dead-Kept id j (tried j) classified w w' (s.encode (tried j)) trips.dead refl refl refl h

  -- A delivery that `Fail` reports without an error is taken from the stream of jobs and put among
  -- the retries or the dead letters in one transaction, with a payload that decodes to a job of the
  -- same action with one more attempt, where the jobs that it encodes decode again.
  pub fail_delivery-Kept :
      (id : String) (j : Job) (classified : String) (retryable : Bool) (w w' : W)
      → FailTrips s j w
      → fail_delivery s id j classified retryable w ≡ (value tt, w')
      → Kept s id j w w'
  unfolding fail_delivery
  fail_delivery-Kept id j classified retryable w w' trips h =
      branch-Kept (tries_again s (tried j) retryable) id j classified w w' trips h

-- ===== src/Queue/Operations.antt =====
-- internal/queue/streams.go: the operations of `Streams`.
use enterprise_security_reco.Prelude.{
  ℕ, zero, suc, ◌*◌, ◌-◌, ◌%◌, ◌^◌, String, Bool, true, false, ◌&&◌, not, Option, none, some, List,
  [], ◌∷◌, if◌then◌else◌, ltb, ℤ, pos, negsuc, ltb_ℤ,
}
use enterprise_security_reco.Strings.{is_empty}
use enterprise_security_reco.Errors.{Error, raised, wrapped}
use enterprise_security_reco.Domain.{ActionResult}
use enterprise_security_reco.Capability.{Either, ok, err}
use enterprise_security_reco.Workflow.Input.{Outcome, value, failed, panics}
use enterprise_security_reco.Workflow.Attempts.{int64}
use enterprise_security_reco.Queue.{Streams, Job, Delivery, Message, Command}

-- `attempt++`, in 64 bits.
unfoldable pub next_attempt : ℤ → ℤ
next_attempt (pos n) = int64 (suc n)
next_attempt (negsuc zero) = pos 0
next_attempt (negsuc (suc n)) = negsuc n

-- `min(attempt-1, 10)`, a shift by which panics if it is negative.
unfoldable pub shift_of : ℤ → Option ℕ
shift_of (pos zero) = none
shift_of (pos (suc n)) = some (if ltb n 10 then n else 10)
shift_of (negsuc n) = none

-- A product of 64-bit numbers.
unfoldable pub times_int64 : ℤ → ℕ → ℤ
times_int64 (pos n) k = int64 (n * k)
times_int64 (negsuc n) k = int64 (2 ^ 64 - (suc n * k) % 2 ^ 64)

abbrev pub at_or : Option ℤ → ℤ → ℤ
at_or none otherwise = otherwise
at_or (some t) otherwise = t

abbrev pub tried : Job → Job
tried j = record j { attempt = next_attempt j.attempt }

module _ {W : Type 0} (s : Streams W) where
  -- `pipe.Exec`, where the replies do not matter.
  abbrev pub done : Either (List String) × W → Outcome Unit × W
  done (ok replies, w) = (value tt, w)
  done (err e, w) = (failed e, w)

  abbrev pub first_reply : Either (List String) × W → Outcome String × W
  first_reply (ok [], w) = (value "", w)
  first_reply (ok (id ∷ replies), w) = (value id, w)
  first_reply (err e, w) = (failed e, w)

  -- The entry of a job in the stream of jobs.
  abbrev pub job_entry : Job → String → Command
  job_entry j payload =
      Command.x_add s.names.jobs (
        ("payload", payload)
        ∷ ("job_id", j.id)
        ∷ ("idempotency_key", j.action.idempotency_key)
        ∷ [])

  -- A job gets the id and the times that it lacks.
  unfoldable pub stamped : Job → W → Job × W
  stamped j w =
      let (id, w') = if is_empty j.id then s.new_id w else (j.id, w) in
      let enqueued = at_or j.enqueued_at (s.now w') in
      (
        record j {
          id = id;
          enqueued_at = some enqueued;
          available_at = some (at_or j.available_at enqueued);
        },
        w',
      )

  unfoldable pub add_job : Job → Either String → W → Outcome String × W
  add_job j (err e) w = (failed e, w)
  add_job j (ok payload) w = first_reply (
      s.exec
        (job_entry j payload
          ∷ Command.x_add s.names.events
              (("event", "job_enqueued") ∷ ("job_id", j.id) ∷ ("request_id", j.action.id) ∷ [])
          ∷ [])
        w)

  unfoldable pub enqueue : Job → W → Outcome String × W
  enqueue j w = let (j', w') = stamped j w in add_job j' (s.encode j') w'

  abbrev pub with_delivery : String → Either Job → Outcome (List Delivery) → Outcome (List Delivery)
  with_delivery id (err e) rest = failed (wrapped "message" e)
  with_delivery id (ok j) rest = elim rest [
    | value out ↦ value (record { message_id = id; job = j } ∷ out)
    | failed e ↦ failed e
    | panics ↦ panics
  ]

  -- `decode`, of the entries of the one stream.
  unfoldable pub deliveries : List Message → Outcome (List Delivery)
  deliveries [] = value []
  deliveries (m ∷ messages) =
      let rest = deliveries messages in
      elim (m.values "payload") [
        | none ↦ failed (raised "message has no string payload")
        | some raw ↦ with_delivery m.id (s.decode raw) rest
      ]

  abbrev pub received : Either (List Message) × W → Outcome (List Delivery) × W
  received (ok messages, w) = (deliveries messages, w)
  received (err e, w) = (if s.is_redis_nil e then value [] else failed e, w)

  unfoldable pub read : ℤ → ℤ → W → Outcome (List Delivery) × W
  read block count w = received (s.x_read_group block count w)

  unfoldable pub claim_stale : ℤ → ℤ → W → Outcome (List Delivery) × W
  claim_stale min_idle count w = received (s.x_auto_claim min_idle count w)

  -- The commands that take a message from the stream of jobs.
  abbrev pub remove_message : String → List Command → List Command
  remove_message id commands =
      Command.x_ack s.names.jobs s.group id ∷ Command.x_del s.names.jobs id ∷ commands

  unfoldable pub ack : String → ActionResult → W → Outcome Unit × W
  ack id result w = elim (s.encode_result result) [
    | err e ↦ (failed e, w)
    | ok payload ↦ done (
        s.exec
          (Command.x_add s.names.results
              (("payload", payload) ∷ ("request_id", result.request_id) ∷ [])
            ∷ remove_message id (
                Command.x_add s.names.events (
                  ("event", "job_completed")
                  ∷ ("request_id", result.request_id)
                  ∷ ("message_id", id)
                  ∷ [])
                ∷ []))
          w)
  ]

  abbrev pub event_of : String → Job → Command
  event_of event j =
      Command.x_add s.names.events
        (("event", event) ∷ ("job_id", j.id) ∷ ("attempt", s.decimal j.attempt) ∷ [])

  -- The commands that put a job among those to try again.
  abbrev pub retry_commands : String → Job → ℤ → String → List Command
  retry_commands id j at payload =
      Command.z_add s.names.retry (s.unix_milli at) payload
      ∷ remove_message id (event_of "job_retry_scheduled" j ∷ [])

  abbrev pub dead_commands : String → Job → String → ℤ → String → List Command
  dead_commands id j classified at payload =
      Command.x_add s.names.dead_letter
        (("payload", payload) ∷ ("error", classified) ∷ ("failed_at", s.format_time at) ∷ [])
      ∷ remove_message id (event_of "job_dead_lettered" j ∷ [])

  -- A job that is tried again after a delay.
  unfoldable pub delayed : Job → ℕ → W → Job × ℤ
  delayed j shift w =
      let at = s.add_time (s.now w) (times_int64 s.retry_base (2 ^ shift)) in
      (record j { available_at = some at }, at)

  unfoldable pub send_retry : String → Job × ℤ → W → Outcome Unit × W
  send_retry id (j, at) w = elim (s.encode j) [
    | err e ↦ (failed e, w)
    | ok payload ↦ done (s.exec (retry_commands id j at payload) w)
  ]

  unfoldable pub send_dead : String → Job → String → W → Outcome Unit × W
  send_dead id j classified w = elim (s.encode j) [
    | err e ↦ (failed e, w)
    | ok payload ↦ done (s.exec (dead_commands id j classified (s.now w) payload) w)
  ]

  -- Whether a job that failed is tried again.
  unfoldable pub tries_again : Job → Bool → Bool
  tries_again j retryable = retryable && not (ltb_ℤ s.max_retries j.attempt)

  -- A negative shift panics.
  abbrev pub send_shifted : String → Job → Option ℕ → W → Outcome Unit × W
  send_shifted id j none w = (panics, w)
  send_shifted id j (some shift) w = send_retry id (delayed j shift w) w

  unfoldable pub fail_delivery : String → Job → String → Bool → W → Outcome Unit × W
  fail_delivery id j classified retryable w =
      if tries_again (tried j) retryable
      then send_shifted id (tried j) (shift_of (tried j).attempt) w
      else send_dead id (tried j) classified w

  -- `Marshal` of a job that was decoded; its error is ignored, and leaves no text.
  abbrev pub text_or_empty : Either String → String
  text_or_empty (ok text) = text
  text_or_empty (err e) = ""

  abbrev pub moved_by : Either (List String) × W → Outcome Bool × W
  moved_by (ok replies, w) = (value true, w)
  moved_by (err e, w) = (failed e, w)

  -- One item of the retries that are due; the flag is whether it was moved.
  unfoldable pub move_retry : String → Either Job → W → Outcome Bool × W
  move_retry raw (err e) w =
      let (ignored, w') = s.exec (Command.z_rem s.names.retry raw ∷ []) w in (value false, w')
  move_retry raw (ok j) w =
      moved_by
        (s.exec (job_entry j (text_or_empty (s.encode j)) ∷ Command.z_rem s.names.retry raw ∷ []) w)

  -- How many retries were moved, and the error that stopped them.
  unfoldable pub move_retries : List String → ℕ → W → (ℕ × Option Error) × W
  move_retries [] moved w = ((moved, none), w)
  move_retries (raw ∷ items) moved w =
      let (out, w') = move_retry raw (s.decode raw) w in
      let on = move_retries items (suc moved) w' in
      let past = move_retries items moved w' in
      elim out [
        | value true ↦ on
        | value false ↦ past
        | failed e ↦ ((moved, some e), w')
        | panics ↦ ((moved, none), w')
      ]

  unfoldable pub pump_retries : ℤ → W → (ℕ × Option Error) × W
  pump_retries limit w =
      let (due, w') = s.z_range_by_score s.names.retry (s.unix_milli (s.now w)) limit w in
      elim due [ err e ↦ ((0, some e), w') | ok items ↦ move_retries items 0 w' ]

  abbrev pub drop_dead : String → Outcome String × W → Outcome Unit × W
  drop_dead id (value added, w) = done (s.exec (Command.x_del s.names.dead_letter id ∷ []) w)
  drop_dead id (failed e, w) = (failed e, w)
  drop_dead id (panics, w) = (panics, w)

  abbrev pub revive : String → Either Job → W → Outcome Unit × W
  revive id (err e) w = (failed e, w)
  revive id (ok j) w =
      drop_dead id (enqueue (record j { attempt = pos 0; available_at = some (s.now w) }) w)

  abbrev pub revive_from : String → Either (List Message) × W → Outcome Unit × W
  revive_from id (err e, w) = (failed e, w)
  revive_from id (ok [], w) = (failed (raised "dead-letter message not found"), w)
  revive_from id (ok (m ∷ []), w) = elim (m.values "payload") [
    | none ↦ (failed (raised "dead-letter payload is invalid"), w)
    | some raw ↦ revive id (s.decode raw) w
  ]
  revive_from id (ok (m ∷ n ∷ messages), w) = (failed (raised "dead-letter message not found"), w)

  unfoldable pub retry_dead_letter : String → W → Outcome Unit × W
  retry_dead_letter id w = revive_from id (s.x_range_one s.names.dead_letter id w)

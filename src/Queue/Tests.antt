-- ===== src/Queue/Tests.antt =====
-- A queue whose Redis counts its transactions.
use mathlib.Core.Path.{subst}
use enterprise_security_reco.Prelude.{
  ℕ, suc, ◌+◌, ◌*◌, ◌^◌, ◌≤◌, String, ◌≡◌, ◌≢◌, refl, sym, ◌∙◌, eq_iff, Option, Bool, true, false,
  none, some, [], ◌∷◌, ℤ, pos, pos_part, arith, ltb, ◌==◌, if◌then◌else◌,
}
use enterprise_security_reco.Strings.{is_empty}
use enterprise_security_reco.Errors.{raised}
use enterprise_security_reco.Policy.{Policy}
use enterprise_security_reco.Capability.{Either, ok, err}
use enterprise_security_reco.Workflow.Attempts.{int64}
use enterprise_security_reco.Workflow.Input.{value}
use enterprise_security_reco.Queue.{Streams, Job, default_names}
use enterprise_security_reco.Queue.Operations.{
  next_attempt, shift_of, times_int64, tried, delayed, tries_again, stamped, add_job, enqueue,
  move_retry, send_retry, fail_delivery,
}
use enterprise_security_reco.Queue.Kept.{RoundTrip, FailTrips, Kept, fail_delivery-Kept}
use enterprise_security_reco.Queue.Delivered.{
  Stamps, Delivers, Moves, enqueue-Delivers, move_retry-Delivers,
}
use enterprise_security_reco.Queue.Retries.{failures, failures-tries_again, times_int64-delay}

abbrev policy : Policy
policy = record {
  id = "wide";
  allowed_capabilities = [];
  denied_capabilities = [];
  rate_limit = pos 50;
  concurrency = pos 10;
  provider_concurrency = pos 5;
  host_concurrency = pos 2;
  scan_windows = "*" ∷ [];
  allowed_http_methods = "GET" ∷ [];
  authentication_usage = false;
  headless_browser = false;
  directory_fuzzing = false;
  template_tags = [];
  excluded_template_tags = [];
  maximum_payload_size = pos 4096;
  follow_redirects = false;
  cross_origin = true;
  intrusive_checks = false;
  artifact_retention = pos 0;
  moderate_approved = false;
}

abbrev fresh : Job
fresh = record {
  id = "job";
  program_id = "p";
  action = record {
    id = "a";
    task_id = "t";
    workflow_run_id = "r";
    step_run_id = "s";
    requested_by = "workflow";
    capability = "probe.http";
    reason = "";
    input = "{}";
    idempotency_key = "key";
  };
  provider = "";
  policy = policy;
  scope_includes = [];
  scope_excludes = [];
  approved = false;
  attempt = pos 0;
  enqueued_at = none;
  available_at = none;
}

-- The job at the times that the queue gives it.
abbrev enqueued : Job
enqueued = record fresh { enqueued_at = some (pos 7); available_at = some (pos 7) }

abbrev again : Job
again = record (tried enqueued) { available_at = some (pos 1007) }

abbrev is_below : ℕ → ℤ → Bool
is_below limit (pos n) = ltb n limit
is_below limit other = true

-- An encoding that tells the three jobs apart by their attempts and times.
abbrev encode : Job → Either String
encode j = if is_below 1 j.attempt then ok "first" else elim j.available_at [
  | none ↦ err (raised "no time")
  | some t ↦ if is_below 8 t then ok "dead" else ok "again"
]

abbrev decode : String → Either Job
decode payload =
    if payload == "first"
    then ok enqueued
    else if payload == "again"
    then ok again
    else ok (tried enqueued)

abbrev queue : Streams ℕ
queue = record {
  group = "workers";
  consumer = "one";
  max_retries = pos 3;
  retry_base = pos 1000;
  names = default_names;
  encode = encode;
  decode = decode;
  encode_result = λ r. ok "result";
  decimal = λ n. "1";
  now = λ w. pos 7;
  add_time = λ a b. pos (pos_part a + pos_part b);
  unix_milli = λ t. t;
  format_time = λ t. "now";
  new_id = λ w. ("id", w);
  exec = λ commands w. (ok ("1-0" ∷ []), suc w);
  x_read_group = λ block count w. (ok [], w);
  x_auto_claim = λ idle count w. (ok [], w);
  is_redis_nil = λ e. true;
  z_range_by_score = λ set max limit w. (ok [], w);
  x_range_one = λ stream id w. (ok [], w);
}

same_text : {a b : String} → ok a ≡ ok b → a ≡ b
same_text h = cc

same_shift : {n : ℕ} → some 0 ≡ some n → 0 ≡ n
same_shift h = cc

again_trips :
    (n : ℕ) (payload : String)
    → 0 ≡ n
    → queue.encode (delayed queue (tried enqueued) n 0).0 ≡ ok payload
    → queue.decode payload ≡ ok (delayed queue (tried enqueued) n 0).0
unfolding next_attempt int64 delayed times_int64
again_trips n payload first h =
    subst
      (λ m.
        queue.encode (delayed queue (tried enqueued) m 0).0 ≡ ok payload
        → queue.decode payload ≡ ok (delayed queue (tried enqueued) m 0).0)
      first (λ k. let same = same_text k in rw⁻¹ same refl) h

trips : FailTrips queue enqueued 0
unfolding next_attempt int64 shift_of delayed times_int64
trips = record {
  dead = λ payload h. let same = same_text h in rw⁻¹ same refl;
  again = λ n found payload h. again_trips n payload (same_shift found) h;
}

fails : fail_delivery queue "1-0" enqueued "timeout" true 0 ≡ (value tt, 1)
unfolding fail_delivery tries_again next_attempt int64 shift_of delayed times_int64 send_retry
fails = refl

fail_delivery-Kept_example : Kept queue "1-0" enqueued 0 1
fail_delivery-Kept_example = fail_delivery-Kept queue "1-0" enqueued "timeout" true 0 1 trips fails

enqueues : enqueue queue fresh 0 ≡ (value "1-0", 1)
unfolding enqueue stamped add_job is_empty
enqueues = refl

stamped_fresh : stamped queue fresh 0 ≡ (enqueued, 0)
unfolding stamped is_empty
stamped_fresh = refl

first_trips : RoundTrip queue enqueued
first_trips payload h = let same = same_text h in rw⁻¹ same refl

made_enqueued :
    (id : String) (at from : Option ℤ)
    → id ≡ "job"
    → at ≡ some (pos 7)
    → from ≡ some (pos 7)
    → record fresh { id = id; enqueued_at = at; available_at = from } ≡ enqueued
made_enqueued id at from p q r = cc

named_job : fresh.id ≢ ""
named_job h = let same = (eq_iff "job" "").1 h in cc

is_enqueued : (j' : Job) (u : ℕ) → Stamps queue fresh j' 0 u → j' ≡ enqueued
is_enqueued j' u stamps =
    let at = stamps.now_enqueued refl in
    stamps.same
    ∙ made_enqueued j'.id j'.enqueued_at j'.available_at (stamps.identified.kept named_job).0 at
        (stamps.now_available refl ∙ at)

any_trips : (j' : Job) (u : ℕ) → Stamps queue fresh j' 0 u → RoundTrip queue j'
any_trips j' u stamps = subst (RoundTrip queue) (sym (is_enqueued j' u stamps)) first_trips

enqueue-Delivers_example : (j' : Job) × (u : ℕ) × Stamps queue fresh j' 0 u × Delivers queue j' u 1
enqueue-Delivers_example = enqueue-Delivers queue fresh "1-0" 0 1 any_trips enqueues

moves : move_retry queue "again" (decode "again") 0 ≡ (value true, 1)
unfolding move_retry next_attempt int64
moves = refl

move_retry-Delivers_example : Moves queue again "again" 0 1
unfolding next_attempt int64
move_retry-Delivers_example =
    move_retry-Delivers queue again "again" 0 1
      (λ payload h. let same = same_text h in rw⁻¹ same refl) refl moves

-- Three retries are had.
failures-tries_again_example : tries_again queue (failures 3 enqueued) true ≡ ltb 2 3
failures-tries_again_example = failures-tries_again queue 2 3 enqueued refl refl (omega arith)

fourth_shift : shift_of (pos 4) ≡ some 3
unfolding shift_of
fourth_shift = refl

times_int64-delay_example :
    (times_int64 (pos 1000) (2 ^ 3) ≡ pos (1000 * 2 ^ 3)) × (1000 * 2 ^ 3 ≤ 1000 * 1024)
times_int64-delay_example = times_int64-delay 3 1000 3 fourth_shift (omega arith)

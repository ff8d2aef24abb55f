-- ===== src/Queue/Delivered.antt =====
-- What is put into the stream of jobs is what is read from it.
use enterprise_security_reco.Prelude.{
  String, ◌≡◌, ◌≢◌, refl, ◌∙◌, ap, Bool, true, false, Bool-cases, inl, inr, none, some, ℤ, List, [],
  ◌∷◌, Memᴰ, lookup,
}
use enterprise_security_reco.Strings.{is_empty}
use enterprise_security_reco.Policy.Permission.{is_empty_iff}
use enterprise_security_reco.Capability.{Either, ok, err}
use enterprise_security_reco.Workflow.Input.{value}
use enterprise_security_reco.Queue.{Streams, Job, Command}
use enterprise_security_reco.Queue.Operations.{
  at_or, first_reply, job_entry, stamped, add_job, enqueue, deliveries, moved_by, move_retry,
}
use enterprise_security_reco.Queue.Kept.{RoundTrip}

pub not_both : (b : Bool) → b ≡ true → b ≡ false → ⊥
not_both b h k = cc

-- The id of a job that is put into the queue: its own if it has one, and else a new one.
pub record Identified {W : Type 0} (s : Streams W) (j : Job) (id : String) (w u : W) : Type 0 where
  pub kept : j.id ≢ "" → (id ≡ j.id) × (u ≡ w)
  pub made : j.id ≡ "" → s.new_id w ≡ (id, u)

-- The job as it is put into the queue: with an id, the time of that unless it has one, and the same
-- time to be tried from unless it has another.
pub record Stamps {W : Type 0} (s : Streams W) (j j' : Job) (w u : W) : Type 0 where
  pub same :
      j' ≡ record j { id = j'.id; enqueued_at = j'.enqueued_at; available_at = j'.available_at }
  pub identified : Identified s j j'.id w u
  pub kept_enqueued : (t : ℤ) → j.enqueued_at ≡ some t → j'.enqueued_at ≡ some t
  pub now_enqueued : j.enqueued_at ≡ none → j'.enqueued_at ≡ some (s.now u)
  pub kept_available : (t : ℤ) → j.available_at ≡ some t → j'.available_at ≡ some t
  pub now_available : j.available_at ≡ none → j'.available_at ≡ j'.enqueued_at

-- A transaction added an entry to the stream of jobs that is read as a delivery of the job.
pub record Delivers {W : Type 0} (s : Streams W) (j : Job) (w w' : W) : Type 0 where
  pub fields : List (String × String)
  pub commands : List Command
  pub replies : List String
  pub ran : s.exec commands w ≡ (ok replies, w')
  pub added : Memᴰ (Command.x_add s.names.jobs fields) commands
  pub read_back :
      (id : String)
      → deliveries s (record { id = id; values = λ key. lookup key fields } ∷ [])
        ≡ value (record { message_id = id; job = j } ∷ [])

module _ {W : Type 0} (s : Streams W) where
  stamped-Identified : (j : Job) (w : W) → Identified s j (stamped s j w).0.id w (stamped s j w).1
  unfolding stamped
  stamped-Identified j w = elim (Bool-cases (is_empty j.id)) [
    | inl empty ↦
        let blank = (is_empty_iff j.id).0 empty in
        rw (empty, stamped) (record { kept = λ named. absurd (named blank); made = λ _. refl })
    | inr named ↦
        rw (named, stamped)
          (record {
            kept = λ _. (refl, refl);
            made = λ blank. absurd (not_both (is_empty j.id) ((is_empty_iff j.id).1 blank) named);
          })
  ]

  stamped-Stamps : (j : Job) (w : W) → Stamps s j (stamped s j w).0 w (stamped s j w).1
  unfolding stamped
  stamped-Stamps j w = record {
    same = refl;
    identified = stamped-Identified j w;
    kept_enqueued = λ t h. ap (λ o. some (at_or o (s.now (stamped s j w).1))) h;
    now_enqueued = λ h. ap (λ o. some (at_or o (s.now (stamped s j w).1))) h;
    kept_available =
        λ t h. ap (λ o. some (at_or o (at_or j.enqueued_at (s.now (stamped s j w).1)))) h;
    now_available = λ h. ap (λ o. some (at_or o (at_or j.enqueued_at (s.now (stamped s j w).1)))) h;
  }

  reads_back :
      (j : Job) (payload id : String)
      → s.decode payload ≡ ok j
      → deliveries s (
          record {
            id = id;
            values = λ key. lookup key (
                ("payload", payload)
                ∷ ("job_id", j.id)
                ∷ ("idempotency_key", j.action.idempotency_key)
                ∷ []);
          }
          ∷ [])
        ≡ value (record { message_id = id; job = j } ∷ [])
  unfolding deliveries lookup
  reads_back j payload id h = rw h refl

  first_reply-ok :
      (out : Either (List String) × W) (id : String) (w' : W)
      → first_reply s out ≡ (value id, w')
      → (replies : List String) × (out ≡ (ok replies, w'))
  first_reply-ok (ok [], w) id w' h = ([], let same : w ≡ w' = cc in ap (λ v. (ok [], v)) same)
  first_reply-ok (ok (r ∷ replies), w) id w' h =
      (r ∷ replies, let same : w ≡ w' = cc in ap (λ v. (ok (r ∷ replies), v)) same)
  first_reply-ok (err e, w) id w' h = cc

  added-Delivers :
      (j : Job) (encoded : Either String) (id : String) (w w' : W)
      → RoundTrip s j
      → s.encode j ≡ encoded
      → add_job s j encoded w ≡ (value id, w')
      → Delivers s j w w'
  unfolding add_job
  added-Delivers j (err e) id w w' trip same h = cc
  added-Delivers j (ok payload) id w w' trip same h =
      let (replies, ran) = first_reply-ok _ id w' h in
      record {
        fields = _;
        commands = _;
        replies = replies;
        ran = ran;
        added = Memᴰ.head refl;
        read_back = λ mid. reads_back j payload mid (trip payload same);
      }

  -- A job that was enqueued without an error stands in an entry of the stream of jobs that is read
  -- as a delivery of the job, with the id and the times that it lacked, and those alone changed, if
  -- the encoding of such a job decodes again.
  pub enqueue-Delivers :
      (j : Job) (id : String) (w w' : W)
      → ((j' : Job) (u : W) → Stamps s j j' w u → RoundTrip s j')
      → enqueue s j w ≡ (value id, w')
      → (j' : Job) × (u : W) × Stamps s j j' w u × Delivers s j' u w'
  unfolding enqueue
  enqueue-Delivers j id w w' trip h =
      let stamps = stamped-Stamps j w in
      let j' = (stamped s j w).0 in
      let u = (stamped s j w).1 in
      (j', u, stamps, added-Delivers j' (s.encode j') id u w' (trip j' u stamps) refl h)

  -- A transaction that delivers the job and takes the text from the retries.
  pub record Moves (j : Job) (raw : String) (w w' : W) : Type 0 where
    pub delivers : Delivers s j w w'
    pub withdrawn : Memᴰ (Command.z_rem s.names.retry raw) delivers.commands

  moved-Moves :
      (j : Job) (raw : String) (w w' : W) (out : Either (List String) × W)
      → s.exec (job_entry s j raw ∷ Command.z_rem s.names.retry raw ∷ []) w ≡ out
      → s.decode raw ≡ ok j
      → moved_by s out ≡ (value true, w')
      → Moves j raw w w'
  moved-Moves j raw w w' (err e, v) ran known h = cc
  moved-Moves j raw w w' (ok replies, v) ran known h = record {
    delivers = record {
      fields = _;
      commands = job_entry s j raw ∷ Command.z_rem s.names.retry raw ∷ [];
      replies = replies;
      ran = let same : v ≡ w' = cc in ran ∙ ap (λ u. (ok replies, u)) same;
      added = Memᴰ.head refl;
      read_back = λ mid. reads_back j raw mid known;
    };
    withdrawn = Memᴰ.tail (Memᴰ.head refl);
  }

  -- A retry that was moved stands in the stream of jobs with the job that it was scheduled
  -- with, and the same transaction takes it from the retries, if the encoding of that job decodes
  -- again.
  pub move_retry-Delivers :
      (j : Job) (raw : String) (w w' : W)
      → RoundTrip s j
      → s.encode j ≡ ok raw
      → move_retry s raw (s.decode raw) w ≡ (value true, w')
      → Moves j raw w w'
  unfolding move_retry
  move_retry-Delivers j raw w w' trip encoded h =
      let known = trip raw encoded in moved-Moves j raw w w' _ refl known (rw (known, encoded) at h)

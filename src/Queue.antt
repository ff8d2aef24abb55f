-- ===== src/Queue.antt =====
-- internal/queue/streams.go: jobs, and the commands for Redis that the operations of Queue/Streams
-- issue. What Redis, the JSON encoding, the clock and the ids do is a parameter.
pub mod Operations
pub mod Retries
pub mod Kept
pub mod Delivered
pub mod Dispatch
pub mod Dispatched
mod Tests
use enterprise_security_reco.Prelude.{String, Bool, Option, List, ℤ}
use enterprise_security_reco.Errors.{Error}
use enterprise_security_reco.Domain.{ActionRequest, ActionResult}
use enterprise_security_reco.Policy.{Policy}
use enterprise_security_reco.Scope.{Rule}
use enterprise_security_reco.Capability.{Either}

pub record Names : Type 0 where
  pub jobs : String
  pub results : String
  pub events : String
  pub dead_letter : String
  pub retry : String

abbrev pub default_names : Names
default_names = record {
  jobs = "platform.capability.jobs";
  results = "platform.capability.results";
  events = "platform.events";
  dead_letter = "platform.dead_letter";
  retry = "platform.capability.retry";
}

-- `Job`. A time is a number of nanoseconds, and `none` is the zero time.
pub record Job : Type 0 where
  pub id : String
  pub program_id : String
  pub action : ActionRequest
  pub provider : String
  pub policy : Policy
  pub scope_includes : List Rule
  pub scope_excludes : List Rule
  pub approved : Bool
  pub attempt : ℤ
  pub enqueued_at : Option ℤ
  pub available_at : Option ℤ

pub record Delivery : Type 0 where
  pub message_id : String
  pub job : Job

-- An entry of a stream: the value under a key, if it has one and that is a string.
pub record Message : Type 0 where
  pub id : String
  pub values : String → Option String

-- The commands of a transaction. The fields of an entry stand in the order of the source.
pub data Command : Type 0 where
  x_add : (stream : String) → List (String × String) → Command
  x_ack : (stream group id : String) → Command
  x_del : (stream id : String) → Command
  z_add : (set : String) (score : ℤ) (member : String) → Command
  z_rem : (set member : String) → Command

-- `Streams`, with what its client and the libraries do.
pub record Streams (W : Type 0) : Type 0 where
  pub group : String
  pub consumer : String
  pub max_retries : ℤ
  pub retry_base : ℤ
  pub names : Names
  pub encode : Job → Either String
  pub decode : String → Either Job
  pub encode_result : ActionResult → Either String
  pub decimal : ℤ → String
  pub now : W → ℤ
  pub add_time : ℤ → ℤ → ℤ
  pub unix_milli : ℤ → ℤ
  pub format_time : ℤ → String
  pub new_id : W → String × W
  -- The transaction of a pipeline, with the replies to its commands.
  pub exec : List Command → W → Either (List String) × W
  -- `XReadGroup` and `XAutoClaim`; no reply is an error that `is_redis_nil` knows.
  pub x_read_group : (block count : ℤ) → W → Either (List Message) × W
  pub x_auto_claim : (min_idle count : ℤ) → W → Either (List Message) × W
  pub is_redis_nil : Error → Bool
  -- `ZRangeByScore` from the beginning to a score.
  pub z_range_by_score : (set : String) (max limit : ℤ) → W → Either (List String) × W
  -- `XRangeN` of one entry.
  pub x_range_one : (stream id : String) → W → Either (List Message) × W

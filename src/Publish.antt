-- ===== src/Publish.antt =====
-- services/queue/atomic_publish.py: the caller of the script that publishes an event once and records it.
pub mod Script
pub mod Refusal
pub mod Effects
pub mod Board
pub mod Promise
pub mod Accepted
pub mod Once
mod Examples
use ai_buddy_app_agent_baken.Base.{
  ℕ, Bool, true, false, not, ◌&&◌, Option, none, some, ◌++◌, Text, codes, is_empty, contains,
  if◌then◌else◌,
}
use ai_buddy_app_agent_baken.Base.Decimal.{decimal}
use ai_buddy_app_agent_baken.Broker.{Broker}
use ai_buddy_app_agent_baken.Publish.Script.{
  Decoded, Call, Reply, published, duplicate, conflict, refused, one, or_text, publish,
}

-- The arguments of `atomic_publish`; `speech_fields` is the JSON text of `speech_job_fields`, if there are any
-- fields.
pub record Submission : Type 0 where
  pub event_id : Text
  pub queue : Text
  pub mode : Text
  pub payload : Text
  pub fingerprint : Text
  pub correlation_id : Text
  pub check_export_lock : Bool
  pub speech_job_key : Text
  pub speech_fields : Option Text
  pub speech_job_ttl : ℕ

abbrev pub dedupe_prefix : Text
dedupe_prefix = codes "queue_api:event:"

abbrev pub dedupe_key : Text → Text
dedupe_key event_id = dedupe_prefix ++ event_id

abbrev pub flag : Bool → Text
flag b = if b then one else codes "0"

abbrev pub has_fields : Option Text → Bool
has_fields none = false
has_fields (some json) = true

abbrev pub write_speech_of : Submission → Bool
write_speech_of s = not (is_empty s.speech_job_key) && has_fields s.speech_fields

abbrev pub lock_key : Text
lock_key = codes "buddy:speech-vector:export-lock"

-- `ttl` is `dedupe_ttl_seconds()`.
unfoldable pub call_of : (ttl : ℕ) → Submission → Call
call_of ttl s =
    let speech = write_speech_of s in
    record {
      dedupe = dedupe_key s.event_id;
      queue = s.queue;
      lock = lock_key;
      speech_key = if speech then s.speech_job_key else codes "queue_api:speech-meta:unused";
      mode = s.mode;
      payload = s.payload;
      payload_hash = s.fingerprint;
      ttl = decimal ttl;
      correlation = s.correlation_id;
      check_lock = flag s.check_export_lock;
      write_speech = flag speech;
      speech_ttl = if speech then decimal s.speech_job_ttl else codes "0";
      speech_json = if speech then or_text s.speech_fields (codes "{}") else codes "{}";
    }

-- What `atomic_publish` returns or raises.
pub data Outcome : Type 0 where
  done : (outcome message_id queue : Text) → Outcome
  payload_conflict cutover_locked redis_error connection_error : Outcome

abbrev pub outcome_of : Reply → Outcome
outcome_of (published message_id queue) = done (codes "published") message_id queue
outcome_of (duplicate message_id queue) = done (codes "duplicate") message_id queue
outcome_of (conflict message_id queue) = payload_conflict
outcome_of (refused error) =
    if contains error (codes "speech-vector-export-locked") then cutover_locked else redis_error

-- What becomes of `redis.eval`: the script runs and its reply comes back, the command does not reach
-- the server, or the script runs and its reply is lost. In the last two cases it raises ConnectionError
-- or TimeoutError, which `except ResponseError` lets pass.
pub data Line : Type 0 where
  answered unsent unanswered : Line

module _ (decode : Text → Decoded) (B : Broker) where
  open B use {Db}

  abbrev pub received : Line → Reply × Db → Db → Outcome × Db
  received answered (reply, after) before = (outcome_of reply, after)
  received unsent result before = (connection_error, before)
  received unanswered (reply, after) before = (connection_error, after)

  unfoldable pub atomic_publish : (ttl : ℕ) → Line → Submission → Db → Outcome × Db
  unfolding call_of publish contains
  atomic_publish ttl line s db = received line (publish decode B (call_of ttl s) db) db

-- ===== src/Stt/Record.antt =====
-- How a failed run of speech-to-text is recorded: `_record_stt_sequence_failure`,
-- `handle_stt_dead_letter` and the exception clause of `handle_stt_event` in
-- apps/api_gateway/workers/conversation_workers.py.
use ai_buddy_app_agent_baken.Base.{
  ℕ, ◌+◌, Bool, true, false, not, ◌||◌, Option, none, some, Text, codes, text_eq, is_empty, ◌==◌,
  if◌then◌else◌,
}
use ai_buddy_app_agent_baken.Lease.Fields.{lower}
use ai_buddy_app_agent_baken.Stt.{
  SttError, raised, permanent_s3, SttFailureClassification, name_of, classify_stt_failure,
  sanitized_message, queue_dlq, s3_download,
}
use ai_buddy_app_agent_baken.Stt.Chunk.{
  TranscriptChunk, FailureFields, Failing, fail_transcript_chunk,
}

-- What is read of the event: `storage_provider` is `payload.get("storageProvider") or
-- payload.get("storage_provider") or ""`, and `object_reference` the first of the keys objectKey,
-- s3ObjectKey and bucket that is not empty.
pub record SttEvent : Type 0 where
  pub attempt : ℕ
  pub job_id : Text
  pub storage_provider : Text
  pub object_reference : Text

unfoldable pub is_s3_event : SttEvent → Bool
unfolding lower text_eq
is_s3_event event =
    text_eq (lower event.storage_provider) (codes "s3") || not (is_empty event.object_reference)

abbrev is_permanent_s3_error : SttError → Bool
is_permanent_s3_error (raised permanent_s3 message provider status_code) = true
is_permanent_s3_error _ = false

unfoldable pub stage_of : SttEvent → SttError → (is_exhausted : Bool) → Option Text
unfolding is_s3_event
stage_of event error true = some queue_dlq
stage_of event error false =
    if is_permanent_s3_error error || is_s3_event event then some s3_download else none

-- `int(getattr(existing, "sttAttempts", 0) or event.attempt or 0) + 1`
abbrev attempts_or : Option TranscriptChunk → ℕ → ℕ
attempts_or none attempt = attempt
attempts_or (some chunk) attempt = if chunk.stt_attempts == 0 then attempt else chunk.stt_attempts

abbrev pub failure_fields :
    SttEvent
    → Option TranscriptChunk
    → (is_exhausted : Bool) → SttFailureClassification
    → FailureFields
failure_fields event existing is_exhausted c = record {
  error = sanitized_message c;
  job_id = event.job_id;
  failure_stage = c.failure_stage;
  failure_type = name_of c.failure_type;
  provider = c.provider;
  retry_count = attempts_or existing event.attempt + 1;
  is_terminal = c.permanent || is_exhausted;
}

-- `existing` is what the handler read at its start; `reread` and `stored` are what
-- fail_transcript_chunk reads and what its write meets.
unfoldable pub record_stt_sequence_failure :
    (now : ℕ)
    → SttEvent
    → SttError
    → (is_exhausted : Bool) → (existing reread stored : Option TranscriptChunk) → Failing
unfolding classify_stt_failure stage_of fail_transcript_chunk
record_stt_sequence_failure now event error is_exhausted existing reread stored =
    fail_transcript_chunk now
      (failure_fields event existing is_exhausted
        (classify_stt_failure error is_exhausted (stage_of event error is_exhausted)))
      reread stored

-- For an event with a conversation and a sequence number.
unfoldable pub handle_stt_dead_letter :
    (now : ℕ) → SttEvent → SttError → (existing reread stored : Option TranscriptChunk) → Failing
unfolding record_stt_sequence_failure
handle_stt_dead_letter now event error existing reread stored =
    record_stt_sequence_failure now event error true existing reread stored

-- What the handler raises after it has recorded the failure: NonRetryableQueueError, or the error.
pub data Raised : Type 0 where
  non_retryable : (message : Text) → Raised
  again : SttError → Raised

abbrev raised_for : SttError → SttFailureClassification → Raised
raised_for error c = if c.permanent then non_retryable (sanitized_message c) else again error

unfoldable pub raise_after_failure : SttError → Raised
unfolding classify_stt_failure
raise_after_failure error = raised_for error (classify_stt_failure error false none)

-- ===== src/Stt/Examples.antt =====
-- The theorems, and some runs, on a chunk whose audio takes too long at the provider.
use ai_buddy_app_agent_baken.Base.{
  ◌≡◌, ◌+◌, ◌⊎◌, ◌||◌, true, false, none, some, List, [], ◌∷◌, refl, codes, leb,
}
use ai_buddy_app_agent_baken.Stt.{
  SttError, raised, other_error, rate_limit_error, temporary_s3, value_error, message_only,
  classify_stt_failure, is_permanent_stt_failure, timeout, s3_object_missing, rate_limit,
  transient_s3, permanent_audio,
}
use ai_buddy_app_agent_baken.Stt.Chunk.{
  TranscriptChunk, unprocessed, pending, failed, is_terminal_failed_chunk, is_failed,
}
use ai_buddy_app_agent_baken.Stt.Record.{
  SttEvent, record_stt_sequence_failure, handle_stt_dead_letter, raise_after_failure, non_retryable,
  again,
}
use ai_buddy_app_agent_baken.Stt.Recorded.{recorded_failure_terminal}
use ai_buddy_app_agent_baken.Stt.Writes.{Write, mark, complete, fail, window, publish, archive, run}
use ai_buddy_app_agent_baken.Stt.Life.{IsDone, Keeps, outcome_stays}

abbrev chunk : TranscriptChunk
chunk = record {
  content = record { sequence = 3; normalized_text = none; raw_text = none; end_time_ms = 0 };
  stt_status = pending;
  stt_attempts = 1;
  retry_count = 1;
  last_error = none;
  failure_stage = none;
  failure_type = none;
  stt_provider = none;
  job_id = none;
  terminal = false;
  exclusion_reason = none;
  processing_window_id = none;
  processing_status = unprocessed;
  audio_file_path = none;
  updated_at = 0;
}

abbrev event : SttEvent
event = record {
  attempt = 1;
  job_id = codes "j7";
  storage_provider = codes "S3";
  object_reference = [];
}

abbrev slow : SttError
slow = raised other_error (codes "Read timed out") none none

slow_type : (classify_stt_failure slow false none).failure_type ≡ timeout
unfolding classify_stt_failure
slow_type = refl

missing_type :
    (classify_stt_failure (message_only (codes "S3 GET: 404")) true none).failure_type
    ≡ s3_object_missing
unfolding classify_stt_failure
missing_type = refl

limited_type :
    (classify_stt_failure
      (raised rate_limit_error (codes "slow down") none (some 429))
      false
      none).failure_type
    ≡ rate_limit
unfolding classify_stt_failure
limited_type = refl

temporary_type :
    (classify_stt_failure
      (raised temporary_s3 (codes "SlowDown") none none)
      false
      none).failure_type
    ≡ transient_s3
unfolding classify_stt_failure
temporary_type = refl

value_type :
    (classify_stt_failure
      (raised value_error (codes "bad wav header") none none)
      false
      none).failure_type
    ≡ permanent_audio
unfolding classify_stt_failure
value_type = refl

slow_is_raised_again : raise_after_failure slow ≡ again slow
unfolding raise_after_failure
slow_is_raised_again = refl

bad_audio_is_not_retried :
    raise_after_failure (message_only (codes "Unsupported audio codec"))
    ≡ non_retryable (codes "UNSUPPORTED_AUDIO")
unfolding raise_after_failure
bad_audio_is_not_retried = refl

slow_is_recorded :
    (record_stt_sequence_failure 5 event slow false none (some chunk) (some chunk)).transitioned
    ≡ true
unfolding record_stt_sequence_failure
slow_is_recorded = refl

dead_letter_is_final :
    (handle_stt_dead_letter 5 event slow none (some chunk) (some chunk)).document
    ≡ some (record chunk {
      stt_status = failed;
      stt_attempts = 2;
      retry_count = 2;
      last_error = some (codes "RETRY_EXHAUSTED");
      failure_stage = some (codes "queue_dlq");
      failure_type = some (codes "RETRY_EXHAUSTED");
      job_id = some (codes "j7");
      terminal = true;
      exclusion_reason = some (codes "stt_failed");
      updated_at = 5;
    })
unfolding handle_stt_dead_letter
dead_letter_is_final = refl

recorded_failure_terminal_example :
    (c : TranscriptChunk) × ((record_stt_sequence_failure 5 event slow false none
        (some chunk)
        (some chunk)).document
      ≡ some c)
    × (c.terminal ≡ (is_permanent_stt_failure slow || false))
    × (is_terminal_failed_chunk 3 c ≡ (is_permanent_stt_failure slow || false || leb 3 (1 + 1)))
recorded_failure_terminal_example =
    recorded_failure_terminal 3 5 event slow false none (some chunk) chunk slow_is_recorded

abbrev given_up : TranscriptChunk
given_up = record chunk { stt_status = failed; terminal = true }

abbrev late_writes : List Write
late_writes =
    mark 6
    ∷ fail 7 event slow true none (some chunk)
    ∷ complete 8 (record { raw_text = codes "hello"; provider = codes "sarvam" })
    ∷ mark 9
    ∷ window 10 (codes "w1")
    ∷ publish 11
    ∷ archive 12
    ∷ []

outcome_stays_example :
    Keeps given_up (run late_writes (some given_up))
    ⊎ ((is_failed given_up.stt_status ≡ true) × IsDone (run late_writes (some given_up)))
outcome_stays_example = outcome_stays late_writes given_up refl

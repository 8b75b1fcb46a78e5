-- ===== src/Stt/Chunk.antt =====
-- The document of one transcript chunk, and what services/conversation/repository.py does to it while
-- its audio is turned into text. Fields that this code neither reads nor writes are left out, and so
-- is the time of the last update where only logs read it. A sequence number has one document, by the
-- unique index of the collection.
use ai_buddy_app_agent_baken.Base.{
  ℕ, ◌+◌, Bool, true, false, not, ◌&&◌, ◌||◌, Option, none, some, Text, List, [], ◌∷◌, codes, take,
  leb, ◌==◌, is_one_of, if◌then◌else◌,
}
use ai_buddy_app_agent_baken.Windowing.Chunk.{Chunk}
use ai_buddy_app_agent_baken.Stt.{
  name_of, message_only, is_permanent_stt_failure, s3_object_missing, s3_permanent, corrupt_audio,
  unsupported_audio, permanent_audio, missing_upload, retry_exhausted,
}

pub data SttStatus : Type 0 where
  pending processing completed failed : SttStatus

pub data ProcessingStatus : Type 0 where
  unprocessed processed archived expired excluded : ProcessingStatus

pub record TranscriptChunk : Type 0 where
  pub content : Chunk
  pub stt_status : SttStatus
  pub stt_attempts : ℕ
  pub retry_count : ℕ
  pub last_error : Option Text
  pub failure_stage : Option Text
  pub failure_type : Option Text
  pub stt_provider : Option Text
  pub job_id : Option Text
  pub terminal : Bool
  pub exclusion_reason : Option Text
  pub processing_status : ProcessingStatus
  pub processing_window_id : Option Text
  pub audio_file_path : Option Text
  pub updated_at : ℕ

abbrev pub is_pending : SttStatus → Bool
is_pending pending = true
is_pending _ = false

abbrev pub is_processing : SttStatus → Bool
is_processing processing = true
is_processing _ = false

abbrev pub is_completed : SttStatus → Bool
is_completed completed = true
is_completed _ = false

abbrev pub is_failed : SttStatus → Bool
is_failed failed = true
is_failed _ = false

-- `str(value or "")`
abbrev pub text_or_empty : Option Text → Text
text_or_empty none = []
text_or_empty (some t) = t

abbrev pub permanent_names : List Text
permanent_names =
    name_of s3_object_missing
    ∷ name_of s3_permanent
    ∷ name_of corrupt_audio
    ∷ name_of unsupported_audio
    ∷ name_of permanent_audio
    ∷ name_of missing_upload
    ∷ name_of retry_exhausted
    ∷ []

-- `a or b`
abbrev number_or : ℕ → ℕ → ℕ
number_or a b = if a == 0 then b else a

unfoldable pub is_terminal_failed_chunk : (max_retries : ℕ) → TranscriptChunk → Bool
is_terminal_failed_chunk max_retries chunk =
    is_failed chunk.stt_status
    && (chunk.terminal
        || is_one_of (text_or_empty chunk.failure_type) permanent_names
        || is_permanent_stt_failure (message_only (text_or_empty chunk.last_error))
        || leb max_retries (number_or chunk.stt_attempts chunk.retry_count))

unfoldable pub is_retrying_failed_chunk : (max_retries : ℕ) → TranscriptChunk → Bool
unfolding is_terminal_failed_chunk
is_retrying_failed_chunk max_retries chunk =
    is_failed chunk.stt_status && not (is_terminal_failed_chunk max_retries chunk)

-- The filter of the writes: not completed, and not terminal.
abbrev pub is_open : TranscriptChunk → Bool
is_open chunk = not (is_completed chunk.stt_status) && not chunk.terminal

-- A write reports whether it modified the document. `now` is the time of the call.
unfoldable pub mark_transcript_chunk_processing :
    (now : ℕ) → Option TranscriptChunk → Option TranscriptChunk × Bool
mark_transcript_chunk_processing now none = (none, false)
mark_transcript_chunk_processing now (some chunk) =
    if is_open chunk
    then (some (record chunk { stt_status = processing; updated_at = now }), true)
    else (some chunk, false)

-- The arguments of `fail_transcript_chunk`; the worker gives all of them but the provider.
pub record FailureFields : Type 0 where
  pub error : Text
  pub job_id : Text
  pub failure_stage : Text
  pub failure_type : Text
  pub provider : Option Text
  pub retry_count : ℕ
  pub is_terminal : Bool

-- `if value: fields[key] = value` over what is stored.
abbrev pub set_text : Text → Option Text → Option Text
set_text [] stored = stored
set_text (c ∷ cs) stored = some (c ∷ cs)

abbrev pub or_else : Text → Text → Text
or_else [] b = b
or_else (c ∷ cs) b = c ∷ cs

abbrev pub with_failure : (now : ℕ) → FailureFields → TranscriptChunk → TranscriptChunk
with_failure now f chunk = record chunk {
  stt_status = failed;
  last_error = some (take 200 (or_else f.error (or_else f.failure_type (codes "stt_failed"))));
  updated_at = now;
  job_id = set_text f.job_id chunk.job_id;
  failure_stage = set_text f.failure_stage chunk.failure_stage;
  failure_type = set_text f.failure_type chunk.failure_type;
  stt_provider = set_text (text_or_empty f.provider) chunk.stt_provider;
  retry_count = f.retry_count;
  terminal = f.is_terminal;
  exclusion_reason = if f.is_terminal then some (codes "stt_failed") else chunk.exclusion_reason;
  stt_attempts = chunk.stt_attempts + 1;
}

abbrev already_terminal : TranscriptChunk → Bool
already_terminal chunk =
    is_completed chunk.stt_status || is_failed chunk.stt_status && chunk.terminal

-- What a call gives: the document, its result, and whether `failedTranscriptChunkCount` of the
-- conversation is incremented.
pub record Failing : Type 0 where
  pub document : Option TranscriptChunk
  pub transitioned : Bool
  pub is_counted : Bool

abbrev refused : Option TranscriptChunk → Failing
refused stored = record { document = stored; transitioned = false; is_counted = false }

abbrev write_failure :
    (now : ℕ) → FailureFields → TranscriptChunk → Option TranscriptChunk → Failing
write_failure now f existing none = refused none
write_failure now f existing (some chunk) =
    if is_open chunk
    then record {
      document = some (with_failure now f chunk);
      transitioned = true;
      is_counted = not (is_failed existing.stt_status);
    }
    else refused (some chunk)

-- `existing` is the document that the call reads first, `stored` the one that its write meets:
-- other workers may write between the two.
unfoldable pub fail_transcript_chunk :
    (now : ℕ) → FailureFields → (existing stored : Option TranscriptChunk) → Failing
fail_transcript_chunk now f none stored = refused stored
fail_transcript_chunk now f (some existing) stored =
    if already_terminal existing then refused stored else write_failure now f existing stored

-- `complete_transcript_chunk` without `extra_fields`, when the fence lets the write pass.
pub record Transcription : Type 0 where
  pub raw_text : Text
  pub provider : Text

unfoldable pub complete_transcript_chunk :
    (now : ℕ) → Transcription → Option TranscriptChunk → Option TranscriptChunk × Bool
complete_transcript_chunk now t none = (none, false)
complete_transcript_chunk now t (some chunk) =
    if is_completed chunk.stt_status then (some chunk, false) else (
      some (record chunk {
        content = record chunk.content {
          normalized_text = some t.raw_text;
          raw_text = some t.raw_text;
        };
        stt_provider = some t.provider;
        stt_status = completed;
        last_error = none;
        failure_stage = none;
        failure_type = none;
        terminal = false;
        exclusion_reason = none;
        updated_at = now;
        stt_attempts = chunk.stt_attempts + 1;
      }),
      true,
    )

-- One document of `reclaim_stale_stt_chunks`, between whose query and write others may write too.
abbrev pub is_stale : (stale_before : ℕ) → TranscriptChunk → Bool
is_stale stale_before chunk = is_processing chunk.stt_status && leb chunk.updated_at stale_before

abbrev reclaim_found : (now stale_before : ℕ) → Bool → TranscriptChunk → TranscriptChunk × Bool
reclaim_found now stale_before found chunk =
    if found && is_stale stale_before chunk
    then (
      record chunk {
        stt_status = pending;
        last_error = some (codes "stale STT processing reclaimed");
        updated_at = now;
      },
      true,
    )
    else (chunk, false)

unfoldable pub reclaim_stale_stt_chunk :
    (now stale_before : ℕ) → (found stored : TranscriptChunk) → TranscriptChunk × Bool
reclaim_stale_stt_chunk now stale_before found stored =
    reclaim_found now stale_before (is_stale stale_before found && not found.terminal) stored

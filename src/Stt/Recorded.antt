-- ===== src/Stt/Recorded.antt =====
-- What is_terminal_failed_chunk says of a failure that has just been recorded.
use ai_buddy_app_agent_baken.Base.{
  ℕ, ◌+◌, ◌≡◌, Bool, true, ◌||◌, Text, Option, none, some, codes, leb, arith,
}
use ai_buddy_app_agent_baken.Stt.{
  SttError, SttFailureClassification, is_permanent_stt_failure, classify_stt_failure, name_of,
}
use ai_buddy_app_agent_baken.Stt.Types.{
  Agrees, classify_resolved-Agrees, classify_resolved-Extends, names_tell, stored_name,
}
use ai_buddy_app_agent_baken.Stt.Chunk.{
  TranscriptChunk, FailureFields, is_terminal_failed_chunk, with_failure, or_else,
  fail_transcript_chunk,
}
use ai_buddy_app_agent_baken.Stt.Record.{
  SttEvent, record_stt_sequence_failure, failure_fields, stage_of,
}

fail_transcript_chunk-with_failure :
    (now : ℕ) (f : FailureFields) (reread : Option TranscriptChunk) (stored : TranscriptChunk)
    → (fail_transcript_chunk now f reread (some stored)).transitioned ≡ true
    → (fail_transcript_chunk now f reread (some stored)).document ≡ some (with_failure now f stored)
unfolding fail_transcript_chunk
fail_transcript_chunk-with_failure now f none stored h = cc
fail_transcript_chunk-with_failure now f (some existing) stored h = ground arith

with_failure_terminal :
    (max_retries now : ℕ) (event : SttEvent) (existing : Option TranscriptChunk)
    (is_exhausted : Bool) (c : SttFailureClassification) (stored : TranscriptChunk)
    → Agrees c
    → is_terminal_failed_chunk max_retries
        (with_failure now (failure_fields event existing is_exhausted c) stored)
      ≡ (c.permanent || is_exhausted || leb max_retries (stored.stt_attempts + 1))
unfolding is_terminal_failed_chunk
with_failure_terminal max_retries now event existing is_exhausted c stored h =
    let (by_error, by_type) = names_tell c.failure_type c.permanent h in
    let (error, type) =
      stored_name c.failure_type stored.failure_type
        (or_else (name_of c.failure_type) (codes "stt_failed")) in
    rw (error, type, by_error, by_type) (ground arith)

classify_stt_failure-Agrees :
    (error : SttError) (is_exhausted : Bool) (stage : Option Text)
    → Agrees (classify_stt_failure error is_exhausted stage)
unfolding classify_stt_failure
classify_stt_failure-Agrees error is_exhausted stage = search classify_resolved-Agrees

classify_stt_failure_permanent :
    (error : SttError) (is_exhausted : Bool) (stage : Option Text)
    → (classify_stt_failure error is_exhausted stage).permanent
      ≡ (is_permanent_stt_failure error || is_exhausted)
unfolding classify_stt_failure is_permanent_stt_failure
classify_stt_failure_permanent error is_exhausted stage = search classify_resolved-Extends

-- A failure of a run, once it is recorded, counts as terminal exactly if the error is permanent, the
-- retries are exhausted, or the chunk has been tried as often as the settings allow; and the document
-- says so itself in the first two cases.
pub recorded_failure_terminal :
    (max_retries now : ℕ) (event : SttEvent) (error : SttError) (is_exhausted : Bool)
    (existing reread : Option TranscriptChunk) (stored : TranscriptChunk)
    → (record_stt_sequence_failure now event error is_exhausted existing reread
        (some stored)).transitioned
      ≡ true
    → (chunk : TranscriptChunk) × ((record_stt_sequence_failure now event error is_exhausted
          existing reread
          (some stored)).document
        ≡ some chunk)
      × (chunk.terminal ≡ (is_permanent_stt_failure error || is_exhausted))
      × (is_terminal_failed_chunk max_retries chunk ≡ (
          is_permanent_stt_failure error
          || is_exhausted
          || leb max_retries (stored.stt_attempts + 1)))
unfolding record_stt_sequence_failure
recorded_failure_terminal max_retries now event error is_exhausted existing reread stored h =
    let c = classify_stt_failure error is_exhausted (stage_of event error is_exhausted) in
    let f = failure_fields event existing is_exhausted c in
    let once =
      classify_stt_failure_permanent error is_exhausted (stage_of event error is_exhausted) in
    (
      with_failure now f stored,
      fail_transcript_chunk-with_failure now f reread stored h,
      ground (arith, once),
      rw
          (
            with_failure_terminal max_retries now event existing is_exhausted c stored (
                classify_stt_failure-Agrees error is_exhausted (stage_of event error is_exhausted)),
            once,
          )
          (ground arith),
    )

-- ===== src/Stt/Bookkeeping.antt =====
-- What services/conversation/repository.py does to the document of a transcript chunk where it builds
-- windows, publishes and archives. The fields processedAt, publishedAt and expiresAt, which no code
-- modelled here reads, are left out.
use ai_buddy_app_agent_baken.Base.{
  ℕ, Bool, true, false, Option, none, some, Text, codes, if◌then◌else◌,
}
use ai_buddy_app_agent_baken.Stt.Chunk.{
  TranscriptChunk, ProcessingStatus, unprocessed, processed, archived, excluded, is_completed,
  text_or_empty, or_else,
}

-- `record_audio_chunk` sets its fields on insert only: `fresh` is the document it would insert.
unfoldable pub register_chunk : (fresh : TranscriptChunk) → Option TranscriptChunk → TranscriptChunk
register_chunk fresh none = fresh
register_chunk fresh (some chunk) = chunk

abbrev pub is_unprocessed : ProcessingStatus → Bool
is_unprocessed unprocessed = true
is_unprocessed _ = false

abbrev pub is_excluded : ProcessingStatus → Bool
is_excluded excluded = true
is_excluded _ = false

-- `mark_transcripts_excluded`, for a document whose number is among those given.
unfoldable pub mark_transcript_excluded :
    (now : ℕ) → (reason : Text) → TranscriptChunk → TranscriptChunk
mark_transcript_excluded now reason chunk =
    if is_unprocessed chunk.processing_status
    then record chunk {
      processing_status = processed;
      exclusion_reason = some reason;
      updated_at = now;
    }
    else chunk

-- The write of `create_conversation_window`, for a document whose number is in the window.
unfoldable pub put_in_window : (now : ℕ) → (window_id : Text) → TranscriptChunk → TranscriptChunk
put_in_window now window_id chunk =
    if is_unprocessed chunk.processing_status
    then record chunk {
      processing_status = processed;
      processing_window_id = some window_id;
      updated_at = now;
    }
    else chunk

-- `mark_transcripts_published`.
unfoldable pub mark_transcript_published : (now : ℕ) → TranscriptChunk → TranscriptChunk
mark_transcript_published now chunk =
    if is_completed chunk.stt_status then record chunk { updated_at = now } else chunk

-- `schedule_transcript_expiry`.
unfoldable pub schedule_transcript_expiry : (now : ℕ) → TranscriptChunk → TranscriptChunk
schedule_transcript_expiry now chunk =
    if is_completed chunk.stt_status
    then record chunk { processing_status = archived; updated_at = now }
    else chunk

-- The repair that `list_transcript_chunks` writes by the id of a document it has found; others may
-- write in between.
unfoldable pub heal_excluded : (now : ℕ) → (found stored : TranscriptChunk) → TranscriptChunk
heal_excluded now found stored =
    if is_excluded found.processing_status
    then record stored {
      processing_status = processed;
      exclusion_reason =
          some (or_else (text_or_empty found.exclusion_reason) (codes "empty_transcript"));
      updated_at = now;
    }
    else stored

-- ===== src/Stt/Writes.antt =====
-- The writes of services/conversation/repository.py to the collection transcript_chunks, in any order.
-- What an operator's script (scripts/requeue_failed_meeting_chunks.py) writes is left out.
use ai_buddy_app_agent_baken.Base.{ℕ, Bool, Option, none, some, List, [], ◌∷◌, Text}
use ai_buddy_app_agent_baken.Stt.{SttError}
use ai_buddy_app_agent_baken.Stt.Chunk.{
  TranscriptChunk, Transcription, mark_transcript_chunk_processing, complete_transcript_chunk,
  reclaim_stale_stt_chunk,
}
use ai_buddy_app_agent_baken.Stt.Bookkeeping.{
  register_chunk, mark_transcript_excluded, put_in_window, mark_transcript_published,
  schedule_transcript_expiry, heal_excluded,
}
use ai_buddy_app_agent_baken.Stt.Record.{SttEvent, record_stt_sequence_failure}

-- One write. What its worker has read before may be any document, since others write in between.
pub data Write : Type 0 where
  mark : (now : ℕ) → Write
  fail :
      (now : ℕ)
      → SttEvent
      → SttError
      → (is_exhausted : Bool) → (existing reread : Option TranscriptChunk) → Write
  complete : (now : ℕ) → Transcription → Write
  reclaim : (now stale_before : ℕ) → (found : TranscriptChunk) → Write
  register : (fresh : TranscriptChunk) → Write
  exclude : (now : ℕ) → (reason : Text) → Write
  window : (now : ℕ) → (window_id : Text) → Write
  publish : (now : ℕ) → Write
  archive : (now : ℕ) → Write
  heal : (now : ℕ) → (found : TranscriptChunk) → Write

abbrev reclaimed :
    (now stale_before : ℕ)
    → (found : TranscriptChunk) → Option TranscriptChunk
    → Option TranscriptChunk
reclaimed now stale_before found none = none
reclaimed now stale_before found (some stored) =
    some (reclaim_stale_stt_chunk now stale_before found stored).0

abbrev updated :
    (TranscriptChunk → TranscriptChunk) → Option TranscriptChunk → Option TranscriptChunk
updated write none = none
updated write (some stored) = some (write stored)

unfoldable pub apply : Write → Option TranscriptChunk → Option TranscriptChunk
unfolding mark_transcript_chunk_processing record_stt_sequence_failure complete_transcript_chunk
    reclaim_stale_stt_chunk register_chunk mark_transcript_excluded put_in_window
    mark_transcript_published schedule_transcript_expiry heal_excluded
apply (mark now) stored = (mark_transcript_chunk_processing now stored).0
apply (fail now event error is_exhausted existing reread) stored =
    (record_stt_sequence_failure now event error is_exhausted existing reread stored).document
apply (complete now t) stored = (complete_transcript_chunk now t stored).0
apply (reclaim now stale_before found) stored = reclaimed now stale_before found stored
apply (register fresh) stored = some (register_chunk fresh stored)
apply (exclude now reason) stored = updated (mark_transcript_excluded now reason) stored
apply (window now window_id) stored = updated (put_in_window now window_id) stored
apply (publish now) stored = updated (mark_transcript_published now) stored
apply (archive now) stored = updated (schedule_transcript_expiry now) stored
apply (heal now found) stored = updated (heal_excluded now found) stored

unfoldable pub run : List Write → Option TranscriptChunk → Option TranscriptChunk
unfolding apply
run [] stored = stored
run (w ∷ ws) stored = run ws (apply w stored)

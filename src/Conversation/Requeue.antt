-- ===== src/Conversation/Requeue.antt =====
-- `_requeue_lost_stt` of services/conversation/finalization.py: the chunks whose audio is sent to
-- speech-to-text again. `urlparse` of the standard library and build_audio_object_key of
-- services/storage are parameters.
use ai_buddy_app_agent_baken.Base.{
  ℕ, Bool, true, false, not, ◌&&◌, ◌||◌, Option, none, some, List, [], ◌∷◌, ◌++◌, map, Text, codes,
  strip, text_eq, starts_with, contains, leb, if◌then◌else◌,
}
use ai_buddy_app_agent_baken.Lease.Fields.{lower}
use ai_buddy_app_agent_baken.Stt.Chunk.{TranscriptChunk, is_failed, is_terminal_failed_chunk}
use ai_buddy_app_agent_baken.Conversation.{text_or}
use ai_buddy_app_agent_baken.Conversation.Readiness.{sequence_of, is_lost_stt_job}
use ai_buddy_app_agent_baken.Conversation.Sequences.{is_member, is_given, has_text}

-- A document of `audio_chunks`.
pub record AudioChunk : Type 0 where
  pub storage_provider : Option Text
  pub s3_bucket : Option Text
  pub s3_object_key : Option Text
  pub file_path : Option Text

-- `split_url` gives `netloc` and `path.lstrip("/")`; `legacy_key` is build_audio_object_key for a
-- chunk and its audio.
pub record Storage : Type 0 where
  pub use_s3_storage : Bool
  pub audio_bucket : Text
  pub split_url : Text → Text × Text
  pub legacy_key : TranscriptChunk → Option AudioChunk → Text

pub data AudioFields : Type 0 where
  s3_object : (bucket object_key : Option Text) → AudioFields
  local_file : Text → AudioFields

unfoldable pub audio_reference_payload : Storage → Text → AudioFields
unfolding starts_with
audio_reference_payload st value =
    if starts_with value (codes "s3://")
    then s3_object (some (st.split_url value).0) (some (st.split_url value).1)
    else local_file value

abbrev legacy_s3_reference_payload : Storage → TranscriptChunk → Option AudioChunk → AudioFields
legacy_s3_reference_payload st chunk audio =
    s3_object (some st.audio_bucket) (some (st.legacy_key chunk audio))

abbrev is_in_s3 : AudioChunk → Bool
is_in_s3 a =
    text_eq (lower (text_or a.storage_provider [])) (codes "s3")
    || has_text a.s3_bucket
    || has_text a.s3_object_key

-- `_stt_payload_audio_fields` but the file's name and content type.
unfoldable pub stt_payload_audio_fields :
    Storage → TranscriptChunk → Option AudioChunk → AudioFields
unfolding audio_reference_payload strip lower text_eq
stt_payload_audio_fields st chunk (some a) =
    if is_in_s3 a
    then s3_object a.s3_bucket a.s3_object_key
    else if st.use_s3_storage
    then legacy_s3_reference_payload st chunk (some a)
    else audio_reference_payload st (strip (text_or a.file_path (text_or chunk.audio_file_path [])))
stt_payload_audio_fields st chunk none =
    if st.use_s3_storage
    then legacy_s3_reference_payload st chunk none
    else audio_reference_payload st (strip (text_or chunk.audio_file_path []))

abbrev is_s3_object : AudioFields → Bool
is_s3_object (s3_object bucket object_key) = true
is_s3_object (local_file path) = false

unfoldable pub is_recoverable_s3_retry : TranscriptChunk → AudioFields → Bool
unfolding contains lower
is_recoverable_s3_retry chunk fields =
    let error = lower (text_or chunk.last_error []) in
    is_s3_object fields
    && (contains error (codes "missing or empty")
        || contains error (codes "no such file")
        || contains error (codes "resources/audio_jobs"))

module _ (st : Storage) (max_retries stale_before : ℕ)
    (audio_of : TranscriptChunk → Option AudioChunk) where
  -- The loop that adds the lost chunks to the reclaimed ones.
  unfoldable pub add_lost : List TranscriptChunk → List TranscriptChunk → List TranscriptChunk
  unfolding is_lost_stt_job
  add_lost reclaimed [] = reclaimed
  add_lost reclaimed (c ∷ cs) =
      add_lost
        (if is_member (sequence_of c) (map sequence_of reclaimed)
            || not (is_lost_stt_job max_retries stale_before c)
          then reclaimed
          else reclaimed ++ c ∷ [])
        cs

  -- Whether the second loop publishes the chunk.
  unfoldable pub is_requeued : TranscriptChunk → Bool
  unfolding is_terminal_failed_chunk stt_payload_audio_fields is_recoverable_s3_retry
  is_requeued c =
      if is_failed c.stt_status && is_terminal_failed_chunk max_retries c
      then false
      else if is_failed c.stt_status
          && leb max_retries c.stt_attempts
          && not (is_recoverable_s3_retry c (stt_payload_audio_fields st c (audio_of c)))
      then false
      else has_text c.audio_file_path || is_given (audio_of c)

  -- The sequence number and the audio of each event `stt.requested`.
  unfoldable pub publish_each : List TranscriptChunk → List (ℕ × AudioFields)
  unfolding is_requeued stt_payload_audio_fields
  publish_each [] = []
  publish_each (c ∷ cs) =
      let rest = publish_each cs in
      if is_requeued c
      then (sequence_of c, stt_payload_audio_fields st c (audio_of c)) ∷ rest
      else rest

  -- `reclaimed` is what reclaim_stale_stt_chunks returns, `chunks` what the caller has listed.
  unfoldable pub requeue_lost_stt :
      (reclaimed chunks : List TranscriptChunk) → List (ℕ × AudioFields)
  unfolding publish_each add_lost
  requeue_lost_stt reclaimed chunks = publish_each (add_lost reclaimed chunks)

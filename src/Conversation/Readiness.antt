-- ===== src/Conversation/Readiness.antt =====
-- Whether a conversation waits for transcripts: `_session_readiness`, `_missing_sequences_are_terminal`,
-- `_should_publish_window_job` and `_is_lost_stt_job` of services/conversation/finalization.py, and
-- detect_missing_sequences of transcript.py. Sets of sequence numbers are lists.
use ai_buddy_app_agent_baken.Base.{
  ℕ, ◌+◌, ◌-◌, Bool, true, false, not, ◌&&◌, ◌||◌, Option, none, some, List, [], ◌++◌, map, Text,
  length, keep, leb, if◌then◌else◌,
}
use ai_buddy_app_agent_baken.Windowing.Chunk.{is_useful_chunk}
use ai_buddy_app_agent_baken.Stt.Chunk.{
  TranscriptChunk, is_pending, is_processing, is_completed, is_failed, is_terminal_failed_chunk,
}
use ai_buddy_app_agent_baken.Conversation.{Accounting, Details}
use ai_buddy_app_agent_baken.Conversation.Sequences.{
  FinalizationSettings, detect_missing_sequences, distinct, first_sequence_for_conversation,
  has_text, is_empty_list, is_given, is_member, missing_sequences_are_terminal,
}

pub data WindowStatus : Type 0 where
  pending processing completed retrying failed : WindowStatus

pub record Window : Type 0 where
  pub window_id : Text
  pub window_index : ℕ
  pub status : WindowStatus
  pub is_extraction_skipped : Bool
  pub is_final_partial : Bool
  pub is_persistence_ok : Bool
  pub queued_at : Option ℕ
  pub updated_at : ℕ

abbrev pub is_window_completed : WindowStatus → Bool
is_window_completed completed = true
is_window_completed _ = false

abbrev pub is_window_pending : WindowStatus → Bool
is_window_pending pending = true
is_window_pending _ = false

abbrev pub is_window_processing : WindowStatus → Bool
is_window_processing processing = true
is_window_processing _ = false

abbrev pub is_window_failed : WindowStatus → Bool
is_window_failed failed = true
is_window_failed _ = false

abbrev pub count {ℓ} : {A : Type ℓ} → (A → Bool) → List A → ℕ
count p xs = length (keep p xs)

abbrev window_waits : (stale_before : ℕ) → Option ℕ → Window → Bool
window_waits stale_before none w = true
window_waits stale_before (some queued) w = leb w.updated_at stale_before

unfoldable pub should_publish_window_job : (stale_before : ℕ) → Window → Bool
should_publish_window_job stale_before w =
    not (w.is_extraction_skipped || w.is_final_partial)
    && (is_window_failed w.status
        || is_window_pending w.status && window_waits stale_before w.queued_at w)

unfoldable pub is_lost_stt_job : (max_retries stale_before : ℕ) → TranscriptChunk → Bool
unfolding is_terminal_failed_chunk
is_lost_stt_job max_retries stale_before chunk =
    if is_processing chunk.stt_status
    then false
    else if is_completed chunk.stt_status
    then false
    else if is_failed chunk.stt_status && is_terminal_failed_chunk max_retries chunk
    then false
    else if is_failed chunk.stt_status && leb max_retries chunk.stt_attempts
    then false
    else leb chunk.updated_at stale_before

abbrev pub sequence_of : TranscriptChunk → ℕ
sequence_of chunk = chunk.content.sequence

abbrev pub is_waiting : TranscriptChunk → Bool
is_waiting chunk = is_pending chunk.stt_status || is_processing chunk.stt_status

abbrev pub failed_chunks : List TranscriptChunk → List TranscriptChunk
failed_chunks = keep (λ chunk. is_failed chunk.stt_status)

abbrev pub terminal_failed_of : (max_retries : ℕ) → List TranscriptChunk → List ℕ
terminal_failed_of max_retries chunks =
    map sequence_of (keep (is_terminal_failed_chunk max_retries) (failed_chunks chunks))

abbrev pub retryable_failed_of : (max_retries : ℕ) → List TranscriptChunk → List TranscriptChunk
retryable_failed_of max_retries chunks =
    keep (λ chunk. not (is_member (sequence_of chunk) (terminal_failed_of max_retries chunks)))
      (failed_chunks chunks)

pub record Readiness : Type 0 where
  pub skippable : List ℕ
  pub is_unresolved : Bool
  pub accounting : Accounting

module _ (s : FinalizationSettings) (now : ℕ) (d : Details) (last : ℕ)
    (chunks : List TranscriptChunk) where
  abbrev pub missing : List ℕ
  missing =
      detect_missing_sequences (map sequence_of chunks) last (first_sequence_for_conversation d)

  abbrev pub timed_out : Bool
  timed_out = missing_sequences_are_terminal s now d

  abbrev terminal_failed : List ℕ
  terminal_failed = terminal_failed_of s.max_retries chunks

  abbrev retryable_failed : List TranscriptChunk
  retryable_failed = retryable_failed_of s.max_retries chunks

  abbrev is_blank : TranscriptChunk → Bool
  is_blank chunk = is_completed chunk.stt_status && not (is_useful_chunk chunk.content)

  abbrev useful_chunks : List TranscriptChunk
  useful_chunks =
      keep (λ chunk. is_completed chunk.stt_status && is_useful_chunk chunk.content) chunks

  abbrev if_timed_out : List ℕ → List ℕ
  if_timed_out numbers = if timed_out then numbers else []

  abbrev skippable_sequences : List ℕ
  skippable_sequences =
      map sequence_of (
        keep
          (λ chunk.
            is_blank chunk
            || has_text chunk.exclusion_reason
            || is_member (sequence_of chunk) terminal_failed)
          chunks)
      ++ if_timed_out missing

  abbrev pub is_unresolved_now : Bool
  is_unresolved_now =
      not (is_empty_list (keep is_waiting chunks))
      || not (is_empty_list retryable_failed)
      || not (is_empty_list missing) && not timed_out

  abbrev permanently_failed : ℕ
  permanently_failed = length terminal_failed + length (if_timed_out missing)

  abbrev pub accounting_of : List Window → Accounting
  accounting_of windows = record {
    expected_sequences = last + 1 - first_sequence_for_conversation d;
    accounted_sequences = distinct (map sequence_of chunks) + length (if_timed_out missing);
    missing_sequences = missing;
    empty_transcripts = count is_blank chunks;
    failed_transcripts = permanently_failed;
    pending_transcripts = count is_waiting chunks;
    valid_transcripts = length useful_chunks;
    valid_windowed = count (λ chunk. is_given chunk.processing_window_id) useful_chunks;
    valid_excluded = count (λ chunk. has_text chunk.exclusion_reason) useful_chunks;
    valid_unwindowed =
        count
          (λ chunk.
            not (is_given chunk.processing_window_id) && not (has_text chunk.exclusion_reason))
          useful_chunks;
    windows_created = length windows;
    windows_completed = count (λ w. is_window_completed w.status) windows;
    windows_pending = count (λ w. is_window_pending w.status) windows;
    windows_processing = count (λ w. is_window_processing w.status) windows;
    windows_failed = count (λ w. is_window_failed w.status) windows;
    window_stale_recovered_count = 0;
    unresolved_expected =
        count is_waiting chunks
        + length retryable_failed
        + (if timed_out then 0 else length missing);
    permanent_failures = permanently_failed;
    terminal_sequences = length useful_chunks + count is_blank chunks + permanently_failed;
    pending_sequences =
        count (λ chunk. is_pending chunk.stt_status) chunks
        + count (λ chunk. is_processing chunk.stt_status) chunks;
    retrying_sequences = length retryable_failed;
    artifact_persistence_gaps =
        count (λ w. is_window_completed w.status && not w.is_persistence_ok) windows;
    incomplete_windows = count (λ w. not (is_window_completed w.status)) windows;
  }

  unfoldable pub session_readiness : List Window → Readiness
  unfolding detect_missing_sequences missing_sequences_are_terminal is_terminal_failed_chunk
      is_useful_chunk
  session_readiness windows = record {
    skippable = skippable_sequences;
    is_unresolved = is_unresolved_now;
    accounting = accounting_of windows;
  }

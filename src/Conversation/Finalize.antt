-- ===== src/Conversation/Finalize.antt =====
-- `finalize` of services/conversation/finalization.py. What a call reads is an
-- argument, since other workers write in between; what it writes and publishes is a list.
use ai_buddy_app_agent_baken.Base.{
  ℕ, ◌-◌, Bool, true, false, not, ◌&&◌, ◌||◌, Option, none, some, List, [], ◌∷◌, ◌++◌, map, Text,
  keep, ltb, if◌then◌else◌,
}
use ai_buddy_app_agent_baken.Stt.Chunk.{TranscriptChunk}
use ai_buddy_app_agent_baken.Conversation.{
  ConversationStatus, waiting_for_transcripts, finalizing, ready_for_processing, partial,
  Accounting, Conversation, Details, is_status,
}
use ai_buddy_app_agent_baken.Conversation.Readiness.{
  Window, is_window_completed, should_publish_window_job, session_readiness, Readiness,
}
use ai_buddy_app_agent_baken.Conversation.Sequences.{
  FinalizationSettings, is_empty_list, is_given, microseconds,
}
use ai_buddy_app_agent_baken.Conversation.Requeue.{
  Storage, AudioChunk, AudioFields, requeue_lost_stt,
}
use ai_buddy_app_agent_baken.Conversation.SafeTransition.{
  Meets, SafeResult, is_moved, is_terminal_status, raised_stale, safe_transition,
}

-- `request_window` marks the window as queued and publishes its event.
pub data Effect : Type 0 where
  persist_accounting : Accounting → Effect
  request_stt : ℕ × AudioFields → Effect
  close_ready_windows : (through : ℕ) → (skippable : List ℕ) → Effect
  request_window : (window_id : Text) → (recovery : Bool) → Effect
  fail_window : (window_id : Text) → Effect
  write_conversation : Option Conversation → Effect
  trace_accounting : Accounting → Effect
  request_processing :
      (processing_version : ℕ) → (is_partial : Bool) → (missing_sequences : List ℕ) → Effect

-- `raised_value_error` is "Conversation is not ready for finalization".
pub data Finalization : Type 0 where
  ended : List Effect → Finalization
  lost_lease : List Effect → Finalization
  raised_value_error : Finalization

-- What a call reads, in its order: `is_run_published` of the active run, the chunks and windows, the
-- chunks that reclaim_stale_stt_chunks returns and the audio of a chunk; after the windows have been
-- closed, the number of chunks outside windows, the windows again and the chunks again.
pub record Readings : Type 0 where
  pub now : ℕ
  pub conversation : Option Conversation
  pub is_run_published : Bool
  pub chunks : List TranscriptChunk
  pub windows : List Window
  pub reclaimed : List TranscriptChunk
  pub audio_of : TranscriptChunk → Option AudioChunk
  pub unwindowed : ℕ
  pub windows_after : List Window
  pub chunks_after : List TranscriptChunk
  pub meets : Meets

abbrev pub with_accounting : Accounting → Details → Details
with_accounting a d = record d { last_accounting = some a }

abbrev pub with_missing : List ℕ → Accounting → Details → Details
with_missing missing a d = record d { missing_sequences = missing; last_accounting = some a }

-- `before`, the write of the conversation, and what follows if it has been moved.
abbrev pub conclude : List Effect → Option Conversation × SafeResult → List Effect → Finalization
conclude before (stored, is_moved true) next = ended (before ++ write_conversation stored ∷ next)
conclude before (stored, is_moved false) next = ended (before ++ write_conversation stored ∷ [])
conclude before (stored, raised_stale) next = lost_lease before

abbrev pub blocks : Window → Bool
blocks w =
    not (is_window_completed w.status) && not w.is_extraction_skipped && not w.is_final_partial

abbrev pub incomplete : List Window → List Window
incomplete = keep blocks

abbrev pub persistence_gaps : List Window → List Window
persistence_gaps = keep (λ w. is_window_completed w.status && not w.is_persistence_ok)

abbrev pub request_windows : (stale_before : ℕ) → List Window → List Effect
request_windows stale_before ws =
    map (λ w. request_window w.window_id false) (keep (should_publish_window_job stale_before) ws)

abbrev pub recover_windows : List Window → List Effect
recover_windows [] = []
recover_windows (w ∷ ws) =
    fail_window w.window_id ∷ request_window w.window_id true ∷ recover_windows ws

abbrev pub missing_if_failed : Accounting → List ℕ
missing_if_failed a = if ltb 0 a.permanent_failures then a.missing_sequences else []

module _ (s : FinalizationSettings) (st : Storage) (r : Readings) (c : Conversation)
    (last : ℕ) where
  abbrev pub readiness_of : List TranscriptChunk → List Window → Readiness
  readiness_of = session_readiness s r.now c.details last

  -- The end of `finalize`, from `if accounting["validUnwindowed"] > 0` on.
  unfoldable pub hand_over : List Effect → Accounting → Finalization
  unfolding safe_transition
  hand_over before a =
      if ltb 0 a.valid_unwindowed
      then conclude before (safe_transition r.meets finalizing (with_accounting a)) []
      else conclude (before ++ trace_accounting a ∷ [])
          (safe_transition r.meets ready_for_processing (with_missing (missing_if_failed a) a))
          (request_processing c.details.processing_version (ltb 0 a.permanent_failures)
              a.missing_sequences
            ∷ [])

  abbrev pub move_unless : ConversationStatus → List Effect → Accounting → Finalization
  move_unless target before a =
      if is_status c.status target
      then ended before
      else conclude before (safe_transition r.meets target (with_missing a.missing_sequences a)) []

  unfoldable pub wait_for_transcripts : List Effect → Accounting → Finalization
  unfolding safe_transition is_status requeue_lost_stt
  wait_for_transcripts before a =
      move_unless waiting_for_transcripts
        (before
          ++ map request_stt (
              requeue_lost_stt st s.max_retries (r.now - microseconds s.stt_stale_timeout)
                r.audio_of r.reclaimed r.chunks))
        a

  -- The accounting after the windows have been closed; `unresolved` of this reading is not used.
  abbrev pub accounting_after : Accounting
  accounting_after = record ((readiness_of r.chunks_after r.windows_after).accounting) {
    valid_unwindowed = r.unwindowed;
  }

  abbrev pub window_effects : List Effect → List ℕ → List Effect
  window_effects before skippable =
      before
      ++ close_ready_windows last skippable
        ∷ request_windows (r.now - microseconds s.window_stale_timeout) (incomplete r.windows_after)
      ++ persist_accounting accounting_after ∷ []

  abbrev pub finish_windows : List Effect → Finalization
  finish_windows before =
      if ltb 0 r.unwindowed || not (is_empty_list (incomplete r.windows_after))
      then move_unless finalizing before accounting_after
      else if not (is_empty_list (persistence_gaps r.windows_after))
      then conclude (before ++ recover_windows (persistence_gaps r.windows_after))
          (safe_transition r.meets finalizing (with_accounting accounting_after)) []
      else hand_over before accounting_after

  unfoldable pub with_windows : List Effect → List ℕ → Finalization
  unfolding session_readiness should_publish_window_job safe_transition is_status hand_over
  with_windows before skippable = finish_windows (window_effects before skippable)

  abbrev after_readiness : Readiness → Finalization
  after_readiness ready =
      let before = persist_accounting ready.accounting ∷ [] in
      if ready.is_unresolved
      then wait_for_transcripts before ready.accounting
      else if s.is_incremental
      then with_windows before ready.skippable
      else hand_over before ready.accounting

  unfoldable pub finalize_open : Finalization
  unfolding session_readiness wait_for_transcripts with_windows hand_over
  finalize_open = after_readiness (readiness_of r.chunks r.windows)

abbrev pub is_left_alone : Readings → Conversation → Bool
is_left_alone r c =
    is_terminal_status c.status
    || is_status c.status partial
      && is_given c.details.active_extraction_run_id
      && r.is_run_published

abbrev pub finalize_from :
    FinalizationSettings → Storage → Readings → Conversation → Option ℕ → Finalization
finalize_from s st r c none = raised_value_error
finalize_from s st r c (some last) =
    if is_left_alone r c then ended [] else finalize_open s st r c last

abbrev pub finalize_conversation :
    FinalizationSettings → Storage → Readings → Option Conversation → Finalization
finalize_conversation s st r none = raised_value_error
finalize_conversation s st r (some c) = finalize_from s st r c c.details.expected_last_sequence

unfoldable pub finalize : FinalizationSettings → Storage → Readings → Finalization
unfolding is_status finalize_open
finalize s st r = finalize_conversation s st r r.conversation

-- ===== src/Conversation/Examples.antt =====
-- The theorems, and some runs, on a conversation of two chunks, one of which has failed for good.
use ai_buddy_app_agent_baken.Base.{
  ℕ, ◌≡◌, ◌↔◌, true, false, none, some, List, [], ◌∷◌, refl, codes, is_one_of,
}
use ai_buddy_app_agent_baken.Stt.{is_permanent_stt_failure}
use ai_buddy_app_agent_baken.Stt.Chunk.{TranscriptChunk, SttStatus, unprocessed}
use ai_buddy_app_agent_baken.Conversation.{
  ConversationStatus, stop_requested, waiting_for_transcripts, ready_for_processing, processing,
  failed, Conversation, Details, is_status, completed,
}
use ai_buddy_app_agent_baken.Conversation.Transitions.{
  Call, move, mark_failed, calls, StatusFollows, here, calls-Follows, IsCompleted, completed_stays,
}
use ai_buddy_app_agent_baken.Conversation.Sequences.{FinalizationSettings, detect_missing_sequences}
use ai_buddy_app_agent_baken.Conversation.Requeue.{Storage, requeue_lost_stt, local_file}
use ai_buddy_app_agent_baken.Conversation.Finalize.{Readings, finalize}
use ai_buddy_app_agent_baken.Conversation.Outcome.{requests_processing}
use ai_buddy_app_agent_baken.Conversation.Ready.{IsReady}
use ai_buddy_app_agent_baken.Conversation.HandOver.{finalize_requests_iff}

abbrev details : Details
details = record {
  source_type = none;
  stopped_at = some 10;
  updated_at = 10;
  expected_last_sequence = some 1;
  processing_version = 1;
  active_extraction_run_id = none;
  missing_sequences = [];
  last_accounting = none;
  last_error = none;
  processed_at = none;
}

abbrev conversation : Conversation
conversation = record { status = stop_requested; details = details }

abbrev chunk_of : ℕ → SttStatus → TranscriptChunk
chunk_of n status = record {
  content = record {
    sequence = n;
    normalized_text = none;
    raw_text = some (codes "hello");
    end_time_ms = 5;
  };
  stt_status = status;
  stt_attempts = 1;
  retry_count = 1;
  last_error = none;
  failure_stage = none;
  failure_type = none;
  stt_provider = none;
  job_id = none;
  terminal = false;
  exclusion_reason = none;
  processing_window_id = some (codes "w");
  processing_status = unprocessed;
  audio_file_path = some (codes "/audio/0.wav");
  updated_at = 0;
}

abbrev chunks : List TranscriptChunk
chunks =
    chunk_of 0 SttStatus.completed ∷ record (chunk_of 1 SttStatus.failed) { terminal = true } ∷ []

abbrev settings : FinalizationSettings
settings = record {
  is_incremental = true;
  max_retries = 5;
  missing_sequence_timeout = 900;
  extension_missing_sequence_timeout = 45;
  window_stale_timeout = 600;
  stt_stale_timeout = 0;
}

abbrev storage : Storage
storage = record {
  use_s3_storage = false;
  audio_bucket = codes "audio";
  split_url = λ url. (url, []);
  legacy_key = λ chunk audio. codes "key";
}

abbrev readings : List TranscriptChunk → Readings
readings cs = record {
  now = 20;
  conversation = some conversation;
  is_run_published = false;
  chunks = cs;
  windows = [];
  reclaimed = [];
  audio_of = λ chunk. none;
  unwindowed = 0;
  windows_after = [];
  chunks_after = cs;
  meets = record {
    now = 20;
    current = some conversation;
    read = some conversation;
    stored = some conversation;
    held = true;
    passes = true;
  };
}

whole_conversation_is_handed_over :
    requests_processing (finalize settings storage (readings chunks)) ≡ true
unfolding finalize
whole_conversation_is_handed_over = refl

pending_chunk_is_waited_for :
    requests_processing
      (finalize settings storage (readings (chunk_of 0 SttStatus.pending ∷ chunks)))
    ≡ false
unfolding finalize
pending_chunk_is_waited_for = refl

number_two_is_missing : detect_missing_sequences (0 ∷ 1 ∷ 3 ∷ []) 3 0 ≡ 2 ∷ []
unfolding detect_missing_sequences
number_two_is_missing = refl

failed_chunk_is_sent_again :
    requeue_lost_stt storage 5 20 (λ chunk. none) [] (chunk_of 0 SttStatus.failed ∷ chunks)
    ≡ (0, local_file (codes "/audio/0.wav")) ∷ []
unfolding requeue_lost_stt is_one_of is_permanent_stt_failure
failed_chunk_is_sent_again = refl

finalize_requests_iff_example :
    (requests_processing (finalize settings storage (readings chunks)) ≡ true)
    ↔ IsReady settings (readings chunks) conversation 1
finalize_requests_iff_example =
    finalize_requests_iff settings storage (readings chunks) conversation 1 refl refl

abbrev call_to : ConversationStatus → ConversationStatus → Call
call_to from to = move 30 true true to (λ d. d) (some (record { status = from; details = details }))

-- The second call has read an old status, and loses; the last one finds a conversation that failed.
abbrev moves : List Call
moves =
    call_to stop_requested waiting_for_transcripts
    ∷ call_to stop_requested ready_for_processing
    ∷ call_to waiting_for_transcripts ready_for_processing
    ∷ mark_failed 31 true true (codes "no audio")
    ∷ call_to ready_for_processing processing
    ∷ []

calls-Follows_example : StatusFollows stop_requested (calls moves (some conversation))
calls-Follows_example = calls-Follows moves stop_requested (some conversation) here

abbrev finished_conversation : Conversation
finished_conversation = record { status = completed; details = details }

completed_stays_example : IsCompleted (calls moves (some finished_conversation))
completed_stays_example = completed_stays moves finished_conversation refl

failed_in_the_end :
    calls moves (some conversation)
    ≡ some (record {
      status = failed;
      details = record details { updated_at = 31; last_error = some (codes "no audio") };
    })
unfolding calls is_status
failed_in_the_end = refl

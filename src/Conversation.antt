-- ===== src/Conversation.antt =====
-- The status of a conversation: ConversationStatus, VALID_TRANSITIONS and assert_valid_transition of
-- services/conversation/models.py, and `transition` of services/conversation/repository.py.
pub mod Transitions
pub mod Sequences
pub mod Readiness
pub mod Requeue
pub mod SafeTransition
pub mod Finalize
mod Outcome
mod Ready
mod Resolved
mod HandOver
mod Examples
mod Tests
use ai_buddy_app_agent_baken.Base.{
  text_eq, codes, take, ℕ, Bool, true, false, ◌||◌, Option, none, some, List, [], ◌∷◌, Text, any,
  if◌then◌else◌,
}

pub data ConversationStatus : Type 0 where
  recording stop_requested waiting_for_transcripts finalizing ready_for_processing :
      ConversationStatus
  processing validating completed partial retry_pending failed : ConversationStatus

pub ConversationStatus-discrete : Discrete ConversationStatus
ConversationStatus-discrete = hlevel

unfoldable pub is_status : ConversationStatus → ConversationStatus → Bool
unfolding ConversationStatus-discrete
is_status s t = elim (ConversationStatus-discrete s t) [ yes e ↦ true | no e ↦ false ]

abbrev pub valid_transitions : ConversationStatus → List ConversationStatus
valid_transitions recording = stop_requested ∷ waiting_for_transcripts ∷ failed ∷ []
valid_transitions stop_requested =
    waiting_for_transcripts ∷ finalizing ∷ ready_for_processing ∷ partial ∷ retry_pending ∷ failed
    ∷ []
valid_transitions waiting_for_transcripts =
    finalizing ∷ ready_for_processing ∷ processing ∷ partial ∷ retry_pending ∷ failed ∷ []
valid_transitions ready_for_processing = processing ∷ retry_pending ∷ failed ∷ []
valid_transitions processing = validating ∷ finalizing ∷ retry_pending ∷ failed ∷ []
valid_transitions finalizing =
    waiting_for_transcripts ∷ ready_for_processing ∷ processing ∷ partial ∷ completed ∷ failed ∷ []
valid_transitions validating = completed ∷ partial ∷ retry_pending ∷ failed ∷ []
valid_transitions partial = processing ∷ retry_pending ∷ failed ∷ completed ∷ []
valid_transitions retry_pending =
    waiting_for_transcripts ∷ ready_for_processing ∷ processing ∷ failed ∷ []
valid_transitions failed = retry_pending ∷ []
valid_transitions completed = []

-- Whether assert_valid_transition returns.
unfoldable pub is_valid_transition : (current target : ConversationStatus) → Bool
unfolding is_status
is_valid_transition current target =
    is_status current target || any (is_status target) (valid_transitions current)

-- The counts of a conversation that `_session_readiness` makes; the keys successfulSequences,
-- emptySequences and permanentlyFailedSequences repeat three of them.
pub record Accounting : Type 0 where
  pub expected_sequences : ℕ
  pub accounted_sequences : ℕ
  pub missing_sequences : List ℕ
  pub empty_transcripts : ℕ
  pub failed_transcripts : ℕ
  pub pending_transcripts : ℕ
  pub valid_transcripts : ℕ
  pub valid_windowed : ℕ
  pub valid_excluded : ℕ
  pub valid_unwindowed : ℕ
  pub windows_created : ℕ
  pub windows_completed : ℕ
  pub windows_pending : ℕ
  pub windows_processing : ℕ
  pub windows_failed : ℕ
  pub window_stale_recovered_count : ℕ
  pub unresolved_expected : ℕ
  pub permanent_failures : ℕ
  pub terminal_sequences : ℕ
  pub pending_sequences : ℕ
  pub retrying_sequences : ℕ
  pub artifact_persistence_gaps : ℕ
  pub incomplete_windows : ℕ

-- The fields of a conversation but its status. Times are microseconds.
pub record Details : Type 0 where
  pub source_type : Option Text
  pub stopped_at : Option ℕ
  pub updated_at : ℕ
  pub expected_last_sequence : Option ℕ
  pub processing_version : ℕ
  pub active_extraction_run_id : Option Text
  pub missing_sequences : List ℕ
  pub last_accounting : Option Accounting
  pub last_error : Option Text
  pub processed_at : Option ℕ

pub record Conversation : Type 0 where
  pub status : ConversationStatus
  pub details : Details

abbrev pub text_or : Option Text → Text → Text
text_or none b = b
text_or (some []) b = b
text_or (some (c ∷ cs)) b = c ∷ cs

abbrev pub time_or : Option ℕ → ℕ → ℕ
time_or none b = b
time_or (some t) b = t

abbrev pub is_meeting_extension : Details → Bool
is_meeting_extension d = text_eq (text_or d.source_type []) (codes "meeting_extension")

-- What sync_meeting_session_status writes to the session of a meeting, whose keys that are not
-- written are `none`.
pub record SessionPatch : Type 0 where
  pub session_status : Text
  pub processing_status : Text
  pub transcript_status : Option Text
  pub intelligence_status : Text
  pub finalized_at : Option ℕ
  pub last_error_message : Option Text

abbrev ready_patch : (now : ℕ) → Details → SessionPatch
ready_patch now d = record {
  session_status = codes "READY";
  processing_status = codes "completed";
  transcript_status = some (codes "completed");
  intelligence_status = codes "completed";
  finalized_at = some (time_or d.processed_at now);
  last_error_message = none;
}

abbrev plain_patch : Text → Text → Text → Text → SessionPatch
plain_patch s p t i = record {
  session_status = s;
  processing_status = p;
  transcript_status = some t;
  intelligence_status = i;
  finalized_at = none;
  last_error_message = none;
}

abbrev status_patch : (now : ℕ) → ConversationStatus → Details → Option SessionPatch
status_patch now waiting_for_transcripts d = some (
    plain_patch (codes "WAITING_FOR_TRANSCRIPTS") (codes "waiting_for_transcripts")
      (codes "waiting") (codes "not_started"))
status_patch now finalizing d = some (
    plain_patch (codes "FINALIZING") (codes "finalizing") (codes "processing")
      (codes "not_started"))
status_patch now ready_for_processing d =
    some (plain_patch (codes "PROCESSING") (codes "ready") (codes "completed") (codes "queued"))
status_patch now processing d =
    some (
      plain_patch (codes "PROCESSING") (codes "processing") (codes "completed")
        (codes "processing"))
status_patch now validating d =
    some (
      plain_patch (codes "PROCESSING") (codes "processing") (codes "completed")
        (codes "processing"))
status_patch now completed d = some (ready_patch now d)
status_patch now partial d = some (ready_patch now d)
status_patch now failed d = some (record {
  session_status = codes "FINALIZATION_FAILED";
  processing_status = codes "failed";
  transcript_status = none;
  intelligence_status = codes "finalization_failed";
  finalized_at = none;
  last_error_message =
      some (take 200 (text_or d.last_error (codes "Conversation processing failed")));
})
status_patch now recording d = none
status_patch now stop_requested d = none
status_patch now retry_pending d = none

unfoldable pub session_patch : (now : ℕ) → Conversation → Option SessionPatch
unfolding text_eq
session_patch now c =
    if is_meeting_extension c.details then status_patch now c.status c.details else none

-- `saved`: the update has been made. `stale` is StaleOwnershipError, by the guard or by the fence of
-- the write; the other three are ValueError. The write to the session of a meeting, which follows a
-- saved update, is taken to succeed.
pub data Transition : Type 0 where
  saved : Conversation → (session : Option SessionPatch) → Transition
  stale not_found invalid conflict : Transition

-- No caller's updates hold `processedAt` or `status`.
abbrev finished : (now : ℕ) → ConversationStatus → Details → Details
finished now completed d = record d { processed_at = some now }
finished now partial d = record d { processed_at = some now }
finished now _ d = d

abbrev pub moved :
    (now : ℕ) → ConversationStatus → (Details → Details) → Conversation → Conversation
moved now target updates c = record {
  status = target;
  details = finished now target (record (updates c.details) { updated_at = now });
}

-- The documents are that of one conversation, and a call gives the document and its result.
abbrev refused : Option Conversation → Transition → Option Conversation × Transition
refused stored t = (stored, t)

abbrev saved_as : (now : ℕ) → Conversation → Option Conversation × Transition
saved_as now c = (some c, saved c (session_patch now c))

abbrev pub compare_and_set :
    (now : ℕ)
    → ConversationStatus
    → (Details → Details)
    → (passes : Bool) → (current : Conversation) → (stored : Option Conversation)
    → Option Conversation × Transition
compare_and_set now target updates passes current none = refused none conflict
compare_and_set now target updates false current (some c) = refused (some c) stale
compare_and_set now target updates true current (some c) =
    if is_status c.status current.status
    then saved_as now (moved now target updates c)
    else refused (some c) conflict

-- `read` is what the call reads, and `stored` what its write meets: others may write in between.
-- `held` is whether the lease is held at the start, `passes` whether the fence lets the write pass.
unfoldable pub transition :
    (now : ℕ)
    → (held passes : Bool) → (target : ConversationStatus) → (updates : Details → Details)
    → (read stored : Option Conversation) → Option Conversation × Transition
unfolding is_valid_transition session_patch
transition now false passes target updates read stored = refused stored stale
transition now true passes target updates none stored = refused stored not_found
transition now true passes target updates (some current) stored =
    if is_valid_transition current.status target
    then compare_and_set now target updates passes current stored
    else refused stored invalid

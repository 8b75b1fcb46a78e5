-- ===== src/Conversation/Ready.antt =====
-- What it means that a conversation is ready for processing, said of its chunks and windows, and when
-- its move to READY_FOR_PROCESSING succeeds.
use ai_buddy_app_agent_baken.Base.{
  ℕ, ◌≡◌, ◌≤◌, ◌↔◌, ◌⊎◌, inl, inr, Bool, true, false, not, ◌&&◌, Option, none, some, List, map, All,
  refl, arith, Bool-cases, subst,
}
use ai_buddy_app_agent_baken.Windowing.Chunk.{is_useful_chunk}
use ai_buddy_app_agent_baken.Stt.Chunk.{TranscriptChunk, is_completed, is_failed}
use ai_buddy_app_agent_baken.Conversation.{
  ConversationStatus, ready_for_processing, Conversation, Details, is_status, is_valid_transition,
}
use ai_buddy_app_agent_baken.Conversation.Transitions.{is_status→eq}
use ai_buddy_app_agent_baken.Conversation.Readiness.{
  Window, is_window_completed, sequence_of, terminal_failed_of,
}
use ai_buddy_app_agent_baken.Conversation.Sequences.{
  FinalizationSettings, is_given, has_text, is_member, first_sequence_for_conversation,
  missing_sequences_are_terminal,
}
use ai_buddy_app_agent_baken.Conversation.Finalize.{Readings, is_left_alone, blocks}
use ai_buddy_app_agent_baken.Conversation.SafeTransition.{
  Meets, is_terminal_status, safe_transition,
}
use ai_buddy_app_agent_baken.Conversation.Outcome.{has_moved}

-- A chunk has a transcript, or has failed for good. (A failed chunk is found by its number.)
abbrev pub HasOutcome : FinalizationSettings → List TranscriptChunk → TranscriptChunk → Type 0
HasOutcome s chunks chunk =
    (is_completed chunk.stt_status ≡ true)
    ⊎ ((is_failed chunk.stt_status ≡ true)
        × (is_member (sequence_of chunk) (terminal_failed_of s.max_retries chunks) ≡ true))

-- A transcript with text is in a window, or has been excluded.
abbrev pub is_left_over : TranscriptChunk → Bool
is_left_over chunk =
    (is_completed chunk.stt_status && is_useful_chunk chunk.content)
    && (not (is_given chunk.processing_window_id) && not (has_text chunk.exclusion_reason))

abbrev pub has_gap : Window → Bool
has_gap w = is_window_completed w.status && not w.is_persistence_ok

-- With incremental processing, no transcript is outside a window, no window blocks, and no completed
-- window has a gap; else no transcript is left over, whatever the state of the windows.
abbrev pub IsWindowed : Bool → Readings → Type 0
IsWindowed true r =
    (r.unwindowed ≡ 0)
    × All (λ w. blocks w ≡ false) r.windows_after
    × All (λ w. has_gap w ≡ false) r.windows_after
IsWindowed false r = All (λ chunk. is_left_over chunk ≡ false) r.chunks

-- The move to READY_FOR_PROCESSING is still open at each read and at the write.
abbrev MovesFrom :
    Option Conversation → Option Conversation → Option Conversation → Bool → Bool → Type 0
MovesFrom (some current) (some read) (some stored) true true =
    (is_terminal_status current.status ≡ false)
    × (is_valid_transition read.status ready_for_processing ≡ true)
    × (is_status stored.status read.status ≡ true)
MovesFrom _ _ _ _ _ = ⊥

abbrev pub Moves : Meets → Type 0
Moves m = MovesFrom m.current m.read m.stored m.held m.passes

pub record IsReady (s : FinalizationSettings) (r : Readings) (c : Conversation) (last : ℕ)
    : Type 0 where
  pub is_open : is_left_alone r c ≡ false
  pub outcomes : All (HasOutcome s r.chunks) r.chunks
  pub complete :
      (k : ℕ)
      → first_sequence_for_conversation c.details ≤ k
      → k ≤ last
      → (is_member k (map sequence_of r.chunks) ≡ true)
        ⊎ (missing_sequences_are_terminal s r.now c.details ≡ true)
  pub windowed : IsWindowed s.is_incremental r
  pub moves : Moves r.meets

-- The result of `_safe_transition`.
abbrev moved_to :
    (now : ℕ) (updates : Details → Details) (current read stored : Option Conversation)
    (held passes : Bool)
    → Bool
moved_to now updates current read stored held passes =
    has_moved
      (safe_transition
        (record {
          now = now;
          current = current;
          read = read;
          stored = stored;
          held = held;
          passes = passes;
        })
        ready_for_processing updates).1

ready_is_terminal :
    (s : ConversationStatus)
    → is_terminal_status s ≡ false
    → is_status s ready_for_processing ≡ false
ready_is_terminal s h = elim (Bool-cases (is_status s ready_for_processing)) [
  | inl e ↦ cc (subst (λ t. is_terminal_status t ≡ false) (is_status→eq s ready_for_processing e) h)
  | inr e ↦ e
]

module _ (now : ℕ) (updates : Details → Details) where
  moved_to_iff :
      (current read stored : Option Conversation) (held passes : Bool)
      → (moved_to now updates current read stored held passes ≡ true)
        ↔ MovesFrom current read stored held passes
  unfolding safe_transition
  moved_to_iff none read stored held passes = (λ h. cc, λ h. absurd h)
  moved_to_iff (some current) none stored true passes = (λ h. ground arith, λ h. absurd h)
  moved_to_iff (some current) none stored false passes = (λ h. ground arith, λ h. absurd h)
  moved_to_iff (some current) (some read) none true passes = (λ h. ground arith, λ h. absurd h)
  moved_to_iff (some current) (some read) none false passes = (λ h. ground arith, λ h. absurd h)
  moved_to_iff (some current) (some read) (some stored) false passes =
      (λ h. ground arith, λ h. absurd h)
  moved_to_iff (some current) (some read) (some stored) true false =
      (λ h. ground arith, λ h. absurd h)
  moved_to_iff (some current) (some read) (some stored) true true =
      (λ h. ground arith, λ h. rw (h.0, ready_is_terminal current.status h.0, h.1, h.2) refl)

pub safe_transition_iff :
    (m : Meets) (updates : Details → Details)
    → (has_moved (safe_transition m ready_for_processing updates).1 ≡ true) ↔ Moves m
safe_transition_iff m updates = moved_to_iff m.now updates m.current m.read m.stored m.held m.passes

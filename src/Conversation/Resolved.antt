-- ===== src/Conversation/Resolved.antt =====
-- When a conversation has no chunk and no number left to wait for.
use ai_buddy_app_agent_baken.Base.{
  ℕ, ◌≡◌, ◌≤◌, ◌↔◌, ◌⊎◌, inl, inr, Bool, true, false, not, ◌&&◌, ◌||◌, List, map, All, any, refl,
  arith, Bool-cases,
}
use ai_buddy_app_agent_baken.Stt.Chunk.{
  TranscriptChunk, SttStatus, pending, processing, completed, failed, is_pending, is_processing,
  is_completed, is_failed,
}
use ai_buddy_app_agent_baken.Conversation.{Details}
use ai_buddy_app_agent_baken.Conversation.Readiness.{
  sequence_of, is_waiting, failed_chunks, terminal_failed_of, missing, is_unresolved_now,
}
use ai_buddy_app_agent_baken.Conversation.Sequences.{
  FinalizationSettings, is_empty_list, is_member, first_sequence_for_conversation,
  missing_sequences_are_terminal,
}
use ai_buddy_app_agent_baken.Conversation.Tests.{
  is_empty_list-keep, any-keep, any-or, any_iff, All-map, detect_missing_sequences_iff,
}
use ai_buddy_app_agent_baken.Conversation.Ready.{HasOutcome}

-- A chunk for which the conversation has to wait.
abbrev is_outstanding : FinalizationSettings → List TranscriptChunk → TranscriptChunk → Bool
is_outstanding s chunks chunk =
    is_waiting chunk
    || is_failed chunk.stt_status
      && not (is_member (sequence_of chunk) (terminal_failed_of s.max_retries chunks))

outcome_or :
    (status : SttStatus) (given_up : Bool)
    → ((is_pending status || is_processing status) || is_failed status && not given_up) ≡ false
    → (is_completed status ≡ true) ⊎ ((is_failed status ≡ true) × (given_up ≡ true))
outcome_or pending g h = cc
outcome_or processing g h = cc
outcome_or completed g h = inl refl
outcome_or failed g h = inr (refl, ground arith)

none_outstanding :
    (status : SttStatus) (given_up : Bool)
    → (is_completed status ≡ true) ⊎ ((is_failed status ≡ true) × (given_up ≡ true))
    → ((is_pending status || is_processing status) || is_failed status && not given_up) ≡ false
none_outstanding status g (inl h) = ground arith
none_outstanding status g (inr h) = ground arith

module _ (s : FinalizationSettings) (now : ℕ) (d : Details) (last : ℕ)
    (chunks : List TranscriptChunk) where
  unresolved_test : is_unresolved_now s now d last chunks ≡ (
      any (is_outstanding s chunks) chunks
      || not (is_empty_list (missing s now d last chunks))
        && not (missing_sequences_are_terminal s now d))
  unresolved_test =
      let given_up = terminal_failed_of s.max_retries chunks in
      rw
        (
          is_empty_list-keep is_waiting chunks,
          is_empty_list-keep (λ c. not (is_member (sequence_of c) given_up)) (failed_chunks chunks),
          any-keep (λ c. not (is_member (sequence_of c) given_up)) (λ c. is_failed c.stt_status)
              chunks,
          any-or is_waiting
              (λ c. is_failed c.stt_status && not (is_member (sequence_of c) given_up)) chunks,
        )
        (ground arith)

  outcomes_iff : (any (is_outstanding s chunks) chunks ≡ false) ↔ All (HasOutcome s chunks) chunks
  outcomes_iff = (
    λ h.
        All-map chunks (λ c. outcome_or c.stt_status _)
          ((any_iff (is_outstanding s chunks) chunks).0 h),
    λ h.
        (any_iff (is_outstanding s chunks) chunks).1
          (All-map chunks (λ c. none_outstanding c.stt_status _) h),
  )

  abbrev pub IsComplete : Type 0
  IsComplete =
      (k : ℕ)
      → first_sequence_for_conversation d ≤ k
      → k ≤ last
      → (is_member k (map sequence_of chunks) ≡ true)
        ⊎ (missing_sequences_are_terminal s now d ≡ true)

  complete_iff :
      ((not (is_empty_list (missing s now d last chunks))
          && not (missing_sequences_are_terminal s now d))
        ≡ false)
      ↔ IsComplete
  complete_iff =
      let found =
        detect_missing_sequences_iff (map sequence_of chunks) last
          (first_sequence_for_conversation d) in
      elim (Bool-cases (missing_sequences_are_terminal s now d)) [
        | inl timed ↦ (λ h k a b. inr timed, λ h. rw timed (ground arith))
        | inr early ↦ (
          λ h k a b. inl (found.0 (ground arith) k a (omega arith)),
          λ h. rw (found.1 (λ k a b. elim (h k a (omega arith)) [ inl p ↦ p | inr q ↦ cc ])) refl,
        )
      ]

  pub resolved_iff :
      (is_unresolved_now s now d last chunks ≡ false)
      ↔ (All (HasOutcome s chunks) chunks × IsComplete)
  resolved_iff = (
    λ h. (
      outcomes_iff.0 (ground (arith, unresolved_test)),
      complete_iff.0 (ground (arith, unresolved_test)),
    ),
    λ h. rw (unresolved_test, outcomes_iff.1 h.0, complete_iff.1 h.1) refl,
  )

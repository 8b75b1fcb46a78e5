-- ===== src/Conversation/HandOver.antt =====
-- `finalize` requests the processing of a conversation exactly when it is ready.
use ai_buddy_app_agent_baken.Base.{
  ℕ, ◌≡◌, ◌↔◌, inl, inr, Bool, true, false, not, ◌&&◌, ◌||◌, some, keep, All, ltb, refl, arith,
  Bool-cases, if◌then◌else◌, ◌∙◌, sym, ap, [],
}
use ai_buddy_app_agent_baken.Windowing.Chunk.{is_useful_chunk}
use ai_buddy_app_agent_baken.Stt.Chunk.{is_completed}
use ai_buddy_app_agent_baken.Conversation.{Accounting, Conversation}
use ai_buddy_app_agent_baken.Conversation.Readiness.{
  is_unresolved_now, accounting_of, session_readiness,
}
use ai_buddy_app_agent_baken.Conversation.Sequences.{FinalizationSettings, is_given, has_text}
use ai_buddy_app_agent_baken.Conversation.Requeue.{Storage}
use ai_buddy_app_agent_baken.Conversation.Finalize.{
  Readings, finalize, ended, finalize_from, finalize_conversation, finalize_open, accounting_after,
  blocks, with_missing, missing_if_failed, is_left_alone,
}
use ai_buddy_app_agent_baken.Conversation.Outcome.{
  requests_processing, hands_over, finishes, finalize_open-requests,
}
use ai_buddy_app_agent_baken.Conversation.Resolved.{IsComplete, resolved_iff}
use ai_buddy_app_agent_baken.Conversation.Tests.{count_test, any-keep, any_iff, is_empty_list_iff}
use ai_buddy_app_agent_baken.Conversation.Ready.{
  HasOutcome, is_left_over, has_gap, IsWindowed, Moves, IsReady, safe_transition_iff,
}

all_three :
    (w e g o : Bool)
    → w ≡ false
    → e ≡ true
    → g ≡ true
    → o ≡ true
    → (not (w || not e) && g && o) ≡ true
all_three w e g o p q r' t = ground arith

module _ (s : FinalizationSettings) (st : Storage) (r : Readings) (c : Conversation)
    (last : ℕ) where
  hands_over_iff :
      (a : Accounting)
      → (hands_over s st r c last a ≡ true) ↔ ((ltb 0 a.valid_unwindowed ≡ false) × Moves r.meets)
  hands_over_iff a =
      let moves = safe_transition_iff r.meets (with_missing (missing_if_failed a) a) in
      (λ h. (ground arith, moves.0 (ground arith)), λ h. rw (h.0, moves.1 h.1) refl)

  finishes_iff : (finishes s st r c last ≡ true) ↔ (IsWindowed true r × Moves r.meets)
  finishes_iff =
      let over = hands_over_iff (accounting_after s st r c last) in
      let done = is_empty_list_iff blocks r.windows_after in
      let whole = is_empty_list_iff has_gap r.windows_after in
      (
        λ h. (
          (ground arith, done.0 (ground arith), whole.0 (ground arith)),
          (over.0 (ground arith)).1,
        ),
        λ h.
            all_three (ltb 0 r.unwindowed) _ _ _ (rw h.0.0 refl) (done.1 h.0.1) (whole.1 h.0.2)
              (over.1 (rw h.0.0 refl, h.1)),
      )

  left_over_iff :
      (ltb 0 (accounting_of s r.now c.details last r.chunks r.windows).valid_unwindowed ≡ false)
      ↔ IsWindowed false r
  left_over_iff =
      let same =
        count_test
          (λ chunk.
            not (is_given chunk.processing_window_id) && not (has_text chunk.exclusion_reason))
          (keep (λ chunk. is_completed chunk.stt_status && is_useful_chunk chunk.content) r.chunks)
        ∙ any-keep _ _ r.chunks in
      let none' = any_iff is_left_over r.chunks in
      (λ h. none'.0 (sym same ∙ h), λ h. same ∙ none'.1 h)

  open_test : Bool → Bool
  open_test incremental =
      if incremental
      then finishes s st r c last
      else hands_over s st r c last (accounting_of s r.now c.details last r.chunks r.windows)

  open_test_iff :
      (incremental : Bool)
      → (open_test incremental ≡ true) ↔ (IsWindowed incremental r × Moves r.meets)
  unfolding open_test
  open_test_iff true = finishes_iff
  open_test_iff false =
      let over = hands_over_iff (accounting_of s r.now c.details last r.chunks r.windows) in
      (λ h. (left_over_iff.0 (over.0 h).0, (over.0 h).1), λ h. over.1 (left_over_iff.1 h.0, h.1))

  open_requests :
      requests_processing (finalize_open s st r c last)
      ≡ (not (is_unresolved_now s r.now c.details last r.chunks) && open_test s.is_incremental)
  unfolding session_readiness open_test
  open_requests = finalize_open-requests s st r c last

  open_iff : (requests_processing (finalize_open s st r c last) ≡ true) ↔ (
      (All (HasOutcome s r.chunks) r.chunks × IsComplete s r.now c.details last r.chunks)
      × (IsWindowed s.is_incremental r × Moves r.meets))
  open_iff =
      let resolved = resolved_iff s r.now c.details last r.chunks in
      let test = open_test_iff s.is_incremental in
      (
        λ h. (resolved.0 (ground (arith, open_requests)), test.0 (ground (arith, open_requests))),
        λ h. rw (open_requests, resolved.1 h.0, test.1 h.1) refl,
      )

finalize_lem :
    (s : FinalizationSettings) (st : Storage) (r : Readings) (c : Conversation) (last : ℕ)
    → r.conversation ≡ some c
    → c.details.expected_last_sequence ≡ some last
    → finalize s st r ≡ (if is_left_alone r c then ended [] else finalize_open s st r c last)
unfolding finalize
finalize_lem s st r c last hc hl =
    ap (finalize_conversation s st r) hc ∙ ap (finalize_from s st r c) hl

-- For a conversation whose last sequence number is known: `finalize` requests the processing exactly
-- if nobody has taken the conversation on, each of its chunks has a transcript or has failed for good,
-- each number up to the last is there or has been waited for long enough, the move to
-- READY_FOR_PROCESSING is open at each read and at the write, and: without incremental processing,
-- each completed transcript with text is in a window or has been excluded, whatever the state of the
-- windows; with it, the count of transcripts without a window is 0, no window blocks (each is
-- completed, its extraction was skipped, or it is the final partial one), and no completed window
-- lacks its artifacts.
pub finalize_requests_iff :
    (s : FinalizationSettings) (st : Storage) (r : Readings) (c : Conversation) (last : ℕ)
    → r.conversation ≡ some c
    → c.details.expected_last_sequence ≡ some last
    → (requests_processing (finalize s st r) ≡ true) ↔ IsReady s r c last
finalize_requests_iff s st r c last hc hl =
    let test = open_iff s st r c last in
    rw (finalize_lem s st r c last hc hl) (elim (Bool-cases (is_left_alone r c)) [
      | inl left' ↦ rw left' (λ h. cc, λ ready. cc (sym left' ∙ ready.is_open))
      | inr open' ↦ rw open' (
        λ h. record {
          is_open = open';
          outcomes = (test.0 h).0.0;
          complete = (test.0 h).0.1;
          windowed = (test.0 h).1.0;
          moves = (test.0 h).1.1;
        },
        λ ready. test.1 ((ready.outcomes, ready.complete), (ready.windowed, ready.moves)),
      )
    ])

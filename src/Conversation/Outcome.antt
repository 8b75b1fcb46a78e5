-- ===== src/Conversation/Outcome.antt =====
-- When `finalize` publishes "conversation.processing.requested", as one Boolean test.
use ai_buddy_app_agent_baken.Base.{
  ℕ, ◌≡◌, Bool, true, false, not, ◌&&◌, ◌||◌, Option, List, [], ◌∷◌, ◌++◌, map, any, ltb, refl,
  arith, if◌then◌else◌, Bool-cases, inl, inr, ◌∙◌,
}
use ai_buddy_app_agent_baken.Conversation.{
  ConversationStatus, is_status, finalizing, waiting_for_transcripts, ready_for_processing,
  Accounting, Conversation,
}
use ai_buddy_app_agent_baken.Conversation.Readiness.{Window}
use ai_buddy_app_agent_baken.Conversation.Sequences.{FinalizationSettings, is_empty_list}
use ai_buddy_app_agent_baken.Conversation.Requeue.{Storage}
use ai_buddy_app_agent_baken.Conversation.Finalize.{
  Effect, request_processing, request_stt, request_window, persist_accounting, close_ready_windows,
  Finalization, ended, lost_lease, raised_value_error, Readings, conclude, hand_over, move_unless,
  wait_for_transcripts, with_windows, finalize_open, with_accounting, with_missing,
  missing_if_failed, recover_windows, incomplete, persistence_gaps, readiness_of, accounting_after,
  window_effects, finish_windows,
}
use ai_buddy_app_agent_baken.Conversation.SafeTransition.{
  SafeResult, is_moved, raised_stale, safe_transition,
}

abbrev pub is_request : Effect → Bool
is_request (request_processing processing_version is_partial missing_sequences) = true
is_request _ = false

abbrev pub effects : Finalization → List Effect
effects (ended es) = es
effects (lost_lease es) = es
effects raised_value_error = []

abbrev pub requests_processing : Finalization → Bool
requests_processing f = any is_request (effects f)

abbrev pub has_moved : SafeResult → Bool
has_moved (is_moved b) = b
has_moved raised_stale = false

any-append {ℓ} :
    {A : Type ℓ} (p : A → Bool) (xs ys : List A) → any p (xs ++ ys) ≡ (any p xs || any p ys)
any-append p [] ys = refl
any-append p (x ∷ xs) ys = ground (arith, any-append p xs ys)

-- Effects that do not request the processing.
record Quiet (es : List Effect) : Type 0 where
  quiet : any is_request es ≡ false

Quiet-cons : (e : Effect) (es : List Effect) → is_request e ≡ false → Quiet es → Quiet (e ∷ es)
Quiet-cons e es h q = record { quiet = rw h q.quiet }

Quiet-append : (xs ys : List Effect) → Quiet xs → Quiet ys → Quiet (xs ++ ys)
Quiet-append xs ys p q = record { quiet = any-append is_request xs ys ∙ rw (p.quiet, q.quiet) refl }

Quiet-map {ℓ} :
    {A : Type ℓ} (f : A → Effect)
    → ((x : A) → is_request (f x) ≡ false)
    → (xs : List A) → Quiet (map f xs)
Quiet-map f h [] = record { quiet = refl }
Quiet-map f h (x ∷ xs) = record { quiet = rw (h x) (Quiet-map f h xs).quiet }

conclude-requests :
    (before next : List Effect) (out : Option Conversation × SafeResult)
    → Quiet before
    → requests_processing (conclude before out next) ≡ (has_moved out.1 && any is_request next)
conclude-requests before next (stored, is_moved true) h =
    any-append is_request before _ ∙ rw h.quiet refl
conclude-requests before next (stored, is_moved false) h =
    any-append is_request before _ ∙ rw h.quiet refl
conclude-requests before next (stored, raised_stale) h = h.quiet

recover_windows-Quiet : (ws : List Window) → Quiet (recover_windows ws)
recover_windows-Quiet [] = record { quiet = refl }
recover_windows-Quiet (w ∷ ws) = record { quiet = (recover_windows-Quiet ws).quiet }

and_false : (b : Bool) → (b && false) ≡ false
and_false b = ground arith

and_true : (b : Bool) → (b && true) ≡ b
and_true b = ground arith

module _ (s : FinalizationSettings) (st : Storage) (r : Readings) (c : Conversation)
    (last : ℕ) where
  abbrev pub hands_over : Accounting → Bool
  hands_over a =
      not (ltb 0 a.valid_unwindowed)
      && has_moved
          (safe_transition r.meets ready_for_processing (with_missing (missing_if_failed a) a)).1

  hand_over-requests :
      (before : List Effect) (a : Accounting)
      → Quiet before
      → requests_processing (hand_over s st r c last before a) ≡ hands_over a
  unfolding hand_over
  hand_over-requests before a h = elim (Bool-cases (ltb 0 a.valid_unwindowed)) [
    | inl left' ↦ rw left' (
        conclude-requests before [] (safe_transition r.meets finalizing (with_accounting a)) h
        ∙ and_false _)
    | inr none' ↦ rw none' (
        conclude-requests _ _
          (safe_transition r.meets ready_for_processing (with_missing (missing_if_failed a) a))
          (Quiet-append before _ h (record { quiet = refl }))
        ∙ and_true _)
  ]

  move_unless-requests :
      (target : ConversationStatus) (before : List Effect) (a : Accounting)
      → Quiet before
      → requests_processing (move_unless s st r c last target before a) ≡ false
  move_unless-requests target before a h = elim (Bool-cases (is_status c.status target)) [
    | inl same ↦ rw same h.quiet
    | inr other ↦ rw other (
        conclude-requests before []
          (safe_transition r.meets target (with_missing a.missing_sequences a)) h
        ∙ and_false _)
  ]

  wait_for_transcripts-requests :
      (before : List Effect) (a : Accounting)
      → Quiet before
      → requests_processing (wait_for_transcripts s st r c last before a) ≡ false
  unfolding wait_for_transcripts
  wait_for_transcripts-requests before a h =
      move_unless-requests waiting_for_transcripts _ a
        (Quiet-append before _ h (Quiet-map request_stt (λ x. refl) _))

  window_effects-Quiet :
      (before : List Effect) (skippable : List ℕ)
      → Quiet before
      → Quiet (window_effects s st r c last before skippable)
  window_effects-Quiet before skippable h =
      Quiet-append _ (persist_accounting (accounting_after s st r c last) ∷ [])
        (Quiet-append before _ h (
          Quiet-cons (close_ready_windows last skippable) _ refl
            (Quiet-map (λ w. request_window w.window_id false) (λ w. refl) _)))
        (record { quiet = refl })

  abbrev pub finishes : Bool
  finishes =
      not (ltb 0 r.unwindowed || not (is_empty_list (incomplete r.windows_after)))
      && is_empty_list (persistence_gaps r.windows_after)
      && hands_over (accounting_after s st r c last)

  finish_windows-requests :
      (before : List Effect)
      → Quiet before
      → requests_processing (finish_windows s st r c last before) ≡ finishes
  finish_windows-requests before h =
      elim (Bool-cases (ltb 0 r.unwindowed || not (is_empty_list (incomplete r.windows_after)))) [
        | inl wait ↦ rw wait (move_unless-requests finalizing before _ h)
        | inr done ↦ rw done (elim (Bool-cases (is_empty_list (persistence_gaps r.windows_after))) [
          | inl whole ↦ rw whole (hand_over-requests before _ h)
          | inr gaps ↦ rw gaps (
              conclude-requests _ []
                (safe_transition r.meets finalizing
                  (with_accounting (accounting_after s st r c last)))
                (Quiet-append before _ h (recover_windows-Quiet (persistence_gaps r.windows_after)))
              ∙ and_false _)
        ])
      ]

  pub finalize_open-requests : requests_processing (finalize_open s st r c last) ≡ (
      not (readiness_of s st r c last r.chunks r.windows).is_unresolved
      && (if s.is_incremental
          then finishes
          else hands_over (readiness_of s st r c last r.chunks r.windows).accounting))
  unfolding finalize_open with_windows
  finalize_open-requests =
      let ready = readiness_of s st r c last r.chunks r.windows in
      elim (Bool-cases ready.is_unresolved) [
        | inl waits ↦ rw waits (
            wait_for_transcripts-requests (persist_accounting ready.accounting ∷ [])
              ready.accounting (record { quiet = refl }))
        | inr resolved ↦ rw resolved (elim (Bool-cases s.is_incremental) [
          | inl inc ↦ rw inc (
              finish_windows-requests _ (
                window_effects-Quiet (persist_accounting ready.accounting ∷ []) ready.skippable
                  (record { quiet = refl })))
          | inr whole ↦ rw whole (
              hand_over-requests (persist_accounting ready.accounting ∷ []) ready.accounting
                (record { quiet = refl }))
        ])
      ]

-- ===== src/Stt/Life.antt =====
-- What becomes of the speech-to-text of a chunk under the writes of the workers, in any order.
use ai_buddy_app_agent_baken.Base.{
  ℕ, ◌≡◌, ◌⊎◌, inl, inr, Bool, true, false, ◌&&◌, ◌||◌, Bool-cases, Option, none, some, List, [],
  ◌∷◌, refl, sym, subst, ap, ◌∙◌, if◌then◌else◌, arith,
}
use ai_buddy_app_agent_baken.Stt.{SttError}
use ai_buddy_app_agent_baken.Stt.Chunk.{
  TranscriptChunk, FailureFields, is_completed, is_failed, is_open, fail_transcript_chunk,
  unprocessed,
}
use ai_buddy_app_agent_baken.Stt.Writes.{
  Write, mark, fail, complete, reclaim, register, exclude, window, publish, archive, heal, apply,
  run,
}
use ai_buddy_app_agent_baken.Stt.Record.{SttEvent, record_stt_sequence_failure}

abbrev pub IsDone : Option TranscriptChunk → Type 0
IsDone none = ⊥
IsDone (some chunk) = is_completed chunk.stt_status ≡ true

abbrev pub IsGivenUp : TranscriptChunk → Type 0
IsGivenUp chunk = (is_failed chunk.stt_status && chunk.terminal) ≡ true

fail_closed :
    (now : ℕ) (f : FailureFields) (reread : Option TranscriptChunk) (chunk : TranscriptChunk)
    → is_open chunk ≡ false
    → (fail_transcript_chunk now f reread (some chunk)).document ≡ some chunk
unfolding fail_transcript_chunk
fail_closed now f none chunk h = refl
fail_closed now f (some existing) chunk h = ground arith

record_closed :
    (now : ℕ) (event : SttEvent) (error : SttError) (is_exhausted : Bool)
    (existing reread : Option TranscriptChunk) (chunk : TranscriptChunk)
    → is_open chunk ≡ false
    → (record_stt_sequence_failure now event error is_exhausted existing reread
        (some chunk)).document
      ≡ some chunk
unfolding record_stt_sequence_failure
record_closed now event error is_exhausted existing reread chunk h = search (fail_closed, h)

-- A chunk without what the windows, the publication and the archive write to it: what is left is its
-- audio, its transcript, and the status, the attempts and the failure of its speech-to-text.
abbrev pub outcome_of : TranscriptChunk → TranscriptChunk
outcome_of chunk = record chunk {
  processing_status = unprocessed;
  processing_window_id = none;
  exclusion_reason = none;
  updated_at = 0;
}

abbrev pub Keeps : TranscriptChunk → Option TranscriptChunk → Type 0
Keeps chunk none = ⊥
Keeps chunk (some after) = outcome_of after ≡ outcome_of chunk

kept : (chunk : TranscriptChunk) (o : Option TranscriptChunk) → o ≡ some chunk → Keeps chunk o
kept chunk o e = subst (Keeps chunk) (sym e) refl

either-Keeps :
    (chunk a b : TranscriptChunk) (t : Bool)
    → outcome_of a ≡ outcome_of chunk
    → outcome_of b ≡ outcome_of chunk
    → Keeps chunk (some (if t then a else b))
either-Keeps chunk a b true ha hb = ha
either-Keeps chunk a b false ha hb = hb

abbrev is_speech : Write → Bool
is_speech (mark now) = true
is_speech (fail now event error is_exhausted existing reread) = true
is_speech (complete now t) = true
is_speech (reclaim now stale_before found) = true
is_speech _ = false

-- The writes that are not those of speech-to-text.
apply-Keeps :
    (w : Write) (chunk : TranscriptChunk) → is_speech w ≡ false → Keeps chunk (apply w (some chunk))
unfolding apply
apply-Keeps (mark now) chunk h = cc
apply-Keeps (fail now event error is_exhausted existing reread) chunk h = cc
apply-Keeps (complete now t) chunk h = cc
apply-Keeps (reclaim now stale_before found) chunk h = cc
apply-Keeps (register fresh) chunk h = refl
apply-Keeps (exclude now reason) chunk h = either-Keeps chunk _ _ _ refl refl
apply-Keeps (window now window_id) chunk h = either-Keeps chunk _ _ _ refl refl
apply-Keeps (publish now) chunk h = either-Keeps chunk _ _ _ refl refl
apply-Keeps (archive now) chunk h = either-Keeps chunk _ _ _ refl refl
apply-Keeps (heal now found) chunk h = either-Keeps chunk _ _ _ refl refl

apply-done :
    (w : Write) (chunk : TranscriptChunk)
    → is_completed chunk.stt_status ≡ true
    → Keeps chunk (apply w (some chunk))
unfolding apply
apply-done (mark now) chunk h = kept chunk _ (ground arith)
apply-done (fail now event error is_exhausted existing reread) chunk h =
    kept chunk _ (record_closed now event error is_exhausted existing reread chunk (ground arith))
apply-done (complete now t) chunk h = kept chunk _ (ground arith)
apply-done (reclaim now stale_before found) chunk h =
    kept chunk (apply (reclaim now stale_before found) (some chunk)) (ground arith)
apply-done (register fresh) chunk h = apply-Keeps (register fresh) chunk refl
apply-done (exclude now reason) chunk h = apply-Keeps (exclude now reason) chunk refl
apply-done (window now window_id) chunk h = apply-Keeps (window now window_id) chunk refl
apply-done (publish now) chunk h = apply-Keeps (publish now) chunk refl
apply-done (archive now) chunk h = apply-Keeps (archive now) chunk refl
apply-done (heal now found) chunk h = apply-Keeps (heal now found) chunk refl

apply-IsGivenUp :
    (w : Write) (chunk : TranscriptChunk)
    → IsGivenUp chunk
    → Keeps chunk (apply w (some chunk)) ⊎ IsDone (apply w (some chunk))
unfolding apply
apply-IsGivenUp (mark now) chunk h = inl (kept chunk _ (ground arith))
apply-IsGivenUp (fail now event error is_exhausted existing reread) chunk h =
    inl (
      kept chunk _
        (record_closed now event error is_exhausted existing reread chunk (ground arith)))
apply-IsGivenUp (complete now t) chunk h = inr (ground arith)
apply-IsGivenUp (reclaim now stale_before found) chunk h =
    inl (kept chunk (apply (reclaim now stale_before found) (some chunk)) (ground arith))
apply-IsGivenUp (register fresh) chunk h = inl (apply-Keeps (register fresh) chunk refl)
apply-IsGivenUp (exclude now reason) chunk h = inl (apply-Keeps (exclude now reason) chunk refl)
apply-IsGivenUp (window now window_id) chunk h = inl (apply-Keeps (window now window_id) chunk refl)
apply-IsGivenUp (publish now) chunk h = inl (apply-Keeps (publish now) chunk refl)
apply-IsGivenUp (archive now) chunk h = inl (apply-Keeps (archive now) chunk refl)
apply-IsGivenUp (heal now found) chunk h = inl (apply-Keeps (heal now found) chunk refl)

same_status :
    (chunk after : TranscriptChunk)
    → outcome_of after ≡ outcome_of chunk
    → after.stt_status ≡ chunk.stt_status
same_status chunk after e = ap (λ (c : TranscriptChunk). c.stt_status) e

same_terminal :
    (chunk after : TranscriptChunk)
    → outcome_of after ≡ outcome_of chunk
    → after.terminal ≡ chunk.terminal
same_terminal chunk after e = ap (λ (c : TranscriptChunk). c.terminal) e

Keeps-trans :
    (chunk after : TranscriptChunk) (o : Option TranscriptChunk)
    → outcome_of after ≡ outcome_of chunk
    → Keeps after o
    → Keeps chunk o
Keeps-trans chunk after none e h = h
Keeps-trans chunk after (some last) e h = h ∙ e

run-done :
    (ws : List Write) (chunk : TranscriptChunk) (stored : Option TranscriptChunk)
    → is_completed chunk.stt_status ≡ true
    → Keeps chunk stored
    → Keeps chunk (run ws stored)
unfolding run
run-done [] chunk stored h k = k
run-done (w ∷ ws) chunk none h k = absurd k
run-done (w ∷ ws) chunk (some after) h k =
    run-done ws chunk _ h
      (Keeps-trans chunk after _ k (apply-done w after (rw (same_status chunk after k) h)))

Keeps-IsDone :
    (chunk : TranscriptChunk) (o : Option TranscriptChunk)
    → is_completed chunk.stt_status ≡ true
    → Keeps chunk o
    → IsDone o
Keeps-IsDone chunk none h k = k
Keeps-IsDone chunk (some after) h k = rw (same_status chunk after k) h

run-IsDone :
    (ws : List Write) (stored : Option TranscriptChunk) → IsDone stored → IsDone (run ws stored)
run-IsDone ws none h = absurd h
run-IsDone ws (some chunk) h = Keeps-IsDone chunk _ h (run-done ws chunk (some chunk) h refl)

run-IsGivenUp :
    (ws : List Write) (chunk : TranscriptChunk) (stored : Option TranscriptChunk)
    → IsGivenUp chunk
    → Keeps chunk stored
    → Keeps chunk (run ws stored) ⊎ IsDone (run ws stored)
unfolding run
run-IsGivenUp [] chunk stored h k = inl k
run-IsGivenUp (w ∷ ws) chunk none h k = absurd k
run-IsGivenUp (w ∷ ws) chunk (some after) h k =
    elim (apply-IsGivenUp w after (rw (same_status chunk after k, same_terminal chunk after k) h)) [
      | inl same ↦ run-IsGivenUp ws chunk _ h (Keeps-trans chunk after _ k same)
      | inr done ↦ inr (run-IsDone ws _ done)
    ]

-- A chunk that has a transcript, or whose failure is final.
abbrev pub IsSettled : TranscriptChunk → Type 0
IsSettled chunk =
    (is_completed chunk.stt_status || is_failed chunk.stt_status && chunk.terminal) ≡ true

-- Whatever the workers write to a chunk that has a transcript or a final failure, in whatever order
-- and however late: its audio, its transcript, and the status, the attempts and the failure of its
-- speech-to-text stay as they are, or the chunk had failed and now has a transcript. Its place in a
-- window, its exclusion, its processing status and the time of its update may change.
pub outcome_stays :
    (ws : List Write) (chunk : TranscriptChunk)
    → IsSettled chunk
    → Keeps chunk (run ws (some chunk))
      ⊎ ((is_failed chunk.stt_status ≡ true) × IsDone (run ws (some chunk)))
outcome_stays ws chunk h = elim (Bool-cases (is_completed chunk.stt_status)) [
  | inl done ↦ inl (run-done ws chunk (some chunk) done refl)
  | inr open' ↦ elim (run-IsGivenUp ws chunk (some chunk) (ground arith) refl) [
    | inl same ↦ inl same
    | inr done ↦ inr (ground arith, done)
  ]
]

-- ===== src/Extraction/AtRest.antt =====
-- The steps of the loop of build_extraction_windows that flush, make room and append.
use ai_buddy_app_agent_baken.Base.{
  ℕ, ◌+◌, ◌≡◌, refl, sym, subst, ◌∙◌, true, ◌&&◌, inl, inr, List, [], ◌∷◌, ◌++◌, ltb, leb,
  All-append, if-either, arith,
}
use ai_buddy_app_agent_baken.Extraction.Transcript.{Turn, Reader, is_useful}
use ai_buddy_app_agent_baken.Extraction.{
  Budget, Progress, has, ids, flush, owned_exists, make_room, append_turn,
}
use ai_buddy_app_agent_baken.Extraction.Numbers.{has-append, ids-append, ends-snoc}
use ai_buddy_app_agent_baken.Extraction.Steps.{Sound, Ending, flush-Sound}

module _ (R : Reader) (b : Budget) where
  -- A flush puts the state at rest, and so does a run of them.
  abbrev pub Rest : List ℕ → Progress → Type 0
  Rest done s = Sound R b done s × Ending R b done s

  flush-Rest : (done : List ℕ) (s : Progress) → Rest done s → Rest done (flush R b s)
  flush-Rest done s h =
      let (sound, settled) = flush-Sound R b done s h.0 h.1 in (sound, inr (settled.1, settled.2))

  pub make_room-Rest :
      (tokens : ℕ) (done : List ℕ) (s : Progress) → Rest done s → Rest done (make_room R b tokens s)
  unfolding make_room
  make_room-Rest tokens done s h =
      let flushed = flush-Rest done s h in
      if-either (Rest done) (owned_exists R b s && ltb b.maximum (s.current_tokens + tokens))
        (flush R b s) _ (λ _. flushed)
        (λ _.
          if-either (Rest done)
            (owned_exists R b s
              && leb b.target s.current_tokens
              && ltb b.target (s.current_tokens + tokens))
            (flush R b s) s (λ _. flushed) (λ _. h))

  pub append_turn-Rest :
      (turn : Turn) (tokens : ℕ) (done : List ℕ) (s : Progress)
      → is_useful R turn ≡ true
      → Rest done s
      → Rest (done ++ turn.sequence_id ∷ []) (append_turn R b turn tokens s)
  append_turn-Rest turn tokens done s u h =
      let n = turn.sequence_id in
      (
        record {
          covered = λ x k.
              let before = h.0.covered x in
              rw (ids-append s.current (turn ∷ []), has-append x (ids s.current) (n ∷ []))
                (ground (arith, sym (has-append x done (n ∷ [])) ∙ k));
          in_windows = λ x k. rw (has-append x done (n ∷ []), h.0.in_windows x k) refl;
          in_current = λ x k.
              let before = h.0.in_current x in
              let either =
                sym (has-append x (ids s.current) (n ∷ []))
                ∙ subst (λ ys. has x ys ≡ true) (ids-append s.current (turn ∷ [])) k in
              rw (has-append x done (n ∷ [])) (ground (arith, either));
          current_useful =
              All-append (λ t. is_useful R t ≡ true) s.current (turn ∷ []) h.0.current_useful
                (u, tt);
          overlap_useful = h.0.overlap_useful;
          known = h.0.known;
          behind = h.0.behind;
        },
        inl (λ x k.
            let last = subst (λ ys. has x ys ≡ true) (ends-snoc done n) k in
            rw (ids-append s.current (turn ∷ []), has-append x (ids s.current) (n ∷ []), last)
              (ground arith)),
      )

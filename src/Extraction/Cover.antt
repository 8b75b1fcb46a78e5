-- ===== src/Extraction/Cover.antt =====
-- The loop of build_extraction_windows keeps what holds between the turns.
use mathlib.Core.List.{append_assoc}
use ai_buddy_app_agent_baken.Base.{
  ℕ, ◌≡◌, refl, sym, subst, ◌∙◌, Bool, true, false, ◌&&◌, ◌||◌, inl, inr, List, [], ◌∷◌, ◌++◌, ltb,
  leb, All, if-either, arith,
}
use ai_buddy_app_agent_baken.Extraction.Transcript.{
  Turn, Reader, is_useful, useful_token_count, nothing, split_oversize_turn,
}
use ai_buddy_app_agent_baken.Extraction.{
  Budget, Progress, has, ids, union_of, ends, flush, make_room, holding, flush_fragments,
  append_turn, place, visit, visit_all,
}
use ai_buddy_app_agent_baken.Extraction.Ink.{Part, tokens_positive, split_oversize_turn-Part}
use ai_buddy_app_agent_baken.Extraction.Numbers.{Sub, has-append, ends-snoc}
use ai_buddy_app_agent_baken.Extraction.Steps.{Sound, Useful, Settled, flush-Sound}
use ai_buddy_app_agent_baken.Extraction.AtRest.{Rest, make_room-Rest, append_turn-Rest}

module _ (R : Reader) (b : Budget) where
  -- A part of a turn is held alone; the numbers before it stand in windows.
  holding-Rest :
      (turn f : Turn) (done : List ℕ) (s : Progress)
      → Part R turn f
      → Sub done (union_of s.windows)
      → Sound R b done s
      → Rest R b (done ++ turn.sequence_id ∷ []) (holding R b f s)
  holding-Rest turn f done s part stands h =
      let n = turn.sequence_id in
      (
        record {
          covered = λ x k.
              let before = stands x in
              rw (part.1) (ground (arith, sym (has-append x done (n ∷ [])) ∙ k));
          in_windows = λ x k. rw (has-append x done (n ∷ []), h.in_windows x k) refl;
          in_current = λ x k.
              let here = subst (λ m. has x (m ∷ []) ≡ true) part.1 k in
              rw (has-append x done (n ∷ []), here) (ground arith);
          current_useful = (part.0, tt);
          overlap_useful = h.overlap_useful;
          known = h.known;
          behind = h.behind;
        },
        inl (λ x k. rw (part.1) (subst (λ ys. has x ys ≡ true) (ends-snoc done n) k)),
      )

  -- The next part of a turn that is in a window already.
  holding_again-Rest :
      (turn f : Turn) (done : List ℕ) (s : Progress)
      → Part R turn f
      → ends done ≡ turn.sequence_id ∷ []
      → Sub (turn.sequence_id ∷ []) done
      → Sub done (union_of s.windows)
      → Sound R b done s
      → Rest R b done (holding R b f s)
  holding_again-Rest turn f done s part last known_turn stands h = (
    record {
      covered = λ x k. rw (stands x k) refl;
      in_windows = h.in_windows;
      in_current = λ x k. known_turn x (subst (λ m. has x (m ∷ []) ≡ true) part.1 k);
      current_useful = (part.0, tt);
      overlap_useful = h.overlap_useful;
      known = h.known;
      behind = h.behind;
    },
    inl (λ x k. rw (part.1) (subst (λ ys. has x ys ≡ true) last k)),
  )

  after_flush :
      (done : List ℕ) (s : Progress)
      → Rest R b done s
      → Sound R b done (flush R b s) × Settled R b done (flush R b s)
  after_flush done s h = flush-Sound R b done s h.0 h.1

  flush_more-Rest :
      (turn : Turn) (fs : List Turn) (done : List ℕ) (s : Progress)
      → All (Part R turn) fs
      → ends done ≡ turn.sequence_id ∷ []
      → Sub (turn.sequence_id ∷ []) done
      → Sound R b done s × Settled R b done s
      → Rest R b done (flush_fragments R b fs s)
  unfolding flush_fragments
  flush_more-Rest turn [] done s parts last known_turn (sound, settled) =
      (sound, inr (settled.1, settled.2))
  flush_more-Rest turn (f ∷ fs) done s parts last known_turn (sound, settled) =
      flush_more-Rest turn fs done (flush R b (holding R b f s)) parts.1 last known_turn (
        after_flush done (holding R b f s)
          (holding_again-Rest turn f done s parts.0 last known_turn settled.0 sound))

  flush_fragments-Rest :
      (turn : Turn) (fs : List Turn) (done : List ℕ) (s : Progress)
      → All (Part R turn) fs
      → nothing fs ≡ false
      → ids s.current ≡ []
      → Sound R b done s
      → Rest R b (done ++ turn.sequence_id ∷ []) (flush_fragments R b fs s)
  unfolding flush_fragments
  flush_fragments-Rest turn [] done s parts some_part empty h = ground arith
  flush_fragments-Rest turn (f ∷ fs) done s parts some_part empty h =
      let n = turn.sequence_id in
      let stands : Sub done (union_of s.windows) = λ x k.
        let found =
          subst (λ ys. (has x (union_of s.windows) || has x ys) ≡ true) empty (h.covered x k) in
        ground arith in
      flush_more-Rest turn fs (done ++ n ∷ []) (flush R b (holding R b f s)) parts.1
        (ends-snoc done n) (λ x k. rw (has-append x done (n ∷ []), k) (ground arith))
        (after_flush (done ++ n ∷ []) (holding R b f s)
          (holding-Rest turn f done s parts.0 stands h))

  empty-ids : (ts : List Turn) (p : Bool) → (p && nothing ts) ≡ true → ids ts ≡ []
  empty-ids [] p h = refl
  empty-ids (t ∷ ts) p h = ground arith

  place-Rest :
      (turn : Turn) (tokens : ℕ) (done : List ℕ) (s : Progress)
      → is_useful R turn ≡ true
      → Rest R b done s
      → Rest R b (done ++ turn.sequence_id ∷ []) (place R b turn tokens s)
  place-Rest turn tokens done s u h =
      let (parts, some_part) = split_oversize_turn-Part R turn b.maximum u in
      if-either (Rest R b (done ++ turn.sequence_id ∷ []))
        (ltb b.maximum tokens && nothing s.current)
        (flush_fragments R b (split_oversize_turn R turn b.maximum) s)
        (append_turn R b turn tokens s)
        (λ e.
          flush_fragments-Rest turn (split_oversize_turn R turn b.maximum) done s parts some_part
            (empty-ids s.current (ltb b.maximum tokens) e) h.0)
        (λ _. append_turn-Rest R b turn tokens done s u h)

  visit-Rest :
      (turn : Turn) (done : List ℕ) (s : Progress)
      → is_useful R turn ≡ true
      → Rest R b done s
      → Rest R b (done ++ turn.sequence_id ∷ []) (visit R b turn s)
  unfolding visit
  visit-Rest turn done s u h =
      let positive = tokens_positive R turn u in
      let some_tokens : leb (useful_token_count R turn) 0 ≡ false = ground arith in
      rw some_tokens (
        place-Rest turn (useful_token_count R turn) done
          (make_room R b (useful_token_count R turn) s) u
          (make_room-Rest R b (useful_token_count R turn) done s h))

  pub visit_all-Rest :
      (ts : List Turn) (done : List ℕ) (s : Progress)
      → Useful R b ts
      → Rest R b done s
      → Rest R b (done ++ ids ts) (visit_all R b ts s)
  unfolding visit_all
  visit_all-Rest [] done s u h = subst (λ ds. Rest R b ds s) (sym (append_nil done)) h
    where
      append_nil : (xs : List ℕ) → xs ++ [] ≡ xs
      append_nil [] = refl
      append_nil (x ∷ xs) = rw (append_nil xs) refl
  visit_all-Rest (t ∷ ts) done s u h =
      subst (λ ds. Rest R b ds (visit_all R b ts (visit R b t s)))
        (append_assoc done (t.sequence_id ∷ []) (ids ts))
        (visit_all-Rest ts (done ++ t.sequence_id ∷ []) (visit R b t s) u.1
          (visit-Rest t done s u.0 h))

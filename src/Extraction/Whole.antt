-- ===== src/Extraction/Whole.antt =====
-- The whole of build_extraction_windows: the check at its end never fails.
use ai_buddy_app_agent_baken.Base.{
  ℕ, ◌≡◌, refl, sym, ◌∙◌, Bool, Bool-cases, true, false, not, ◌&&◌, inl, inr, List, [], ◌∷◌, leb,
  ◌==◌, ==_iff, any, if-either, if◌then◌else◌, arith,
}
use ai_buddy_app_agent_baken.Extraction.Transcript.{Turn, Reader, is_useful}
use ai_buddy_app_agent_baken.Extraction.{
  Budget, ExtractionWindow, Progress, built, has, ids, insert_turn, sort_turns, union_of, last_ids,
  ends, checked, useful, flush, owned_exists, visit_all, finish, start, build_from,
  build_extraction_windows,
}
use ai_buddy_app_agent_baken.Extraction.Numbers.{Sub, any-none, All-keep}
use ai_buddy_app_agent_baken.Extraction.Steps.{Sound, Useful, Settled, flush-Sound, known-Settled}
use ai_buddy_app_agent_baken.Extraction.AtRest.{Rest}
use ai_buddy_app_agent_baken.Extraction.Cover.{visit_all-Rest}

module _ (R : Reader) (b : Budget) where
  none_new :
      (old : List ℕ) (ts : List Turn)
      → any (λ t. not (has t.sequence_id old)) ts ≡ false
      → Sub (ids ts) old
  none_new old [] e x k = ground arith
  none_new old (t ∷ ts) e x k = elim (Bool-cases (x == t.sequence_id)) [
    | inl same ↦ rw ((==_iff x t.sequence_id).0 same) (ground arith)
    | inr other ↦ none_new old ts (ground arith) x (ground arith)
  ]

  no_new :
      (old : List ℕ) (ts : List Turn)
      → Useful R b ts
      → (any (λ t. not (has t.sequence_id old)) ts && any (is_useful R) ts) ≡ false
      → any (λ t. not (has t.sequence_id old)) ts ≡ false
  no_new old [] u h = refl
  no_new old (t ∷ ts) u h = let first = u.0 in ground arith

  finish-Settled :
      (done : List ℕ) (s : Progress)
      → Rest R b done s
      → Sound R b done (finish R b s) × Settled R b done (finish R b s)
  unfolding finish
  finish-Settled done s h =
      if-either (λ s'. Sound R b done s' × Settled R b done s')
        (owned_exists R b s && any (is_useful R) s.current) (flush R b s) s
        (λ _. flush-Sound R b done s h.0 h.1)
        (λ e. (
          h.0,
          known-Settled R b done s h.0 h.1 (
              none_new s.overlap_ids s.current
                (no_new s.overlap_ids s.current h.0.current_useful e)),
        ))

  checked-built :
      (ws : List ExtractionWindow) (ns : List ℕ)
      → Sub ns (union_of ws)
      → Sub (union_of ws) ns
      → Sub (ends ns) (last_ids ws)
      → checked ws ns ≡ built ws
  unfolding checked
  checked-built ws ns all_in no_more last =
      rw
        (
          any-none (λ x. not (has x (union_of ws))) ns (λ x k. rw (all_in x k) refl),
          any-none (λ x. not (has x ns)) (union_of ws) (λ x k. rw (no_more x k) refl),
          any-none (λ x. not (has x (last_ids ws))) (ends ns) (λ x k. rw (last x k) refl),
        )
        refl

  -- The numbers of the turns with text are not touched by the sort.
  has-insert_turn :
      (x : ℕ) (t : Turn) (ts : List Turn)
      → has x (ids (useful R b (insert_turn t ts))) ≡ has x (ids (useful R b (t ∷ ts)))
  unfolding insert_turn
  has-insert_turn x t [] = refl
  has-insert_turn x t (u ∷ us) =
      if-either (λ vs. has x (ids (useful R b vs)) ≡ has x (ids (useful R b (t ∷ u ∷ us))))
        (leb t.sequence_id u.sequence_id) (t ∷ u ∷ us) (u ∷ insert_turn t us) (λ _. refl)
        (λ _. swapped (is_useful R t) (is_useful R u) (has-insert_turn x t us))
    where
      swapped :
          (p q : Bool)
          → has x (ids (useful R b (insert_turn t us)))
            ≡ has x (ids (if p then t ∷ useful R b us else useful R b us))
          → has x
              (ids (if q then u ∷ useful R b (insert_turn t us) else useful R b (insert_turn t us)))
            ≡ has x (
                ids (
                  if p
                  then t ∷ (if q then u ∷ useful R b us else useful R b us)
                  else (if q then u ∷ useful R b us else useful R b us)))
      swapped true true h = ground arith
      swapped true false h = h
      swapped false true h = ground arith
      swapped false false h = h

  has-sort_turns :
      (x : ℕ) (ts : List Turn)
      → has x (ids (useful R b (sort_turns ts))) ≡ has x (ids (useful R b ts))
  unfolding sort_turns
  has-sort_turns x [] = refl
  has-sort_turns x (t ∷ ts) =
      has-insert_turn x t (sort_turns ts) ∙ again (has-sort_turns x ts) (is_useful R t)
    where
      again :
          has x (ids (useful R b (sort_turns ts))) ≡ has x (ids (useful R b ts))
          → (p : Bool)
          → has x (ids (if p then t ∷ useful R b (sort_turns ts) else useful R b (sort_turns ts)))
            ≡ has x (ids (if p then t ∷ useful R b ts else useful R b ts))
      again e true = rw e refl
      again e false = e

  build_from-built :
      (ts : List Turn)
      → Useful R b ts
      → (ws : List ExtractionWindow) × (build_from R b ts ≡ built ws)
        × Sub (ids ts) (union_of ws)
        × Sub (union_of ws) (ids ts)
  build_from-built [] u = ([], refl, (λ x k. k), (λ x k. k))
  build_from-built (t ∷ ts) u =
      let s = visit_all R b (t ∷ ts) (start R b) in
      let (sound, settled) =
        finish-Settled (ids (t ∷ ts)) s (visit_all-Rest R b (t ∷ ts) [] (start R b) u started) in
      (
        (finish R b s).windows,
        checked-built (finish R b s).windows (ids (t ∷ ts)) settled.0 sound.in_windows settled.1,
        settled.0,
        sound.in_windows,
      )
    where
      started : Rest R b [] (start R b)
      started = (
        record {
          covered = λ x k. ground arith;
          in_windows = λ x k. k;
          in_current = λ x k. k;
          current_useful = tt;
          overlap_useful = tt;
          known = refl;
          behind = λ x k. k;
        },
        inl (λ x k. k),
      )

  -- build_extraction_windows raises on no transcript, and a number stands in one of its windows
  -- exactly if a turn with text has it.
  pub build_extraction_windows-covers :
      (turns : List Turn)
      → (ws : List ExtractionWindow) × (build_extraction_windows R b turns ≡ built ws)
        × ((x : ℕ) → has x (union_of ws) ≡ has x (ids (useful R b turns)))
  unfolding build_extraction_windows
  build_extraction_windows-covers turns =
      let (ws, returns, all_in, no_more) =
        build_from-built (useful R b (sort_turns turns))
          (All-keep (is_useful R) (sort_turns turns)) in
      (ws, returns, λ x. both (all_in x) (no_more x) ∙ has-sort_turns x turns)
    where
      both : {p q : Bool} → (p ≡ true → q ≡ true) → (q ≡ true → p ≡ true) → q ≡ p
      both {p = true} f g = f refl
      both {p = false} {q = true} f g = sym (g refl)
      both {p = false} {q = false} f g = refl

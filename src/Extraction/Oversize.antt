-- ===== src/Extraction/Oversize.antt =====
-- A turn that is longer than a window: what becomes of its parts.
use ai_buddy_app_agent_baken.Base.{
  ℕ, ◌+◌, ◌<◌, ◌≡◌, refl, sym, subst, ◌∙◌, Bool, true, false, not, ◌&&◌, List, [], ◌∷◌, ◌++◌, ltb,
  leb, All, if-either, if◌then◌else◌, arith,
}
use ai_buddy_app_agent_baken.Extraction.Transcript.{
  Turn, Reader, is_useful, useful_token_count, nothing, split_oversize_turn,
}
use ai_buddy_app_agent_baken.Extraction.{
  Budget, Progress, has, take_tail, tail_for_overlap, useful, owned_by, window_of, emptied, closed,
  rewound, flush, holding, flush_fragments, place,
}
use ai_buddy_app_agent_baken.Extraction.Ink.{Part, split_oversize_turn-Part}

module _ (R : Reader) (b : Budget) where
  tail-one : (f : Turn) → 0 < b.overlap_budget → tail_for_overlap R b (f ∷ []) ≡ f ∷ []
  unfolding tail_for_overlap take_tail
  tail-one f positive =
      let some_budget : leb b.overlap_budget 0 ≡ false = ground arith in
      rw some_budget (
        if-either (λ ts. ts ≡ f ∷ []) (leb b.overlap_budget (0 + useful_token_count R f)) (f ∷ [])
          (f ∷ []) (λ _. refl) (λ _. refl))

  flush-at :
      (s : Progress) (turns : List Turn)
      → useful R b s.current ≡ turns
      → flush R b s ≡ (
          if nothing turns
          then emptied R b s
          else if nothing (owned_by R b s turns)
          then rewound R b s
          else closed R b s turns)
  unfolding flush
  flush-at s turns e = rw e refl

  owned-new :
      (p : Bool) (n : ℕ) (x y : Progress)
      → p ≡ false
      → (if nothing (if not p then n ∷ [] else []) then x else y) ≡ y
  owned-new true n x y h = ground arith
  owned-new false n x y h = refl

  owned-old :
      (p : Bool) (n : ℕ) (x y : Progress)
      → p ≡ true
      → (if nothing (if not p then n ∷ [] else []) then x else y) ≡ x
  owned-old true n x y h = refl
  owned-old false n x y h = ground arith

  useful-one : (f : Turn) → is_useful R f ≡ true → useful R b (f ∷ []) ≡ f ∷ []
  useful-one f u = rw u refl

  flush-new :
      (f : Turn) (s : Progress)
      → is_useful R f ≡ true
      → has f.sequence_id s.overlap_ids ≡ false
      → flush R b (holding R b f s) ≡ closed R b s (f ∷ [])
  flush-new f s u new =
      flush-at (holding R b f s) (f ∷ []) (useful-one f u)
      ∙ owned-new (has f.sequence_id s.overlap_ids) f.sequence_id (rewound R b s)
          (closed R b s (f ∷ [])) new

  flush-old :
      (f : Turn) (s : Progress)
      → is_useful R f ≡ true
      → has f.sequence_id s.overlap_ids ≡ true
      → flush R b (holding R b f s) ≡ rewound R b s
  flush-old f s u old =
      flush-at (holding R b f s) (f ∷ []) (useful-one f u)
      ∙ owned-old (has f.sequence_id s.overlap_ids) f.sequence_id (rewound R b s)
          (closed R b s (f ∷ [])) old

  flush_rest :
      (turn : Turn) (fs : List Turn) (s : Progress)
      → All (Part R turn) fs
      → has turn.sequence_id s.overlap_ids ≡ true
      → (flush_fragments R b fs s).windows ≡ s.windows
  unfolding flush_fragments
  flush_rest turn [] s parts old = refl
  flush_rest turn (f ∷ fs) s parts old =
      subst (λ s'. (flush_fragments R b fs s').windows ≡ s.windows)
        (sym (flush-old f s parts.0.0 (rw (parts.0.1) old)))
        (flush_rest turn fs (rewound R b s) parts.1 old)

  flush_parts :
      (turn f : Turn) (fs : List Turn) (s : Progress)
      → All (Part R turn) (f ∷ fs)
      → 0 < b.overlap_budget
      → has turn.sequence_id s.overlap_ids ≡ false
      → (flush_fragments R b (f ∷ fs) s).windows ≡ s.windows ++ window_of R b s (f ∷ []) ∷ []
  unfolding flush_fragments
  flush_parts turn f fs s parts positive new =
      subst (λ s'. (flush_fragments R b fs s').windows ≡ s.windows ++ window_of R b s (f ∷ []) ∷ [])
        (sym (flush-new f s parts.0.0 (rw (parts.0.1) new)))
        (flush_rest turn fs (closed R b s (f ∷ [])) parts.1
          (rw (tail-one f positive, parts.0.1) (ground arith)))

  -- Where the overlap has a budget: a turn with text and more tokens than a window, which is met while
  -- no turn is waiting and whose number is not in the overlap, is split, and of its parts the first
  -- alone gets a window.
  pub oversize_turn_cut :
      (turn : Turn) (tokens : ℕ) (s : Progress)
      → is_useful R turn ≡ true
      → b.maximum < tokens
      → s.current ≡ []
      → has turn.sequence_id s.overlap_ids ≡ false
      → 0 < b.overlap_budget
      → (f : Turn) × (fs : List Turn) × (split_oversize_turn R turn b.maximum ≡ f ∷ fs)
        × ((place R b turn tokens s).windows ≡ s.windows ++ window_of R b s (f ∷ []) ∷ [])
  oversize_turn_cut turn tokens s u long idle new positive =
      let over : (ltb b.maximum tokens && nothing s.current) ≡ true = rw idle (ground arith) in
      let (parts, some_part) = split_oversize_turn-Part R turn b.maximum u in
      let (f, fs, split) = first_part (split_oversize_turn R turn b.maximum) some_part in
      (
        f,
        fs,
        split,
        rw over (
            subst
              (λ ts.
                (flush_fragments R b ts s).windows ≡ s.windows ++ window_of R b s (f ∷ []) ∷ [])
              (sym split)
              (flush_parts turn f fs s (subst (All (Part R turn)) split parts) positive new)),
      )
    where
      first_part :
          (ts : List Turn) → nothing ts ≡ false → (f : Turn) × (fs : List Turn) × (ts ≡ f ∷ fs)
      first_part [] h = ground arith
      first_part (f ∷ fs) h = (f, fs, refl)

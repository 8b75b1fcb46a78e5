-- ===== src/Extraction/Steps.antt =====
-- What holds between the turns of the loop of build_extraction_windows: the turns so far stand in a
-- window or wait for one.
use ai_buddy_app_agent_baken.Base.{
  ℕ, ◌≡◌, ◌⊎◌, refl, sym, subst, ◌∙◌, Bool, Bool-cases, true, false, not, ◌||◌, inl, inr, List, [],
  ◌∷◌, ◌++◌, keep, All, if◌then◌else◌, arith,
}
use ai_buddy_app_agent_baken.Extraction.Transcript.{Turn, Reader, is_useful, nothing}
use ai_buddy_app_agent_baken.Extraction.{
  Budget, Progress, has, ids, union_of, last_ids, ends, tail_for_overlap, owned_by, window_of,
  emptied, rewound, closed, flush,
}
use ai_buddy_app_agent_baken.Extraction.Numbers.{
  Sub, has-union_of, last_ids-snoc, last_ids-Sub, keep-none, keep_useful, All-tail_for_overlap,
  tail_for_overlap-Sub,
}

module _ (R : Reader) (b : Budget) where
  abbrev pub Useful : List Turn → Type 0
  Useful = All (λ t. is_useful R t ≡ true)

  -- `done` holds the numbers of the turns so far.
  pub record Sound (done : List ℕ) (s : Progress) : Type 0 where
    pub covered :
        (x : ℕ) → has x done ≡ true → (has x (union_of s.windows) || has x (ids s.current)) ≡ true
    pub in_windows : Sub (union_of s.windows) done
    pub in_current : Sub (ids s.current) done
    pub current_useful : Useful s.current
    pub overlap_useful : Useful s.overlap
    pub known : s.overlap_ids ≡ ids s.overlap
    pub behind : Sub (ids s.overlap) (last_ids s.windows)

  -- Nothing waits: all stands in a window, and the last number in the last window.
  abbrev pub Settled : List ℕ → Progress → Type 0
  Settled done s =
      Sub done (union_of s.windows)
      × Sub (ends done) (last_ids s.windows)
      × Sub (ids s.current) s.overlap_ids

  abbrev pub Ending : List ℕ → Progress → Type 0
  Ending done s =
      Sub (ends done) (ids s.current)
      ⊎ (Sub (ends done) (last_ids s.windows) × Sub (ids s.current) s.overlap_ids)

  -- Where the current turns are those of the overlap, nothing waits.
  pub known-Settled :
      (done : List ℕ) (s : Progress)
      → Sound done s
      → Ending done s
      → Sub (ids s.current) s.overlap_ids
      → Settled done s
  known-Settled done s h ending old =
      let seen : Sub (ids s.current) (last_ids s.windows) =
        λ x k. h.behind x (subst (λ ys. has x ys ≡ true) h.known (old x k)) in
      (
        λ x k. elim (Bool-cases (has x (union_of s.windows))) [
          | inl found ↦ found
          | inr lost ↦ last_ids-Sub s.windows x (seen x (ground (arith, h.covered x k)))
        ],
        elim ending [ inl e ↦ (λ x k. seen x (e x k)) | inr e ↦ e.0 ],
        old,
      )

  emptied-Sound :
      (done : List ℕ) (s : Progress)
      → Sound done s
      → Ending done s
      → ids s.current ≡ []
      → Sound done (emptied R b s) × Settled done (emptied R b s)
  emptied-Sound done s h ending none_left =
      let settled = known-Settled done s h ending (rw none_left (λ x k. ground arith)) in
      (
        record {
          covered = λ x k. rw (settled.0 x k) refl;
          in_windows = h.in_windows;
          in_current = λ x k. ground arith;
          current_useful = tt;
          overlap_useful = h.overlap_useful;
          known = h.known;
          behind = h.behind;
        },
        (settled.0, settled.1, λ x k. ground arith),
      )

  rewound-Sound :
      (done : List ℕ) (s : Progress)
      → Sound done s
      → Ending done s
      → Sub (ids s.current) s.overlap_ids
      → Sound done (rewound R b s) × Settled done (rewound R b s)
  rewound-Sound done s h ending old =
      let settled = known-Settled done s h ending old in
      (
        record {
          covered = λ x k. rw (settled.0 x k) refl;
          in_windows = h.in_windows;
          in_current = λ x k. h.in_windows x (last_ids-Sub s.windows x (h.behind x k));
          current_useful = h.overlap_useful;
          overlap_useful = h.overlap_useful;
          known = h.known;
          behind = h.behind;
        },
        (settled.0, settled.1, λ x k. subst (λ ys. has x ys ≡ true) (sym h.known) k),
      )

  closed-Sound :
      (done : List ℕ) (s : Progress)
      → Sound done s
      → Sub (ends done) (ids s.current)
      → Sound done (closed R b s s.current) × Settled done (closed R b s s.current)
  closed-Sound done s h ending =
      let tail = tail_for_overlap R b s.current in
      let kept : Sub (ids tail) (ids s.current) = tail_for_overlap-Sub R b s.current in
      let tail_useful =
        All-tail_for_overlap (λ t. is_useful R t ≡ true) R b s.current h.current_useful in
      let all_in : Sub done (union_of (s.windows ++ window_of R b s s.current ∷ [])) =
        λ x k. has-union_of x s.windows (window_of R b s s.current) ∙ h.covered x k in
      (
        record {
          covered = λ x k. rw (all_in x k) refl;
          in_windows = λ x k.
              let either = sym (has-union_of x s.windows (window_of R b s s.current)) ∙ k in
              elim (Bool-cases (has x (union_of s.windows))) [
                | inl old ↦ h.in_windows x old
                | inr new ↦ h.in_current x (ground (arith, either))
              ];
          in_current = λ x k. h.in_current x (kept x k);
          current_useful = tail_useful;
          overlap_useful = tail_useful;
          known = refl;
          behind = λ x k. rw (last_ids-snoc s.windows (window_of R b s s.current)) (kept x k);
        },
        (
          all_in,
          λ x k. rw (last_ids-snoc s.windows (window_of R b s s.current)) (ending x k),
          λ x k. k,
        ),
      )

  -- The decisions of a flush, by what it finds.
  flush_by-Sound :
      (done : List ℕ) (s : Progress) (none_left none_owned : Bool)
      → Sound done s
      → (none_left ≡ true → Sound done (emptied R b s) × Settled done (emptied R b s))
      → (none_owned ≡ true → Sound done (rewound R b s) × Settled done (rewound R b s))
      → (none_owned ≡ false
          → Sound done (closed R b s s.current) × Settled done (closed R b s s.current))
      → let s' =
          if none_left
          then emptied R b s
          else if none_owned
          then rewound R b s
          else closed R b s s.current in
        Sound done s' × Settled done s'
  flush_by-Sound done s true none_owned h e r c = e refl
  flush_by-Sound done s false true h e r c = r refl
  flush_by-Sound done s false false h e r c = c refl

  empty-ids : (ts : List Turn) → nothing ts ≡ true → ids ts ≡ []
  empty-ids [] h = refl
  empty-ids (t ∷ ts) h = ground arith

  not_owned-Sub :
      (s : Progress) → nothing (owned_by R b s s.current) ≡ true → Sub (ids s.current) s.overlap_ids
  not_owned-Sub s h x k =
      let outside = keep-none (λ y. not (has y s.overlap_ids)) (ids s.current) h x k in ground arith

  Sub-not_owned :
      (s : Progress) → Sub (ids s.current) s.overlap_ids → nothing (owned_by R b s s.current) ≡ true
  Sub-not_owned s h =
      keep-false (λ y. not (has y s.overlap_ids)) (ids s.current)
        (λ x k. let known = h x k in ground arith)
    where
      keep-false :
          (p : ℕ → Bool) (xs : List ℕ)
          → ((x : ℕ) → has x xs ≡ true → p x ≡ false)
          → nothing (keep p xs) ≡ true
      keep-false p [] e = refl
      keep-false p (y ∷ ys) e =
          rw (e y (ground arith)) (keep-false p ys (λ x k. e x (ground arith)))

  pub flush-Sound :
      (done : List ℕ) (s : Progress)
      → Sound done s
      → Ending done s
      → Sound done (flush R b s) × Settled done (flush R b s)
  unfolding flush
  flush-Sound done s h ending = rw (keep_useful (is_useful R) s.current h.current_useful) (
      flush_by-Sound done s (nothing s.current) (nothing (owned_by R b s s.current)) h
        (λ e. emptied-Sound done s h ending (empty-ids s.current e))
        (λ e. rewound-Sound done s h ending (not_owned-Sub s e))
        (λ e. closed-Sound done s h (elim ending [
          | inl waits ↦ waits
          | inr old ↦ let none_owned = Sub-not_owned s old.1 in absurd (true_not_false none_owned e)
        ])))
    where
      true_not_false : {o : Bool} → o ≡ true → o ≡ false → ⊥
      true_not_false p q = ground arith

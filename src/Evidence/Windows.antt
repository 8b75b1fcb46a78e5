-- ===== src/Evidence/Windows.antt =====
-- A window that is written again: its candidates are replaced.
use ai_buddy_app_agent_baken.Base.{
  ◌≡◌, refl, sym, ap, ◌∙◌, Bool, Bool-cases, true, false, ◌||◌, inl, inr, List, [], ◌∷◌, ◌++◌, Text,
  text_eq, text_eq_refl, is_empty, is_one_of, All, arith,
}
use mathlib.Core.List.{append_assoc}
use ai_buddy_app_agent_baken.Evidence.{
  Candidate, CandidateLedger, add_new, append, append_all, others, with_window, without_window,
  replace_window,
}

-- Candidates of the window alone.
abbrev pub Of : Text → List Candidate → Type 0
Of window_id = All (λ c. text_eq c.source_window_id window_id ≡ true)

append_nil : (cs : List Candidate) → cs ++ [] ≡ cs
append_nil [] = refl
append_nil (c ∷ cs) = rw (append_nil cs) refl

others-append :
    (window_id : Text) (cs added : List Candidate)
    → Of window_id added
    → others window_id (cs ++ added) ≡ others window_id cs
others-append window_id [] [] h = refl
others-append window_id [] (a ∷ added) h = rw (h.0) (others-append window_id [] added h.1)
others-append window_id (c ∷ cs) added h = rw (others-append window_id cs added h) refl

others_twice :
    (window_id : Text) (cs : List Candidate)
    → others window_id (others window_id cs) ≡ others window_id cs
others_twice window_id [] = refl
others_twice window_id (c ∷ cs) = elim (Bool-cases (text_eq c.source_window_id window_id)) [
  | inl e ↦ rw e (others_twice window_id cs)
  | inr e ↦ rw (e, e) (ap (λ ds. c ∷ ds) (others_twice window_id cs))
]

-- What is added are candidates of the list, and the windows stay.
abbrev Grown : Text → CandidateLedger → CandidateLedger → Type 0
Grown window_id l l' =
    (added : List Candidate) × Of window_id added
    × (l'.candidates ≡ l.candidates ++ added)
    × (l'.window_ids ≡ l.window_ids)

add_new-Grown :
    (window_id : Text) (known : Bool) (c : Candidate) (l : CandidateLedger)
    → text_eq c.source_window_id window_id ≡ true
    → Grown window_id l (add_new known c l)
add_new-Grown window_id true c l h = ([], tt, sym (append_nil l.candidates), refl)
add_new-Grown window_id false c l h = (c ∷ [], (h, tt), refl, refl)

Of-append :
    (window_id : Text) (xs ys : List Candidate)
    → Of window_id xs
    → Of window_id ys
    → Of window_id (xs ++ ys)
Of-append window_id [] ys h k = k
Of-append window_id (x ∷ xs) ys h k = (h.0, Of-append window_id xs ys h.1 k)

append_all-Grown :
    (window_id : Text) (cs : List Candidate) (l : CandidateLedger)
    → Of window_id cs
    → Grown window_id l (append_all cs l)
unfolding append_all append
append_all-Grown window_id [] l h = ([], tt, sym (append_nil l.candidates), refl)
append_all-Grown window_id (c ∷ cs) l h =
    let (first, of_first, grew, same) =
      add_new-Grown window_id (is_empty c.candidate_id || is_one_of c.candidate_id l.known_ids) c l
        h.0 in
    let (more, of_more, grew_more, same_more) = append_all-Grown window_id cs (append c l) h.1 in
    (
      first ++ more,
      Of-append window_id first more of_first of_more,
      grew_more ∙ ap (λ ds. ds ++ more) grew ∙ append_assoc l.candidates first more,
      same_more ∙ same,
    )

found-last :
    (window_id : Text) (ids : List Text) → is_one_of window_id (ids ++ window_id ∷ []) ≡ true
unfolding is_one_of
found-last window_id [] = rw (text_eq_refl window_id) refl
found-last window_id (i ∷ ids) = rw (found-last window_id ids) (ground arith)

with_window_twice :
    (window_id : Text) (ids : List Text)
    → with_window window_id (with_window window_id ids) ≡ with_window window_id ids
with_window_twice window_id ids = elim (Bool-cases (is_one_of window_id ids)) [
  | inl e ↦ rw (e, e) refl
  | inr e ↦ rw (e, found-last window_id ids) refl
]

-- A retry that writes the same candidates of a window again leaves the ledger as the first write did.
pub replace_window-again :
    (window_id : Text) (cs : List Candidate) (l : CandidateLedger)
    → Of window_id cs
    → replace_window window_id cs (replace_window window_id cs l) ≡ replace_window window_id cs l
unfolding replace_window
replace_window-again window_id cs l h =
    let once = append_all cs (without_window window_id l) in
    let (added, of_added, grew, same) =
      append_all-Grown window_id cs (without_window window_id l) h in
    let kept : others window_id once.candidates ≡ others window_id l.candidates =
      ap (others window_id) grew
      ∙ others-append window_id (others window_id l.candidates) added of_added
      ∙ others_twice window_id l.candidates in
    let windows : with_window window_id once.window_ids ≡ with_window window_id l.window_ids =
      ap (with_window window_id) same ∙ with_window_twice window_id l.window_ids in
    let back : without_window window_id once ≡ without_window window_id l =
      rw (kept, windows) refl in
    ap (append_all cs) back

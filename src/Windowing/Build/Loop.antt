-- ===== src/Windowing/Build/Loop.antt =====
-- What the windows own, through the loop over the chunks.
use mathlib.Core.List.{append_assoc, append-nil}
use ai_buddy_app_agent_baken.Base.{
  if-either, ℕ, suc, ◌≤◌, ◌<◌, ◌≡◌, refl, sym, ap, ◌∙◌, subst, Bool-cases, inl, inr, true, false,
  Option, none, some, List, [], ◌∷◌, ◌++◌, All, All-append, if◌then◌else◌, arith,
}
use ai_buddy_app_agent_baken.Windowing.Chunk.{
  Chunk, Lexicon, WindowSettings, useful, is_useful_chunk, sequences, member,
}
use ai_buddy_app_agent_baken.Windowing.Tail.{no_chunks, tail_chunks, tail_chunks-suffix}
use ai_buddy_app_agent_baken.Windowing.Flush.{
  CloseReason, State, outside, no_numbers, owned_now, emptied, closed, flush,
}
use ai_buddy_app_agent_baken.Windowing.Build.{
  close_for, append_chunk, visit, visit_all, text_after, tokens_after,
}
use ai_buddy_app_agent_baken.Windowing.Build.Partition.{owned_by, total, total-close_for}

-- Every chunk has a number below `n`.
abbrev pub Under : ℕ → List Chunk → Type 0
Under n = All (λ (c : Chunk). c.sequence < n)

-- Every number in the open window and in its overlap is below `n`.
abbrev pub Below : ℕ → State → Type 0
Below n s = All (λ m. m < n) s.overlap_ids × Under n s.current

-- The numbers rise strictly from `n` on.
abbrev pub Rising : ℕ → List Chunk → Type 0
Rising n [] = Unit
Rising n (c ∷ cs) = (n ≤ c.sequence) × Rising (suc c.sequence) cs

pub Under-useful : (n : ℕ) (cs : List Chunk) → Under n cs → Under n (useful cs)
Under-useful n [] h = tt
Under-useful n (c ∷ cs) h =
    if-either (Under n) (is_useful_chunk c) (c ∷ useful cs) (useful cs)
      (λ _. (h.0, Under-useful n cs h.1)) (λ _. Under-useful n cs h.1)

Under-end : (n : ℕ) (front cs : List Chunk) → Under n (front ++ cs) → Under n cs
Under-end n [] cs h = h
Under-end n (c ∷ front) cs h = Under-end n front cs h.1

pub Under-sequences : (n : ℕ) (cs : List Chunk) → Under n cs → All (λ m. m < n) (sequences cs)
Under-sequences n [] h = tt
Under-sequences n (c ∷ cs) h = (h.0, Under-sequences n cs h.1)

Under-tail :
    (lex : Lexicon) (budget n : ℕ) (cs : List Chunk)
    → Under n cs
    → Under n (tail_chunks lex (useful cs) budget)
Under-tail lex budget n cs h =
    let (front, e) = tail_chunks-suffix lex (useful cs) budget in
    Under-end n front _ (subst (Under n) e (Under-useful n (useful cs) (Under-useful n cs h)))

rise : (n m : ℕ) (ns : List ℕ) → n ≤ m → All (λ k. k < n) ns → All (λ k. k < m) ns
rise n m [] le h = tt
rise n m (k ∷ ns) le h = (omega (arith, le, h.0), rise n m ns le h.1)

rise-Under : (n m : ℕ) (cs : List Chunk) → n ≤ m → Under n cs → Under m cs
rise-Under n m [] le h = tt
rise-Under n m (c ∷ cs) le h = (omega (arith, le, h.0), rise-Under n m cs le h.1)

member-fresh : (n : ℕ) (ns : List ℕ) → All (λ k. k < n) ns → member n ns ≡ false
member-fresh n [] h = refl
member-fresh n (k ∷ ns) h = ground (arith, h.0, member-fresh n ns h.1)

outside-append :
    (ids ms : List ℕ) (n : ℕ)
    → member n ids ≡ false
    → outside ids (ms ++ n ∷ []) ≡ outside ids ms ++ n ∷ []
outside-append ids [] n h = rw h refl
outside-append ids (m ∷ ms) n h = elim (Bool-cases (member m ids)) [
  | inl known ↦ rw known (outside-append ids ms n h)
  | inr fresh ↦ rw fresh (ap (λ l. m ∷ l) (outside-append ids ms n h))
]

useful-cons :
    (c : Chunk) (cs : List Chunk)
    → sequences (useful (c ∷ [])) ++ sequences (useful cs) ≡ sequences (useful (c ∷ cs))
useful-cons c cs = elim (Bool-cases (is_useful_chunk c)) [
  | inl keeps ↦ rw keeps refl
  | inr drops ↦ rw drops refl
]

useful-append :
    (cs : List Chunk) (c : Chunk)
    → is_useful_chunk c ≡ true
    → sequences (useful (cs ++ c ∷ [])) ≡ sequences (useful cs) ++ c.sequence ∷ []
useful-append [] c h = rw h refl
useful-append (d ∷ ds) c h = elim (Bool-cases (is_useful_chunk d)) [
  | inl keeps ↦ rw keeps (ap (λ l. d.sequence ∷ l) (useful-append ds c h))
  | inr drops ↦ rw drops (useful-append ds c h)
]

module _ (lex : Lexicon) (settings : WindowSettings) where
  Below-flush :
      (n : ℕ) (reason : CloseReason) (s : State)
      → Below n s
      → Below n (flush lex settings reason false s)
  unfolding flush
  Below-flush n reason s h =
      if-either (Below n) (no_chunks (useful s.current)) (emptied lex settings s)
        (if no_numbers (owned_now s) then s else closed lex settings reason false s)
        (λ _. (h.0, tt))
        (λ _.
          if-either (Below n) (no_numbers (owned_now s)) s (closed lex settings reason false s)
            (λ _. h)
            (λ _.
              let under = Under-tail lex settings.overlap_budget n s.current h.1 in
              (Under-sequences n _ under, under)))

  Below-close_for :
      (n : ℕ) (reason : Option CloseReason) (s : State)
      → Below n s
      → Below n (close_for lex settings reason s)
  Below-close_for n none s h = h
  Below-close_for n (some reason) s h = Below-flush n reason s h

  total-append_chunk :
      (tokens : ℕ) (text : List ℕ) (c : Chunk) (s : State)
      → is_useful_chunk c ≡ true
      → Below c.sequence s
      → total (append_chunk lex settings tokens text c s) ≡ total s ++ c.sequence ∷ []
  total-append_chunk tokens text c s h below =
      rw
        (
          useful-append s.current c h,
          outside-append s.overlap_ids (sequences (useful s.current)) c.sequence
              (member-fresh c.sequence s.overlap_ids below.0),
        )
        (sym (append_assoc (owned_by s.windows) (owned_now s) (c.sequence ∷ [])))

  total-close-append :
      (tokens : ℕ) (text : List ℕ) (reason : Option CloseReason) (s : State) (c : Chunk)
      → is_useful_chunk c ≡ true
      → Below c.sequence s
      → total (append_chunk lex settings tokens text c (close_for lex settings reason s))
        ≡ total s ++ c.sequence ∷ []
  total-close-append tokens text reason s c h below =
      total-append_chunk tokens text c (close_for lex settings reason s) h
        (Below-close_for c.sequence reason s below)
      ∙ ap (λ l. l ++ c.sequence ∷ []) (total-close_for lex settings reason s)

  total-visit :
      (s : State) (c : Chunk)
      → Below c.sequence s
      → total (visit lex settings s c) ≡ total s ++ sequences (useful (c ∷ []))
  unfolding visit
  total-visit s c below = elim (Bool-cases (is_useful_chunk c)) [
    | inl yes_useful ↦ rw yes_useful (
        total-close-append (tokens_after lex settings s c) (text_after lex settings s c) _ s c
          yes_useful below)
    | inr not_useful ↦ rw (not_useful, append-nil) refl
  ]

  Below-close-append :
      (n tokens : ℕ) (text : List ℕ) (reason : Option CloseReason) (s : State) (c : Chunk)
      → c.sequence < n
      → Below n s
      → Below n (append_chunk lex settings tokens text c (close_for lex settings reason s))
  Below-close-append n tokens text reason s c small below =
      let kept = Below-close_for n reason s below in
      (kept.0, All-append (λ (d : Chunk). d.sequence < n) _ (c ∷ []) kept.1 (small, tt))

  Below-visit :
      (n : ℕ) (s : State) (c : Chunk)
      → c.sequence < n
      → Below n s
      → Below n (visit lex settings s c)
  unfolding visit
  Below-visit n s c small below = elim (Bool-cases (is_useful_chunk c)) [
    | inl yes_useful ↦ rw yes_useful (
        Below-close-append n (tokens_after lex settings s c) (text_after lex settings s c) _ s c
          small below)
    | inr not_useful ↦ rw not_useful below
  ]

  pub total-visit_all :
      (n : ℕ) (s : State) (cs : List Chunk)
      → Below n s
      → Rising n cs
      → total (visit_all lex settings s cs) ≡ total s ++ sequences (useful cs)
  unfolding visit_all
  total-visit_all n s [] below rising = sym (append-nil (total s))
  total-visit_all n s (c ∷ cs) below rising =
      let here : Below c.sequence s =
        (rise n c.sequence _ rising.0 below.0, rise-Under n c.sequence _ rising.0 below.1) in
      let later : Below (suc c.sequence) s = (
        rise n (suc c.sequence) _ (omega (arith, rising.0)) below.0,
        rise-Under n (suc c.sequence) _ (omega (arith, rising.0)) below.1,
      ) in
      total-visit_all (suc c.sequence) (visit lex settings s c) cs
        (Below-visit (suc c.sequence) s c (omega arith) later) rising.1
      ∙ ap (λ l. l ++ sequences (useful cs)) (total-visit s c here)
      ∙ append_assoc (total s) (sequences (useful (c ∷ []))) (sequences (useful cs))
      ∙ ap (λ l. total s ++ l) (useful-cons c cs)

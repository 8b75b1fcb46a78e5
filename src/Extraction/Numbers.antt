-- ===== src/Extraction/Numbers.antt =====
-- Which sequence numbers stand in a list, in the windows, and in an overlap.
use ai_buddy_app_agent_baken.Base.{
  ℕ, ◌+◌, ◌≡◌, refl, Bool, Bool-cases, true, false, ◌||◌, inl, inr, List, [], ◌∷◌, ◌++◌, reverse,
  leb, ◌==◌, ==_iff, any, keep, All, if-either, if◌then◌else◌, arith,
}
use mathlib.Core.List.{reverse_aux}
use ai_buddy_app_agent_baken.Extraction.Transcript.{Turn, Reader, useful_token_count, nothing}
use ai_buddy_app_agent_baken.Extraction.{
  Budget, ExtractionWindow, has, ids, union_of, last_ids, ends, take_tail, tail_for_overlap,
}

-- Every number of the first list stands in the second.
abbrev pub Sub : List ℕ → List ℕ → Type 0
Sub xs ys = (x : ℕ) → has x xs ≡ true → has x ys ≡ true

pub has-append : (x : ℕ) (xs ys : List ℕ) → has x (xs ++ ys) ≡ (has x xs || has x ys)
has-append x [] ys = refl
has-append x (y ∷ xs) ys = ground (arith, has-append x xs ys)

pub ids-append : (ts us : List Turn) → ids (ts ++ us) ≡ ids ts ++ ids us
ids-append [] us = refl
ids-append (t ∷ ts) us = rw (ids-append ts us) refl

pub has-union_of :
    (x : ℕ) (ws : List ExtractionWindow) (w : ExtractionWindow)
    → has x (union_of (ws ++ w ∷ [])) ≡ (has x (union_of ws) || has x w.sequence_ids)
has-union_of x [] w = rw (has-append x w.sequence_ids []) (ground arith)
has-union_of x (v ∷ ws) w =
    rw
      (
        has-append x v.sequence_ids (union_of (ws ++ w ∷ [])),
        has-append x v.sequence_ids (union_of ws),
        has-union_of x ws w,
      )
      (ground arith)

pub last_ids-snoc :
    (ws : List ExtractionWindow) (w : ExtractionWindow) → last_ids (ws ++ w ∷ []) ≡ w.sequence_ids
last_ids-snoc [] w = refl
last_ids-snoc (v ∷ []) w = refl
last_ids-snoc (v ∷ u ∷ ws) w = last_ids-snoc (u ∷ ws) w

pub last_ids-Sub : (ws : List ExtractionWindow) → Sub (last_ids ws) (union_of ws)
last_ids-Sub [] x h = h
last_ids-Sub (w ∷ []) x h = rw (has-append x w.sequence_ids [], h) refl
last_ids-Sub (w ∷ v ∷ ws) x h =
    let found = last_ids-Sub (v ∷ ws) x h in
    rw (has-append x w.sequence_ids (union_of (v ∷ ws))) (ground arith)

pub ends-snoc : (xs : List ℕ) (x : ℕ) → ends (xs ++ x ∷ []) ≡ x ∷ []
ends-snoc [] x = refl
ends-snoc (y ∷ []) x = refl
ends-snoc (y ∷ z ∷ xs) x = ends-snoc (z ∷ xs) x

pub has-one : (x y : ℕ) → has x (y ∷ []) ≡ true → x ≡ y
has-one x y h = ground (arith, (==_iff x y).0)

pub any-none :
    (p : ℕ → Bool) (xs : List ℕ) → ((x : ℕ) → has x xs ≡ true → p x ≡ false) → any p xs ≡ false
any-none p [] h = refl
any-none p (x ∷ xs) h =
    let here : p x ≡ false = h x (ground arith) in
    rw here (any-none p xs (λ y k. h y (ground arith)))

kept-none :
    (b : Bool) (y : ℕ) (rest : List ℕ)
    → nothing (if b then y ∷ rest else rest) ≡ true
    → (b ≡ false) × (nothing rest ≡ true)
kept-none true y rest h = ground arith
kept-none false y rest h = (refl, h)

-- Where a filter leaves nothing, it holds of no element.
pub keep-none :
    (p : ℕ → Bool) (xs : List ℕ)
    → nothing (keep p xs) ≡ true
    → (x : ℕ) → has x xs ≡ true
    → p x ≡ false
keep-none p [] h x k = ground arith
keep-none p (y ∷ ys) h x k =
    let (here, rest) = kept-none (p y) y (keep p ys) h in
    elim (Bool-cases (x == y)) [
      | inl same ↦ rw ((==_iff x y).0 same) here
      | inr other ↦ keep-none p ys rest x (ground arith)
    ]

pub keep_useful : (p : Turn → Bool) (ts : List Turn) → All (λ t. p t ≡ true) ts → keep p ts ≡ ts
keep_useful p [] h = refl
keep_useful p (t ∷ ts) h = rw (h.0, keep_useful p ts h.1) refl

pub All-keep : (p : Turn → Bool) (ts : List Turn) → All (λ t. p t ≡ true) (keep p ts)
All-keep p [] = tt
All-keep p (t ∷ ts) =
    if-either (All (λ u. p u ≡ true)) (p t) (t ∷ keep p ts) (keep p ts) (λ e. (e, All-keep p ts))
      (λ _. All-keep p ts)

-- A turn of the list has its number there.
pub All-Sub :
    (ts : List Turn) (ys : List ℕ) → All (λ t. has t.sequence_id ys ≡ true) ts → Sub (ids ts) ys
All-Sub [] ys h x k = ground arith
All-Sub (t ∷ ts) ys h x k = elim (Bool-cases (x == t.sequence_id)) [
  | inl same ↦ rw ((==_iff x t.sequence_id).0 same) (h.0)
  | inr other ↦ All-Sub ts ys h.1 x (ground arith)
]

Sub-All :
    (ts : List Turn) (ys : List ℕ) → Sub (ids ts) ys → All (λ t. has t.sequence_id ys ≡ true) ts
Sub-All [] ys h = tt
Sub-All (t ∷ ts) ys h = (h t.sequence_id (ground arith), Sub-All ts ys (λ x k. h x (ground arith)))

module _ {κ} (P : Turn → Type κ) where
  All-reverse_aux : (ts us : List Turn) → All P ts → All P us → All P (reverse_aux ts us)
  All-reverse_aux [] us h k = k
  All-reverse_aux (t ∷ ts) us h k = All-reverse_aux ts (t ∷ us) h.1 (h.0, k)

  module _ (R : Reader) (b : Budget) where
    All-take_tail :
        (total : ℕ) (tail ts : List Turn)
        → All P tail
        → All P ts
        → All P (take_tail R b total tail ts)
    unfolding take_tail
    All-take_tail total tail [] h k = h
    All-take_tail total tail (t ∷ ts) h k =
        let rest = All-take_tail (total + useful_token_count R t) (t ∷ tail) ts (k.0, h) k.1 in
        if-either (All P) (leb b.overlap_budget (total + useful_token_count R t)) (t ∷ tail)
          (take_tail R b (total + useful_token_count R t) (t ∷ tail) ts) (λ _. (k.0, h)) (λ _. rest)

    pub All-tail_for_overlap : (ts : List Turn) → All P ts → All P (tail_for_overlap R b ts)
    unfolding tail_for_overlap
    All-tail_for_overlap ts h =
        if-either (All P) (leb b.overlap_budget 0) [] (take_tail R b 0 [] (reverse ts)) (λ _. tt)
          (λ _. All-take_tail 0 [] (reverse ts) tt (All-reverse_aux ts [] h tt))

pub tail_for_overlap-Sub :
    (R : Reader) (b : Budget) (ts : List Turn) → Sub (ids (tail_for_overlap R b ts)) (ids ts)
tail_for_overlap-Sub R b ts = All-Sub (tail_for_overlap R b ts) (ids ts) (
    All-tail_for_overlap (λ t. has t.sequence_id (ids ts) ≡ true) R b ts
      (Sub-All ts (ids ts) (λ x h. h)))

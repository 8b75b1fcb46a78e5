-- ===== src/Windowing/Tail.antt =====
-- `_tail_chunks` and `_ordered_unique`.
use mathlib.Core.List.{append_assoc, append-nil}
use ai_buddy_app_agent_baken.Base.{
  ℕ, ◌+◌, ◌<◌, ◌≡◌, refl, sym, ap, subst, ◌∙◌, Bool, Bool-cases, inl, inr, true, false, List, [],
  ◌∷◌, ◌++◌, reverse, leb, ◌==◌, ◌||◌, if◌then◌else◌, arith,
}
use mathlib.Core.List.{reverse-cons, reverse-reverse}
use ai_buddy_app_agent_baken.Windowing.Chunk.{
  Chunk, Lexicon, useful, useful_transcript_text, member, sort_chunks,
}

abbrev pub no_chunks : List Chunk → Bool
no_chunks [] = true
no_chunks (c ∷ cs) = false

-- The loop over the reversed chunks; `tail.insert(0, chunk)`.
pub take_back : Lexicon → (budget total : ℕ) → (back tail : List Chunk) → List Chunk
take_back lex budget total [] tail = tail
take_back lex budget total (c ∷ back) tail =
    let total' = total + lex.estimate_tokens (useful_transcript_text c) in
    let more = take_back lex budget total' back (c ∷ tail) in
    if leb budget total' then c ∷ tail else more

unfoldable pub tail_chunks : Lexicon → List Chunk → (budget : ℕ) → List Chunk
unfolding take_back
tail_chunks lex chunks budget =
    if budget == 0 || no_chunks (useful chunks)
    then []
    else take_back lex budget 0 (reverse (useful chunks)) []

unfoldable pub unique_from : List ℕ → List Chunk → List Chunk
unique_from seen [] = []
unique_from seen (c ∷ cs) =
    let skip = unique_from seen cs in
    let add = c ∷ unique_from (c.sequence ∷ seen) cs in if member c.sequence seen then skip else add

unfoldable pub ordered_unique : List Chunk → List Chunk
unfolding unique_from
ordered_unique chunks = unique_from [] (sort_chunks chunks)

take_back-suffix :
    (lex : Lexicon) (budget total : ℕ) (back tail : List Chunk)
    → (front : List Chunk) × (reverse back ++ tail ≡ front ++ take_back lex budget total back tail)
unfolding take_back
take_back-suffix lex budget total [] tail = ([], refl)
take_back-suffix lex budget total (c ∷ back) tail =
    let total' = total + lex.estimate_tokens (useful_transcript_text c) in
    let step =
      ap (λ l. l ++ tail) (reverse-cons c back) ∙ append_assoc (reverse back) (c ∷ []) tail in
    elim (Bool-cases (leb budget total')) [
      | inl enough ↦ (reverse back, rw enough step)
      | inr short ↦
          let (front, e) = take_back-suffix lex budget total' back (c ∷ tail) in
          (front, rw short (step ∙ e))
    ]

-- The overlap is an end of the useful chunks, in their order.
pub tail_chunks-suffix :
    (lex : Lexicon) (chunks : List Chunk) (budget : ℕ)
    → (front : List Chunk) × (useful chunks ≡ front ++ tail_chunks lex chunks budget)
unfolding tail_chunks
tail_chunks-suffix lex chunks budget =
    elim (Bool-cases (budget == 0 || no_chunks (useful chunks))) [
      | inl none_left ↦ (useful chunks, rw (none_left, append-nil) refl)
      | inr some_left ↦
          let (front, e) = take_back-suffix lex budget 0 (reverse (useful chunks)) [] in
          (
            front,
            rw some_left (
                sym (append-nil (useful chunks))
                ∙ ap (λ l. l ++ []) (sym (reverse-reverse (useful chunks)))
                ∙ e),
          )
    ]

pub weight : Lexicon → List Chunk → ℕ
weight lex [] = 0
weight lex (c ∷ cs) = lex.estimate_tokens (useful_transcript_text c) + weight lex cs

-- Without its first chunk the overlap is below the budget.
abbrev pub Light : Lexicon → ℕ → List Chunk → Type 0
Light lex budget [] = Unit
Light lex budget (c ∷ cs) = weight lex cs < budget

weight-cons :
    (lex : Lexicon) (c : Chunk) (cs : List Chunk)
    → weight lex (c ∷ cs) ≡ weight lex cs + lex.estimate_tokens (useful_transcript_text c)
unfolding weight
weight-cons lex c cs = omega arith

take_back-Light :
    (lex : Lexicon) (budget : ℕ) (back tail : List Chunk)
    → weight lex tail < budget
    → Light lex budget (take_back lex budget (weight lex tail) back tail)
unfolding take_back
take_back-Light lex budget [] [] h = tt
take_back-Light lex budget [] (t ∷ tail) h = (unfold weight in omega arith)
take_back-Light lex budget (c ∷ back) tail h =
    let now = lex.estimate_tokens (useful_transcript_text c) in
    elim (Bool-cases (leb budget (weight lex tail + now))) [
      | inl enough ↦ rw enough h
      | inr short ↦ rw short (
          subst (λ total. Light lex budget (take_back lex budget total back (c ∷ tail)))
            (weight-cons lex c tail)
            (take_back-Light lex budget back (c ∷ tail)
              (rw (weight-cons lex c tail) (ground arith))))
    ]

tail_chunks-Light :
    (lex : Lexicon) (chunks : List Chunk) (budget : ℕ)
    → Light lex budget (tail_chunks lex chunks budget)
unfolding tail_chunks weight
tail_chunks-Light lex chunks budget = elim (Bool-cases (budget == 0 || no_chunks (useful chunks))) [
  | inl none_left ↦ rw none_left tt
  | inr some_left ↦
      rw some_left (take_back-Light lex budget (reverse (useful chunks)) [] (ground arith))
]

-- The overlap is an end of the useful chunks, and without its first chunk it is below the budget.
pub tail_chunks_lem :
    (lex : Lexicon) (chunks : List Chunk) (budget : ℕ)
    → ((front : List Chunk) × (useful chunks ≡ front ++ tail_chunks lex chunks budget))
      × Light lex budget (tail_chunks lex chunks budget)
tail_chunks_lem lex chunks budget =
    (tail_chunks-suffix lex chunks budget, tail_chunks-Light lex chunks budget)

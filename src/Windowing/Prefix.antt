-- ===== src/Windowing/Prefix.antt =====
-- `_reachable_semantic_prefix` and `leading_skippable_sequences`.
use ai_buddy_app_agent_baken.Base.{
  ℕ, zero, suc, ◌+◌, ◌-◌, ◌≤◌, ◌<◌, ◌≡◌, refl, sym, inl, inr, Bool, Bool-cases, true, false, Option,
  Option-cases, none, some, List, [], ◌∷◌, ltb, ◌==◌, ==_iff, if◌then◌else◌, arith,
}
use ai_buddy_app_agent_baken.Windowing.Chunk.{Chunk, is_useful_chunk, member, sort_chunks}

-- The dict `by_sequence`: of two chunks with one number the later wins.
abbrev or_this : ℕ → Chunk → Option Chunk → Option Chunk
or_this n c (some d) = some d
or_this n c none = if c.sequence == n then some c else none

unfoldable pub by_sequence : ℕ → List Chunk → Option Chunk
by_sequence n [] = none
by_sequence n (c ∷ cs) = or_this n c (by_sequence n cs)

abbrev last_sequence : Chunk → List Chunk → ℕ
last_sequence c [] = c.sequence
last_sequence c (d ∷ ds) = last_sequence d ds

-- One round: a chunk is taken, a skippable number is passed over, and anything else breaks.
abbrev pub advance : Option Chunk → Bool → List Chunk → List Chunk
advance (some chunk) skip rest = chunk ∷ rest
advance none true rest = rest
advance none false rest = []

-- The `while expected <= end` loop.
pub reach : List ℕ → List Chunk → (end fuel expected : ℕ) → List Chunk
reach skippable ordered end zero expected = []
reach skippable ordered end (suc fuel) expected =
    let rest = reach skippable ordered end fuel (suc expected) in
    if ltb end expected
    then []
    else advance (by_sequence expected ordered) (member expected skippable) rest

-- `expected` grows by one in each round, so `end - start + 1` rounds are enough.
pub reach_ordered : List ℕ → List Chunk → List Chunk
reach_ordered skippable [] = []
reach_ordered skippable (c ∷ cs) =
    let end = last_sequence c cs in reach skippable (c ∷ cs) end (suc (end - c.sequence)) c.sequence

unfoldable pub reachable_prefix : List Chunk → List ℕ → List Chunk
unfolding reach_ordered reach by_sequence sort_chunks
reachable_prefix chunks skippable = reach_ordered skippable (sort_chunks chunks)

leading : List Chunk → List ℕ
leading [] = []
leading (c ∷ cs) = let rest = leading cs in if is_useful_chunk c then [] else c.sequence ∷ rest

unfoldable pub leading_skippable_sequences : List Chunk → List ℕ → List ℕ
unfolding leading reachable_prefix
leading_skippable_sequences chunks skippable =
    leading (reachable_prefix (sort_chunks chunks) skippable)

by_sequence-sequence :
    (n : ℕ) (cs : List Chunk) (c : Chunk) → by_sequence n cs ≡ some c → c.sequence ≡ n
unfolding by_sequence
by_sequence-sequence n [] c h = cc
by_sequence-sequence n (d ∷ ds) c h = elim (Option-cases (by_sequence n ds)) [
  | inl absent ↦ ground arith
  | inr (e, found) ↦ by_sequence-sequence n ds c (ground arith)
]

-- More rounds than enough change nothing: the loop has ended by its own test.
reach-enough :
    (skippable : List ℕ) (ordered : List Chunk) (end fuel expected : ℕ)
    → end < expected + fuel
    → reach skippable ordered end (suc fuel) expected ≡ reach skippable ordered end fuel expected
unfolding reach
reach-enough skippable ordered end zero expected h = ground arith
reach-enough skippable ordered end (suc fuel) expected h =
    ground (arith, reach-enough skippable ordered end fuel (suc expected) (omega arith))

-- The numbers rise, and every number that is left out from `expected` on is skippable.
abbrev pub Gapless : List ℕ → ℕ → List Chunk → Type 0
Gapless skippable expected [] = Unit
Gapless skippable expected (c ∷ cs) =
    (expected ≤ c.sequence)
    × ((n : ℕ) → expected ≤ n → n < c.sequence → member n skippable ≡ true)
    × Gapless skippable (suc c.sequence) cs

Gapless-skip :
    (skippable : List ℕ) (expected : ℕ) (cs : List Chunk)
    → member expected skippable ≡ true
    → Gapless skippable (suc expected) cs
    → Gapless skippable expected cs
Gapless-skip skippable expected [] skip h = tt
Gapless-skip skippable expected (c ∷ cs) skip h = (
  omega (arith, h.0),
  λ n le lt. elim (Bool-cases (expected == n)) [
    | inl same ↦ rw (sym ((==_iff expected n).0 same)) skip
    | inr other ↦ h.1 n (ground arith) lt
  ],
  h.2,
)

advance-Gapless :
    (skippable : List ℕ) (expected : ℕ) (ordered rest : List Chunk) (found : Option Chunk)
    (skip : Bool)
    → by_sequence expected ordered ≡ found
    → member expected skippable ≡ skip
    → Gapless skippable (suc expected) rest
    → Gapless skippable expected (advance found skip rest)
advance-Gapless skippable expected ordered rest (some c) skip found may h =
    let here = by_sequence-sequence expected ordered c found in
    (omega arith, λ n le lt. absurd (omega arith), rw here h)
advance-Gapless skippable expected ordered rest none true found may h =
    Gapless-skip skippable expected rest may h
advance-Gapless skippable expected ordered rest none false found may h = tt

if-Gapless :
    (skippable : List ℕ) (expected : ℕ) (b : Bool) (cs : List Chunk)
    → Gapless skippable expected cs
    → Gapless skippable expected (if b then [] else cs)
if-Gapless skippable expected true cs h = tt
if-Gapless skippable expected false cs h = h

reach-Gapless :
    (skippable : List ℕ) (ordered : List Chunk) (end fuel expected : ℕ)
    → Gapless skippable expected (reach skippable ordered end fuel expected)
unfolding reach
reach-Gapless skippable ordered end zero expected = tt
reach-Gapless skippable ordered end (suc fuel) expected = if-Gapless skippable expected _ _ (
    advance-Gapless skippable expected ordered _ _ _ refl refl
      (reach-Gapless skippable ordered end fuel (suc expected)))

abbrev pub first_sequence : List Chunk → ℕ
first_sequence [] = 0
first_sequence (c ∷ cs) = c.sequence

reach_ordered-Gapless :
    (skippable : List ℕ) (ordered : List Chunk)
    → Gapless skippable (first_sequence ordered) (reach_ordered skippable ordered)
unfolding reach_ordered
reach_ordered-Gapless skippable [] = tt
reach_ordered-Gapless skippable (c ∷ cs) = reach-Gapless skippable (c ∷ cs) _ _ c.sequence

-- The prefix rises strictly from the first number on, and leaves out only skippable numbers.
pub reachable_prefix-Gapless :
    (chunks : List Chunk) (skippable : List ℕ)
    → Gapless skippable (first_sequence (sort_chunks chunks)) (reachable_prefix chunks skippable)
unfolding reachable_prefix
reachable_prefix-Gapless chunks skippable = reach_ordered-Gapless skippable (sort_chunks chunks)

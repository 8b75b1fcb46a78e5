-- ===== src/Chunking/Cover.antt =====
-- The slices cover the text, and the chunks are bounded.
use mathlib.Core.List.{reverse-cons}
use ai_buddy_app_agent_baken.Base.{
  ℕ, zero, suc, ◌-◌, ◌≤◌, ◌<◌, ◌≡◌, refl, ap, ◌∙◌, true, List, [], ◌∷◌, ◌++◌, map, Text, length,
  take, All, keep, strip, strip_left, is_space, reverse, length-append, length-take-le, if-either,
  arith,
}
use ai_buddy_app_agent_baken.Chunking.{drop, slices_from, slices, is_full, chunk_text}

abbrev pub flatten : List Text → Text
flatten [] = []
flatten (t ∷ ts) = t ++ flatten ts

module _ {ℓ} {A : Type ℓ} where
  take-take : (m n : ℕ) (xs : List A) → m ≤ n → take m (take n xs) ≡ take m xs
  take-take zero n xs le = refl
  take-take (suc m) zero xs le = absurd (omega arith)
  take-take (suc m) (suc n) [] le = refl
  take-take (suc m) (suc n) (x ∷ xs) le = ap (λ l. x ∷ l) (take-take m n xs (omega arith))

  take-drop : (n : ℕ) (xs : List A) → take n xs ++ drop n xs ≡ xs
  take-drop zero xs = refl
  take-drop (suc n) [] = refl
  take-drop (suc n) (x ∷ xs) = ap (λ l. x ∷ l) (take-drop n xs)

  length-drop : (n : ℕ) (xs : List A) → length (drop n xs) ≤ length xs
  length-drop zero xs = omega arith
  length-drop (suc n) [] = omega arith
  length-drop (suc n) (x ∷ xs) = omega (arith, length-drop n xs)

  drop-shorter : (n : ℕ) (x : A) (xs : List A) → 0 < n → length (drop n (x ∷ xs)) ≤ length xs
  drop-shorter zero x xs h = absurd (omega arith)
  drop-shorter (suc n) x xs h = length-drop n xs

module _ (chunk_size overlap : ℕ) (smaller : overlap < chunk_size) where
  slices_from-cover :
      (fuel : ℕ) (rest : Text)
      → length rest ≤ fuel
      → flatten (map (take (chunk_size - overlap)) (slices_from chunk_size overlap fuel rest))
        ≡ rest
  unfolding slices_from
  slices_from-cover zero [] enough = refl
  slices_from-cover zero (c ∷ rest) enough = absurd (omega arith)
  slices_from-cover (suc fuel) [] enough = refl
  slices_from-cover (suc fuel) (c ∷ rest) enough =
      let step = chunk_size - overlap in
      let later =
        slices_from-cover fuel (drop step (c ∷ rest))
          (omega (arith, drop-shorter step c rest (omega arith))) in
      rw (take-take step chunk_size (c ∷ rest) (omega arith), later) (take-drop step (c ∷ rest))

  slices-cover :
      (text : Text)
      → flatten (map (take (chunk_size - overlap)) (slices chunk_size overlap text)) ≡ text
  unfolding slices
  slices-cover text = slices_from-cover (length text) text (omega arith)

length-reverse : (xs : Text) → length (reverse xs) ≡ length xs
length-reverse [] = refl
length-reverse (x ∷ xs) =
    ap length (reverse-cons x xs)
    ∙ length-append (reverse xs) (x ∷ [])
    ∙ omega (arith, length-reverse xs)

length-strip_left : (xs : Text) → length (strip_left xs) ≤ length xs
unfolding strip_left
length-strip_left [] = omega arith
length-strip_left (c ∷ cs) =
    if-either (λ (t : Text). length t ≤ suc (length cs)) (is_space c) (strip_left cs) (c ∷ cs)
      (λ _. omega (arith, length-strip_left cs)) (λ _. omega arith)

length-strip : (xs : Text) → length (strip xs) ≤ length xs
unfolding strip
length-strip xs = omega (
  arith,
  length-reverse (strip_left (reverse (strip_left xs))),
  length-strip_left (reverse (strip_left xs)),
  length-reverse (strip_left xs),
  length-strip_left xs,
)

abbrev pub IsChunk : ℕ → Text → Type 0
IsChunk chunk_size t = (is_full t ≡ true) × (length t ≤ chunk_size)

slices_from-short :
    (chunk_size overlap fuel : ℕ) (rest : Text)
    → All (λ (t : Text). length t ≤ chunk_size) (slices_from chunk_size overlap fuel rest)
unfolding slices_from
slices_from-short chunk_size overlap zero rest = tt
slices_from-short chunk_size overlap (suc fuel) [] = tt
slices_from-short chunk_size overlap (suc fuel) (c ∷ rest) =
    (length-take-le chunk_size (c ∷ rest), slices_from-short chunk_size overlap fuel _)

keep-IsChunk :
    (chunk_size : ℕ) (ts : List Text)
    → All (λ (t : Text). length t ≤ chunk_size) ts
    → All (IsChunk chunk_size) (keep is_full (map strip ts))
keep-IsChunk chunk_size [] h = tt
keep-IsChunk chunk_size (t ∷ ts) h =
    if-either (All (IsChunk chunk_size)) (is_full (strip t)) (strip t ∷ keep is_full (map strip ts))
      _ (λ full. ((full, omega (arith, length-strip t, h.0)), keep-IsChunk chunk_size ts h.1))
      (λ _. keep-IsChunk chunk_size ts h.1)

-- If the overlap is smaller than the chunks, the slices without their overlaps make up the stripped
-- text, and no chunk is empty or longer than the size.
pub chunk_text-cover :
    (text : Text) (chunk_size overlap : ℕ)
    → overlap < chunk_size
    → (flatten (map (take (chunk_size - overlap)) (slices chunk_size overlap (strip text)))
        ≡ strip text)
      × All (IsChunk chunk_size) (chunk_text text chunk_size overlap)
unfolding chunk_text slices
chunk_text-cover text chunk_size overlap smaller = (
  slices-cover chunk_size overlap smaller (strip text),
  keep-IsChunk chunk_size _
      (slices_from-short chunk_size overlap (length (strip text)) (strip text)),
)

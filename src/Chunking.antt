-- ===== src/Chunking.antt =====
-- services/vector/chunking.py: a text is cut into overlapping chunks for the vector index. The loop
-- keeps the text from `start` on in place of `start`, which grows as long as `overlap < chunk_size`.
pub mod Cover
pub mod Examples
use ai_buddy_app_agent_baken.Base.{
  ℕ, zero, suc, ◌-◌, Bool, true, false, not, List, [], ◌∷◌, map, Text, length, take, keep, strip,
  is_empty, if◌then◌else◌,
}

abbrev pub drop {ℓ} : {A : Type ℓ} → ℕ → List A → List A
drop zero xs = xs
drop (suc n) [] = []
drop (suc n) (x ∷ xs) = drop n xs

-- `text[start:end]` in each round.
pub slices_from : (chunk_size overlap fuel : ℕ) → Text → List Text
slices_from chunk_size overlap zero rest = []
slices_from chunk_size overlap (suc fuel) [] = []
slices_from chunk_size overlap (suc fuel) (c ∷ rest) =
    take chunk_size (c ∷ rest)
    ∷ slices_from chunk_size overlap fuel (drop (chunk_size - overlap) (c ∷ rest))

-- Each round drops a character at least, so `len(text)` rounds are enough.
unfoldable pub slices : (chunk_size overlap : ℕ) → Text → List Text
unfolding slices_from
slices chunk_size overlap text = slices_from chunk_size overlap (length text) text

abbrev pub is_full : Text → Bool
is_full text = not (is_empty text)

unfoldable pub chunk_text : Text → (chunk_size overlap : ℕ) → List Text
unfolding slices
chunk_text text chunk_size overlap =
    keep is_full (map strip (slices chunk_size overlap (strip text)))

-- ===== src/Windowing/Chunk.antt =====
-- The chunk of a transcript, the text of a window, and the settings of the windows.
use ai_buddy_app_agent_baken.Base.{
  ℕ, ◌+◌, Bool, not, Option, none, some, List, [], ◌∷◌, ◌++◌, reverse, Text, codes, strip, is_empty,
  leb, ◌==◌, any, keep, if◌then◌else◌,
}
use ai_buddy_app_agent_baken.Base.Decimal.{decimal}

-- A missing time counts as 0, and a negative one is 0 for `chunk_duration_ms`.
pub record Chunk : Type 0 where
  pub sequence : ℕ
  pub normalized_text : Option Text
  pub raw_text : Option Text
  pub end_time_ms : ℕ

-- `normalize_chunk_text(text, previous)` and `estimate_tokens` of transcript.py, whose tokenizer is
-- an optional package. The windows are the same for any two such functions.
pub record Lexicon : Type 0 where
  pub normalize : Text → Text → Text
  pub estimate_tokens : Text → ℕ

-- `maximum` is `max(semantic_window_token_max(), target)`, and `overlap_budget` the result of
-- `overlap_token_budget`, which multiplies by a float.
pub record WindowSettings : Type 0 where
  pub target : ℕ
  pub maximum : ℕ
  pub useful_duration_limit : ℕ
  pub sparse_max_wall_clock : ℕ
  pub sparse_min_tokens : ℕ
  pub overlap_budget : ℕ

abbrev some_or : Option Text → Text → Text
some_or none t = t
some_or (some []) t = t
some_or (some (c ∷ cs)) t = c ∷ cs

unfoldable pub useful_transcript_text : Chunk → Text
useful_transcript_text chunk = strip (some_or chunk.normalized_text (some_or chunk.raw_text []))

unfoldable pub is_useful_chunk : Chunk → Bool
unfolding useful_transcript_text
is_useful_chunk chunk = not (is_empty (useful_transcript_text chunk))

abbrev pub useful : List Chunk → List Chunk
useful = keep is_useful_chunk

abbrev pub sequences : List Chunk → List ℕ
sequences [] = []
sequences (c ∷ cs) = c.sequence ∷ sequences cs

abbrev pub duration : List Chunk → ℕ
duration [] = 0
duration (c ∷ cs) = c.end_time_ms + duration cs

abbrev pub member : ℕ → List ℕ → Bool
member n = any (λ m. n == m)

-- Python's `sorted(chunks, key=lambda chunk: chunk.sequenceNumber)`, which is stable.
unfoldable pub insert_chunk : Chunk → List Chunk → List Chunk
insert_chunk c [] = c ∷ []
insert_chunk c (d ∷ ds) =
    let rest = insert_chunk c ds in if leb c.sequence d.sequence then c ∷ d ∷ ds else d ∷ rest

unfoldable pub sort_chunks : List Chunk → List Chunk
unfolding insert_chunk
sort_chunks [] = []
sort_chunks (c ∷ cs) = insert_chunk c (sort_chunks cs)

abbrev pub line : Chunk → Text → Text
line chunk text = codes "[" ++ decimal chunk.sequence ++ codes "] " ++ text

-- The loop of `_window_text`: a chunk without text, or all of whose text the overlap with the text
-- before it takes away, gives no line.
unfoldable pub window_lines : Lexicon → Text → List Chunk → List Text
unfolding useful_transcript_text
window_lines lex previous [] = []
window_lines lex previous (c ∷ cs) =
    let raw = useful_transcript_text c in
    let text = lex.normalize raw previous in
    let same = window_lines lex previous cs in
    let next = line c text ∷ window_lines lex text cs in
    if is_empty raw then same else if is_empty text then same else next

abbrev join_lines : List Text → Text
join_lines [] = []
join_lines (t ∷ []) = t
join_lines (t ∷ u ∷ ts) = t ++ 10 ∷ join_lines (u ∷ ts)

unfoldable pub window_text : Lexicon → List Chunk → Text
unfolding window_lines
window_text lex chunks = strip (join_lines (window_lines lex [] chunks))

-- `_useful_token_count`
unfoldable pub useful_token_count : Lexicon → List Chunk → ℕ
unfolding window_text
useful_token_count lex chunks =
    let text = window_text lex chunks in if is_empty text then 0 else lex.estimate_tokens text

-- `_last_useful_text`, on the reversed chunks.
last_text : Lexicon → List Chunk → Text
last_text lex [] = []
last_text lex (c ∷ cs) =
    let rest = last_text lex cs in
    if is_empty (useful_transcript_text c)
    then rest
    else lex.normalize (useful_transcript_text c) []

unfoldable pub last_useful_text : Lexicon → List Chunk → Text
unfolding last_text
last_useful_text lex chunks = last_text lex (reverse chunks)

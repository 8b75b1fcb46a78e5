-- ===== src/Chunking/Examples.antt =====
-- The theorem on a short text.
use ai_buddy_app_agent_baken.Base.{◌≡◌, ◌-◌, map, take, strip, All, Text, codes, arith}
use ai_buddy_app_agent_baken.Chunking.{slices, chunk_text}
use ai_buddy_app_agent_baken.Chunking.Cover.{flatten, IsChunk, chunk_text-cover}

abbrev sentence : Text
sentence = codes " some words "

chunk_text-cover_example :
    (flatten (map (take (5 - 2)) (slices 5 2 (strip sentence))) ≡ strip sentence)
    × All (IsChunk 5) (chunk_text sentence 5 2)
chunk_text-cover_example = chunk_text-cover sentence 5 2 (omega arith)

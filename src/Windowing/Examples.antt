-- ===== src/Windowing/Examples.antt =====
-- The theorems on the windows at one transcript.
use ai_buddy_app_agent_baken.Base.{
  ◌≡◌, true, arith, none, some, List, [], ◌∷◌, ◌++◌, ℕ, codes, length,
}
use ai_buddy_app_agent_baken.Windowing.Chunk.{
  Chunk, Lexicon, WindowSettings, useful, sequences, sort_chunks, insert_chunk,
}
use ai_buddy_app_agent_baken.Windowing.Prefix.{
  Gapless, reachable_prefix, first_sequence, reachable_prefix-Gapless,
}
use ai_buddy_app_agent_baken.Windowing.Tail.{tail_chunks, Light, tail_chunks_lem}
use ai_buddy_app_agent_baken.Windowing.Build.{build_ready_windows}
use ai_buddy_app_agent_baken.Windowing.Build.Partition.{owned_by}
use ai_buddy_app_agent_baken.Windowing.Build.Coverage.{build_ready_windows-partition}

abbrev lexicon : Lexicon
lexicon = record { normalize = λ text previous. text; estimate_tokens = λ text. length text }

abbrev settings : WindowSettings
settings = record {
  target = 16;
  maximum = 20;
  useful_duration_limit = 0;
  sparse_max_wall_clock = 0;
  sparse_min_tokens = 4;
  overlap_budget = 3;
}

abbrev said : ℕ → Chunk
said n = record {
  sequence = n;
  normalized_text = some (codes "hello");
  raw_text = none;
  end_time_ms = 1000;
}

abbrev silent : ℕ → Chunk
silent n = record { sequence = n; normalized_text = none; raw_text = some []; end_time_ms = 1000 }

-- Number 4 is missing, 5 comes first.
abbrev transcript : List Chunk
transcript = said 5 ∷ said 1 ∷ silent 2 ∷ said 3 ∷ []

reachable_prefix-Gapless_example :
    Gapless
      (4 ∷ [])
      (first_sequence (sort_chunks transcript))
      (reachable_prefix transcript (4 ∷ []))
reachable_prefix-Gapless_example = reachable_prefix-Gapless transcript (4 ∷ [])

tail_chunks_lem_example :
    ((front : List Chunk) × (useful transcript ≡ front ++ tail_chunks lexicon transcript 6))
    × Light lexicon 6 (tail_chunks lexicon transcript 6)
tail_chunks_lem_example = tail_chunks_lem lexicon transcript 6

build_ready_windows-partition_example :
    (rest : List ℕ) × (sequences (useful (reachable_prefix (sort_chunks transcript) (4 ∷ [])))
      ≡ owned_by (build_ready_windows lexicon settings transcript 0 true (said 0 ∷ []) (4 ∷ []))
        ++ rest)
    × (true ≡ true → rest ≡ [])
build_ready_windows-partition_example =
    build_ready_windows-partition lexicon settings transcript 0 true (said 0 ∷ []) (4 ∷ [])
      (unfold sort_chunks insert_chunk in (omega arith, tt))

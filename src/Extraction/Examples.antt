-- ===== src/Extraction/Examples.antt =====
-- The theorems on two turns, of which the first is longer than a window.
use ai_buddy_app_agent_baken.Base.{
  true, ℕ, ◌≡◌, refl, none, some, List, [], ◌∷◌, Text, codes, length, strip, arith,
}
use ai_buddy_app_agent_baken.Extraction.Transcript.{Turn, Reader, is_useful, split_oversize_turn}
use ai_buddy_app_agent_baken.Extraction.{
  Budget, ExtractionWindow, built, has, ids, union_of, useful, window_of, place, start,
  build_extraction_windows,
}
use ai_buddy_app_agent_baken.Extraction.Whole.{build_extraction_windows-covers}
use ai_buddy_app_agent_baken.Extraction.Oversize.{oversize_turn_cut}

abbrev no_labels : Reader
no_labels = record { match_speaker = λ t. none; encode = λ t. some (length t) }

abbrev narrow : Budget
narrow = record { target = 10; maximum = 22; overlap_budget = 2 }

abbrev said : ℕ → Text → Turn
said n text = record { sequence_id = n; speaker = none; raw_text = text }

abbrev talk : List Turn
talk = said 1 (codes "we ship the release today") ∷ said 2 (codes "yes") ∷ []

build_extraction_windows-covers_example :
    (ws : List ExtractionWindow) × (build_extraction_windows no_labels narrow talk ≡ built ws)
    × ((x : ℕ) → has x (union_of ws) ≡ has x (ids (useful no_labels narrow talk)))
build_extraction_windows-covers_example = build_extraction_windows-covers no_labels narrow talk

abbrev long_turn : Turn
long_turn = said 1 (codes "we ship the release today")

long_turn-useful : is_useful no_labels long_turn ≡ true
unfolding strip
long_turn-useful = refl

oversize_turn_cut_example :
    (f : Turn) × (fs : List Turn) × (split_oversize_turn no_labels long_turn 22 ≡ f ∷ fs)
    × ((place no_labels narrow long_turn 37 (start no_labels narrow)).windows
        ≡ window_of no_labels narrow (start no_labels narrow) (f ∷ []) ∷ [])
oversize_turn_cut_example =
    oversize_turn_cut no_labels narrow long_turn 37 (start no_labels narrow) long_turn-useful
      (omega arith) refl refl (omega arith)

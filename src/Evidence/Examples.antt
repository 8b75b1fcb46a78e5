-- ===== src/Evidence/Examples.antt =====
-- The theorems on a window with two candidates, and on two artifacts.
use ai_buddy_app_agent_baken.Base.{◌≡◌, refl, List, [], ◌∷◌, Text, codes, text_eq}
use ai_buddy_app_agent_baken.Evidence.{
  ℤ, pos, Candidate, CandidateLedger, replace_window, Artifact, task, note, supported,
  partially_supported, apply_invariant_gate,
}
use ai_buddy_app_agent_baken.Evidence.Windows.{Of, replace_window-again}
use ai_buddy_app_agent_baken.Evidence.Gate.{Sorted, apply_invariant_gate-Sorted}

abbrev from_window : Text → List ℤ → Candidate
from_window id evidence = record {
  candidate_id = id;
  evidence_sequences = evidence;
  source_window_id = codes "w2";
}

abbrev fresh_candidates : List Candidate
fresh_candidates =
    from_window (codes "c2") (pos 4 ∷ []) ∷ from_window (codes "c3") (pos 5 ∷ pos 6 ∷ []) ∷ []

abbrev ledger : CandidateLedger
ledger = record {
  candidates =
      record {
        candidate_id = codes "c1";
        evidence_sequences = pos 1 ∷ [];
        source_window_id = codes "w1";
      }
      ∷ [];
  known_ids = codes "c1" ∷ [];
  window_ids = codes "w1" ∷ [];
}

fresh_candidates-Of : Of (codes "w2") fresh_candidates
unfolding text_eq
fresh_candidates-Of = (refl, (refl, tt))

replace_window-again_example :
    replace_window
      (codes "w2")
      fresh_candidates
      (replace_window (codes "w2") fresh_candidates ledger)
    ≡ replace_window (codes "w2") fresh_candidates ledger
replace_window-again_example =
    replace_window-again (codes "w2") fresh_candidates ledger fresh_candidates-Of

abbrev artifacts : List Artifact
artifacts =
    record {
      kind = task;
      title = codes "ship it";
      body = [];
      source_candidate_ids = codes "c1" ∷ [];
      evidence_sequences = pos 1 ∷ [];
      verdict = supported;
      reason = [];
    }
    ∷ record {
      kind = note;
      title = codes "budget";
      body = codes "open";
      source_candidate_ids = codes "c9" ∷ [];
      evidence_sequences = pos 2 ∷ [];
      verdict = partially_supported;
      reason = [];
    }
    ∷ []

apply_invariant_gate-Sorted_example :
    Sorted ledger
      (pos 1 ∷ pos 2 ∷ [])
      (codes "conv")
      2
      (apply_invariant_gate ledger (pos 1 ∷ pos 2 ∷ []) (codes "conv") artifacts)
apply_invariant_gate-Sorted_example =
    apply_invariant_gate-Sorted ledger (pos 1 ∷ pos 2 ∷ []) (codes "conv") artifacts

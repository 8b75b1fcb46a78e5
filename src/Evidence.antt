-- ===== src/Evidence.antt =====
-- The candidates of a meeting in services/conversation/meeting_pipeline/ledger.py, and the gate before
-- an artifact is stored in invariants.py. Fields that these files neither read nor change are left
-- out.
pub mod Windows
pub mod Gate
mod Examples
use ai_buddy_app_agent_baken.Base.{
  ℕ, Bool, true, false, not, ◌&&◌, ◌||◌, Option, none, some, List, [], ◌∷◌, ◌++◌, map, Text, codes,
  text_eq, is_empty, is_one_of, strip, any, keep, ◌==◌, if◌then◌else◌,
}

-- A sequence number, which a language model may give below 0.
pub data ℤ : Type 0 where
  pos negsuc : ℕ → ℤ

abbrev pub same_number : ℤ → ℤ → Bool
same_number (pos a) (pos b) = a == b
same_number (negsuc a) (negsuc b) = a == b
same_number (pos a) (negsuc b) = false
same_number (negsuc a) (pos b) = false

abbrev pub is_negative : ℤ → Bool
is_negative (pos n) = false
is_negative (negsuc n) = true

unfoldable pub is_in : ℤ → List ℤ → Bool
is_in x = any (same_number x)

pub record Candidate : Type 0 where
  pub candidate_id : Text
  pub evidence_sequences : List ℤ
  pub source_window_id : Text

pub record CandidateLedger : Type 0 where
  pub candidates : List Candidate
  pub known_ids : List Text
  pub window_ids : List Text

abbrev pub add_new : Bool → Candidate → CandidateLedger → CandidateLedger
add_new true c l = l
add_new false c l = record l {
  candidates = l.candidates ++ c ∷ [];
  known_ids = c.candidate_id ∷ l.known_ids;
}

-- `_append`, which is `add` too.
unfoldable pub append : Candidate → CandidateLedger → CandidateLedger
unfolding is_one_of
append c l = add_new (is_empty c.candidate_id || is_one_of c.candidate_id l.known_ids) c l

unfoldable pub append_all : List Candidate → CandidateLedger → CandidateLedger
unfolding append
append_all [] l = l
append_all (c ∷ cs) l = append_all cs (append c l)

abbrev pub candidate_ids : List Candidate → List Text
candidate_ids [] = []
candidate_ids (c ∷ cs) = c.candidate_id ∷ candidate_ids cs

abbrev pub others : Text → List Candidate → List Candidate
others window_id = keep (λ c. not (text_eq c.source_window_id window_id))

abbrev pub with_window : Text → List Text → List Text
with_window window_id ids = if is_one_of window_id ids then ids else ids ++ window_id ∷ []

abbrev pub without_window : Text → CandidateLedger → CandidateLedger
without_window window_id l = record {
  candidates = others window_id l.candidates;
  known_ids = candidate_ids (others window_id l.candidates);
  window_ids = with_window window_id l.window_ids;
}

unfoldable pub replace_window :
    (window_id : Text) → List Candidate → CandidateLedger → CandidateLedger
unfolding append_all is_one_of
replace_window window_id cs l = append_all cs (without_window window_id l)

-- A dict keeps the last value of a key.
abbrev pub found_or : Option Candidate → Bool → Candidate → Option Candidate
found_or (some d) same c = some d
found_or none same c = if same then some c else none

unfoldable pub by_id : Text → List Candidate → Option Candidate
by_id key [] = none
by_id key (c ∷ cs) = found_or (by_id key cs) (text_eq c.candidate_id key) c

abbrev pub add_sequence : Bool → ℤ → List ℤ → List ℤ
add_sequence true x allowed = allowed
add_sequence false x allowed = allowed ++ x ∷ []

unfoldable pub add_sequences : List ℤ → List ℤ → List ℤ
unfolding is_in
add_sequences allowed [] = allowed
add_sequences allowed (x ∷ xs) = add_sequences (add_sequence (is_in x allowed) x allowed) xs

abbrev pub add_evidence : List ℤ → Option Candidate → List ℤ
add_evidence allowed none = allowed
add_evidence allowed (some c) = add_sequences allowed c.evidence_sequences

unfoldable pub union_from : List Candidate → List ℤ → List Text → List ℤ
unfolding add_sequences by_id
union_from cs allowed [] = allowed
union_from cs allowed (key ∷ keys) = union_from cs (add_evidence allowed (by_id key cs)) keys

unfoldable pub evidence_union : List Text → CandidateLedger → List ℤ
unfolding union_from
evidence_union keys l = union_from l.candidates [] keys

pub data Kind : Type 0 where
  task note : Kind

pub data Verdict : Type 0 where
  supported partially_supported unsupported : Verdict

pub record Artifact : Type 0 where
  pub kind : Kind
  pub title : Text
  pub body : Text
  pub source_candidate_ids : List Text
  pub evidence_sequences : List ℤ
  pub verdict : Verdict
  pub reason : Text

abbrev pub is_supported : Verdict → Bool
is_supported supported = true
is_supported _ = false

abbrev pub is_note : Kind → Bool
is_note note = true
is_note task = false

abbrev pub nothing {ℓ} : {A : Type ℓ} → List A → Bool
nothing [] = true
nothing (x ∷ xs) = false

abbrev pub is_some {ℓ} : {A : Type ℓ} → Option A → Bool
is_some none = false
is_some (some a) = true

module _ (l : CandidateLedger) (known_sequences : List ℤ) (conversation_id : Text) where
  -- The tests of the sources and the evidence; `none` is a pass.
  unfoldable pub evidence_refusal : Artifact → Option Text
  unfolding is_in by_id evidence_union
  evidence_refusal a =
      if any (λ x. not (is_in x known_sequences)) a.evidence_sequences
      then some (codes "fabricated_or_foreign_sequence")
      else if nothing a.source_candidate_ids
      then some (codes "missing_source_candidate_ids")
      else if any (λ key. not (is_some (by_id key l.candidates))) a.source_candidate_ids
      then some (codes "unknown_source_candidate")
      else if any (λ x. not (is_in x (evidence_union a.source_candidate_ids l)))
          a.evidence_sequences
      then some (codes "evidence_not_from_source_candidates")
      else if not (is_empty conversation_id) && any is_negative a.evidence_sequences
      then some (codes "invalid_sequence")
      else none

  unfoldable pub persistence_ready : Artifact → Option Text
  unfolding evidence_refusal
  persistence_ready a =
      if not (is_supported a.verdict)
      then some (codes "verifier_not_supported")
      else if is_empty (strip a.title)
      then some (codes "missing_title")
      else if is_note a.kind && is_empty (strip a.body)
      then some (codes "missing_note_body")
      else if nothing a.evidence_sequences
      then some (codes "missing_evidence")
      else evidence_refusal a

  abbrev pub or_reason : Text → Text → Text
  or_reason [] reason = reason
  or_reason (c ∷ cs) reason = c ∷ cs

  abbrev pub sorted_out :
      Artifact → Option Text → List Artifact × List Artifact → List Artifact × List Artifact
  sorted_out a none (accepted, rejected) = (a ∷ accepted, rejected)
  sorted_out a (some reason) (accepted, rejected) =
      (accepted, record a { reason = or_reason a.reason reason; verdict = unsupported } ∷ rejected)

  -- The artifacts that are accepted, and those that are rejected.
  unfoldable pub apply_invariant_gate : List Artifact → List Artifact × List Artifact
  unfolding persistence_ready
  apply_invariant_gate [] = ([], [])
  apply_invariant_gate (a ∷ as') = sorted_out a (persistence_ready a) (apply_invariant_gate as')

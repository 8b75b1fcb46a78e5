-- ===== src/Conversation/Sequences.antt =====
-- The sequence numbers of a conversation and how long they are waited for: detect_missing_sequences and
-- first_sequence_for_conversation of services/conversation/transcript.py, and
-- `_missing_sequences_are_terminal` of finalization.py.
use ai_buddy_app_agent_baken.Base.{
  ℕ, zero, suc, ◌+◌, ◌-◌, ◌*◌, Bool, true, false, ◌&&◌, Option, none, some, List, [], ◌∷◌, Text,
  any, ltb, leb, ◌==◌, if◌then◌else◌,
}
use ai_buddy_app_agent_baken.Conversation.{Details, is_meeting_extension}

-- Times in the settings are seconds.
pub record FinalizationSettings : Type 0 where
  pub is_incremental : Bool
  pub max_retries : ℕ
  pub missing_sequence_timeout : ℕ
  pub extension_missing_sequence_timeout : ℕ
  pub window_stale_timeout : ℕ
  pub stt_stale_timeout : ℕ

abbrev pub is_given {ℓ} : {A : Type ℓ} → Option A → Bool
is_given none = false
is_given (some a) = true

abbrev pub has_text : Option Text → Bool
has_text none = false
has_text (some []) = false
has_text (some (c ∷ cs)) = true

abbrev pub is_empty_list {ℓ} : {A : Type ℓ} → List A → Bool
is_empty_list [] = true
is_empty_list (x ∷ xs) = false

abbrev pub is_member : ℕ → List ℕ → Bool
is_member n = any (λ m. n == m)

-- `len(set(numbers))`
abbrev pub distinct : List ℕ → ℕ
distinct [] = 0
distinct (n ∷ ns) = let rest = distinct ns in if is_member n ns then rest else suc rest

abbrev pub microseconds : ℕ → ℕ
microseconds seconds = seconds * 1000000

abbrev pub first_sequence_for_conversation : Details → ℕ
first_sequence_for_conversation d = if is_meeting_extension d then 1 else 0

-- `rounds` numbers from `start` on.
unfoldable pub missing_from : (rounds start : ℕ) → (present : List ℕ) → List ℕ
missing_from zero start present = []
missing_from (suc rounds) start present =
    let rest = missing_from rounds (suc start) present in
    if is_member start present then rest else start ∷ rest

unfoldable pub detect_missing_sequences : (present : List ℕ) → (last first : ℕ) → List ℕ
unfolding missing_from
detect_missing_sequences present last first =
    if ltb last first then [] else missing_from (last + 1 - first) first present

abbrev pub stopped_or : Option ℕ → Details → Option ℕ
stopped_or (some t) d = some t
stopped_or none d =
    if is_meeting_extension d && is_given d.expected_last_sequence then some d.updated_at else none

abbrev pub has_elapsed : (now timeout : ℕ) → Option ℕ → Bool
has_elapsed now timeout none = false
has_elapsed now timeout (some t) = leb (t + microseconds timeout) now

unfoldable pub missing_sequences_are_terminal : FinalizationSettings → (now : ℕ) → Details → Bool
missing_sequences_are_terminal s now d =
    has_elapsed now
      (if is_meeting_extension d
        then s.extension_missing_sequence_timeout
        else s.missing_sequence_timeout)
      (stopped_or d.stopped_at d)

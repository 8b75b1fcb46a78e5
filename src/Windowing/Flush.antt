-- ===== src/Windowing/Flush.antt =====
-- The inner function `flush` of `build_ready_windows`, and the variables that it shares with the loop.
-- The window document is kept but for the identity of the conversation, the word count, and
-- usefulTokenCount, which repeats tokenCount. `closed` runs where `owned` is not empty, so
-- `owned or sequence_numbers` is `owned`.
use ai_buddy_app_agent_baken.Base.{
  ℕ, zero, suc, ◌+◌, Bool, true, false, not, Option, none, some, List, [], ◌∷◌, ◌++◌, Text, length,
  is_empty, if◌then◌else◌,
}
use ai_buddy_app_agent_baken.Windowing.Chunk.{
  Chunk, Lexicon, WindowSettings, useful, sequences, duration, member, window_text,
  useful_token_count, last_useful_text,
}
use ai_buddy_app_agent_baken.Windowing.Tail.{no_chunks, tail_chunks}

pub data CloseReason : Type 0 where
  token_target token_max duration_max sparse_timeout forced_final : CloseReason

pub record BuiltWindow : Type 0 where
  pub window_index : ℕ
  pub sequence_start : Option ℕ
  pub sequence_end : Option ℕ
  pub text : Text
  pub token_count : ℕ
  pub duration_ms : Option ℕ
  pub overlap_start : Option ℕ
  pub is_final_partial : Bool
  pub close_reason : CloseReason
  pub sequence_count : ℕ
  pub empty_chunk_count : ℕ
  pub non_empty_chunk_count : ℕ
  pub useful_char_count : ℕ
  pub wall_clock_span_ms : Option ℕ
  pub meaningful_speech_ms : Option ℕ
  pub sequence_numbers : List ℕ
  pub owned : List ℕ
  pub skipped : List ℕ

-- The variables of the loop that `flush` shares with it.
pub record State : Type 0 where
  pub windows : List BuiltWindow
  pub overlap_ids : List ℕ
  pub current : List Chunk
  pub skipped_in_current : List ℕ
  pub current_tokens : ℕ
  pub current_useful_duration : ℕ
  pub current_wall_clock : ℕ
  pub previous_text : Text
  pub index : ℕ
  pub pending_empties : List Chunk

-- `[n for n in numbers if n not in overlap_ids]`
abbrev pub outside : List ℕ → List ℕ → List ℕ
outside ids [] = []
outside ids (n ∷ ns) = if member n ids then outside ids ns else n ∷ outside ids ns

abbrev pub no_numbers : List ℕ → Bool
no_numbers [] = true
no_numbers (n ∷ ns) = false

abbrev pub or_none : ℕ → Option ℕ
or_none zero = none
or_none (suc n) = some (suc n)

abbrev first_number : List Chunk → Option ℕ
first_number [] = none
first_number (c ∷ cs) = some c.sequence

abbrev last_number : List Chunk → Option ℕ
last_number [] = none
last_number (c ∷ []) = some c.sequence
last_number (c ∷ d ∷ ds) = last_number (d ∷ ds)

-- The numbers in the open window that no window owns yet.
abbrev pub owned_now : State → List ℕ
owned_now s = outside s.overlap_ids (sequences (useful s.current))

abbrev pub owned_exists : State → Bool
owned_exists s = not (no_numbers (owned_now s))

module _ (lex : Lexicon) (settings : WindowSettings) where
  abbrev pub tail_of : Bool → State → List Chunk
  tail_of final_partial s =
      if final_partial then [] else tail_chunks lex (useful s.current) settings.overlap_budget

  abbrev pub window_of : CloseReason → Bool → State → BuiltWindow
  window_of reason final_partial s =
      let text = window_text lex (useful s.current) in
      record {
        window_index = s.index;
        sequence_start = first_number (useful s.current);
        sequence_end = last_number (useful s.current);
        text = text;
        token_count = if is_empty text then 0 else lex.estimate_tokens text;
        duration_ms = or_none s.current_useful_duration;
        overlap_start = first_number (tail_of final_partial s);
        is_final_partial = final_partial;
        close_reason = reason;
        sequence_count = length (sequences (useful s.current)) + length s.skipped_in_current;
        empty_chunk_count = length s.skipped_in_current;
        non_empty_chunk_count = length (useful s.current);
        useful_char_count = length text;
        meaningful_speech_ms = or_none s.current_useful_duration;
        wall_clock_span_ms = or_none s.current_wall_clock;
        sequence_numbers = sequences (useful s.current);
        owned = owned_now s;
        skipped = s.skipped_in_current;
      }

  abbrev pub emptied : State → State
  emptied s = record s {
    current = [];
    skipped_in_current = [];
    current_tokens = 0;
    current_useful_duration = 0;
    current_wall_clock = 0;
    previous_text = [];
  }

  abbrev pub closed : CloseReason → Bool → State → State
  closed reason final_partial s =
      let tail = tail_of final_partial s in
      record s {
        windows = s.windows ++ window_of reason final_partial s ∷ [];
        index = suc s.index;
        current = tail;
        overlap_ids = sequences tail;
        skipped_in_current = [];
        current_tokens = useful_token_count lex tail;
        current_useful_duration = duration tail;
        current_wall_clock = duration tail;
        previous_text = last_useful_text lex tail;
      }

  unfoldable pub flush : CloseReason → Bool → State → State
  flush reason final_partial s =
      if no_chunks (useful s.current)
      then emptied s
      else if no_numbers (owned_now s)
      then s
      else closed reason final_partial s

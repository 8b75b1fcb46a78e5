-- ===== src/Windowing/Build.antt =====
-- `build_ready_windows`: the loop over the chunks, and the last window.
pub mod Partition
pub mod Loop
pub mod Coverage
use ai_buddy_app_agent_baken.Base.{
  ℕ, zero, suc, ◌+◌, ◌≤◌, ◌<◌, Bool, true, false, not, ◌&&◌, ◌||◌, Option, none, some, List, [],
  ◌∷◌, ◌++◌, Text, length, ltb, leb, ◌==◌, is_empty, if◌then◌else◌,
}
use ai_buddy_app_agent_baken.Windowing.Chunk.{
  Chunk, Lexicon, WindowSettings, useful, is_useful_chunk, useful_transcript_text, sequences,
  duration, sort_chunks, member, line, window_text, useful_token_count, last_useful_text,
}
use ai_buddy_app_agent_baken.Windowing.Prefix.{reachable_prefix, first_sequence}
use ai_buddy_app_agent_baken.Windowing.Tail.{no_chunks, tail_chunks, ordered_unique}
use ai_buddy_app_agent_baken.Windowing.Flush.{
  CloseReason, token_target, token_max, duration_max, sparse_timeout, forced_final, BuiltWindow,
  State, outside, no_numbers, or_none, owned_now, owned_exists, tail_of, window_of, emptied, closed,
  flush,
}

module _ (lex : Lexicon) (settings : WindowSettings) where
  abbrev pub positive : ℕ → Bool
  positive n = ltb 0 n

  -- Why the window closes before `chunk`, whose line counts `tokens`.
  abbrev pub closing_reason : (tokens : ℕ) → Chunk → State → Option CloseReason
  closing_reason tokens chunk s =
      let owned = owned_exists s in
      let wall_add = duration s.pending_empties + chunk.end_time_ms in
      let open_window = not (no_chunks s.current) && owned in
      if owned && ltb settings.maximum (s.current_tokens + tokens)
      then some token_max
      else if owned && ltb settings.target (s.current_tokens + tokens)
      then some token_target
      else if open_window
          && positive settings.useful_duration_limit
          && ltb settings.useful_duration_limit (s.current_useful_duration + chunk.end_time_ms)
      then some duration_max
      else if open_window
          && positive settings.sparse_max_wall_clock
          && leb settings.sparse_min_tokens s.current_tokens
          && ltb settings.sparse_max_wall_clock (s.current_wall_clock + wall_add)
      then some sparse_timeout
      else none

  abbrev pub close_for : Option CloseReason → State → State
  close_for none s = s
  close_for (some reason) s = flush lex settings reason false s

  abbrev pub append_chunk : (tokens : ℕ) (text : Text) → Chunk → State → State
  append_chunk tokens text chunk s = record s {
    skipped_in_current = s.skipped_in_current ++ sequences s.pending_empties;
    pending_empties = [];
    current = s.current ++ chunk ∷ [];
    current_tokens = s.current_tokens + tokens;
    current_useful_duration = s.current_useful_duration + chunk.end_time_ms;
    current_wall_clock = s.current_wall_clock + duration s.pending_empties + chunk.end_time_ms;
    previous_text = text;
  }

  abbrev pub text_after : State → Chunk → Text
  text_after s chunk = lex.normalize (useful_transcript_text chunk) s.previous_text

  abbrev pub tokens_after : State → Chunk → ℕ
  tokens_after s chunk = lex.estimate_tokens (line chunk (text_after s chunk))

  -- The body of the loop.
  unfoldable pub visit : State → Chunk → State
  visit s chunk =
      let tokens = tokens_after s chunk in
      if is_useful_chunk chunk
      then append_chunk tokens (text_after s chunk) chunk
          (close_for (closing_reason tokens chunk s) s)
      else record s { pending_empties = s.pending_empties ++ chunk ∷ [] }

  unfoldable pub visit_all : State → List Chunk → State
  visit_all s [] = s
  visit_all s (c ∷ cs) = visit_all (visit s c) cs

  abbrev pub take_pending : State → State
  take_pending s = record s {
    skipped_in_current = s.skipped_in_current ++ sequences s.pending_empties;
    current_wall_clock = s.current_wall_clock + duration s.pending_empties;
    pending_empties = [];
  }

  -- The last window: forced, full, or open for too long.
  abbrev pub close_last : Bool → State → State
  close_last force_final s =
      if force_final || leb settings.target s.current_tokens
      then flush lex settings (if force_final then forced_final else token_target) force_final s
      else if leb settings.sparse_min_tokens s.current_tokens
          && positive settings.sparse_max_wall_clock
          && leb settings.sparse_max_wall_clock s.current_wall_clock
      then flush lex settings sparse_timeout false s
      else s

  unfoldable pub finish : Bool → State → State
  finish force_final s =
      if not (no_chunks (useful s.current)) && owned_exists s
      then close_last force_final (take_pending s)
      else s

  abbrev pub start : ℕ → List Chunk → State
  start start_index overlap_chunks = record {
    windows = [];
    overlap_ids = sequences overlap_chunks;
    current = overlap_chunks;
    skipped_in_current = [];
    current_tokens = useful_token_count lex overlap_chunks;
    current_useful_duration = duration overlap_chunks;
    current_wall_clock = duration overlap_chunks;
    previous_text = last_useful_text lex overlap_chunks;
    index = start_index;
    pending_empties = [];
  }

  abbrev pub windows_of : List Chunk → ℕ → Bool → List Chunk → List BuiltWindow
  windows_of [] start_index force_final overlap_prefix = []
  windows_of (c ∷ cs) start_index force_final overlap_prefix =
      (finish force_final
        (visit_all (start start_index (useful (ordered_unique overlap_prefix))) (c ∷ cs))).windows

  unfoldable pub build_ready_windows :
      List Chunk → ℕ → Bool → List Chunk → List ℕ → List BuiltWindow
  build_ready_windows chunks start_index force_final overlap_prefix skippable =
      windows_of (reachable_prefix (sort_chunks chunks) skippable) start_index force_final
        overlap_prefix

-- ===== src/Extraction.antt =====
-- services/conversation/meeting_pipeline/windows.py: the cut of a transcript into extraction windows.
-- Of a window its identity, which is a digest, and its first and last number are left out.
pub mod Transcript
pub mod Ink
pub mod Numbers
pub mod Steps
pub mod AtRest
pub mod Cover
pub mod Whole
pub mod Oversize
mod Examples
use ai_buddy_app_agent_baken.Base.{
  ℕ, zero, suc, ◌+◌, Bool, true, false, not, ◌&&◌, ◌||◌, Option, none, some, List, [], ◌∷◌, ◌++◌,
  map, reverse, Text, codes, max, length, ltb, leb, ◌==◌, any, keep, if◌then◌else◌,
}
use ai_buddy_app_agent_baken.Extraction.Transcript.{
  Turn, Reader, is_useful, useful_token_count, token_total, split_oversize_turn, nothing,
  format_window_line, join,
}

-- `overlap_budget` is `max(0, int(target * ratio))`, whose ratio is a float.
pub record Budget : Type 0 where
  pub target : ℕ
  pub maximum : ℕ
  pub overlap_budget : ℕ

pub record ExtractionWindow : Type 0 where
  pub window_index : ℕ
  pub sequence_ids : List ℕ
  pub owned_sequence_ids : List ℕ
  pub overlap_sequence_ids : List ℕ
  pub text : Text
  pub token_count : ℕ

pub record Progress : Type 0 where
  pub windows : List ExtractionWindow
  pub overlap : List Turn
  pub overlap_ids : List ℕ
  pub current : List Turn
  pub current_tokens : ℕ

pub data Built : Type 0 where
  built : List ExtractionWindow → Built
  coverage_mismatch last_missing : Built

abbrev pub has : ℕ → List ℕ → Bool
has n = any (λ m. n == m)

abbrev pub ids : List Turn → List ℕ
ids [] = []
ids (t ∷ ts) = t.sequence_id ∷ ids ts

-- `sorted(turns, key=lambda turn: turn.sequence_id)`, which is stable.
unfoldable pub insert_turn : Turn → List Turn → List Turn
insert_turn t [] = t ∷ []
insert_turn t (u ∷ us) =
    let rest = insert_turn t us in if leb t.sequence_id u.sequence_id then t ∷ u ∷ us else u ∷ rest

unfoldable pub sort_turns : List Turn → List Turn
unfolding insert_turn
sort_turns [] = []
sort_turns (t ∷ ts) = insert_turn t (sort_turns ts)

abbrev pub union_of : List ExtractionWindow → List ℕ
union_of [] = []
union_of (w ∷ ws) = w.sequence_ids ++ union_of ws

-- The numbers of the last window.
abbrev pub last_ids : List ExtractionWindow → List ℕ
last_ids [] = []
last_ids (w ∷ []) = w.sequence_ids
last_ids (w ∷ v ∷ vs) = last_ids (v ∷ vs)

-- The last element, if there is one, as a list.
abbrev pub ends : List ℕ → List ℕ
ends [] = []
ends (x ∷ []) = x ∷ []
ends (x ∷ y ∷ ys) = ends (y ∷ ys)

-- `window_coverage_error` of a nonempty list, and what follows it.
unfoldable pub checked : List ExtractionWindow → (useful : List ℕ) → Built
checked ws useful =
    if any (λ x. not (has x (union_of ws))) useful || any (λ x. not (has x useful)) (union_of ws)
    then coverage_mismatch
    else if any (λ x. not (has x (last_ids ws))) (ends useful)
    then last_missing
    else built ws

module _ (R : Reader) (b : Budget) where
  -- The loop of `_tail_for_overlap`, over the reversed turns.
  unfoldable pub take_tail : (total : ℕ) (tail : List Turn) → List Turn → List Turn
  unfolding useful_token_count
  take_tail total tail [] = tail
  take_tail total tail (t ∷ ts) =
      let more = total + useful_token_count R t in
      let rest = take_tail more (t ∷ tail) ts in
      if leb b.overlap_budget more then t ∷ tail else rest

  unfoldable pub tail_for_overlap : List Turn → List Turn
  unfolding take_tail
  tail_for_overlap turns = if leb b.overlap_budget 0 then [] else take_tail 0 [] (reverse turns)

  abbrev pub useful : List Turn → List Turn
  useful = keep (is_useful R)

  unfoldable pub window_text : List Turn → Text
  unfolding join format_window_line
  window_text items = join (codes "\n") (map (format_window_line R) (useful items))

  abbrev pub owned_by : Progress → List Turn → List ℕ
  owned_by s turns = keep (λ x. not (has x s.overlap_ids)) (ids turns)

  abbrev pub window_of : Progress → List Turn → ExtractionWindow
  window_of s turns = record {
    window_index = length s.windows;
    sequence_ids = ids turns;
    owned_sequence_ids = owned_by s turns;
    overlap_sequence_ids = keep (λ x. has x s.overlap_ids) (ids turns);
    text = window_text turns;
    token_count = token_total R turns;
  }

  abbrev pub emptied : Progress → Progress
  emptied s = record s { current = []; current_tokens = 0 }

  abbrev pub rewound : Progress → Progress
  rewound s = record s { current = s.overlap; current_tokens = token_total R s.overlap }

  abbrev pub closed : Progress → List Turn → Progress
  closed s turns =
      let tail = tail_for_overlap turns in
      record {
        windows = s.windows ++ window_of s turns ∷ [];
        overlap = tail;
        overlap_ids = ids tail;
        current = tail;
        current_tokens = token_total R tail;
      }

  unfoldable pub flush : Progress → Progress
  unfolding tail_for_overlap window_text
  flush s =
      let turns = useful s.current in
      if nothing turns
      then emptied s
      else if nothing (owned_by s turns)
      then rewound s
      else closed s turns

  abbrev pub owned_exists : Progress → Bool
  owned_exists s = any (λ t. not (has t.sequence_id s.overlap_ids)) s.current

  unfoldable pub make_room : ℕ → Progress → Progress
  unfolding flush
  make_room tokens s =
      if owned_exists s && ltb b.maximum (s.current_tokens + tokens)
      then flush s
      else if owned_exists s
          && leb b.target s.current_tokens
          && ltb b.target (s.current_tokens + tokens)
      then flush s
      else s

  abbrev pub holding : Turn → Progress → Progress
  holding f s = record s { current = f ∷ []; current_tokens = useful_token_count R f }

  unfoldable pub flush_fragments : List Turn → Progress → Progress
  unfolding flush useful_token_count
  flush_fragments [] s = s
  flush_fragments (f ∷ fs) s = flush_fragments fs (flush (holding f s))

  abbrev pub append_turn : Turn → ℕ → Progress → Progress
  append_turn turn tokens s = record s {
    current = s.current ++ turn ∷ [];
    current_tokens = s.current_tokens + tokens;
  }

  abbrev pub place : Turn → ℕ → Progress → Progress
  place turn tokens s =
      if ltb b.maximum tokens && nothing s.current
      then flush_fragments (split_oversize_turn R turn b.maximum) s
      else append_turn turn tokens s

  -- The body of the loop over the useful turns.
  unfoldable pub visit : Turn → Progress → Progress
  unfolding useful_token_count make_room flush_fragments split_oversize_turn
  visit turn s =
      let tokens = useful_token_count R turn in
      if leb tokens 0 then s else place turn tokens (make_room tokens s)

  unfoldable pub visit_all : List Turn → Progress → Progress
  unfolding visit
  visit_all [] s = s
  visit_all (t ∷ ts) s = visit_all ts (visit t s)

  unfoldable pub finish : Progress → Progress
  unfolding flush
  finish s = if owned_exists s && any (is_useful R) s.current then flush s else s

  abbrev pub start : Progress
  start = record { windows = []; overlap = []; overlap_ids = []; current = []; current_tokens = 0 }

  abbrev pub build_from : List Turn → Built
  build_from [] = built []
  build_from (t ∷ ts) = checked (finish (visit_all (t ∷ ts) start)).windows (ids (t ∷ ts))

  unfoldable pub build_extraction_windows : List Turn → Built
  unfolding sort_turns visit_all finish checked
  build_extraction_windows turns = build_from (useful (sort_turns turns))

-- ===== src/Extraction/Transcript.antt =====
-- The turns of a transcript in services/conversation/meeting_pipeline/windows.py: their text, their
-- tokens by estimate_tokens of services/conversation/transcript.py, and the split of a long turn.
use ai_buddy_app_agent_baken.Base.{
  ℕ, ◌+◌, ◌/◌, Bool, true, false, not, ◌&&◌, ◌||◌, Option, none, some, List, [], ◌∷◌, ◌++◌, map,
  reverse, Text, codes, is_empty, is_space, strip, strip_left, length, max, ltb, leb, ◌==◌, keep,
  if◌then◌else◌,
}
use ai_buddy_app_agent_baken.Base.Decimal.{decimal}

pub record Turn : Type 0 where
  pub sequence_id : ℕ
  pub speaker : Option Text
  pub raw_text : Text

-- The match of _SPEAKER_PREFIX with its two groups, and the number of tokens that the tokenizer
-- gives; `none` stands for no match, and for no tokenizer or an exception of it.
pub record Reader : Type 0 where
  pub match_speaker : Text → Option (Text × Text)
  pub encode : Text → Option ℕ

abbrev starts_piece : (ℕ → Bool) → Text → Bool
starts_piece cut [] = false
starts_piece cut (c ∷ cs) = not (cut c)

abbrev pub put_before : ℕ → List Text → List Text
put_before c [] = (c ∷ []) ∷ []
put_before c (w ∷ ws) = (c ∷ w) ∷ ws

-- The pieces between the cuts, without the empty ones.
unfoldable pub pieces : (ℕ → Bool) → Text → List Text
pieces cut [] = []
pieces cut (c ∷ cs) =
    let rest = pieces cut cs in
    if cut c then rest else if starts_piece cut cs then put_before c rest else (c ∷ []) ∷ rest

-- `str.split()`
abbrev pub words : Text → List Text
words = pieces is_space

unfoldable pub is_line_break : ℕ → Bool
is_line_break c =
    leb 10 c && leb c 13 || leb 28 c && leb c 30 || c == 133 || c == 0x2028 || c == 0x2029

unfoldable pub strip_right : Text → Text
unfolding strip_left
strip_right t = reverse (strip_left (reverse t))

abbrev pub has_text : Text → Bool
has_text t = not (is_empty (strip t))

-- `[line.strip() for line in text.splitlines() if line.strip()]`
abbrev pub lines_of : Text → List Text
lines_of t = map strip (keep has_text (pieces is_line_break t))

unfoldable pub join : Text → List Text → Text
join sep [] = []
join sep (t ∷ []) = t
join sep (t ∷ u ∷ us) = t ++ (sep ++ join sep (u ∷ us))

abbrev pub or_default : Option Text → Text → Text
or_default none default = default
or_default (some []) default = default
or_default (some (c ∷ cs)) default = c ∷ cs

-- The prefix `[id][speaker]` of a line.
abbrev pub tag : ℕ → Text → Text
tag n speaker = codes "[" ++ (decimal n ++ (codes "][" ++ (speaker ++ codes "]")))

abbrev pub nothing {ℓ} : {A : Type ℓ} → List A → Bool
nothing [] = true
nothing (x ∷ xs) = false

module _ (R : Reader) where
  open R use {match_speaker, encode}

  abbrev pub labelled : Text → Option (Text × Text) → Option Text × Text
  labelled value none = (none, value)
  labelled value (some (number, said)) =
      if has_text said then (some (codes "Speaker " ++ number), strip said) else (none, value)

  abbrev pub split_speaker_label : Text → Option Text × Text
  split_speaker_label text =
      let value = strip text in
      if is_empty value then (none, []) else labelled value (match_speaker value)

  abbrev pub rendered : ℕ → Text → Option Text × Text → Text
  rendered n default (speaker, said) =
      strip_right (tag n (or_default speaker default) ++ (codes " " ++ said))

  abbrev pub format_lines : ℕ → Text → List Text → Text
  format_lines n default [] = tag n default
  format_lines n default (l ∷ ls) =
      join (codes "\n") (map (λ line. rendered n default (split_speaker_label line)) (l ∷ ls))

  unfoldable pub format_window_line : Turn → Text
  unfolding pieces join strip_right
  format_window_line turn =
      format_lines turn.sequence_id (or_default turn.speaker (codes "Speaker"))
        (lines_of turn.raw_text)

  abbrev pub counted : Text → Option ℕ → ℕ
  counted value (some n) = max 1 n
  counted value none = max (length (words value)) (max 1 ((length value + 3) / 4))

  unfoldable pub estimate_tokens : Text → ℕ
  unfolding pieces
  estimate_tokens value = if has_text value then counted value (encode value) else 0

  abbrev pub is_useful : Turn → Bool
  is_useful turn = has_text turn.raw_text

  unfoldable pub useful_token_count : Turn → ℕ
  unfolding estimate_tokens format_window_line
  useful_token_count turn = if is_useful turn then estimate_tokens (format_window_line turn) else 0

  abbrev pub token_total : List Turn → ℕ
  token_total [] = 0
  token_total (t ∷ ts) = useful_token_count t + token_total ts

  abbrev pub fragment : Turn → List Text → Turn
  fragment turn ws = record {
    sequence_id = turn.sequence_id;
    speaker = turn.speaker;
    raw_text = join (codes " ") ws;
  }

  unfoldable pub split_from : (maximum : ℕ) → Turn → (current : List Text) → List Text → List Turn
  unfolding useful_token_count
  split_from maximum turn current [] = if nothing current then [] else fragment turn current ∷ []
  split_from maximum turn current (w ∷ ws) =
      let longer = current ++ w ∷ [] in
      elim (not (nothing current) && ltb maximum (useful_token_count (fragment turn longer))) [
        | true ↦ fragment turn current ∷ split_from maximum turn (w ∷ []) ws
        | false ↦ split_from maximum turn longer ws
      ]

  abbrev pub or_whole : Turn → List Turn → List Turn
  or_whole turn [] = turn ∷ []
  or_whole turn (f ∷ fs) = f ∷ fs

  unfoldable pub split_oversize_turn : Turn → (maximum : ℕ) → List Turn
  unfolding split_from
  split_oversize_turn turn maximum =
      let ws = words turn.raw_text in
      if leb (length ws) 1 then turn ∷ [] else or_whole turn (split_from maximum turn [] ws)

-- ===== src/Extraction/Ink.antt =====
-- Texts with a character that is no space: they stay after `strip`, and their lines have tokens.
use mathlib.Core.List.{reverse_aux}
use ai_buddy_app_agent_baken.Base.{
  ℕ, suc, ◌<◌, ◌≡◌, refl, Bool, Bool-cases, true, false, not, ◌||◌, Option, none, some, inl, inr,
  List, [], ◌∷◌, ◌++◌, reverse, Text, codes, is_empty, is_space, strip, strip_left, length, ltb,
  leb, any, All, if-either, if◌then◌else◌, arith,
}
use ai_buddy_app_agent_baken.Extraction.Transcript.{
  Turn, Reader, pieces, words, put_before, strip_right, has_text, join, tag, split_speaker_label,
  format_lines, or_default, format_window_line, counted, estimate_tokens, is_useful,
  useful_token_count, fragment, split_from, or_whole, split_oversize_turn, nothing,
}

abbrev pub has_ink : Text → Bool
has_ink = any (λ c. not (is_space c))

ink-append : (s t : Text) → has_ink (s ++ t) ≡ (has_ink s || has_ink t)
ink-append [] t = refl
ink-append (c ∷ s) t = ground (arith, ink-append s t)

ink-reverse_aux : (s t : Text) → has_ink (reverse_aux s t) ≡ (has_ink s || has_ink t)
ink-reverse_aux [] t = refl
ink-reverse_aux (c ∷ s) t = rw (ink-reverse_aux s (c ∷ t)) (ground arith)

ink-strip_left : (t : Text) → has_ink t ≡ true → has_ink (strip_left t) ≡ true
unfolding strip_left
ink-strip_left [] h = h
ink-strip_left (c ∷ t) h = elim (Bool-cases (is_space c)) [
  | inl space ↦ rw space (ink-strip_left t (ground arith))
  | inr ink ↦ rw (ink, ink) refl
]

ink-reverse : (t : Text) → has_ink t ≡ true → has_ink (reverse t) ≡ true
ink-reverse t h = rw (ink-reverse_aux t [], h) refl

ink-strip_right : (t : Text) → has_ink t ≡ true → has_ink (strip_right t) ≡ true
unfolding strip_right
ink-strip_right t h =
    ink-reverse (strip_left (reverse t)) (ink-strip_left (reverse t) (ink-reverse t h))

not-empty : (t : Text) → has_ink t ≡ true → not (is_empty t) ≡ true
not-empty [] h = ground arith
not-empty (c ∷ t) h = refl

pub ink-has_text : (t : Text) → has_ink t ≡ true → has_text t ≡ true
unfolding strip strip_right
ink-has_text t h = not-empty (strip t) (ink-strip_right (strip_left t) (ink-strip_left t h))

pub ink-join :
    (sep w : Text) (ws : List Text) → has_ink w ≡ true → has_ink (join sep (w ∷ ws)) ≡ true
unfolding join
ink-join sep w [] h = h
ink-join sep w (v ∷ ws) h = rw (ink-append w (sep ++ join sep (v ∷ ws)), h) refl

abbrev pub Ink : Text → Type 0
Ink t = has_ink t ≡ true

put_before-Ink :
    (c : ℕ) (ws : List Text) → is_space c ≡ false → All Ink ws → All Ink (put_before c ws)
put_before-Ink c [] h k = (rw h refl, tt)
put_before-Ink c (w ∷ ws) h k = (rw h refl, k.1)

pub words-Ink : (t : Text) → All Ink (words t)
unfolding pieces
words-Ink [] = tt
words-Ink (c ∷ t) =
    let rest = words-Ink t in
    if-either (All Ink) (is_space c) (words t) _ (λ _. rest)
      (λ ink.
        if-either (All Ink) _ (put_before c (words t)) ((c ∷ []) ∷ words t)
          (λ _. put_before-Ink c (words t) ink rest) (λ _. (rw ink refl, rest)))

tag-Ink : (n : ℕ) (speaker rest : Text) → has_ink (tag n speaker ++ rest) ≡ true
unfolding is_space
tag-Ink n speaker rest = refl

module _ (R : Reader) where
  format_lines-Ink :
      (n : ℕ) (default : Text) (ls : List Text) → has_ink (format_lines R n default ls) ≡ true
  unfolding is_space
  format_lines-Ink n default [] = refl
  format_lines-Ink n default (l ∷ ls) =
      let label = split_speaker_label R l in
      let said = codes " " ++ label.1 in
      ink-join (codes "\n") _ _ (
        ink-strip_right (tag n (or_default label.0 default) ++ said)
          (tag-Ink n (or_default label.0 default) said))

  counted-positive : (t : Text) (o : Option ℕ) → 0 < counted R t o
  counted-positive t none = omega arith
  counted-positive t (some n) = omega arith

  pub tokens_positive : (t : Turn) → is_useful R t ≡ true → 0 < useful_token_count R t
  unfolding useful_token_count estimate_tokens format_window_line
  tokens_positive t h =
      rw (h, ink-has_text _ (format_lines-Ink t.sequence_id _ _))
        (counted-positive (format_window_line R t) (R.encode (format_window_line R t)))

  -- A part of the turn that has text.
  abbrev pub Part : Turn → Turn → Type 0
  Part turn f = (is_useful R f ≡ true) × (f.sequence_id ≡ turn.sequence_id)

  fragment-Part :
      (turn : Turn) (w : Text) (ws : List Text) → Ink w → Part turn (fragment R turn (w ∷ ws))
  fragment-Part turn w ws h = (ink-has_text _ (ink-join (codes " ") w ws h), refl)

  split_from-Part :
      (maximum : ℕ) (turn : Turn) (w : Text) (current ws : List Text)
      → Ink w
      → All Ink ws
      → All (Part turn) (split_from R maximum turn (w ∷ current) ws)
        × (nothing (split_from R maximum turn (w ∷ current) ws) ≡ false)
  unfolding split_from
  split_from-Part maximum turn w current [] h k = ((fragment-Part turn w current h, tt), refl)
  split_from-Part maximum turn w current (v ∷ ws) h k =
      elim (Bool-cases
        (ltb maximum (useful_token_count R (fragment R turn (w ∷ (current ++ v ∷ [])))))) [
          | inl e ↦
              rw (e, split_from)
                (
                  (
                    fragment-Part turn w current h,
                    (split_from-Part maximum turn v [] ws k.0 k.1).0,
                  ),
                  refl,
                )
          | inr e ↦ rw (e, split_from) (split_from-Part maximum turn w (current ++ v ∷ []) ws h k.1)
        ]

  long : (ws : List Text) → leb (suc (suc (length ws))) 1 ≡ false
  long ws = ground arith

  or_whole-Part :
      (turn : Turn) (fs : List Turn)
      → All (Part turn) fs
      → nothing fs ≡ false
      → All (Part turn) (or_whole R turn fs) × (nothing (or_whole R turn fs) ≡ false)
  or_whole-Part turn [] k h = ground arith
  or_whole-Part turn (f ∷ fs) k h = (k, refl)

  -- The parts of a split turn, of which there is at least one, keep its number and have text.
  pub split_oversize_turn-Part :
      (turn : Turn) (maximum : ℕ)
      → is_useful R turn ≡ true
      → All (Part turn) (split_oversize_turn R turn maximum)
        × (nothing (split_oversize_turn R turn maximum) ≡ false)
  unfolding split_oversize_turn split_from
  split_oversize_turn-Part turn maximum h =
      split-Part (words turn.raw_text) (words-Ink turn.raw_text)
    where
      split-Part :
          (ws : List Text)
          → All Ink ws
          → let fs =
              if leb (length ws) 1
              then turn ∷ []
              else or_whole R turn (split_from R maximum turn [] ws) in
            All (Part turn) fs × (nothing fs ≡ false)
      split-Part [] k = (((h, refl), tt), refl)
      split-Part (w ∷ []) k = (((h, refl), tt), refl)
      split-Part (w ∷ v ∷ ws) k =
          let parts = split_from-Part maximum turn w [] (v ∷ ws) k.0 k.1 in
          rw (long ws)
            (or_whole-Part turn (split_from R maximum turn (w ∷ []) (v ∷ ws)) parts.0 parts.1)

-- ===== src/Lease/Codec.antt =====
-- The text of a lease record: eight fields joined by "|" (`_encode`, `table.concat` in the scripts),
-- and the two ways to read it back, the scripts' `split` loop and Python's `split` in `_parse`.
use ai_buddy_app_agent_baken.Base.{
  ℕ, zero, suc, ◌<◌, ◌≡◌, ◌≢◌, refl, ap, ◌∙◌, Bool-cases, Option-cases, inl, inr, Option, none,
  some, List, [], ◌∷◌, ◌++◌, Text, All, length, ◌==◌, if◌then◌else◌, arith,
}

abbrev pub bar : ℕ
bar = b'|'

abbrev pub NoBar : Text → Type 0
NoBar text = All (λ c. c ≢ bar) text

-- Python's `text.split("|")`.
abbrev push : ℕ → List Text → List Text
push c [] = (c ∷ []) ∷ []
push c (p ∷ ps) = (c ∷ p) ∷ ps

unfoldable pub split : Text → List Text
split [] = [] ∷ []
split (c ∷ cs) = let rest = split cs in if c == bar then [] ∷ rest else push c rest

-- `string.find(value, "|", start, true)`: the text before the next bar and the text behind it.
abbrev widen : ℕ → Option (Text × Text) → Option (Text × Text)
widen c none = none
widen c (some (before, after)) = some (c ∷ before, after)

find_bar : Text → Option (Text × Text)
find_bar [] = none
find_bar (c ∷ cs) = if c == bar then some ([], cs) else widen c (find_bar cs)

-- The `while true` loop of `split` in the scripts; `value` is what stands from `start` on. A round
-- that finds no bar breaks, and each other round drops at least the bar, so `length value + 1`
-- rounds are enough.
lua_split_from : ℕ → Text → List Text
unfolding find_bar
lua_split_from zero value = []
lua_split_from (suc fuel) value = elim (find_bar value) [
  | none ↦ value ∷ []
  | some (before, after) ↦ before ∷ lua_split_from fuel after
]

unfoldable pub lua_split : Text → List Text
unfolding lua_split_from
lua_split value = lua_split_from (suc (length value)) value

split-find_bar :
    (value : Text)
    → split value
      ≡ elim (find_bar value) [ none ↦ value ∷ [] | some (before, after) ↦ before ∷ split after ]
unfolding split find_bar
split-find_bar [] = refl
split-find_bar (c ∷ cs) = ground (arith, split-find_bar cs)

widen-eq-some :
    (c : ℕ) (o : Option (Text × Text)) (before after : Text)
    → widen c o ≡ some (before, after)
    → (b : Text) × (o ≡ some (b, after))
widen-eq-some c none before after h = cc
widen-eq-some c (some (b, a)) before after h = (b, ground arith)

length-find_bar :
    (value before after : Text)
    → find_bar value ≡ some (before, after)
    → length after < length value
unfolding find_bar
length-find_bar [] before after h = cc
length-find_bar (c ∷ cs) before after h = elim (Bool-cases (c == bar)) [
  | inl here ↦ ground arith
  | inr later ↦
      let (b, e) = widen-eq-some c (find_bar cs) before after (ground arith) in
      omega (arith, length-find_bar cs b after e)
]

-- With enough rounds the loop returns the parts that Python's split returns.
lua_split_from-eq-split :
    (fuel : ℕ) (value : Text) → length value < fuel → lua_split_from fuel value ≡ split value
unfolding lua_split_from
lua_split_from-eq-split zero value h = elim h [ ]
lua_split_from-eq-split (suc fuel) value h = elim (Option-cases (find_bar value)) [
  | inl last ↦ ground (arith, split-find_bar value)
  | inr ((before, after), found) ↦
      let rest : lua_split_from fuel after ≡ split after =
        lua_split_from-eq-split fuel after
          (omega (arith, length-find_bar value before after found)) in
      ground (arith, split-find_bar value, rest)
]

-- The loop of the scripts returns the parts that Python's split returns.
pub lua_split-eq-split : (value : Text) → lua_split value ≡ split value
unfolding lua_split
lua_split-eq-split value = lua_split_from-eq-split (suc (length value)) value (omega arith)

-- `"|".join(parts)`, `table.concat(parts, "|")`.
unfoldable pub join : List Text → Text
join [] = []
join (p ∷ []) = p
join (p ∷ q ∷ ps) = p ++ bar ∷ join (q ∷ ps)

split-NoBar : (p : Text) → NoBar p → split p ≡ p ∷ []
unfolding split
split-NoBar [] h = refl
split-NoBar (c ∷ p) h = ground (arith, split-NoBar p)

pub split-append-bar : (p rest : Text) → NoBar p → split (p ++ bar ∷ rest) ≡ p ∷ split rest
unfolding split
split-append-bar [] rest h = refl
split-append-bar (c ∷ p) rest h = ground (arith, split-append-bar p rest)

-- Fields without a bar come back whole.
pub split-join :
    (p : Text) (ps : List Text) → NoBar p → All NoBar ps → split (join (p ∷ ps)) ≡ p ∷ ps
unfolding join
split-join p [] h k = split-NoBar p h
split-join p (q ∷ ps) h k =
    split-append-bar p (join (q ∷ ps)) h ∙ ap (λ r. p ∷ r) (split-join q ps k.0 k.1)

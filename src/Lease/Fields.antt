-- ===== src/Lease/Fields.antt =====
-- The cleaning of identifiers in services/queue/job_lease.py: `_clean`, `_field`, `_truthy`.
use ai_buddy_app_agent_baken.Base.{
  strip, ℕ, zero, suc, ◌+◌, ◌≤◌, ◌≢◌, Bool, true, false, ◌&&◌, [], ◌∷◌, map, Text, All, All-take,
  take, length, length-take-le, codes, is_one_of, leb, ◌==◌, if◌then◌else◌, arith,
}
use ai_buddy_app_agent_baken.Base.Decimal.{decimal}
use ai_buddy_app_agent_baken.Lease.Codec.{NoBar, bar}

-- A value of a decoded event. `other` is any other value (a float, a negative number, a list, a
-- dict): whether Python takes it for true, and its `str`.
pub data Value : Type 0 where
  null : Value
  bool : Bool → Value
  number : ℕ → Value
  text : Text → Value
  other : (truthy : Bool) (str : Text) → Value

unfoldable pub str : Value → Text
str null = codes "None"
str (bool true) = codes "True"
str (bool false) = codes "False"
str (number n) = decimal n
str (text t) = t
str (other truthy s) = s

unfoldable pub is_truthy : Value → Bool
is_truthy null = false
is_truthy (bool b) = b
is_truthy (number zero) = false
is_truthy (number (suc n)) = true
is_truthy (text []) = false
is_truthy (text (c ∷ cs)) = true
is_truthy (other truthy s) = truthy

-- `lower()` on ASCII letters. It is only used to compare with words of ASCII letters that have no
-- "k", and no other character has such a letter for its lower case.
unfoldable pub lower : Text → Text
lower t = map (λ c. if leb b'A' c && leb c b'Z' then c + 32 else c) t

-- `value or ""`, printed and stripped.
unfoldable pub clean : Value → Text
unfolding str is_truthy strip lower is_one_of
clean value =
    let t = strip (if is_truthy value then str value else []) in
    if is_one_of (lower t) (codes "none" ∷ codes "null" ∷ codes "undefined" ∷ []) then [] else t

-- `.replace("|", "_").replace("\n", " ")`
abbrev plain_char : ℕ → ℕ
plain_char c = if c == bar then b'_' else if c == 10 then b' ' else c

unfoldable pub field_to : ℕ → Value → Text
field_to limit value = take limit (map plain_char (clean value))

unfoldable pub field : Value → Text
unfolding field_to
field = field_to 120

unfoldable pub truthy : Value → Bool
unfolding str strip lower is_one_of
truthy value = is_one_of (lower (strip (str value))) (codes "1" ∷ codes "true" ∷ codes "yes" ∷ [])

-- A character that may stand inside a lease record and inside a key.
abbrev pub IsPlain : ℕ → Type 0
IsPlain c = (c ≢ bar) × (c ≢ 10)

map-plain_char-IsPlain : (t : Text) → All IsPlain (map plain_char t)
map-plain_char-IsPlain [] = tt
map-plain_char-IsPlain (c ∷ t) = (ground arith, map-plain_char-IsPlain t)

-- A cleaned field has no bar and no line break, and at most `limit` characters.
pub field_to_lem :
    (limit : ℕ) (value : Value)
    → All IsPlain (field_to limit value) × (length (field_to limit value) ≤ limit)
unfolding field_to
field_to_lem limit value = (
  All-take IsPlain limit (map plain_char (clean value)) (map-plain_char-IsPlain (clean value)),
  length-take-le limit (map plain_char (clean value)),
)

All-IsPlain-NoBar : (t : Text) → All IsPlain t → NoBar t
All-IsPlain-NoBar [] h = tt
All-IsPlain-NoBar (c ∷ t) h = (h.0.0, All-IsPlain-NoBar t h.1)

pub field_to-NoBar : (limit : ℕ) (value : Value) → NoBar (field_to limit value)
field_to-NoBar limit value = All-IsPlain-NoBar _ (field_to_lem limit value).0

-- ===== src/Base/Decimal.antt =====
-- Decimal numerals: `str(n)` and `int(text)` on natural numbers.
use ai_buddy_app_agent_baken.Base.Tests.{ltb, leb, if◌then◌else◌}
use ai_buddy_app_agent_baken.Base.Lists.{All, All-append}
use ai_buddy_app_agent_baken.Base.Texts.{Text}
use Prim.Native.Nat.{ℕ, zero, suc, ◌+◌, ◌-◌, ◌*◌, ◌/◌, ◌%◌, ◌≤◌, ◌<◌}
use mathlib.Core.Path.{◌≡◌, refl, ◌∙◌}
use mathlib.Core.Logic.{◌≢◌}
use mathlib.Core.Bool.{◌&&◌}
use mathlib.Core.Option.{Option, none, some}
use mathlib.Core.List.{[], ◌∷◌, ◌++◌}
use native.Mathlib.Omega.{arith}

-- The digits of `n`, most significant first; `suc n` rounds are enough.
digits : ℕ → ℕ → Text
digits zero n = []
digits (suc fuel) n =
    let front = digits fuel (n / 10) in
    if ltb n 10 then (48 + n) ∷ [] else front ++ (48 + n % 10) ∷ []

unfoldable pub decimal : ℕ → Text
unfolding digits
decimal n = digits (suc n) n

read_from : ℕ → Text → Option ℕ
read_from acc [] = some acc
read_from acc (c ∷ cs) =
    let rest = read_from (acc * 10 + (c - 48)) cs in if leb 48 c && leb c 57 then rest else none

-- `int(text)`; a text with a character that is no digit raises ValueError (`none`).
unfoldable pub read_decimal : Text → Option ℕ
unfolding read_from
read_decimal [] = none
read_decimal (c ∷ cs) = read_from 0 (c ∷ cs)

read_from-append :
    (acc n : ℕ) (xs : Text) (c : ℕ)
    → read_from acc xs ≡ some n
    → c < 10
    → read_from acc (xs ++ (48 + c) ∷ []) ≡ some (n * 10 + c)
unfolding read_from
read_from-append acc n [] c h k = ground arith
read_from-append acc n (x ∷ xs) c h k =
    ground (arith, read_from-append (acc * 10 + (x - 48)) n xs c)

read_from-digits : (fuel n : ℕ) → n < fuel → read_from 0 (digits fuel n) ≡ some n
unfolding digits read_from
read_from-digits zero n h = elim h [ ]
read_from-digits (suc fuel) n h = ground (
  arith,
  read_from-digits fuel (n / 10),
  read_from-append 0 (n / 10) (digits fuel (n / 10)) (n % 10),
)

append-ne-nil : (xs : Text) (c : ℕ) → xs ++ c ∷ [] ≢ []
append-ne-nil [] c h = cc
append-ne-nil (x ∷ xs) c h = cc

digits-ne-nil : (fuel n : ℕ) → digits (suc fuel) n ≢ []
unfolding digits
digits-ne-nil fuel n = ground (arith, append-ne-nil (digits fuel (n / 10)) (48 + n % 10))

abbrev pub IsDigit : ℕ → Type 0
IsDigit c = (48 ≤ c) × (c ≤ 57)

digits-IsDigit : (fuel n : ℕ) → All IsDigit (digits fuel n)
unfolding digits
digits-IsDigit zero n = tt
digits-IsDigit (suc fuel) n = ground (
  arith,
  digits-IsDigit fuel (n / 10),
  All-append IsDigit (digits fuel (n / 10)) ((48 + n % 10) ∷ []) (digits-IsDigit fuel (n / 10)),
)

pub decimal-IsDigit : (n : ℕ) → All IsDigit (decimal n)
unfolding decimal
decimal-IsDigit n = digits-IsDigit (suc n) n

pub decimal-ne-nil : (n : ℕ) → decimal n ≢ []
unfolding decimal
decimal-ne-nil n = digits-ne-nil n n

read_decimal-eq-read_from : (xs : Text) → xs ≢ [] → read_decimal xs ≡ read_from 0 xs
unfolding read_decimal
read_decimal-eq-read_from [] h = absurd (h refl)
read_decimal-eq-read_from (c ∷ cs) h = refl

pub read_decimal-decimal : (n : ℕ) → read_decimal (decimal n) ≡ some n
read_decimal-decimal n =
    read_decimal-eq-read_from (decimal n) (decimal-ne-nil n)
    ∙ (unfold decimal in read_from-digits (suc n) n (omega arith))

pub decimal-injective : (m n : ℕ) → decimal m ≡ decimal n → m ≡ n
decimal-injective m n e = cc (read_decimal-decimal m, read_decimal-decimal n)

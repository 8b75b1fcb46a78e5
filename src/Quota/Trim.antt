-- ===== src/Quota/Trim.antt =====
-- Trimming a deque that was filled in time order keeps what is not before the cutoff.
use ai_buddy_app_agent_baken.Base.{
  ℕ, ◌≤◌, ◌<◌, ◌≡◌, refl, Bool, Bool-cases, inl, inr, true, false, ◌&&◌, List, [], ◌∷◌, keep, ltb,
  leb, ◌==◌, if◌then◌else◌, arith,
}
use ai_buddy_app_agent_baken.Quota.{nothing, trim, stamp, date}

-- The granted requests, the latest first, with their tokens.
abbrev pub Log : Type 0
Log = List (ℕ × ℕ)

-- Each entry is at `now` or before, and the times fall from entry to entry.
abbrev pub Ordered : ℕ → Log → Type 0
Ordered now [] = Unit
Ordered now (e ∷ es) = (e.0 ≤ now) × Ordered e.0 es

-- On the day, and not before the cutoff.
abbrev pub inside : ℕ → ℕ → ℕ × ℕ → Bool
inside day cutoff e = (date e.0 == day) && leb cutoff e.0

abbrev pub within : ℕ → ℕ → Log → Log
within day cutoff = keep (inside day cutoff)

abbrev pub times : Log → List ℕ
times [] = []
times (e ∷ es) = e.0 ∷ times es

pub Ordered-le : (now later : ℕ) (log : Log) → now ≤ later → Ordered now log → Ordered later log
Ordered-le now later [] le h = tt
Ordered-le now later (e ∷ es) le h = (omega (arith, h.0), h.1)

-- Nothing is left at a cutoff after the last entry.
pub within-late :
    (day cutoff now : ℕ) (log : Log) → Ordered now log → now < cutoff → within day cutoff log ≡ []
within-late day cutoff now [] h late = refl
within-late day cutoff now (e ∷ es) h late =
    ground (arith, within-late day cutoff e.0 es h.1 (omega (arith, h.0)), h.0)

-- Nothing is left on a day after that of the last entry.
pub within-new_day :
    (day cutoff now : ℕ) (log : Log) → Ordered now log → date now < day → within day cutoff log ≡ []
within-new_day day cutoff now [] h late = refl
within-new_day day cutoff now (e ∷ es) h late =
    let earlier : date e.0 < day = omega (arith, h.0) in
    ground (arith, within-new_day day cutoff e.0 es h.1 earlier)

pub trim-within :
    (day early cutoff now : ℕ) (log : Log)
    → Ordered now log
    → early ≤ cutoff
    → trim stamp cutoff (within day early log) ≡ within day cutoff log
unfolding trim
trim-within day early cutoff now [] h le = refl
trim-within day early cutoff now (e ∷ es) h le =
    let rest = trim-within day early cutoff e.0 es h.1 le in
    elim (Bool-cases (inside day early e)) [
      | inl in_day ↦ ground (arith, rest, within-late day cutoff e.0 es h.1)
      | inr out_of_day ↦ ground (arith, rest)
    ]

times-step :
    (rest : Log) (e : ℕ × ℕ) (late : Bool)
    → (if nothing (times rest) && late then [] else e.0 ∷ times rest)
      ≡ times (if nothing rest && late then [] else e ∷ rest)
times-step [] e true = refl
times-step [] e false = refl
times-step (f ∷ fs) e late = refl

pub trim-times :
    (cutoff : ℕ) (log : Log) → trim (λ t. t) cutoff (times log) ≡ times (trim stamp cutoff log)
unfolding trim
trim-times cutoff [] = refl
trim-times cutoff (e ∷ es) =
    rw (trim-times cutoff es) (times-step (trim stamp cutoff es) e (ltb e.0 cutoff))

-- ===== src/Dispatch/Accounting.antt =====
-- The permits of the semaphore are accounted for, and no message runs twice at a time.
use ai_buddy_app_agent_baken.Base.{
  ℕ, suc, ◌+◌, ◌<◌, ◌≡◌, refl, sym, ap, Bool-cases, inl, inr, true, false, List, [], ◌∷◌, Text,
  text_eq, is_one_of, length, if-either, arith,
}
use ai_buddy_app_agent_baken.Dispatch.{
  Tasks, fresh, discard, offer, offer_claimed, admit, begin, leave, Turn, stopping, offering,
  claiming, admitting, beginning, leaving, Turns, here, next,
}

abbrev pub Distinct : List Text → Type 0
Distinct [] = Unit
Distinct (k ∷ ks) = (is_one_of k ks ≡ false) × Distinct ks

-- Every permit is free, or with a task; the messages in flight are those that run, each once.
abbrev pub Accounted : ℕ → Tasks → Type 0
Accounted concurrency s =
    (s.permits + length s.spawned + length s.running ≡ concurrency)
    × (s.inflight ≡ s.running)
    × Distinct s.running

length-discard :
    (key : Text) (ks : List Text)
    → is_one_of key ks ≡ true
    → suc (length (discard key ks)) ≡ length ks
unfolding is_one_of
length-discard key [] h = cc
length-discard key (k ∷ ks) h = elim (Bool-cases (text_eq key k)) [
  | inl same ↦ ground arith
  | inr distinct ↦ ground (arith, length-discard key ks)
]

discard-absent :
    (key other : Text) (ks : List Text)
    → is_one_of other ks ≡ false
    → is_one_of other (discard key ks) ≡ false
unfolding is_one_of
discard-absent key other [] h = h
discard-absent key other (k ∷ ks) h =
    if-either (λ (l : List Text). is_one_of other l ≡ false) (text_eq key k) ks (k ∷ discard key ks)
      (λ _. ground (arith, h)) (λ _. ground (arith, h, discard-absent key other ks))

Distinct-discard : (key : Text) (ks : List Text) → Distinct ks → Distinct (discard key ks)
Distinct-discard key [] h = tt
Distinct-discard key (k ∷ ks) h =
    if-either Distinct (text_eq key k) ks (k ∷ discard key ks) (λ _. h.1)
      (λ _. (discard-absent key k ks h.0, Distinct-discard key ks h.1))

admit-Accounted :
    (concurrency : ℕ) (s : Tasks) (key : Text)
    → 0 < s.permits
    → Accounted concurrency s
    → Accounted concurrency (admit key s)
unfolding admit
admit-Accounted concurrency s key some_left h =
    if-either (Accounted concurrency) s.shutdown _ _ (λ _. h) (λ _. (omega (arith, h.0), h.1, h.2))

begin-Accounted :
    (concurrency : ℕ) (s : Tasks) (key : Text)
    → is_one_of key s.spawned ≡ true
    → Accounted concurrency s
    → Accounted concurrency (begin key s)
unfolding begin
begin-Accounted concurrency s key there h = elim (Bool-cases (is_one_of key s.inflight)) [
  | inl twice ↦ rw twice (omega (arith, h.0, length-discard key s.spawned there), h.1, h.2)
  | inr once ↦ rw once (
    omega (arith, h.0, length-discard key s.spawned there),
    ap (λ l. key ∷ l) h.1,
    (rw (sym h.1) once, h.2),
  )
]

leave-Accounted :
    (concurrency : ℕ) (s : Tasks) (key : Text)
    → is_one_of key s.running ≡ true
    → Accounted concurrency s
    → Accounted concurrency (leave key s)
leave-Accounted concurrency s key there h = (
  omega (arith, h.0, length-discard key s.running there),
  ap (discard key) h.1,
  Distinct-discard key s.running h.2,
)

offer-Accounted :
    (concurrency : ℕ) (s : Tasks) (key : Text)
    → Accounted concurrency s
    → Accounted concurrency (offer key s) × Accounted concurrency (offer_claimed key s)
unfolding offer offer_claimed
offer-Accounted concurrency s key h = (
  if-either (Accounted concurrency) s.shutdown s _ (λ _. h) (λ _. h),
  if-either (Accounted concurrency) s.shutdown s _ (λ _. h)
      (λ _. if-either (Accounted concurrency) (is_one_of key s.inflight) s _ (λ _. h) (λ _. h)),
)

Turn-Accounted :
    (concurrency : ℕ) (s t : Tasks) → Turn s t → Accounted concurrency s → Accounted concurrency t
Turn-Accounted concurrency s t (stopping e) h = rw e h
Turn-Accounted concurrency s t (offering key e) h = rw e (offer-Accounted concurrency s key h).0
Turn-Accounted concurrency s t (claiming key e) h = rw e (offer-Accounted concurrency s key h).1
Turn-Accounted concurrency s t (admitting key there some_left e) h =
    rw e (admit-Accounted concurrency s key some_left h)
Turn-Accounted concurrency s t (beginning key there e) h =
    rw e (begin-Accounted concurrency s key there h)
Turn-Accounted concurrency s t (leaving key there e) h =
    rw e (leave-Accounted concurrency s key there h)

-- In every state that the turns reach from the start, each permit is free or belongs to one task,
-- the messages in flight are those that run, and no message runs twice at a time.
pub tasks-Accounted :
    (concurrency : ℕ) (s : Tasks) → Turns (fresh concurrency) s → Accounted concurrency s
tasks-Accounted concurrency s here = (omega arith, refl, tt)
tasks-Accounted concurrency s (next {t = t} turns turn) =
    Turn-Accounted concurrency t s turn (tasks-Accounted concurrency t turns)

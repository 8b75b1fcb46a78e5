-- ===== src/Conversation/Tests.antt =====
-- Tests over lists of chunks and windows, and the statements that they decide.
use ai_buddy_app_agent_baken.Base.{
  ℕ, zero, suc, ◌+◌, ◌-◌, ◌≡◌, ◌≤◌, ◌<◌, ◌↔◌, Bool, true, false, not, ◌&&◌, ◌||◌, List, [], ◌∷◌,
  All, keep, any, ltb, refl, arith, Bool-cases, inl, inr, subst, sym, ==_iff, ◌==◌, ltb→lt,
}
use ai_buddy_app_agent_baken.Conversation.Readiness.{count}
use ai_buddy_app_agent_baken.Conversation.Sequences.{
  is_empty_list, is_member, missing_from, detect_missing_sequences,
}

module _ {ℓ} {A : Type ℓ} where
  pub is_empty_list-keep : (p : A → Bool) (xs : List A) → is_empty_list (keep p xs) ≡ not (any p xs)
  is_empty_list-keep p [] = refl
  is_empty_list-keep p (x ∷ xs) = ground (arith, is_empty_list-keep p xs)

  pub count_test : (p : A → Bool) (xs : List A) → ltb 0 (count p xs) ≡ any p xs
  count_test p [] = refl
  count_test p (x ∷ xs) = ground (arith, count_test p xs)

  pub any-keep : (p q : A → Bool) (xs : List A) → any p (keep q xs) ≡ any (λ x. q x && p x) xs
  any-keep p q [] = refl
  any-keep p q (x ∷ xs) = ground (arith, any-keep p q xs)

  pub any-or : (p q : A → Bool) (xs : List A) → any (λ x. p x || q x) xs ≡ (any p xs || any q xs)
  any-or p q [] = refl
  any-or p q (x ∷ xs) = ground (arith, any-or p q xs)

  pub any_iff : (p : A → Bool) (xs : List A) → (any p xs ≡ false) ↔ All (λ x. p x ≡ false) xs
  any_iff p [] = (λ h. tt, λ h. refl)
  any_iff p (x ∷ xs) =
      (λ h. (ground arith, (any_iff p xs).0 (ground arith)), λ h. rw (h.0) ((any_iff p xs).1 h.1))

  pub is_empty_list_iff :
      (p : A → Bool) (xs : List A) → (is_empty_list (keep p xs) ≡ true) ↔ All (λ x. p x ≡ false) xs
  is_empty_list_iff p xs = (
    λ h. (any_iff p xs).0 (ground (arith, is_empty_list-keep p xs)),
    λ h. rw (is_empty_list-keep p xs, (any_iff p xs).1 h) refl,
  )

  pub All-map {κ κ'} :
      {P : A → Type κ} {Q : A → Type κ'} (xs : List A) → ((x : A) → P x → Q x) → All P xs → All Q xs
  All-map [] f h = tt
  All-map (x ∷ xs) f h = (f x h.0, All-map xs f h.1)

-- No number is missing exactly if each is present.
abbrev pub AllPresent : ℕ → ℕ → List ℕ → Type 0
AllPresent start end present = (k : ℕ) → start ≤ k → k < end → is_member k present ≡ true

missing_from_present :
    (rounds start : ℕ) (present : List ℕ)
    → is_empty_list (missing_from rounds start present) ≡ true
    → AllPresent start (start + rounds) present
unfolding missing_from
missing_from_present zero start present h k a b = absurd (omega arith)
missing_from_present (suc rounds) start present h k a b =
    elim (Bool-cases (is_member start present)) [
      | inl m ↦ elim (Bool-cases (start == k)) [
        | inl e ↦ subst (λ n. is_member n present ≡ true) ((==_iff start k).0 e) m
        | inr e ↦
            missing_from_present rounds (suc start) present (rw m at h) k (ground arith)
              (omega arith)
      ]
      | inr m ↦ cc (rw m at h)
    ]

missing_from_empty :
    (rounds start : ℕ) (present : List ℕ)
    → AllPresent start (start + rounds) present
    → is_empty_list (missing_from rounds start present) ≡ true
unfolding missing_from
missing_from_empty zero start present h = refl
missing_from_empty (suc rounds) start present h =
    rw (h start (omega arith) (omega arith))
      (missing_from_empty rounds (suc start) present (λ k a b. h k (omega arith) (omega arith)))

pub detect_missing_sequences_iff :
    (present : List ℕ) (last first : ℕ)
    → (is_empty_list (detect_missing_sequences present last first) ≡ true)
      ↔ AllPresent first (last + 1) present
unfolding detect_missing_sequences
detect_missing_sequences_iff present last first = elim (Bool-cases (ltb last first)) [
  | inl beyond ↦ rw beyond (λ h k a b. absurd (omega (arith, ltb→lt last first beyond)), λ h. refl)
  | inr within ↦ rw within (
      let end : first + (last + 1 - first) ≡ last + 1 = ground arith in
      (
        λ h.
            subst (λ e. AllPresent first e present) end
              (missing_from_present (last + 1 - first) first present h),
        λ h.
            missing_from_empty (last + 1 - first) first present
              (subst (λ e. AllPresent first e present) (sym end) h),
      ))
]

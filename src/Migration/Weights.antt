-- ===== src/Migration/Weights.antt =====
-- How often a job stands in the lists and on the stream, and what each command does to the number.
use ai_buddy_app_agent_baken.Base.{
  ℕ, ◌+◌, ◌≡◌, refl, sym, subst, Bool-cases, true, false, Option-cases, ◌∙◌, some, inl, inr, List,
  [], ◌∷◌, ◌++◌, Text, text_eq, text_eq_iff, text_eq_refl, is_one_of, if◌then◌else◌, arith,
}
use ai_buddy_app_agent_baken.Migration.{Route, LegacyItem, poison, invalid, envelope}
use ai_buddy_app_agent_baken.Migration.Server.{
  Items, with_items, last_item, front_items, erase_first, push_left, move_item,
}

module _ (weight : Text → ℕ) where
  abbrev pub tally : List Text → ℕ
  tally [] = 0
  tally (x ∷ xs) = weight x + tally xs

  pub tally-snoc : (xs : List Text) (x : Text) → tally (xs ++ x ∷ []) ≡ tally xs + weight x
  tally-snoc [] x = omega arith
  tally-snoc (y ∷ xs) x = omega (arith, tally-snoc xs x)

  pub tally-front :
      (xs : List Text) (x : Text)
      → last_item xs ≡ some x
      → tally (front_items xs) + weight x ≡ tally xs
  tally-front [] x h = ground arith
  tally-front (y ∷ []) x h = ground arith
  tally-front (y ∷ z ∷ xs) x h = omega (arith, tally-front (z ∷ xs) x h)

  pub tally-erase :
      (xs : List Text) (x : Text)
      → is_one_of x xs ≡ true
      → tally (erase_first x xs) + weight x ≡ tally xs
  unfolding is_one_of
  tally-erase [] x h = ground arith
  tally-erase (y ∷ xs) x h = elim (Bool-cases (text_eq x y)) [
    | inl same ↦
        let key_is = (text_eq_iff x y).0 same in
        rw same (subst (λ t. tally xs + weight t ≡ weight y + tally xs) (sym key_is) (omega arith))
    | inr other ↦
        let found : is_one_of x xs ≡ true = ground arith in
        rw other (omega (arith, tally-erase xs x found))
  ]

pub last-is_one_of : (xs : List Text) (x : Text) → last_item xs ≡ some x → is_one_of x xs ≡ true
unfolding is_one_of
last-is_one_of [] x h = ground arith
last-is_one_of (y ∷ []) x h = ground (arith, text_eq_refl x)
last-is_one_of (y ∷ z ∷ xs) x h = ground (arith, last-is_one_of (z ∷ xs) x h)

-- The keys are pairwise different.
pub record Apart (r : Route) : Type 0 where
  pub source_processing : text_eq r.source r.processing ≡ false
  pub source_failed : text_eq r.source r.failed ≡ false
  pub source_stream : text_eq r.source r.stream ≡ false
  pub processing_failed : text_eq r.processing r.failed ≡ false
  pub processing_stream : text_eq r.processing r.stream ≡ false
  pub failed_stream : text_eq r.failed r.stream ≡ false

pub text_eq_sym : (a b : Text) → text_eq a b ≡ false → text_eq b a ≡ false
text_eq_sym a b h = elim (Bool-cases (text_eq b a)) [
  | inl same ↦
      let back = subst (λ t. text_eq t b ≡ false) (sym ((text_eq_iff b a).0 same)) h in
      ground (arith, back, text_eq_refl b)
  | inr other ↦ other
]

abbrev pub is_event : Text → Text → ℕ
is_event event e = if text_eq e event then 1 else 0

abbrev pub parsed_to : Text → LegacyItem → ℕ
parsed_to event poison = 0
parsed_to event invalid = 0
parsed_to event (envelope e) = is_event event e

module _ (r : Route) (parse : Text → LegacyItem) (event : Text) where
  -- The items that parse to `event`, with the entries of the stream that carry it.
  abbrev pub copies : Items → ℕ
  copies items =
      tally (λ x. parsed_to event (parse x)) (items r.source)
      + tally (λ x. parsed_to event (parse x)) (items r.processing)
      + tally (λ x. parsed_to event (parse x)) (items r.failed)
      + tally (is_event event) (items r.stream)

  abbrev pub weight_of : Text → ℕ
  weight_of x = parsed_to event (parse x)

  module _ (apart : Apart r) where
    copies_at-source :
        (xs : List Text) (items : Items)
        → copies (with_items r.source xs items) + tally weight_of (items r.source)
          ≡ copies items + tally weight_of xs
    copies_at-source xs items =
        rw
          (
            text_eq_refl r.source,
            text_eq_sym _ _ apart.source_processing,
            text_eq_sym _ _ apart.source_failed,
            text_eq_sym _ _ apart.source_stream,
          )
          (omega arith)

    pub copies_at-processing :
        (xs : List Text) (items : Items)
        → copies (with_items r.processing xs items) + tally weight_of (items r.processing)
          ≡ copies items + tally weight_of xs
    copies_at-processing xs items =
        rw
          (
            text_eq_refl r.processing,
            apart.source_processing,
            text_eq_sym _ _ apart.processing_failed,
            text_eq_sym _ _ apart.processing_stream,
          )
          (omega arith)

    copies_at-failed :
        (xs : List Text) (items : Items)
        → copies (with_items r.failed xs items) + tally weight_of (items r.failed)
          ≡ copies items + tally weight_of xs
    copies_at-failed xs items =
        rw
          (
            text_eq_refl r.failed,
            apart.source_failed,
            apart.processing_failed,
            text_eq_sym _ _ apart.failed_stream,
          )
          (omega arith)

    copies_at-stream :
        (xs : List Text) (items : Items)
        → copies (with_items r.stream xs items) + tally (is_event event) (items r.stream)
          ≡ copies items + tally (is_event event) xs
    copies_at-stream xs items =
        rw
          (text_eq_refl r.stream, apart.source_stream, apart.processing_stream, apart.failed_stream)
          (omega arith)

    copies-held :
        (x : Text) (items : Items)
        → copies (push_left r.processing x items) ≡ copies items + weight_of x
    copies-held x items = omega (arith, copies_at-processing (x ∷ items r.processing) items)

    copies-taken :
        (x : Text) (items : Items)
        → last_item (items r.source) ≡ some x
        → copies (with_items r.source (front_items (items r.source)) items) + weight_of x
          ≡ copies items
    copies-taken x items last = omega (
      arith,
      copies_at-source (front_items (items r.source)) items,
      tally-front weight_of (items r.source) x last,
    )

    pub copies-moved :
        (items : Items)
        → copies (move_item (last_item (items r.source)) r.source r.processing items) ≡ copies items
    copies-moved items = elim (Option-cases (last_item (items r.source))) [
      | inl e ↦ rw e refl
      | inr (x, e) ↦ rw e (
          copies-held x (with_items r.source (front_items (items r.source)) items)
          ∙ copies-taken x items e)
    ]

    pub copies-erased :
        (x : Text) (items : Items)
        → is_one_of x (items r.processing) ≡ true
        → copies (with_items r.processing (erase_first x (items r.processing)) items) + weight_of x
          ≡ copies items
    copies-erased x items found = omega (
      arith,
      copies_at-processing (erase_first x (items r.processing)) items,
      tally-erase weight_of (items r.processing) x found,
    )

    pub copies-parked :
        (x : Text) (items : Items)
        → copies (push_left r.failed x items) ≡ copies items + weight_of x
    copies-parked x items = omega (arith, copies_at-failed (x ∷ items r.failed) items)

    pub copies-told :
        (e : Text) (items : Items)
        → copies (with_items r.stream (items r.stream ++ e ∷ []) items)
          ≡ copies items + is_event event e
    copies-told e items = omega (
      arith,
      copies_at-stream (items r.stream ++ e ∷ []) items,
      tally-snoc (is_event event) (items r.stream) e,
    )

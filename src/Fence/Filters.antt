-- ===== src/Fence/Filters.antt =====
-- Which documents the filters of a fenced write match.
use ai_buddy_app_agent_baken.Base.{
  which-branch, ℕ, ◌<◌, ◌≡◌, refl, sym, ◌∙◌, Bool, inl, inr, true, false, Option, none, some, List,
  [], ◌∷◌, Text, codes, text_eq, text_eq_iff, and-eq-true, arith,
}
use ai_buddy_app_agent_baken.Mongo.{
  Mongo, Value, null, number, other, every, absent, null_or_absent, number_up_to,
}
use ai_buddy_app_agent_baken.Fence.{
  fence_field, fence_of, lookup, fence_clause, fenced_filter, document_fence, selected, picked,
  identity_keys, or_base, probe_by, probe_filter,
}

newer-shut :
    (token : ℕ) (v : Option Value)
    → token < fence_of v
    → (absent v ≡ false) × (null_or_absent v ≡ false) × (number_up_to token v ≡ false)
newer-shut token none h = absurd (omega arith)
newer-shut token (some null) h = absurd (omega arith)
newer-shut token (some (number n)) h = (refl, refl, ground arith)
newer-shut token (some (other as_int)) h = (refl, refl, refl)

module _ {A : Type 0} (p : Text × A → Bool) where
  every-lookup :
      (key : Text) (base : List (Text × A)) (a : A)
      → every p base ≡ true
      → lookup key base ≡ some a
      → p (key, a) ≡ true
  every-lookup key [] a h found = cc
  every-lookup key ((k, b) ∷ base) a h found =
      let both = and-eq-true (p (k, b)) (every p base) h in
      elim (which-branch (text_eq k key) b a (lookup key base) found) [
        | inl (same, value) ↦ rw (sym ((text_eq_iff k key).0 same), sym value) both.0
        | inr later ↦ every-lookup key base a both.1 later
      ]

module _ (M : Mongo) where
  open M use {
    Db, Doc, Filter, Criterion, Operand, In, holds, stored, where_all, all_of, any_of, missing,
    is_null, at_most, matches, find_one, update_one, find_one_and_update, matches-where_all,
    matches-all_of, matches-any_of, matches-missing, matches-is_null, matches-at_most,
    find_one-found, find_one-missed, update_one-missed, find_one_and_update-missed,
    update_one-other, find_one_and_update-other,
  }

  matches-fence_clause :
      (token : ℕ) (d : Doc) → token < document_fence M d → matches (fence_clause M token) d ≡ false
  unfolding fence_clause document_fence
  matches-fence_clause token d newer =
      let shut = newer-shut token (stored fence_field d) newer in
      rw
        (
          matches-any_of
              (missing fence_field ∷ is_null fence_field ∷ at_most fence_field token ∷ []) d,
          matches-missing fence_field d,
          matches-is_null fence_field d,
          matches-at_most fence_field token d,
          shut.0,
          shut.1,
          shut.2,
        )
        refl

  -- The filter of a fenced write passes by a document with a newer fence.
  pub matches-fenced_filter :
      (base : List (Text × Criterion)) (token : ℕ) (d : Doc)
      → token < document_fence M d
      → matches (fenced_filter M base token) d ≡ false
  unfolding fenced_filter
  matches-fenced_filter base token d newer =
      rw
        (
          matches-all_of (where_all base ∷ fence_clause M token ∷ []) d,
          matches-fence_clause token d newer,
        )
        (ground arith)

  every-picked :
      (d : Doc) (key : Text) (c : Option Criterion) (base rest : List (Text × Criterion))
      → every (λ kv. holds kv d) base ≡ true
      → lookup key base ≡ c
      → every (λ kv. holds kv d) rest ≡ true
      → every (λ kv. holds kv d) (picked M key c rest) ≡ true
  every-picked d key none base rest h found more = more
  every-picked d key (some c) base rest h found more =
      rw (every-lookup (λ kv. holds kv d) key base c h found) more

  every-selected :
      (d : Doc) (keys : List Text) (base : List (Text × Criterion))
      → every (λ kv. holds kv d) base ≡ true
      → every (λ kv. holds kv d) (selected M keys base) ≡ true
  every-selected d [] base h = refl
  every-selected d (key ∷ keys) base h =
      every-picked d key (lookup key base) base (selected M keys base) h refl
        (every-selected d keys base h)

  every-or_base :
      (d : Doc) (ident base : List (Text × Criterion))
      → every (λ kv. holds kv d) ident ≡ true
      → every (λ kv. holds kv d) base ≡ true
      → every (λ kv. holds kv d) (or_base M ident base) ≡ true
  every-or_base d [] base i b = b
  every-or_base d (kv ∷ ident) base i b = i

  every-probe_by :
      (d : Doc) (id : Option Criterion) (base : List (Text × Criterion))
      → every (λ kv. holds kv d) base ≡ true
      → lookup (codes "_id") base ≡ id
      → every (λ kv. holds kv d) (probe_by M id base) ≡ true
  every-probe_by d (some id) base h found =
      rw (every-lookup (λ kv. holds kv d) (codes "_id") base id h found) refl
  every-probe_by d none base h found =
      every-or_base d (selected M (identity_keys M) base) base
        (every-selected d (identity_keys M) base h) h

  -- What the base filter matches, the probe matches.
  pub matches-probe_filter :
      (base : List (Text × Criterion)) (d : Doc)
      → matches (where_all base) d ≡ true
      → matches (where_all (probe_filter M base)) d ≡ true
  unfolding probe_filter
  matches-probe_filter base d h =
      rw (matches-where_all (probe_filter M base) d) (
        every-probe_by d (lookup (codes "_id") base) base (sym (matches-where_all base d) ∙ h) refl)

-- ===== src/Evidence/Gate.antt =====
-- What the gate lets pass: artifacts whose evidence stands in the transcript and in their sources.
use ai_buddy_app_agent_baken.Base.{
  ℕ, suc, ◌+◌, ◌≡◌, ◌⊎◌, refl, sym, subst, ◌∙◌, Bool, Bool-cases, Option-cases, true, false, not,
  ◌&&◌, ◌||◌, Option, none, some, inl, inr, List, [], ◌∷◌, ◌++◌, Text, is_empty, is_one_of, strip,
  length, any, All, no-branch, arith, text_eq_refl, codes,
}
use ai_buddy_app_agent_baken.Evidence.{
  ℤ, same_number, is_in, Candidate, CandidateLedger, by_id, add_sequence, add_sequences,
  add_evidence, union_from, evidence_union, Artifact, Verdict, supported, partially_supported,
  unsupported, is_supported, is_note, nothing, is_some, evidence_refusal, persistence_ready,
  sorted_out, apply_invariant_gate,
}

-- A candidate among the sources has the number in its evidence.
pub data Cited (cs : List Candidate) (keys : List Text) (x : ℤ) : Type 0 where
  cited :
      (key : Text) (c : Candidate)
      → is_one_of key keys ≡ true
      → by_id key cs ≡ some c
      → is_in x c.evidence_sequences ≡ true
      → Cited cs keys x

is_in-append : (x : ℤ) (xs ys : List ℤ) → is_in x (xs ++ ys) ≡ (is_in x xs || is_in x ys)
unfolding is_in
is_in-append x [] ys = refl
is_in-append x (y ∷ xs) ys = ground (arith, is_in-append x xs ys)

in_added :
    (x y : ℤ) (known : Bool) (allowed : List ℤ)
    → is_in x (add_sequence known y allowed) ≡ true
    → (is_in x allowed || same_number x y) ≡ true
unfolding is_in
in_added x y true allowed h = ground arith
in_added x y false allowed h =
    let either = sym (is_in-append x allowed (y ∷ [])) ∙ h in ground arith

in_sequences :
    (x : ℤ) (xs allowed : List ℤ)
    → is_in x (add_sequences allowed xs) ≡ true
    → (is_in x allowed || is_in x xs) ≡ true
unfolding is_in add_sequences
in_sequences x [] allowed h = ground arith
in_sequences x (y ∷ xs) allowed h =
    let later = in_sequences x xs (add_sequence (is_in y allowed) y allowed) h in
    let now = in_added x y (is_in y allowed) allowed in ground arith

in_union :
    (x : ℤ) (cs : List Candidate) (keys : List Text) (allowed : List ℤ)
    → is_in x (union_from cs allowed keys) ≡ true
    → (is_in x allowed ≡ true) ⊎ Cited cs keys x
unfolding union_from is_one_of
in_union x cs [] allowed h = inl h
in_union x cs (key ∷ keys) allowed h =
    elim (in_union x cs keys (add_evidence allowed (by_id key cs)) h) [
      | inr (cited k c in_keys found here) ↦ inr (cited k c (rw in_keys (ground arith)) found here)
      | inl early ↦ elim (Option-cases (by_id key cs)) [
        | inl missing ↦ inl (subst (λ o. is_in x (add_evidence allowed o) ≡ true) missing early)
        | inr (c, found) ↦
            let there =
              in_sequences x c.evidence_sequences allowed
                (subst (λ o. is_in x (add_evidence allowed o) ≡ true) found early) in
            elim (Bool-cases (is_in x c.evidence_sequences)) [
              | inl here ↦ inr (cited key c (rw (text_eq_refl key) refl) found here)
              | inr not_here ↦ inl (ground arith)
            ]
      ]
    ]

any-All : {A : Type 0} (p : A → Bool) (xs : List A) → any p xs ≡ false → All (λ x. p x ≡ false) xs
any-All p [] h = tt
any-All p (x ∷ xs) h = (ground arith, any-All p xs (ground arith))

module _ (l : CandidateLedger) (known_sequences : List ℤ) (conversation_id : Text) where
  pub record Grounded (a : Artifact) : Type 0 where
    pub verified : a.verdict ≡ supported
    pub has_evidence : nothing a.evidence_sequences ≡ false
    pub in_transcript : All (λ x. is_in x known_sequences ≡ true) a.evidence_sequences
    pub from_sources : All (Cited l.candidates a.source_candidate_ids) a.evidence_sequences

  All-true :
      (p : ℤ → Bool) (xs : List ℤ) → All (λ x. not (p x) ≡ false) xs → All (λ x. p x ≡ true) xs
  All-true p [] h = tt
  All-true p (x ∷ xs) h = (ground arith, All-true p xs h.1)

  All-Cited :
      (keys : List Text) (xs : List ℤ)
      → All (λ x. is_in x (evidence_union keys l) ≡ true) xs
      → All (Cited l.candidates keys) xs
  unfolding evidence_union is_in
  All-Cited keys [] h = tt
  All-Cited keys (x ∷ xs) h = (
    elim (in_union x l.candidates keys [] h.0) [ inl none_yet ↦ ground arith | inr c ↦ c ],
    All-Cited keys xs h.1,
  )

  is_supported-eq : (v : Verdict) → not (is_supported v) ≡ false → v ≡ supported
  is_supported-eq supported h = refl
  is_supported-eq partially_supported h = ground arith
  is_supported-eq unsupported h = ground arith

  persistence_ready-Grounded :
      (a : Artifact) → persistence_ready l known_sequences conversation_id a ≡ none → Grounded a
  unfolding persistence_ready evidence_refusal
  persistence_ready-Grounded a h =
      let (verdict_ok, rest1) =
        no-branch (not (is_supported a.verdict)) (codes "verifier_not_supported") _ h in
      let (title_ok, rest2) =
        no-branch (is_empty (strip a.title)) (codes "missing_title") _ rest1 in
      let (body_ok, rest3) =
        no-branch (is_note a.kind && is_empty (strip a.body)) (codes "missing_note_body") _ rest2 in
      let (some_evidence, rest4) =
        no-branch (nothing a.evidence_sequences) (codes "missing_evidence") _ rest3 in
      let (all_known, rest5) =
        no-branch (any (λ x. not (is_in x known_sequences)) a.evidence_sequences)
          (codes "fabricated_or_foreign_sequence") _ rest4 in
      let (some_source, rest6) =
        no-branch (nothing a.source_candidate_ids) (codes "missing_source_candidate_ids") _ rest5 in
      let (sources_known, rest7) =
        no-branch (any (λ key. not (is_some (by_id key l.candidates))) a.source_candidate_ids)
          (codes "unknown_source_candidate") _ rest6 in
      let (all_cited, rest8) =
        no-branch
          (any (λ x. not (is_in x (evidence_union a.source_candidate_ids l))) a.evidence_sequences)
          (codes "evidence_not_from_source_candidates") _ rest7 in
      record {
        verified = is_supported-eq a.verdict verdict_ok;
        has_evidence = some_evidence;
        in_transcript =
            All-true (λ x. is_in x known_sequences) a.evidence_sequences
              (any-All _ a.evidence_sequences all_known);
        from_sources = All-Cited a.source_candidate_ids a.evidence_sequences (
            All-true (λ x. is_in x (evidence_union a.source_candidate_ids l)) a.evidence_sequences
              (any-All _ a.evidence_sequences all_cited));
      }

  abbrev pub Sorted : ℕ → List Artifact × List Artifact → Type 0
  Sorted n (accepted, rejected) =
      All Grounded accepted
      × All (λ a. a.verdict ≡ unsupported) rejected
      × (length accepted + length rejected ≡ n)

  sorted_out-Sorted :
      (n : ℕ) (a : Artifact) (o : Option Text) (r : List Artifact × List Artifact)
      → persistence_ready l known_sequences conversation_id a ≡ o
      → Sorted n r
      → Sorted (suc n) (sorted_out l known_sequences conversation_id a o r)
  sorted_out-Sorted n a none (accepted, rejected) ready h =
      ((persistence_ready-Grounded a ready, h.0), h.1, omega (arith, h.2))
  sorted_out-Sorted n a (some reason) (accepted, rejected) ready h =
      (h.0, (refl, h.1), omega (arith, h.2))

  -- Every accepted artifact is verified as supported, has evidence, and each number of its evidence
  -- stands in the transcript and in the evidence of one of its source candidates in the ledger.
  -- The rejected ones count as unsupported, and as many are accepted or rejected as were given.
  pub apply_invariant_gate-Sorted :
      (as' : List Artifact)
      → Sorted (length as') (apply_invariant_gate l known_sequences conversation_id as')
  unfolding apply_invariant_gate
  apply_invariant_gate-Sorted [] = (tt, tt, refl)
  apply_invariant_gate-Sorted (a ∷ as') =
      sorted_out-Sorted (length as') a (persistence_ready l known_sequences conversation_id a)
        (apply_invariant_gate l known_sequences conversation_id as') refl
        (apply_invariant_gate-Sorted as')
